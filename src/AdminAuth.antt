-- ===== src/AdminAuth.antt =====
-- internal/adminauth: the admin account, its password and its sessions. Times of calls are
-- nanoseconds; the table keeps seconds.
pub mod Sessions
pub mod Passwords
mod Tests
use x_ui_subpage.Prelude.{
  ℕ, ◌+◌, ◌*◌, ◌/◌, String, Bool, true, false, ◌||◌, Option, none, some, List, [], ◌∷◌, ◌++◌,
  if◌then◌else◌, ltb, eqb, ◌==◌, Error, new, wrap, invalid_credentials, session_not_found, Result,
  ok, err, ◌>>=◌, Fault, first, affected, upsert, delete_where,
}

abbrev pub second : ℕ
second = 1_000_000_000

abbrev pub session_ttl : ℕ
session_ttl = 12 * 3_600 * second

pub record AdminUser : Type 0 where
  pub username : String
  pub password_hash : String
  pub updated_at : ℕ

-- A row of `sessions`.
pub record SessionRow : Type 0 where
  pub id : String
  pub username : String
  pub csrf_token : String
  pub expires_at : ℕ
  pub created_at : ℕ

pub record Session : Type 0 where
  pub id : String
  pub username : String
  pub csrf_token : String
  pub expires_at : ℕ

pub record Auth : Type 0 where
  pub admins : List AdminUser
  pub sessions : List SessionRow

-- golang.org/x/crypto/bcrypt: the hash of a password, and whether a hash is that of a password.
pub record Bcrypt : Type 0 where
  pub generate_from_password : String → Result String
  pub compare_hash_and_password : String → String → Bool

abbrev pub is_admin : String → AdminUser → Bool
is_admin username a = a.username == username

abbrev pub is_session : String → SessionRow → Bool
is_session id s = s.id == id

abbrev pub new_admin : String → String → ℕ → AdminUser
new_admin username hash now = record {
  username = username;
  password_hash = hash;
  updated_at = now / second;
}

abbrev pub rehashed : String → ℕ → AdminUser → AdminUser
rehashed hash now a = record a { password_hash = hash; updated_at = now / second }

abbrev pub store_hash : Fault → ℕ → String → Result String → Auth → Auth × Option Error
store_hash fault now username (err e) t = (t, some (wrap "adminauth: hash password" e))
store_hash (some cause) now username (ok hash) t =
    (t, some (wrap "adminauth: create user" (new cause)))
store_hash none now username (ok hash) t = (
  record t {
    admins = upsert (is_admin username) (rehashed hash now) (new_admin username hash now) t.admins;
  },
  none,
)

unfoldable pub create_user : Bcrypt → Fault → ℕ → String → String → Auth → Auth × Option Error
create_user bcrypt fault now username password t =
    if username == "" || password == ""
    then (t, some (new "adminauth: username and password are required"))
    else store_hash fault now username (bcrypt.generate_from_password password) t

-- The comparison with the dummy hash for an unknown name has no result that is used.
abbrev pub checked : Bcrypt → Fault → String → Option AdminUser → Option Error
checked bcrypt (some cause) password row = some (wrap "adminauth: query user" (new cause))
checked bcrypt none password none = some invalid_credentials
checked bcrypt none password (some a) =
    if bcrypt.compare_hash_and_password a.password_hash password
    then none
    else some invalid_credentials

unfoldable pub verify_password : Bcrypt → Fault → String → String → Auth → Option Error
verify_password bcrypt fault username password t =
    checked bcrypt fault password (first (is_admin username) t.admins)

-- The INSERT INTO sessions, whose primary key is the id.
abbrev pub insert_session : Fault → SessionRow → Auth → Result Auth
insert_session (some cause) s t = err (new cause)
insert_session none s t =
    if eqb (affected (is_session s.id) t.sessions) 0
    then ok (record t { sessions = t.sessions ++ s ∷ [] })
    else err (new "UNIQUE constraint failed: sessions.id")

abbrev pub session_row : String → String → String → ℕ → SessionRow
session_row id username csrf_token now = record {
  id = id;
  username = username;
  csrf_token = csrf_token;
  expires_at = (now + session_ttl) / second;
  created_at = now / second;
}

abbrev pub issued : ℕ → SessionRow → Auth → Result Auth → Auth × Result Session
issued now s t (err e) = (t, err (wrap "adminauth: create session" e))
issued now s t (ok t') = (
  t',
  ok (record {
    id = s.id;
    username = s.username;
    csrf_token = s.csrf_token;
    expires_at = now + session_ttl;
  }),
)

-- The two outcomes of `randomToken`, for the id and for the CSRF token.
unfoldable pub create_session :
    Fault → ℕ → Result String → Result String → String → Auth → Auth × Result Session
create_session fault now (err e) csrf_token username t =
    (t, err (wrap "adminauth: generate session id" e))
create_session fault now (ok id) (err e) username t =
    (t, err (wrap "adminauth: generate csrf token" e))
create_session fault now (ok id) (ok csrf_token) username t =
    let s = session_row id username csrf_token now in issued now s t (insert_session fault s t)

unfoldable pub delete_session : Fault → String → Auth → Auth × Option Error
delete_session (some cause) id t = (t, some (wrap "adminauth: delete session" (new cause)))
delete_session none id t = (record t { sessions = delete_where (is_session id) t.sessions }, none)

abbrev pub looked_up : Fault → Fault → ℕ → String → Auth → Option SessionRow → Auth × Result Session
looked_up (some cause) delete_fault now id t row =
    (t, err (wrap "adminauth: query session" (new cause)))
looked_up none delete_fault now id t none = (t, err session_not_found)
looked_up none delete_fault now id t (some s) =
    if ltb (s.expires_at * second) now
    then ((delete_session delete_fault id t).0, err session_not_found)
    else (
      t,
      ok (record {
        id = s.id;
        username = s.username;
        csrf_token = s.csrf_token;
        expires_at = s.expires_at * second;
      }),
    )

-- The second fault is that of the deletion of an expired session, whose error is dropped.
unfoldable pub get_session : Fault → Fault → ℕ → String → Auth → Auth × Result Session
unfolding delete_session
get_session fault delete_fault now id t =
    looked_up fault delete_fault now id t (first (is_session id) t.sessions)
