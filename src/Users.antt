-- ===== src/Users.antt =====
-- internal/users: the subscribers' accounts and the inbounds that they are assigned to.
pub mod Identity
pub mod Edits
pub mod SetInbounds
pub mod Assigned
pub mod Loops
pub mod Reconcile
pub mod Completion
pub mod Samples
mod Tests
use x_ui_subpage.Prelude.{
  ℕ, suc, ◌≤◌, String, Bool, true, false, not, ◌&&◌, ◌||◌, Option, none, some, List, [], ◌∷◌, ◌++◌,
  if◌then◌else◌, eqb, leb, ◌==◌, Error, new, wrap, not_found, duplicate, message, contains, Result,
  ok, err, ◌>>=◌, ◌>>◌, Fault, Faults, call, commit, select, first, update_where, affected,
  delete_where,
}
use x_ui_subpage.Prelude.Int.{ℤ}

pub record User : Type 0 where
  pub id : ℕ
  pub username : String
  pub sub_id : String
  pub uuid : String
  pub password : String
  pub method : String
  pub flow : String
  pub enabled : Bool
  pub total_gb : ℤ
  pub expiry_ms : ℤ
  pub notes : String
  pub created_at : ℕ
  pub updated_at : ℕ

pub record UserInbound : Type 0 where
  pub id : ℕ
  pub user_id : ℕ
  pub inbound_id : ℕ
  pub inbound_tag : String
  pub protocol : String
  pub created_at : ℕ
  pub updated_at : ℕ

pub record Desired : Type 0 where
  pub inbound_id : ℕ
  pub inbound_tag : String
  pub protocol : String

-- The tables `users` and `user_inbounds`, each with the next id of its AUTOINCREMENT.
pub record Accounts : Type 0 where
  pub users : List User
  pub next_user : ℕ
  pub assigned : List UserInbound
  pub next_assigned : ℕ

abbrev pub default_method : String
default_method = "chacha20-ietf-poly1305"

unfoldable pub is_unique_constraint : Error → Bool
unfolding message contains
is_unique_constraint e = contains (message e) "UNIQUE constraint failed"

abbrev pub or_else : String → String → String
or_else default s = if s == "" then default else s

-- WHERE id = ?
abbrev pub is_user : ℕ → User → Bool
is_user id u = eqb u.id id

-- username UNIQUE, sub_id UNIQUE
abbrev pub clashes : User → User → Bool
clashes u v = v.username == u.username || v.sub_id == u.sub_id

abbrev pub unique_failed : Error
unique_failed = new "UNIQUE constraint failed: users"

-- The engine's INSERT INTO users.
unfoldable pub insert_user : Fault → User → Accounts → Result (Accounts × ℕ)
insert_user (some cause) u t = err (new cause)
insert_user none u t =
    if eqb (affected (clashes u) t.users) 0
    then ok (record t { users = t.users ++ u ∷ []; next_user = suc t.next_user }, t.next_user)
    else err unique_failed

-- How `Create` and `Update` report an error of the engine.
abbrev pub refused : String → Error → Error
refused context e = if is_unique_constraint e then duplicate else wrap context e

-- The password of a new account; `token` is the outcome of `randomToken`.
abbrev pub password_of : Result String → String → Result String
password_of token password = if password == "" then token else ok password

abbrev pub filled : ℕ → String → String → ℕ → User → User
filled id uuid password now u = record u {
  id = id;
  uuid = or_else uuid u.uuid;
  password = password;
  method = or_else default_method u.method;
  created_at = now;
  updated_at = now;
}

abbrev pub created : Accounts → Result (Accounts × ℕ) → Accounts × Result ℕ
created t (ok (t', id)) = (t', ok id)
created t (err e) = (t, err (refused "users: create" e))

abbrev pub create_with : Fault → ℕ → String → Result String → User → Accounts → Accounts × Result ℕ
create_with fault now uuid (err e) u t = (t, err e)
create_with fault now uuid (ok password) u t =
    created t (insert_user fault (filled t.next_user uuid password now u) t)

-- `uuid` is a fresh `uuid.NewString()`.
unfoldable pub create : Fault → ℕ → String → Result String → User → Accounts → Accounts × Result ℕ
unfolding insert_user
create fault now uuid token u t = create_with fault now uuid (password_of token u.password) u t

abbrev pub scan_one : Fault → Option User → Result User
scan_one (some cause) row = err (wrap "users: get" (new cause))
scan_one none none = err not_found
scan_one none (some u) = ok u

unfoldable pub get : Fault → ℕ → Accounts → Result User
get fault id t = scan_one fault (first (is_user id) t.users)

abbrev pub check_rows_affected : ℕ → Option Error
check_rows_affected n = if eqb n 0 then some not_found else none

-- The engine's UPDATE users … WHERE id = ? with its count of rows.
abbrev pub update_users : ℕ → (User → User) → Accounts → Accounts × Option Error
update_users id f t = (
  record t { users = update_where (is_user id) f t.users },
  check_rows_affected (affected (is_user id) t.users),
)

abbrev pub edited : User → ℕ → User → User
edited u now v = record v {
  username = u.username;
  sub_id = u.sub_id;
  flow = u.flow;
  method = u.method;
  total_gb = u.total_gb;
  expiry_ms = u.expiry_ms;
  notes = u.notes;
  updated_at = now;
}

-- A row other than the updated one that has its new username or sub_id, where a row is updated.
abbrev pub update_clashes : ℕ → User → List User → Bool
update_clashes id u users =
    not (eqb (affected (is_user id) users) 0)
    && not (eqb (affected (λ v. not (is_user id v) && clashes u v) users) 0)

unfoldable pub update : Fault → ℕ → ℕ → User → Accounts → Accounts × Option Error
update (some cause) now id u t = (t, some (refused "users: update" (new cause)))
update none now id u t =
    if update_clashes id u t.users
    then (t, some (refused "users: update" unique_failed))
    else update_users id (edited u now) t

unfoldable pub set_enabled : Fault → ℕ → ℕ → Bool → Accounts → Accounts × Option Error
set_enabled (some cause) now id enabled t = (t, some (wrap "users: set enabled" (new cause)))
set_enabled none now id enabled t =
    update_users id (λ v. record v { enabled = enabled; updated_at = now }) t

abbrev pub reread : Fault → ℕ → Accounts × Option Error → Accounts × Result User
reread fault id (t, some e) = (t, err e)
reread fault id (t, none) = (t, get fault id t)

abbrev pub regenerate_with :
    Fault → Fault → ℕ → String → Result String → ℕ → Accounts → Accounts × Result User
regenerate_with fault get_fault now uuid (err e) id t = (t, err e)
regenerate_with (some cause) get_fault now uuid (ok password) id t =
    (t, err (wrap "users: regenerate credentials" (new cause)))
regenerate_with none get_fault now uuid (ok password) id t =
    reread get_fault id
      (update_users id (λ v. record v { uuid = uuid; password = password; updated_at = now }) t)

-- The first fault is that of the UPDATE, the second one that of the `Get` after it.
unfoldable pub regenerate_credentials :
    Fault → Fault → ℕ → String → Result String → ℕ → Accounts → Accounts × Result User
unfolding get
regenerate_credentials fault get_fault now uuid token id t =
    regenerate_with fault get_fault now uuid token id t

-- The assignments of a deleted user go with it: ON DELETE CASCADE.
unfoldable pub delete : Fault → ℕ → Accounts → Accounts × Option Error
delete (some cause) id t = (t, some (wrap "users: delete" (new cause)))
delete none id t = if eqb (affected (is_user id) t.users) 0 then (t, some not_found) else (
  record t {
    users = delete_where (is_user id) t.users;
    assigned = delete_where (λ r. eqb r.user_id id) t.assigned;
  },
  none,
)

-- ORDER BY inbound_id
abbrev pub insert_ordered : UserInbound → List UserInbound → List UserInbound
insert_ordered r [] = r ∷ []
insert_ordered r (s ∷ rows) =
    let rest = insert_ordered r rows in
    if leb r.inbound_id s.inbound_id then r ∷ s ∷ rows else s ∷ rest

unfoldable pub ordered : List UserInbound → List UserInbound
ordered [] = []
ordered (r ∷ rows) = insert_ordered r (ordered rows)

unfoldable pub inbounds : Fault → ℕ → Accounts → Result (List UserInbound)
unfolding ordered
inbounds (some cause) user_id t = err (wrap "users: inbounds" (new cause))
inbounds none user_id t = ok (ordered (select (λ r. eqb r.user_id user_id) t.assigned))
