-- ===== src/AdminAuth/Sessions.antt =====
-- How long a session lives.
use x_ui_subpage.Prelude.{
  ℕ, ◌+◌, ◌*◌, ◌/◌, ◌≤◌, ◌<◌, ◌≡◌, refl, ◌∙◌, true, false, String, eq_iff, none, some, [], ◌∷◌,
  ◌++◌, arith, ltb, eqb_iff, session_not_found, Result, ok, err, first, affected, delete_where,
  first-append_none, first-absent, affected-eq-zero_iff, delete_where-All,
}
use x_ui_subpage.AdminAuth.{
  SessionRow, Session, Auth, second, session_ttl, is_session, session_row, insert_session, issued,
  create_session, get_session, delete_session,
}

first_own : (s : SessionRow) → first (is_session s.id) (s ∷ []) ≡ some s
unfolding first
first_own s = ground (arith, eq_iff s.id s.id)

insert_session-eq-ok :
    (s : SessionRow) (t t' : Auth)
    → insert_session none s t ≡ ok t'
    → (affected (is_session s.id) t.sessions ≡ 0) × (t'.sessions ≡ t.sessions ++ s ∷ [])
insert_session-eq-ok s t t' e = ground (arith, eqb_iff (affected (is_session s.id) t.sessions) 0)

-- What a successful insertion stores can be found.
inserted :
    (s : SessionRow) (t t' : Auth)
    → insert_session none s t ≡ ok t'
    → first (is_session s.id) t'.sessions ≡ some s
inserted s t t' e =
    let (free, rows) = insert_session-eq-ok s t t' e in
    rw rows (
      first-append_none (is_session s.id) t.sessions (s ∷ []) (
        first-absent (is_session s.id) t.sessions
          ((affected-eq-zero_iff (is_session s.id) t.sessions).0 free))
      ∙ first_own s)

-- The expiry that the table keeps, in whole seconds.
abbrev pub expiry : ℕ → ℕ
expiry now = (now + session_ttl) / second * second

issued-eq-ok :
    (now : ℕ) (s : SessionRow) (t t' : Auth) (r : Result Auth) (session : Session)
    → issued now s t r ≡ (t', ok session)
    → (r ≡ ok t') × (now + session_ttl ≡ session.expires_at)
issued-eq-ok now s t t' (err x) session e = cc
issued-eq-ok now s t t' (ok t1) session e = ground arith

gone : (id : String) (t : Auth) → first (is_session id) (delete_session none id t).0.sessions ≡ none
unfolding delete_session
gone id t =
    first-absent (is_session id) (delete_where (is_session id) t.sessions)
      (delete_where-All (is_session id) t.sessions)

past : (now t : ℕ) → t < now → ltb t now ≡ true
past now t h = ground arith

not_past : (now t : ℕ) → now ≤ t → ltb t now ≡ false
not_past now t h = ground arith

-- When the engine does not fail, a session that was created is valid up to and including its expiry in whole seconds, which is the
-- creation time plus 12 hours, rounded down: until then a lookup gives its user and its CSRF token.
-- A lookup after that reports that there is no session, and removes it: so does every later lookup,
-- at whatever time.
pub create_session-get_session :
    (now later later' : ℕ) (id csrf_token username : String) (t t' : Auth) (session : Session)
    → create_session none now (ok id) (ok csrf_token) username t ≡ (t', ok session)
    → (expiry now ≤ session.expires_at)
      × (session.expires_at < expiry now + second)
      × (later ≤ expiry now
          → get_session none none later id t' ≡ (
            t',
            ok (record {
              id = id;
              username = username;
              csrf_token = csrf_token;
              expires_at = expiry now;
            }),
          ))
      × (expiry now < later
          → ((get_session none none later id t').1 ≡ err session_not_found)
            × ((get_session none none later' id (get_session none none later id t').0).1
                ≡ err session_not_found))
unfolding create_session get_session
create_session-get_session now later later' id csrf_token username t t' session e =
    let s = session_row id username csrf_token now in
    let (stored, until) = issued-eq-ok now s t t' (insert_session none s t) session e in
    let found = inserted s t t' stored in
    (
      omega (arith, until),
      omega (arith, until),
      (λ valid. rw (found, not_past later (expiry now) valid) refl),
      (λ over. (
        rw (found, past later (expiry now) over) refl,
        rw (found, past later (expiry now) over, gone id t') refl,
      )),
    )
