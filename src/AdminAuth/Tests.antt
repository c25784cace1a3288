-- ===== src/AdminAuth/Tests.antt =====
-- The theorems on the admin account at concrete tables.
use x_ui_subpage.Prelude.{
  ◌≤◌, ◌<◌, ◌+◌, ◌≡◌, refl, false, ◌==◌, none, some, [], ◌∷◌, if◌then◌else◌, invalid_credentials,
  session_not_found, ok, err, affected,
}
use x_ui_subpage.AdminAuth.{
  Session, Auth, Bcrypt, second, session_ttl, session_row, create_user, verify_password,
  create_session, get_session,
}
use x_ui_subpage.AdminAuth.Sessions.{expiry, create_session-get_session}
use x_ui_subpage.AdminAuth.Passwords.{create_user-verify_password}

-- Hashing that marks the text.
abbrev marking : Bcrypt
marking = record {
  generate_from_password = λ password. ok password;
  compare_hash_and_password = λ hash attempt. hash == attempt;
}

abbrev empty : Auth
empty = record { admins = []; sessions = [] }

create_user-verify_password_example :
    (verify_password marking none "root" "guess"
        (create_user marking none 5 "root" "secret" empty).0
      ≡ (if "secret" == "guess" then none else some invalid_credentials))
    × (("root" == "admin") ≡ false
        → verify_password marking none "admin" "guess"
            (create_user marking none 5 "root" "secret" empty).0
          ≡ verify_password marking none "admin" "guess" empty)
create_user-verify_password_example =
    create_user-verify_password marking 5 "root" "secret" "guess" "secret" empty "admin" refl refl
      refl

abbrev session : Session
session = record { id = "s-1"; username = "root"; csrf_token = "c-1"; expires_at = 7 + session_ttl }

abbrev with_session : Auth
with_session = record empty { sessions = session_row "s-1" "root" "c-1" 7 ∷ [] }

issued_session :
    create_session none 7 (ok "s-1") (ok "c-1") "root" empty ≡ (with_session, ok session)
unfolding create_session affected
issued_session = refl

-- One nanosecond past the expiry in whole seconds.
create_session-get_session_example :
    (expiry 7 ≤ session.expires_at)
    × (session.expires_at < expiry 7 + second)
    × (43_200_000_000_001 ≤ expiry 7
        → get_session none none 43_200_000_000_001 "s-1" with_session ≡ (
          with_session,
          ok (record { id = "s-1"; username = "root"; csrf_token = "c-1"; expires_at = expiry 7 }),
        ))
    × (expiry 7 < 43_200_000_000_001
        → ((get_session none none 43_200_000_000_001 "s-1" with_session).1 ≡ err session_not_found)
          × ((get_session none none 8 "s-1"
                (get_session none none 43_200_000_000_001 "s-1" with_session).0).1
              ≡ err session_not_found))
create_session-get_session_example =
    create_session-get_session 7 43_200_000_000_001 8 "s-1" "c-1" "root" empty with_session session
      issued_session
