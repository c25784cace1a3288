-- ===== src/AdminAuth/Passwords.antt =====
-- Who can log in.
use x_ui_subpage.Prelude.{
  ℕ, ◌≡◌, refl, ap, true, false, String, ◌==◌, eq_refl, eq_iff, none, some, inl, inr, arith,
  if◌then◌else◌, invalid_credentials, ok, first, first-upsert_self, first-upsert_other,
}
use x_ui_subpage.AdminAuth.{
  AdminUser, Auth, Bcrypt, is_admin, new_admin, rehashed, store_hash, create_user, checked,
  verify_password,
}

admin_other :
    (username other : String) (a : AdminUser)
    → (username == other) ≡ false
    → is_admin username a ≡ true
    → is_admin other a ≡ false
admin_other username other a ne e =
    ground (arith, eq_iff a.username username, eq_iff a.username other, eq_iff username other)

module _ (bcrypt : Bcrypt) (now : ℕ) (username password attempt hash : String) (t : Auth) where
  abbrev stored : Auth
  stored = (store_hash none now username (ok hash) t).0

  verify_own :
      checked bcrypt none attempt (first (is_admin username) stored.admins)
      ≡ (if bcrypt.compare_hash_and_password hash attempt then none else some invalid_credentials)
  verify_own =
      let (a, found, what) =
        first-upsert_self (is_admin username) (rehashed hash now) (new_admin username hash now)
          t.admins (eq_refl username) (λ x e. e) in
      rw found (elim what [
        | inl own ↦
            ap
              (λ (x : AdminUser).
                if bcrypt.compare_hash_and_password x.password_hash attempt
                then none
                else some invalid_credentials)
              own
        | inr (x, _, old) ↦
            ap
              (λ (y : AdminUser).
                if bcrypt.compare_hash_and_password y.password_hash attempt
                then none
                else some invalid_credentials)
              old
      ])

  create_user-stores :
      bcrypt.generate_from_password password ≡ ok hash
      → (username == "") ≡ false
      → (password == "") ≡ false
      → create_user bcrypt none now username password t ≡ (stored, none)
  unfolding create_user
  create_user-stores hashed named given = rw (named, given, hashed) refl

  -- When the engine does not fail: after an account was created with a name and a password that are not empty, a login with that
  -- name succeeds exactly when bcrypt accepts the attempt for the stored hash, and is else refused
  -- with the one error that an unknown name gets too. Logins with other names go as before.
  pub create_user-verify_password :
      (other : String)
      → bcrypt.generate_from_password password ≡ ok hash
      → (username == "") ≡ false
      → (password == "") ≡ false
      → (verify_password bcrypt none username attempt
            (create_user bcrypt none now username password t).0
          ≡ (if bcrypt.compare_hash_and_password hash attempt
              then none
              else some invalid_credentials))
        × ((username == other) ≡ false
            → verify_password bcrypt none other attempt
                (create_user bcrypt none now username password t).0
              ≡ verify_password bcrypt none other attempt t)
  unfolding verify_password
  create_user-verify_password other hashed named given =
      rw (create_user-stores hashed named given) (
        verify_own,
        (λ ne. ap (checked bcrypt none attempt) (
            first-upsert_other (is_admin username) (is_admin other) (rehashed hash now)
              (new_admin username hash now) t.admins ne
              (λ x e. (admin_other username other x ne e, admin_other username other x ne e)))),
      )
