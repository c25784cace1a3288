-- ===== src/Users/Identity.antt =====
-- What `Create` stores and when it refuses a username or a token, and what `Update` changes.
use x_ui_subpage.Prelude.{
  subst, ok-injective, ℕ, ◌<◌, ◌≡◌, ◌≢◌, refl, ap, sym, ◌∙◌, ◌↔◌, ◌⊎◌, inl, inr, true, false,
  String, ◌==◌, eq_iff, some, none, List, [], ◌∷◌, ◌++◌, eqb_iff, arith, Bool-cases, duplicate,
  Result, ok, err, affected, first, All, All-of_In, In, first-append_none, first-append_some,
  first-absent, affected-In, In-affected, Option-cases,
}
use x_ui_subpage.Users.{
  User, Accounts, is_user, clashes, filled, or_else, default_method, password_of, insert_user,
  created, create_with, create, get, scan_one, is_unique_constraint, unique_failed, refused,
}

-- All ids have been handed out.
abbrev pub AreBelow : Accounts → Type 0
AreBelow t = (v : User) → In v t.users → v.id < t.next_user

unique_is_reported : (context : String) → refused context unique_failed ≡ duplicate
unfolding is_unique_constraint
unique_is_reported context = refl

created-eq-ok :
    (t t' : Accounts) (r : Result (Accounts × ℕ)) (id : ℕ)
    → created t r ≡ (t', ok id)
    → r ≡ ok (t', id)
created-eq-ok t t' (ok (t1, id1)) id e = ground arith
created-eq-ok t t' (err x) id e = cc

insert_user-eq-ok :
    (u : User) (t t' : Accounts) (id : ℕ)
    → insert_user none u t ≡ ok (t', id)
    → (id ≡ t.next_user) × (t'.users ≡ t.users ++ u ∷ [])
unfolding insert_user
insert_user-eq-ok u t t' id e = ground arith

first_own : (u : User) → first (is_user u.id) (u ∷ []) ≡ some u
unfolding first
first_own u = ground (arith, eqb_iff u.id u.id)

first_other : (u : User) (k : ℕ) → k ≢ u.id → first (is_user k) (u ∷ []) ≡ none
unfolding first
first_other u k ne = ground (arith, eqb_iff u.id k)

not_yet : (t : Accounts) → AreBelow t → All (λ v. is_user t.next_user v ≡ false) t.users
not_yet t below =
    All-of_In (λ v. is_user t.next_user v ≡ false) t.users
      (λ v m. let bound = below v m in ground (arith, eqb_iff v.id t.next_user, bound))

first-append_other :
    (u : User) (k : ℕ) (users : List User)
    → k ≢ u.id
    → first (is_user k) (users ++ u ∷ []) ≡ first (is_user k) users
first-append_other u k users ne = elim (Option-cases (first (is_user k) users)) [
  | inl absent ↦
      first-append_none (is_user k) users (u ∷ []) absent ∙ first_other u k ne ∙ sym absent
  | inr (v, found) ↦ first-append_some (is_user k) users (u ∷ []) v found ∙ sym found
]

stored :
    (u : User) (t t' : Accounts) (id : ℕ)
    → AreBelow t
    → u.id ≡ t.next_user
    → insert_user none u t ≡ ok (t', id)
    → (get none id t' ≡ ok u) × ((k : ℕ) → k ≢ id → get none k t' ≡ get none k t)
unfolding get
stored u t t' id below own e =
    let (at, rows) = insert_user-eq-ok u t t' id e in
    let absent : first (is_user u.id) t.users ≡ none =
      first-absent (is_user u.id) t.users (rw own (not_yet t below)) in
    (
      rw (rows, at, ← own)
          (ap (scan_one none)
            (first-append_none (is_user u.id) t.users (u ∷ []) absent ∙ first_own u)),
      (λ k ne.
          rw rows (
            ap (scan_one none)
              (first-append_other u k t.users (λ same. ne (same ∙ own ∙ sym at))))),
    )

-- What an account that was made of a request has, field by field: a given text, or where that is
-- empty a default one.
abbrev pub IsOr : String → String → String → Type 0
IsOr given default s = (given ≢ "" × (s ≡ given)) ⊎ ((given ≡ "") × (s ≡ default))

or_else-IsOr : (given default : String) → IsOr given default (or_else default given)
or_else-IsOr given default = elim (Bool-cases (given == "")) [
  | inl e ↦ inr (ground (arith, e, eq_iff given ""), rw e refl)
  | inr e ↦ inl ((λ same. ground (arith, e, same, eq_iff given "")), rw e refl)
]

-- The password that was given, or the fresh token.
password-Given :
    (token : Result String) (given p : String)
    → password_of token given ≡ ok p
    → (given ≢ "" × (p ≡ given)) ⊎ ((given ≡ "") × (token ≡ ok p))
password-Given token given p e = elim (Bool-cases (given == "")) [
  | inl h ↦ inr (ground (arith, h, eq_iff given ""), rw h at e)
  | inr h ↦ inl ((λ same. ground (arith, h, same, eq_iff given "")), sym (ok-injective (rw h at e)))
]

-- The account of a request: all that it says, with the defaults in place of what it leaves empty.
abbrev pub MadeOf : ℕ → ℕ → String → Result String → User → User → Type 0
MadeOf id now uuid token u w =
    (w.id ≡ id)
    × (w.username ≡ u.username)
    × (w.sub_id ≡ u.sub_id)
    × IsOr u.uuid uuid w.uuid
    × ((u.password ≢ "" × (w.password ≡ u.password))
        ⊎ ((u.password ≡ "") × (token ≡ ok w.password)))
    × IsOr u.method "chacha20-ietf-poly1305" w.method
    × (w.flow ≡ u.flow)
    × (w.enabled ≡ u.enabled)
    × (w.total_gb ≡ u.total_gb)
    × (w.expiry_ms ≡ u.expiry_ms)
    × (w.notes ≡ u.notes)
    × (w.created_at ≡ now)
    × (w.updated_at ≡ now)

filled-MadeOf :
    (id now : ℕ) (uuid : String) (token : Result String) (u : User) (p : String)
    → password_of token u.password ≡ ok p
    → MadeOf id now uuid token u (filled id uuid p now u)
filled-MadeOf id now uuid token u p e = (
  refl,
  refl,
  refl,
  or_else-IsOr u.uuid uuid,
  password-Given token u.password p e,
  or_else-IsOr u.method default_method,
  refl,
  refl,
  refl,
  refl,
  refl,
  refl,
  refl,
)

-- When the engine does not fail, a `Create` that succeeds stores, under the id that it returns, an
-- account with the given name, token of the subscription, flow, flag, limit, expiry and notes, and
-- with the given uuid, password and method, or where one of them is empty with the fresh uuid, the
-- fresh token and "chacha20-ietf-poly1305". All other ids give what they gave. Before it, all ids
-- have been handed out.
pub create-get :
    (now : ℕ) (uuid : String) (token : Result String) (u : User) (t t' : Accounts) (id : ℕ)
    → AreBelow t
    → create none now uuid token u t ≡ (t', ok id)
    → (w : User) × (get none id t' ≡ ok w)
      × MadeOf id now uuid token u w
      × ((k : ℕ) → k ≢ id → get none k t' ≡ get none k t)
unfolding create
create-get now uuid token u t t' id below e = go (password_of token u.password) refl e
  where
    go :
        (password : Result String)
        → password_of token u.password ≡ password
        → create_with none now uuid password u t ≡ (t', ok id)
        → (w : User) × (get none id t' ≡ ok w)
          × MadeOf id now uuid token u w
          × ((k : ℕ) → k ≢ id → get none k t' ≡ get none k t)
    go (err x) q e = cc
    go (ok p) q e =
        let w = filled t.next_user uuid p now u in
        let inserted = created-eq-ok t t' (insert_user none w t) id e in
        let (found, others) = stored w t t' id below refl inserted in
        (
          w,
          found,
          subst (λ n. MadeOf n now uuid token u w) (sym (insert_user-eq-ok w t t' id inserted).0)
              (filled-MadeOf t.next_user now uuid token u p q),
          others,
        )

insert_user_refuses :
    (u : User) (t : Accounts)
    → ((created t (insert_user none u t)).1 ≡ err duplicate) ↔ (affected (clashes u) t.users ≢ 0)
unfolding insert_user
insert_user_refuses u t =
    ground (arith, unique_is_reported "users: create", eqb_iff (affected (clashes u) t.users) 0)

clashes_iff :
    (u v : User) → (clashes u v ≡ true) ↔ ((v.username ≡ u.username) ⊎ (v.sub_id ≡ u.sub_id))
clashes_iff u v = ground (arith, eq_iff v.username u.username, eq_iff v.sub_id u.sub_id)

-- When the engine and the random source do not fail, a `Create` is refused as a duplicate exactly when
-- an account has the username or the token already.
pub create_duplicate :
    (now : ℕ) (uuid token : String) (u : User) (t : Accounts)
    → ((create none now uuid (ok token) u t).1 ≡ err duplicate)
      ↔ ((v : User) × In v t.users × ((v.username ≡ u.username) ⊎ (v.sub_id ≡ u.sub_id)))
unfolding create
create_duplicate now uuid token u t = elim (Bool-cases (u.password == "")) [
  | inl e ↦ rw e (refusal token)
  | inr e ↦ rw e (refusal u.password)
]
  where
    refusal :
        (p : String)
        → ((create_with none now uuid (ok p) u t).1 ≡ err duplicate)
          ↔ ((v : User) × In v t.users × ((v.username ≡ u.username) ⊎ (v.sub_id ≡ u.sub_id)))
    refusal p =
        let w = filled t.next_user uuid p now u in
        (
          (λ e.
              let (v, m, hit) = affected-In (clashes w) t.users ((insert_user_refuses w t).0 e) in
              (v, m, (clashes_iff w v).0 hit)),
          (λ (v, m, same).
              (insert_user_refuses w t).1
                (In-affected (clashes w) v t.users m ((clashes_iff w v).1 same))),
        )
