-- ===== src/Users/Edits.antt =====
-- What `Update` and `Delete` change, and what they leave.
use x_ui_subpage.Prelude.{
  ℕ, ◌≡◌, ◌≢◌, refl, ap, sym, subst, ◌↔◌, inl, inr, Bool, true, some, none, List, [], ◌∷◌, eqb,
  eqb_iff, eqb-eq-false_iff, arith, Bool-cases, not_found, ok, err, affected, first, update_where,
  delete_where, In, delete_where-In, In-delete_where, delete_where-All, first-absent,
}
use x_ui_subpage.Users.{User, UserInbound, Accounts, is_user, edited, get, scan_one, update, delete}

first-update_where_other :
    (id k : ℕ) (f : User → User) (users : List User)
    → ((v : User) → (f v).id ≡ v.id)
    → k ≢ id
    → first (is_user k) (update_where (is_user id) f users) ≡ first (is_user k) users
unfolding first update_where
first-update_where_other id k f [] same ne = refl
first-update_where_other id k f (v ∷ users) same ne = ground (
  arith,
  first-update_where_other id k f users same ne,
  same v,
  eqb_iff v.id k,
  eqb_iff v.id id,
  eqb_iff (f v).id k,
)

pub first-update_where_self :
    (id : ℕ) (f : User → User) (users : List User)
    → ((v : User) → (f v).id ≡ v.id)
    → affected (is_user id) users ≢ 0
    → (v : User) × (first (is_user id) users ≡ some v)
      × (first (is_user id) (update_where (is_user id) f users) ≡ some (f v))
unfolding first update_where affected
first-update_where_self id f [] same known = absurd (known refl)
first-update_where_self id f (v ∷ users) same known = elim (Bool-cases (is_user id v)) [
  | inl hit ↦
      let hit' : is_user id (f v) ≡ true = rw (same v) hit in (v, rw hit refl, rw (hit, hit') refl)
  | inr miss ↦
      let (w, old, now) = first-update_where_self id f users same (λ z. known (rw miss z)) in
      (w, rw miss old, rw (miss, miss) now)
]

pub update-eq-none :
    (now id : ℕ) (u : User) (t t' : Accounts)
    → update none now id u t ≡ (t', none)
    → (affected (is_user id) t.users ≢ 0)
      × (t'.users ≡ update_where (is_user id) (edited u now) t.users)
unfolding update
update-eq-none now id u t t' e = ground (arith, eqb_iff (affected (is_user id) t.users) 0)

pub delete-eq-none :
    (id : ℕ) (t t' : Accounts)
    → delete none id t ≡ (t', none)
    → (t'.users ≡ delete_where (is_user id) t.users)
      × (t'.assigned ≡ delete_where (λ r. eqb r.user_id id) t.assigned)
unfolding delete
delete-eq-none id t t' e = ground arith

-- When the engine does not fail, an `Update` that succeeds overwrites the account with the id and keeps its uuid, password, enabled
-- flag and creation time; what every other id gives stays.
pub update-get :
    (now id : ℕ) (u : User) (t t' : Accounts)
    → update none now id u t ≡ (t', none)
    → (v : User) × (w : User) × (get none id t ≡ ok v)
      × (get none id t' ≡ ok w)
      × (w.username ≡ u.username)
      × (w.sub_id ≡ u.sub_id)
      × (w.flow ≡ u.flow)
      × (w.method ≡ u.method)
      × (w.total_gb ≡ u.total_gb)
      × (w.expiry_ms ≡ u.expiry_ms)
      × (w.notes ≡ u.notes)
      × (w.uuid ≡ v.uuid)
      × (w.password ≡ v.password)
      × (w.enabled ≡ v.enabled)
      × (w.created_at ≡ v.created_at)
      × ((k : ℕ) → k ≢ id → get none k t' ≡ get none k t)
unfolding update get
update-get now id u t t' e =
    let f = edited u now in
    let (known, users) = update-eq-none now id u t t' e in
    let (v, old, new_row) = first-update_where_self id f t.users (λ v. refl) known in
    (
      v,
      f v,
      ap (scan_one none) old,
      rw users (ap (scan_one none) new_row),
      refl,
      refl,
      refl,
      refl,
      refl,
      refl,
      refl,
      refl,
      refl,
      refl,
      refl,
      (λ k ne.
          rw users (ap (scan_one none) (first-update_where_other id k f t.users (λ v. refl) ne))),
    )

-- When the engine does not fail, a `Delete` that succeeds leaves no account with the id and no
-- assignment of that user; every other account and every assignment of another user stays.
pub delete_lem :
    (id : ℕ) (t t' : Accounts)
    → delete none id t ≡ (t', none)
    → (get none id t' ≡ err not_found)
      × ((v : User) → v.id ≢ id → In v t'.users ↔ In v t.users)
      × ((r : UserInbound) → In r t'.assigned ↔ (In r t.assigned × (r.user_id ≢ id)))
unfolding delete get
delete_lem id t t' e =
    let (users, assigned) = delete-eq-none id t t' e in
    let of_user : UserInbound → Bool = λ r. eqb r.user_id id in
    (
      rw users (
          ap (scan_one none) (
            first-absent (is_user id) (delete_where (is_user id) t.users)
              (delete_where-All (is_user id) t.users))),
      (λ v ne. (
        (λ m. (delete_where-In (is_user id) v t.users (subst (In v) users m)).0),
        (λ m.
            subst (In v) (sym users)
              (In-delete_where (is_user id) v t.users m ((eqb-eq-false_iff v.id id).1 ne))),
      )),
      (λ r. (
        (λ m.
            let (old, ne) = delete_where-In of_user r t.assigned (subst (In r) assigned m) in
            (old, (eqb-eq-false_iff r.user_id id).0 ne)),
        (λ (old, ne).
            subst (In r) (sym assigned)
              (In-delete_where of_user r t.assigned old ((eqb-eq-false_iff r.user_id id).1 ne))),
      )),
    )
