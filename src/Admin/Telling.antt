-- ===== src/Admin/Telling.antt =====
-- Edits of an account that the panel is told of.
use x_ui_subpage.Prelude.{
  ℕ, ◌≡◌, refl, sym, subst, ◌∙◌, ap, inl, inr, ◌⊎◌, ◌≢◌, eqb_iff, Bool, not, Option, none, some,
  Error, Result, ok, In, arith, first, affected, update_where,
}
use x_ui_subpage.Sync.Store.{Op, Job, Jobs}
use x_ui_subpage.Users
use x_ui_subpage.Users.{User, UserInbound, Accounts, is_user, edited, update_users}
use x_ui_subpage.Users.Edits.{first-update_where_self}
use x_ui_subpage.Admin.{State, Response, to_user, payload_for}
use x_ui_subpage.Admin.Users.{after_toggle, handle_user_toggle}
use x_ui_subpage.Admin.Enqueues.{on_row-found}
use x_ui_subpage.Admin.Queueing.{quiet, IsJob, Told, enqueue_update-Told}

-- For each assignment of the user a job to update the client to the account, and no others.
abbrev pub Tells : ℕ → User → State → State → Type 0
Tells id w s s' =
    ((a : UserInbound)
      → In a s'.accounts.assigned
      → a.user_id ≡ id
      → (j : Job) × In j s'.jobs.rows × IsJob id a.inbound_id Op.update (payload_for w) j)
    × ((j : Job)
        → In j s'.jobs.rows
        → In j s.jobs.rows
          ⊎ ((a : UserInbound) × In a s'.accounts.assigned
              × (a.user_id ≡ id)
              × IsJob id a.inbound_id Op.update (payload_for w) j))

pub Told-Tells :
    (id : ℕ) (w : User) (s s1 s' : State) → s1.jobs ≡ s.jobs → Told id w s1 s' → Tells id w s s'
Told-Tells id w s s1 s' same told = (
  (λ a m mine. told.each a (subst (λ (t : Accounts). In a t.assigned) told.accounts_stay m) mine),
  (λ j m. elim (told.only j m) [
    | inl old ↦ inl (subst (λ (t : Jobs). In j t.rows) same old)
    | inr (a, of_a, mine, is) ↦
        inr (a, subst (λ (t : Accounts). In a t.assigned) (sym told.accounts_stay) of_a, mine, is)
  ]),
)

set_enabled-get :
    (now id : ℕ) (enabled : Bool) (t t' : Accounts)
    → Users.set_enabled none now id enabled t ≡ (t', none)
    → (v : User) × (Users.get none id t ≡ ok v)
      × (Users.get none id t' ≡ ok (record v { enabled = enabled; updated_at = now }))
unfolding Users.set_enabled Users.get
set_enabled-get now id enabled t t' e =
    let stamp : User → User = λ v. record v { enabled = enabled; updated_at = now } in
    let (known, users) = changed t' e in
    let (v, old, new) = first-update_where_self id stamp t.users (λ _. refl) known in
    (v, rw old refl, ap (Users.scan_one none) (ap (first (is_user id)) users ∙ new))
  where
    changed :
        (t' : Accounts)
        → update_users id (λ v. record v { enabled = enabled; updated_at = now }) t ≡ (t', none)
        → (affected (is_user id) t.users ≢ 0)
          × (t'.users
              ≡ update_where
                  (is_user id)
                  (λ v. record v { enabled = enabled; updated_at = now })
                  t.users)
    changed t' e = ground (arith, eqb_iff (affected (is_user id) t.users) 0)

after_toggle-found :
    (now later : ℕ → ℕ) (id : ℕ) (u : User) (s s' : State) (p : Accounts × Option Error)
    → after_toggle (quiet now) (quiet later) id u s p ≡ (s', to_user id)
    → (p ≡ (p.0, none)) × Told id u (record s { accounts = p.0 }) s'
after_toggle-found now later id u s s' (accounts, some e) h = cc
after_toggle-found now later id u s s' (accounts, none) h = (
  refl,
  subst (Told id u (record s { accounts = accounts })) (ap (λ (x : State × Response). x.0) h)
      (enqueue_update-Told later id u (record s { accounts = accounts })),
)

-- When the engine does not fail, a toggle that ends on the user's page inverts the account's flag,
-- and enqueues, for each assignment of the user, a job to update the client to the account as it is
-- then, and no others.
pub handle_user_toggle-jobs :
    (now later : ℕ → ℕ) (id : ℕ) (s s' : State)
    → handle_user_toggle (quiet now) (quiet later) (some id) s ≡ (s', to_user id)
    → (u : User) × (w : User) × (Users.get none id s.accounts ≡ ok u)
      × (Users.get none id s'.accounts ≡ ok w)
      × (w.enabled ≡ not u.enabled)
      × Tells id w s s'
unfolding handle_user_toggle payload_for
handle_user_toggle-jobs now later id s s' h =
    let flip = λ (i : ℕ) (u : User) (s1 : State).
      after_toggle (quiet now) (quiet later) i (record u { enabled = not u.enabled }) s1
        (Users.set_enabled none (now 1) i (not u.enabled) s1.accounts) in
    let (u, found, ran) = on_row-found id flip s s' (Users.get none id s.accounts) h in
    let p = Users.set_enabled none (now 1) id (not u.enabled) s.accounts in
    let (done, told) =
      after_toggle-found now later id (record u { enabled = not u.enabled }) s s' p ran in
    let (v, old, new) = set_enabled-get (now 1) id (not u.enabled) s.accounts p.0 done in
    let same : u ≡ v = same_user found old in
    (
      u,
      record v { enabled = not u.enabled; updated_at = now 1 },
      found,
      ap (Users.get none id) told.accounts_stay ∙ new,
      refl,
      subst (λ (x : User). Tells id (record x { enabled = not u.enabled; updated_at = now 1 }) s s')
          same
          (Told-Tells id (record u { enabled = not u.enabled }) s (record s { accounts = p.0 }) s'
            refl told),
    )
  where
    same_user : {u v : User} {r : Result User} → r ≡ ok u → r ≡ ok v → u ≡ v
    same_user e f = cc
