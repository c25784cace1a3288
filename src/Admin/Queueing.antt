-- ===== src/Admin/Queueing.antt =====
-- What the loops that enqueue jobs leave in the queue.
use x_ui_subpage.Prelude.{
  ℕ, suc, ◌≡◌, refl, sym, subst, inl, inr, ◌⊎◌, none, List, [], ◌∷◌, ◌++◌, Result, ok, err, In,
  here, there, In-append, In-left, In-right,
}
use x_ui_subpage.Sync.Store.{Op, Status, Payload, Job, Jobs, enqueue}
use x_ui_subpage.Users
use x_ui_subpage.Users.{User, UserInbound}
use x_ui_subpage.Users.Assigned.{inbounds-In}
use x_ui_subpage.Admin.{
  State, Calls, payload_for, enqueue_each, updates_for, enqueue_update_for_all_assignments,
}

-- Calls for which the engine does not fail.
abbrev pub quiet : (ℕ → ℕ) → Calls
quiet now = record { fault = λ _. none; now = now }

-- A new job of the user, on the inbound, with the op and the payload.
abbrev pub IsJob : ℕ → ℕ → Op → Payload → Job → Type 0
IsJob user_id inbound_id op payload j =
    (j.user_id ≡ user_id)
    × (j.inbound_id ≡ inbound_id)
    × (j.op ≡ op)
    × (j.status ≡ Status.pending)
    × (j.payload ≡ payload)

-- From one queue to the next: the jobs of the first one, and one for each assignment.
pub record Enqueued (user_id : ℕ) (op : Op) (payload : Payload) (rows : List UserInbound)
    (t t' : Jobs) : Type 0 where
  pub old : (j : Job) → In j t.rows → In j t'.rows
  pub told :
      (a : UserInbound)
      → In a rows
      → (j : Job) × In j t'.rows × IsJob user_id a.inbound_id op payload j
  pub only :
      (j : Job)
      → In j t'.rows
      → In j t.rows ⊎ ((a : UserInbound) × In a rows × IsJob user_id a.inbound_id op payload j)

-- One INSERT: the jobs that were there, and one more.
pub enqueue-rows :
    (now user_id inbound_id : ℕ) (op : Op) (payload : Payload) (t : Jobs)
    → (j : Job) × ((enqueue none now user_id inbound_id op payload t).0.rows ≡ t.rows ++ j ∷ [])
      × IsJob user_id inbound_id op payload j
unfolding enqueue
enqueue-rows now user_id inbound_id op payload t = (_, refl, (refl, refl, refl, refl, refl))

pub enqueue_each-Enqueued :
    (now : ℕ → ℕ) (i user_id : ℕ) (op : Op) (payload : Payload) (rows : List UserInbound) (t : Jobs)
    → Enqueued user_id op payload rows t (enqueue_each (quiet now) i user_id op payload rows t).0
unfolding enqueue_each
enqueue_each-Enqueued now i user_id op payload [] t = record {
  old = λ j m. m;
  told = λ a m. elim m [ ];
  only = λ j m. inl m;
}
enqueue_each-Enqueued now i user_id op payload (a ∷ rows) t =
    let t1 = (enqueue none (now i) user_id a.inbound_id op payload t).0 in
    let rest = enqueue_each-Enqueued now (suc i) user_id op payload rows t1 in
    let (j, same, is) = enqueue-rows (now i) user_id a.inbound_id op payload t in
    let added : In j t1.rows = subst (In j) (sym same) (In-right j t.rows (j ∷ []) (here refl)) in
    record {
      old = λ x m. rest.old x (subst (In x) (sym same) (In-left x t.rows (j ∷ []) m));
      told = λ b m. elim m [
        | here e ↦ (
          j,
          rest.old j added,
          subst (λ (y : UserInbound). IsJob user_id y.inbound_id op payload j) (sym e) is,
        )
        | there m' ↦ rest.told b m'
      ];
      only = λ x m. elim (rest.only x m) [
        | inr (b, of_b, is_b) ↦ inr (b, there of_b, is_b)
        | inl before ↦ elim (In-append x t.rows (j ∷ []) (subst (In x) same before)) [
          | inl old ↦ inl old
          | inr (here e) ↦
              inr (a, here refl, subst (IsJob user_id a.inbound_id op payload) (sym e) is)
          | inr (there m') ↦ elim m' [ ]
        ]
      ];
    }

-- The panel is told of the account on every inbound that it is assigned to.
pub record Told (user_id : ℕ) (u : User) (s s' : State) : Type 0 where
  pub each :
      (a : UserInbound)
      → In a s.accounts.assigned
      → a.user_id ≡ user_id
      → (j : Job) × In j s'.jobs.rows × IsJob user_id a.inbound_id Op.update (payload_for u) j
  pub only :
      (j : Job)
      → In j s'.jobs.rows
      → In j s.jobs.rows
        ⊎ ((a : UserInbound) × In a s.accounts.assigned
            × (a.user_id ≡ user_id)
            × IsJob user_id a.inbound_id Op.update (payload_for u) j)
  pub accounts_stay : s'.accounts ≡ s.accounts

updates_for-Told :
    (now : ℕ → ℕ) (user_id : ℕ) (u : User) (s : State) (r : Result (List UserInbound))
    → Users.inbounds none user_id s.accounts ≡ r
    → Told user_id u s (updates_for (quiet now) user_id u s r).0
unfolding Users.inbounds
updates_for-Told now user_id u s (err e) h = cc
updates_for-Told now user_id u s (ok rows) h =
    let all = enqueue_each-Enqueued now 0 user_id Op.update (payload_for u) rows s.jobs in
    record {
      each = λ a m same. all.told a ((inbounds-In user_id s.accounts rows a h).1 (m, same));
      only = λ j m. elim (all.only j m) [
        | inl old ↦ inl old
        | inr (a, of_a, is) ↦
            let (m', same) = (inbounds-In user_id s.accounts rows a h).0 of_a in
            inr (a, m', same, is)
      ];
      accounts_stay = refl;
    }

pub enqueue_update-Told :
    (now : ℕ → ℕ) (user_id : ℕ) (u : User) (s : State)
    → Told user_id u s (enqueue_update_for_all_assignments none (quiet now) user_id u s).0
unfolding enqueue_update_for_all_assignments
enqueue_update-Told now user_id u s =
    updates_for-Told now user_id u s (Users.inbounds none user_id s.accounts) refl
