-- ===== src/Admin/Enqueues.antt =====
-- Which jobs the handlers enqueue.
use x_ui_subpage.Prelude.{
  ℕ, ◌≡◌, refl, subst, ◌∙◌, ap, inl, inr, ◌⊎◌, ◌↔◌, eqb, eqb_iff, eqb-eq-false_iff, false,
  Bool-cases, Option, some, List, Error, Result, ok, err, Fault, In,
}
use x_ui_subpage.Sync.Store.{Op, Job, Jobs}
use x_ui_subpage.Users
use x_ui_subpage.Users.{User, UserInbound, Accounts, Desired}
use x_ui_subpage.Users.SetInbounds.{set_inbounds, is_wanted}
use x_ui_subpage.Users.Assigned.{IsKeyed}
use x_ui_subpage.Users.Reconcile.{set_inbounds_reports}
use x_ui_subpage.Xui.Models.{Inbound}
use x_ui_subpage.Admin.{State, Response, to_user, payload_for, enqueue_each}
use x_ui_subpage.Admin.Users.{
  on_row, SetCalls, desired_of, set_on_live, after_set_inbounds, handle_user_set_inbounds,
}
use x_ui_subpage.Admin.Queueing.{quiet, IsJob, Enqueued, enqueue_each-Enqueued}

-- A handler on an existing user that ends on its page found the user.
pub on_row-found :
    (id : ℕ) (next : ℕ → User → State → State × Response) (s s' : State) (r : Result User)
    → on_row id next s r ≡ (s', to_user id)
    → (u : User) × (r ≡ ok u) × (next id u s ≡ (s', to_user id))
on_row-found id next s s' (ok u) e = (u, refl, e)
on_row-found id next s s' (err Error.no_rows) e = cc
on_row-found id next s s' (err Error.not_found) e = cc
on_row-found id next s s' (err Error.duplicate) e = cc
on_row-found id next s s' (err Error.invalid_credentials) e = cc
on_row-found id next s s' (err Error.session_not_found) e = cc
on_row-found id next s s' (err (Error.new m)) e = cc
on_row-found id next s s' (err (Error.wrap c x)) e = cc

-- What a successful change of the assignments enqueues.
set_on_live-found :
    (set : SetCalls) (now later : ℕ → ℕ) (raws : List (Option ℕ)) (id : ℕ) (u : User) (s s' : State)
    (live : Result (List Inbound))
    → set_on_live set (quiet now) (quiet later) raws id u s live ≡ (s', to_user id)
    → (inbounds : List Inbound) × (added : List UserInbound) × (removed : List UserInbound)
      × (t : Jobs) × (set_inbounds set.own set.assign set.unassign set.now id
            (desired_of inbounds raws)
            s.accounts
          ≡ (s'.accounts, ok (added, removed)))
      × Enqueued id Op.assign (payload_for u) added s.jobs t
      × Enqueued id Op.unassign (payload_for u) removed t s'.jobs
set_on_live-found set now later raws id u s s' (err e) h = cc
set_on_live-found set now later raws id u s s' (ok live) h =
    by_outcome
      (set_inbounds set.own set.assign set.unassign set.now id (desired_of live raws) s.accounts)
      refl h
  where
    Outcome : Type 0
    Outcome =
        (inbounds : List Inbound) × (added : List UserInbound) × (removed : List UserInbound)
        × (t : Jobs) × (set_inbounds set.own set.assign set.unassign set.now id
              (desired_of inbounds raws) s.accounts
            ≡ (s'.accounts, ok (added, removed)))
        × Enqueued id Op.assign (payload_for u) added s.jobs t
        × Enqueued id Op.unassign (payload_for u) removed t s'.jobs

    by_outcome :
        (p : Accounts × Result (List UserInbound × List UserInbound))
        → set_inbounds set.own set.assign set.unassign set.now id (desired_of live raws) s.accounts
          ≡ p
        → after_set_inbounds (quiet now) (quiet later) id u s p ≡ (s', to_user id)
        → Outcome
    by_outcome (accounts, err e) q h = cc
    by_outcome (accounts, ok (added, removed)) q h =
        let t1 = (enqueue_each (quiet now) 0 id Op.assign (payload_for u) added s.jobs).0 in
        let same : (after_set_inbounds (quiet now) (quiet later) id u s
              (accounts, ok (added, removed))).0
            ≡ s' =
          ap (λ (x : State × Response). x.0) h in
        (
          live,
          added,
          removed,
          t1,
          q ∙ ap (λ (x : State). (x.accounts, ok (added, removed))) same,
          enqueue_each-Enqueued now 0 id Op.assign (payload_for u) added s.jobs,
          subst (λ (x : State). Enqueued id Op.unassign (payload_for u) removed t1 x.jobs) same
              (enqueue_each-Enqueued later 0 id Op.unassign (payload_for u) removed t1),
        )

-- An assignment that is there no more was removed.
removed-of_gone :
    (id : ℕ) (desired : List Desired) (a : UserInbound)
    {before after removed added : List UserInbound}
    → ((In a before × (In a removed → ⊥)) ⊎ In a added → In a after)
    → (In a removed ↔ ((In a before × (a.user_id ≡ id)) × (is_wanted a.inbound_id desired ≡ false)))
    → In a before
    → (In a after → ⊥)
    → In a removed
removed-of_gone id desired a stays out m gone = elim (Bool-cases (eqb a.user_id id)) [
  | inr other ↦
      absurd (gone (stays (inl (m, λ r. (eqb-eq-false_iff a.user_id id).0 other (out.0 r).0.1))))
  | inl mine ↦ elim (Bool-cases (is_wanted a.inbound_id desired)) [
    | inl want ↦ absurd (gone (stays (inl (m, λ r. let un = (out.0 r).1 in cc))))
    | inr un ↦ out.1 ((m, (eqb_iff a.user_id id).0 mine), un)
  ]
]

-- What a change of the assignments enqueued.
abbrev pub Gains : ℕ → User → State → State → Type 0
Gains id u s s' =
    (a : UserInbound)
    → In a s'.accounts.assigned
    → (In a s.accounts.assigned → ⊥)
    → (j : Job) × In j s'.jobs.rows × IsJob id a.inbound_id Op.assign (payload_for u) j

abbrev pub Losses : ℕ → User → State → State → Type 0
Losses id u s s' =
    (a : UserInbound)
    → In a s.accounts.assigned
    → (In a s'.accounts.assigned → ⊥)
    → (j : Job) × In j s'.jobs.rows × IsJob id a.inbound_id Op.unassign (payload_for u) j

abbrev pub NoOthers : ℕ → User → State → State → Type 0
NoOthers id u s s' =
    (j : Job)
    → In j s'.jobs.rows
    → In j s.jobs.rows
      ⊎ ((a : UserInbound) × In a s'.accounts.assigned
          × (In a s.accounts.assigned → ⊥)
          × IsJob id a.inbound_id Op.assign (payload_for u) j)
      ⊎ ((a : UserInbound) × In a s.accounts.assigned
          × (In a s'.accounts.assigned → ⊥)
          × IsJob id a.inbound_id Op.unassign (payload_for u) j)

changed-jobs :
    (set : SetCalls) (id : ℕ) (u : User) (desired : List Desired) (s s' : State)
    (added removed : List UserInbound) (t : Jobs)
    → IsKeyed s.accounts
    → set_inbounds set.own set.assign set.unassign set.now id desired s.accounts
      ≡ (s'.accounts, ok (added, removed))
    → Enqueued id Op.assign (payload_for u) added s.jobs t
    → Enqueued id Op.unassign (payload_for u) removed t s'.jobs
    → Gains id u s s' × Losses id u s s' × NoOthers id u s s'
changed-jobs set id u desired s s' added removed t keyed changed gained lost =
    let reports = λ (a : UserInbound).
      set_inbounds_reports set.own set.assign set.unassign set.now id desired s.accounts s'.accounts
        added removed changed keyed a in
    (
      (λ a m fresh. elim ((reports a).0.0 m) [
        | inl (old, _) ↦ absurd (fresh old)
        | inr new ↦ let (j, m', is) = gained.told a new in (j, lost.old j m', is)
      ]),
      (λ a m gone. lost.told a (removed-of_gone id desired a (reports a).0.1 (reports a).1 m gone)),
      (λ j m. elim (lost.only j m) [
        | inr (a, of_a, is) ↦ inr (
            inr (
              a,
              ((reports a).1.0 of_a).0.0,
              (λ stays. elim ((reports a).0.0 stays) [
                | inl (_, kept) ↦ kept of_a
                | inr new ↦ ((reports a).2 new).2 ((reports a).1.0 of_a).0.0
              ]),
              is,
            ))
        | inl before ↦ elim (gained.only j before) [
          | inl old ↦ inl old
          | inr (a, of_a, is) ↦
              inr (inl (a, (reports a).0.1 (inr of_a), ((reports a).2 of_a).2, is))
        ]
      ]),
    )

-- When the queue does not fail, and before it no two assignments share an id and all ids have been
-- handed out, a change of a user's assignments that ends on the user's page enqueues, with the
-- user's data at the time, a job to assign for each assignment that is new, a job to unassign for
-- each one that is gone, and no others.
pub handle_user_set_inbounds-jobs :
    (fault : Fault) (set : SetCalls) (now later : ℕ → ℕ) (live : Result (List Inbound))
    (raws : List (Option ℕ)) (id : ℕ) (s s' : State)
    → IsKeyed s.accounts
    → handle_user_set_inbounds fault set (quiet now) (quiet later) live (some raws) (some id) s
      ≡ (s', to_user id)
    → (u : User) × (Users.get fault id s.accounts ≡ ok u)
      × (Gains id u s s' × Losses id u s s' × NoOthers id u s s')
unfolding handle_user_set_inbounds
handle_user_set_inbounds-jobs fault set now later live raws id s s' keyed h =
    let (u, found, ran) =
      on_row-found id (λ i u s1. set_on_live set (quiet now) (quiet later) raws i u s1 live) s s'
        (Users.get fault id s.accounts) h in
    let (inbounds, added, removed, t, changed, gained, lost) =
      set_on_live-found set now later raws id u s s' live ran in
    (
      u,
      found,
      changed-jobs set id u (desired_of inbounds raws) s s' added removed t keyed changed gained
          lost,
    )
