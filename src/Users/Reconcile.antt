-- ===== src/Users/Reconcile.antt =====
-- What `SetInbounds` leaves behind: exactly the desired assignments of the user, and everyone else's
-- as they were.
use x_ui_subpage.Prelude.{
  ℕ, ◌≡◌, ◌≢◌, refl, ap, sym, subst, ◌∙◌, ◌↔◌, ◌⊎◌, inl, inr, Bool, true, false, not, some, none,
  List, [], ◌∷◌, eqb, eqb_iff, arith, Bool-cases, Error, ok, err, bind-eq-ok, ok-injective, Fault,
  Faults, call, commit-eq-ok, commit-eq-err, select, All, All-In, All-of_In, In, here, there,
  select-In, In-select,
}
use x_ui_subpage.Users.{UserInbound, Desired, Accounts, inbounds}
use x_ui_subpage.Users.SetInbounds.{
  is_current, is_wanted, assign_all, unassign_all, reconcile, set_inbounds,
}
use x_ui_subpage.Users.Assigned.{IsKeyed, inbounds-In}
use x_ui_subpage.Users.Loops.{Assigned, assign_all-Assigned, unassign_all-removed, unassign_all-In}

inbounds_answers :
    (fault : Fault) (user_id : ℕ) (t : Accounts) (current : List UserInbound)
    → inbounds fault user_id t ≡ ok current
    → inbounds none user_id t ≡ ok current
unfolding inbounds
inbounds_answers (some cause) user_id t current e = cc
inbounds_answers none user_id t current e = e

is_current-In :
    (id : ℕ) (rows : List UserInbound)
    → is_current id rows ≡ true
    → (r : UserInbound) × In r rows × (r.inbound_id ≡ id)
unfolding is_current
is_current-In id [] e = cc
is_current-In id (r ∷ rows) e = elim (Bool-cases (eqb r.inbound_id id)) [
  | inl same ↦ (r, here refl, (eqb_iff r.inbound_id id).0 same)
  | inr other ↦
      let (s, m, at) = is_current-In id rows (rw (other, is_current) at e) in (s, there m, at)
]

is_wanted-In :
    (id : ℕ) (d : Desired) (desired : List Desired)
    → In d desired
    → d.inbound_id ≡ id
    → is_wanted id desired ≡ true
unfolding is_wanted
is_wanted-In id d [] m e = elim m [ ]
is_wanted-In id d (c ∷ desired) (here same) e =
    let at : c.inbound_id ≡ id = ap (λ (x : Desired). x.inbound_id) (sym same) ∙ e in
    ground (arith, (eqb_iff c.inbound_id id).1 at)
is_wanted-In id d (c ∷ desired) (there m) e = ground (arith, is_wanted-In id d desired m e)

-- The user has an assignment to the inbound.
abbrev pub Holds : ℕ → List UserInbound → Desired → Type 0
Holds user_id rows d =
    (r : UserInbound) × In r rows × (r.user_id ≡ user_id) × (r.inbound_id ≡ d.inbound_id)

-- The steps of a `SetInbounds` that succeeds.
record Steps (user_id : ℕ) (desired : List Desired) (t t' : Accounts)
    (added removed : List UserInbound) : Type 0 where
  current : List UserInbound
  middle : Accounts
  own : (x : UserInbound) → In x current ↔ (In x t.assigned × (x.user_id ≡ user_id))
  first_loop : Assigned user_id desired current t middle added
  gone : removed ≡ select (λ s. not (is_wanted s.inbound_id desired)) current
  left :
      (r : UserInbound) → In r t'.assigned ↔ (In r middle.assigned × All (λ s. r.id ≢ s.id) removed)

module _ (faults assign_faults unassign_faults : Faults) (now user_id : ℕ) (desired : List Desired)
    (t t' : Accounts) (added removed : List UserInbound) where
  reconcile-Steps :
      (current : List UserInbound)
      → inbounds none user_id t ≡ ok current
      → reconcile faults assign_faults unassign_faults now user_id desired current t
        ≡ ok (t', (added, removed))
      → IsKeyed t
      → Steps user_id desired t t' added removed
  unfolding reconcile
  reconcile-Steps current queried e keyed =
      let (_, _, e) = bind-eq-ok (call "users: set inbounds begin tx" (faults 1)) _ e in
      let ((t1, xs), assigned, e) =
        bind-eq-ok (assign_all assign_faults 0 now user_id current desired t) _ e in
      let ((t2, ys), unassigned, e) =
        bind-eq-ok (unassign_all unassign_faults 0 desired current t1) _ e in
      let (_, _, e) = bind-eq-ok (call "users: set inbounds commit" (faults 2)) _ e in
      subst
        (λ (x : Accounts × (List UserInbound × List UserInbound)).
          Steps user_id desired t x.0 x.1.0 x.1.1)
        (ok-injective e)
        (record {
          current = current;
          middle = t1;
          own = λ x. inbounds-In user_id t current x queried;
          first_loop =
              assign_all-Assigned assign_faults 0 now user_id current desired t t1 xs assigned
                keyed;
          gone = unassign_all-removed unassign_faults 0 desired current t1 t2 ys unassigned;
          left = λ r. unassign_all-In unassign_faults 0 desired current t1 t2 ys r unassigned;
        })

  set_inbounds-Steps :
      set_inbounds faults assign_faults unassign_faults now user_id desired t
        ≡ (t', ok (added, removed))
      → IsKeyed t
      → Steps user_id desired t t' added removed
  unfolding set_inbounds
  set_inbounds-Steps e keyed =
      let (current, queried, e) =
        bind-eq-ok (inbounds (faults 0) user_id t) _ (commit-eq-ok t _ e) in
      reconcile-Steps current (inbounds_answers (faults 0) user_id t current queried) e keyed

  module _ (steps : Steps user_id desired t t' added removed) (keyed : IsKeyed t) where
    -- A removed row is an old, unwanted one of the user.
    removed-In :
        (s : UserInbound)
        → In s removed
          ↔ ((In s t.assigned × (s.user_id ≡ user_id)) × (is_wanted s.inbound_id desired ≡ false))
    removed-In s =
        let unwanted : UserInbound → Bool = λ k. not (is_wanted k.inbound_id desired) in
        (
          (λ m.
              let (at, un) = select-In unwanted s steps.current (subst (In s) steps.gone m) in
              ((steps.own s).0 at, ground (arith, un))),
          (λ (mine, un).
              subst (In s) (sym steps.gone)
                (In-select unwanted s steps.current ((steps.own s).1 mine) (rw un refl))),
        )

    kept : (r : UserInbound) → In r t.assigned → (In r removed → ⊥) → In r t'.assigned
    kept r old stays = (steps.left r).1 (
      (steps.first_loop.rows r).1 (inl old),
      All-of_In (λ (s : UserInbound). r.id ≢ s.id) removed
          (λ s m same. stays (
            subst (λ x. In x removed) (sym (keyed.distinct r s old ((removed-In s).0 m).0.0 same))
              m)),
    )

    kept_new : (r : UserInbound) → In r added → In r t'.assigned
    kept_new r new = (steps.left r).1 (
      (steps.first_loop.rows r).1 (inr new),
      All-of_In (λ (s : UserInbound). r.id ≢ s.id) removed
          (λ s m same.
            let (_, _, late) = All-In _ r added steps.first_loop.wanted new in
            let early = keyed.below s ((removed-In s).0 m).0.0 in omega (arith, late, early, same)),
    )

    origin :
        (r : UserInbound) → In r t'.assigned → (In r t.assigned × (In r removed → ⊥)) ⊎ In r added
    origin r m =
        let (at_middle, free) = (steps.left r).0 m in
        elim ((steps.first_loop.rows r).0 at_middle) [
          | inl old ↦
              inl
                (old, (λ gone. All-In (λ (s : UserInbound). r.id ≢ s.id) r removed free gone refl))
          | inr new ↦ inr new
        ]

    all_wanted :
        (r : UserInbound)
        → In r t'.assigned
        → r.user_id ≡ user_id
        → is_wanted r.inbound_id desired ≡ true
    all_wanted r m mine = elim (origin r m) [
      | inr new ↦ (All-In _ r added steps.first_loop.wanted new).1
      | inl (old, stays) ↦ elim (Bool-cases (is_wanted r.inbound_id desired)) [
        | inl want ↦ want
        | inr un ↦ absurd (stays ((removed-In r).1 ((old, mine), un)))
      ]
    ]

    each_held : All (Holds user_id t'.assigned) desired
    each_held = All-of_In (Holds user_id t'.assigned) desired (λ d m.
        elim (All-In _ d desired steps.first_loop.held m) [
          | inr (r, new, mine, at) ↦ (r, kept_new r new, mine, at)
          | inl c ↦
              let (r, listed, at) = is_current-In d.inbound_id steps.current c in
              let (old, mine) = (steps.own r).0 listed in
              (
                r,
                kept r old (λ gone.
                    let un = ((removed-In r).0 gone).1 in
                    let want = is_wanted-In r.inbound_id d desired m (sym at) in cc),
                mine,
                at,
              )
        ])

    others_stay : (r : UserInbound) → r.user_id ≢ user_id → In r t'.assigned ↔ In r t.assigned
    others_stay r other = (
      (λ m. elim (origin r m) [
        | inl (old, _) ↦ old
        | inr new ↦ absurd (other (All-In _ r added steps.first_loop.wanted new).0)
      ]),
      (λ old. kept r old (λ gone. other ((removed-In r).0 gone).0.1)),
    )

  -- After a `SetInbounds` that succeeds, each assignment of the user is to a desired inbound, the user
  -- has an assignment to each desired inbound, and the assignments of all other users are what they
  -- were. Before it, no two assignments share an id and all ids have been handed out.
  pub set_inbounds_reconciles :
      set_inbounds faults assign_faults unassign_faults now user_id desired t
        ≡ (t', ok (added, removed))
      → IsKeyed t
      → ((r : UserInbound)
          → In r t'.assigned
          → r.user_id ≡ user_id
          → is_wanted r.inbound_id desired ≡ true)
        × All (Holds user_id t'.assigned) desired
        × ((r : UserInbound) → r.user_id ≢ user_id → In r t'.assigned ↔ In r t.assigned)
  set_inbounds_reconciles e keyed =
      let steps = set_inbounds-Steps e keyed in
      (all_wanted steps keyed, each_held steps keyed, others_stay steps keyed)

  -- The difference that a successful `SetInbounds` reports is the true one: the assignments after it
  -- are those before it without the removed ones, and the added ones. The removed ones were the
  -- user's and are not wanted; the added ones are the user's, wanted, and new.
  pub set_inbounds_reports :
      set_inbounds faults assign_faults unassign_faults now user_id desired t
        ≡ (t', ok (added, removed))
      → IsKeyed t
      → (r : UserInbound)
      → (In r t'.assigned ↔ ((In r t.assigned × (In r removed → ⊥)) ⊎ In r added))
        × (In r removed ↔ (
            (In r t.assigned × (r.user_id ≡ user_id)) × (is_wanted r.inbound_id desired ≡ false)))
        × (In r added
            → (r.user_id ≡ user_id)
              × (is_wanted r.inbound_id desired ≡ true)
              × (In r t.assigned → ⊥))
  set_inbounds_reports e keyed r =
      let steps = set_inbounds-Steps e keyed in
      (
        (
          origin steps keyed r,
          (λ m. elim m [
            | inl (old, stays) ↦ kept steps keyed r old stays
            | inr new ↦ kept_new steps keyed r new
          ]),
        ),
        removed-In steps keyed r,
        (λ new.
            let (mine, want, late) = All-In _ r added steps.first_loop.wanted new in
            (mine, want, (λ old. let early = keyed.below r old in omega (arith, early, late)))),
      )

-- A `SetInbounds` that fails, at whichever call of the engine, leaves the tables as they were.
pub set_inbounds_atomic :
    (faults assign_faults unassign_faults : Faults) (now user_id : ℕ) (desired : List Desired)
    (t : Accounts) (e : Error)
    → (set_inbounds faults assign_faults unassign_faults now user_id desired t).1 ≡ err e
    → (set_inbounds faults assign_faults unassign_faults now user_id desired t).0 ≡ t
unfolding set_inbounds
set_inbounds_atomic faults assign_faults unassign_faults now user_id desired t e h =
    commit-eq-err t _ h
