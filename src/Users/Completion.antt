-- ===== src/Users/Completion.antt =====
-- `SetInbounds` succeeds where it should.
use x_ui_subpage.Prelude.{
  ℕ, suc, ◌≡◌, ◌≢◌, refl, ap, sym, ◌∙◌, ◌⊎◌, inl, inr, true, false, none, List, [], ◌∷◌, ◌++◌, eqb,
  eqb_iff, arith, Bool-cases, ok, Faults, affected, All-of_In, In, here, there, In-affected,
  delete_where, affected-eq-zero_iff, select,
}
use x_ui_subpage.Users.{User, UserInbound, Desired, Accounts, is_user, inbounds, ordered}
use x_ui_subpage.Users.SetInbounds.{
  is_current, is_wanted, is_pair, assignment_of, insert_assigned, assign_all, unassign_all,
  reconcile, set_inbounds,
}
use x_ui_subpage.Users.Assigned.{insert_assigned-eq-ok, insert_assigned-In, inbounds-In}

-- No inbound is desired twice.
abbrev pub IsDistinct : List Desired → Type 0
IsDistinct [] = Unit
IsDistinct (d ∷ desired) = (is_wanted d.inbound_id desired ≡ false) × IsDistinct desired

-- The user's assignments are listed as current, or are not among those still desired.
Free : ℕ → List UserInbound → List Desired → Accounts → Type 0
Free user_id current desired t =
    (r : UserInbound)
    → In r t.assigned
    → r.user_id ≡ user_id
    → (is_current r.inbound_id current ≡ true) ⊎ (is_wanted r.inbound_id desired ≡ false)

insert_assigned_succeeds :
    (now user_id : ℕ) (d : Desired) (t : Accounts)
    → affected (is_user user_id) t.users ≢ 0
    → affected (is_pair user_id d.inbound_id) t.assigned ≡ 0
    → (t' : Accounts) × (row : UserInbound) × (insert_assigned now user_id d t ≡ ok (t', row))
      × (t'.users ≡ t.users)
unfolding insert_assigned
insert_assigned_succeeds now user_id d t known free =
    elim (Bool-cases (eqb (affected (is_user user_id) t.users) 0)) [
      | inl none_known ↦
          absurd (known ((eqb_iff (affected (is_user user_id) t.users) 0).0 none_known))
      | inr e ↦ (
        record t {
          assigned = t.assigned ++ assignment_of t.next_assigned now user_id d ∷ [];
          next_assigned = suc t.next_assigned;
        },
        assignment_of t.next_assigned now user_id d,
        rw (e, free) refl,
        refl,
      )
    ]

pair-Free :
    (user_id : ℕ) (current : List UserInbound) (d : Desired) (desired : List Desired) (t : Accounts)
    → Free user_id current (d ∷ desired) t
    → is_current d.inbound_id current ≡ false
    → affected (is_pair user_id d.inbound_id) t.assigned ≡ 0
unfolding Free is_wanted
pair-Free user_id current d desired t free c =
    (affected-eq-zero_iff (is_pair user_id d.inbound_id) t.assigned).1 (
      All-of_In (λ r. is_pair user_id d.inbound_id r ≡ false) t.assigned
        (λ r m. elim (Bool-cases (is_pair user_id d.inbound_id r)) [
          | inr e ↦ e
          | inl e ↦
              let mine : r.user_id ≡ user_id = ground (arith, e, eqb_iff r.user_id user_id) in
              let at : r.inbound_id ≡ d.inbound_id =
                ground (arith, e, eqb_iff r.inbound_id d.inbound_id) in
              elim (free r m mine) [
                | inl listed ↦ cc (c, rw at at listed)
                | inr un ↦ ground (arith, un, (eqb_iff d.inbound_id r.inbound_id).1 (sym at))
              ]
        ]))

Free-later :
    (user_id : ℕ) (current : List UserInbound) (d : Desired) (desired : List Desired) (t : Accounts)
    → Free user_id current (d ∷ desired) t
    → Free user_id current desired t
unfolding Free is_wanted
Free-later user_id current d desired t free r m mine = elim (free r m mine) [
  | inl listed ↦ inl listed
  | inr un ↦ inr (ground (arith, un))
]

Free-insert :
    (now user_id : ℕ) (current : List UserInbound) (d : Desired) (desired : List Desired)
    (t t' : Accounts) (row : UserInbound)
    → insert_assigned now user_id d t ≡ ok (t', row)
    → is_wanted d.inbound_id desired ≡ false
    → Free user_id current (d ∷ desired) t
    → Free user_id current desired t'
unfolding Free
Free-insert now user_id current d desired t t' row inserted once free r m mine =
    elim ((insert_assigned-In now user_id d t t' row r inserted).0 m) [
      | inl old ↦ Free-later user_id current d desired t free r old mine
      | inr fresh ↦
          let (what, _, _) = insert_assigned-eq-ok now user_id d t t' row inserted in
          let at : r.inbound_id ≡ d.inbound_id =
            ap (λ (x : UserInbound). x.inbound_id) (fresh ∙ what) in
          inr (rw at once)
    ]

assign_all_succeeds :
    (faults : Faults) (i now user_id : ℕ) (current : List UserInbound) (desired : List Desired)
    (t : Accounts)
    → ((k : ℕ) → faults k ≡ none)
    → affected (is_user user_id) t.users ≢ 0
    → IsDistinct desired
    → Free user_id current desired t
    → (t' : Accounts) × (added : List UserInbound) × (assign_all faults i now user_id current
          desired t
        ≡ ok (t', added))
unfolding assign_all
assign_all_succeeds faults i now user_id current [] t quiet known distinct free = (t, [], refl)
assign_all_succeeds faults i now user_id current (d ∷ desired) t quiet known (once, distinct) free =
    elim (Bool-cases (is_current d.inbound_id current)) [
      | inl c ↦
          let (t', added, e) =
            assign_all_succeeds faults (suc i) now user_id current desired t quiet known distinct
              (Free-later user_id current d desired t free) in
          (t', added, rw (c, assign_all) e)
      | inr c ↦
          let (t1, row, inserted, same) =
            insert_assigned_succeeds now user_id d t known
              (pair-Free user_id current d desired t free c) in
          let (t', added, e) =
            assign_all_succeeds faults (suc i) now user_id current desired t1 quiet
              (λ z. known (rw same at z)) distinct
              (Free-insert now user_id current d desired t t1 row inserted once free) in
          (t', row ∷ added, rw (c, assign_all, quiet i, inserted, e) refl)
    ]

unassign_all_succeeds :
    (faults : Faults) (i : ℕ) (desired : List Desired) (current : List UserInbound) (t : Accounts)
    → ((k : ℕ) → faults k ≡ none)
    → (t' : Accounts) × (removed : List UserInbound) × (unassign_all faults i desired current t
        ≡ ok (t', removed))
unfolding unassign_all
unassign_all_succeeds faults i desired [] t quiet = (t, [], refl)
unassign_all_succeeds faults i desired (s ∷ current) t quiet =
    elim (Bool-cases (is_wanted s.inbound_id desired)) [
      | inl c ↦
          let (t', removed, e) = unassign_all_succeeds faults (suc i) desired current t quiet in
          (t', removed, rw (c, unassign_all) e)
      | inr c ↦
          let (t', removed, e) =
            unassign_all_succeeds faults (suc i) desired current
              (record t { assigned = delete_where (λ r. eqb r.id s.id) t.assigned }) quiet in
          (t', s ∷ removed, rw (c, unassign_all, quiet i, e) refl)
    ]

is_current_of_In :
    (r : UserInbound) (rows : List UserInbound) → In r rows → is_current r.inbound_id rows ≡ true
unfolding is_current
is_current_of_In r [] m = elim m [ ]
is_current_of_In r (s ∷ rows) (here e) =
    let at : s.inbound_id ≡ r.inbound_id = ap (λ (x : UserInbound). x.inbound_id) (sym e) in
    ground (arith, (eqb_iff s.inbound_id r.inbound_id).1 at)
is_current_of_In r (s ∷ rows) (there m) = ground (arith, is_current_of_In r rows m)

-- When the engine does not fail, `SetInbounds` succeeds for a user that exists and a desired set in
-- which no inbound stands twice, whatever the user's assignments were.
pub set_inbounds_completes :
    (faults assign_faults unassign_faults : Faults) (now user_id : ℕ) (desired : List Desired)
    (t : Accounts) (u : User)
    → ((k : ℕ) → (faults k ≡ none) × (assign_faults k ≡ none) × (unassign_faults k ≡ none))
    → In u t.users
    → u.id ≡ user_id
    → IsDistinct desired
    → (t' : Accounts) × (added : List UserInbound) × (removed : List UserInbound) × (set_inbounds
          faults assign_faults unassign_faults now user_id desired t
        ≡ (t', ok (added, removed)))
unfolding set_inbounds reconcile inbounds Free
set_inbounds_completes faults assign_faults unassign_faults now user_id desired t u quiet known own
      distinct =
    let current = ordered (select (λ r. eqb r.user_id user_id) t.assigned) in
    let (t1, added, e) =
      assign_all_succeeds assign_faults 0 now user_id current desired t (λ k. (quiet k).1)
        (In-affected (is_user user_id) u t.users known ((eqb_iff u.id user_id).1 own)) distinct
        (λ r m mine.
          inl (is_current_of_In r current ((inbounds-In user_id t current r refl).1 (m, mine)))) in
    let (t', removed, e') =
      unassign_all_succeeds unassign_faults 0 desired current t1 (λ k. (quiet k).2) in
    (t', added, removed, rw ((quiet 0).0, (quiet 1).0, e, e', (quiet 2).0) refl)
