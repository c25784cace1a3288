-- ===== src/Users/Loops.antt =====
-- The two loops of `SetInbounds`: what each adds, removes and leaves.
use x_ui_subpage.Prelude.{
  ℕ, suc, ◌≤◌, ◌≡◌, ◌≢◌, refl, ap, sym, subst, ◌∙◌, ◌↔◌, ◌⊎◌, inl, inr, true, false, not, List, [],
  ◌∷◌, eqb, eqb_iff, eqb-eq-false_iff, arith, Bool-cases, ok, bind-eq-ok, ok-injective, Faults,
  call, delete_where, select, All, All-imp, In, here, there, delete_where-In, In-delete_where,
}
use x_ui_subpage.Users.{UserInbound, Desired, Accounts}
use x_ui_subpage.Users.SetInbounds.{
  is_current, is_wanted, insert_assigned, assign_all, unassign_all,
}
use x_ui_subpage.Users.Assigned.{
  IsKeyed, insert_assigned-eq-ok, insert_assigned-In, insert_assigned-IsKeyed,
}

assign_all-cons :
    (faults : Faults) (i now user_id : ℕ) (current : List UserInbound) (d : Desired)
    (desired : List Desired) (t t' : Accounts) (added : List UserInbound)
    → assign_all faults i now user_id current (d ∷ desired) t ≡ ok (t', added)
    → ((is_current d.inbound_id current ≡ true)
        × (assign_all faults (suc i) now user_id current desired t ≡ ok (t', added)))
      ⊎ ((t1 : Accounts) × (row : UserInbound) × (rest : List UserInbound) × (insert_assigned now
              user_id d t
            ≡ ok (t1, row))
          × (assign_all faults (suc i) now user_id current desired t1 ≡ ok (t', rest))
          × (added ≡ row ∷ rest))
unfolding assign_all
assign_all-cons faults i now user_id current d desired t t' added e =
    elim (Bool-cases (is_current d.inbound_id current)) [
      | inl c ↦ inl (c, rw (c, assign_all) at e)
      | inr c ↦
          let e = rw (c, assign_all) at e in
          let (_, _, e) = bind-eq-ok (call "users: assign inbound" (faults i)) _ e in
          let ((t1, row), inserted, e) = bind-eq-ok (insert_assigned now user_id d t) _ e in
          let ((t2, rest), later, e) =
            bind-eq-ok (assign_all faults (suc i) now user_id current desired t1) _ e in
          let both = ok-injective e in
          inr (
            t1,
            row,
            rest,
            inserted,
            later ∙ ap (λ (x : Accounts × List UserInbound). ok (x.0, rest)) both,
            sym (ap (λ (x : Accounts × List UserInbound). x.1) both),
          )
    ]

-- What the first loop leaves.
pub record Assigned (user_id : ℕ) (desired : List Desired) (current : List UserInbound)
    (t t' : Accounts) (added : List UserInbound) : Type 0 where
  pub keyed : IsKeyed t'
  pub rows : (r : UserInbound) → In r t'.assigned ↔ (In r t.assigned ⊎ In r added)
  pub wanted :
      All
        (λ r.
          (r.user_id ≡ user_id)
          × (is_wanted r.inbound_id desired ≡ true)
          × (t.next_assigned ≤ r.id))
        added
  pub next : t.next_assigned ≤ t'.next_assigned
  pub held :
      All
        (λ d.
          (is_current d.inbound_id current ≡ true)
          ⊎ ((r : UserInbound) × In r added
              × (r.user_id ≡ user_id)
              × (r.inbound_id ≡ d.inbound_id)))
        desired

is_wanted_later :
    (id : ℕ) (d : Desired) (desired : List Desired)
    → is_wanted id desired ≡ true
    → is_wanted id (d ∷ desired) ≡ true
unfolding is_wanted
is_wanted_later id d desired e = ground arith

is_wanted_here :
    (id : ℕ) (d : Desired) (desired : List Desired)
    → id ≡ d.inbound_id
    → is_wanted id (d ∷ desired) ≡ true
unfolding is_wanted
is_wanted_here id d desired e = ground (arith, eqb_iff d.inbound_id id)

Assigned-none :
    (user_id : ℕ) (current : List UserInbound) (t t' : Accounts) (added : List UserInbound)
    → ◌≡◌ {A = Accounts × List UserInbound} (t, []) (t', added)
    → IsKeyed t
    → Assigned user_id [] current t t' added
Assigned-none user_id current t t' added both keyed =
    subst (λ (x : Accounts × List UserInbound). Assigned user_id [] current t x.0 x.1) both
      (record {
        keyed = keyed;
        rows = λ r. ((λ m. inl m), (λ m. elim m [ inl old ↦ old | inr new ↦ elim new [ ] ]));
        wanted = tt;
        next = omega arith;
        held = tt;
      })

Assigned-skip :
    (user_id : ℕ) (current : List UserInbound) (d : Desired) (desired : List Desired)
    (t t' : Accounts) (added : List UserInbound)
    → is_current d.inbound_id current ≡ true
    → Assigned user_id desired current t t' added
    → Assigned user_id (d ∷ desired) current t t' added
Assigned-skip user_id current d desired t t' added c ih = record {
  keyed = ih.keyed;
  rows = ih.rows;
  wanted =
      All-imp (λ r (u, w, n). (u, is_wanted_later r.inbound_id d desired w, n)) added ih.wanted;
  next = ih.next;
  held = (inl c, ih.held);
}

Assigned-insert :
    (now user_id : ℕ) (current : List UserInbound) (d : Desired) (desired : List Desired)
    (t t1 t' : Accounts) (row : UserInbound) (rest : List UserInbound)
    → insert_assigned now user_id d t ≡ ok (t1, row)
    → Assigned user_id desired current t1 t' rest
    → Assigned user_id (d ∷ desired) current t t' (row ∷ rest)
Assigned-insert now user_id current d desired t t1 t' row rest inserted ih =
    let (what, _, next) = insert_assigned-eq-ok now user_id d t t1 row inserted in
    let user : row.user_id ≡ user_id = ap (λ (x : UserInbound). x.user_id) what in
    let inbound : row.inbound_id ≡ d.inbound_id = ap (λ (x : UserInbound). x.inbound_id) what in
    let id : row.id ≡ t.next_assigned = ap (λ (x : UserInbound). x.id) what in
    let later = ih.next in
    record {
      keyed = ih.keyed;
      rows = λ r. (
        (λ m. elim ((ih.rows r).0 m) [
          | inl at_t1 ↦ elim ((insert_assigned-In now user_id d t t1 row r inserted).0 at_t1) [
            | inl old ↦ inl old
            | inr new ↦ inr (here new)
          ]
          | inr new ↦ inr (there new)
        ]),
        (λ m. elim m [
          | inl old ↦
              (ih.rows r).1
                (inl ((insert_assigned-In now user_id d t t1 row r inserted).1 (inl old)))
          | inr (here new) ↦
              (ih.rows r).1
                (inl ((insert_assigned-In now user_id d t t1 row r inserted).1 (inr new)))
          | inr (there new) ↦ (ih.rows r).1 (inr new)
        ]),
      );
      wanted = (
        (user, is_wanted_here row.inbound_id d desired inbound, omega (arith, id)),
        All-imp
            (λ r (u, w, n). (u, is_wanted_later r.inbound_id d desired w, omega (arith, n, next)))
            rest ih.wanted,
      );
      next = omega (arith, next, later);
      held = (
        inr (row, here refl, user, inbound),
        All-imp (λ e h. elim h [ inl c ↦ inl c | inr (r, m, u, at) ↦ inr (r, there m, u, at) ])
            desired ih.held,
      );
    }

pub assign_all-Assigned :
    (faults : Faults) (i now user_id : ℕ) (current : List UserInbound) (desired : List Desired)
    (t t' : Accounts) (added : List UserInbound)
    → assign_all faults i now user_id current desired t ≡ ok (t', added)
    → IsKeyed t
    → Assigned user_id desired current t t' added
unfolding assign_all
assign_all-Assigned faults i now user_id current [] t t' added e keyed =
    Assigned-none user_id current t t' added (ok-injective e) keyed
assign_all-Assigned faults i now user_id current (d ∷ desired) t t' added e keyed =
    elim (assign_all-cons faults i now user_id current d desired t t' added e) [
      | inl (c, later) ↦
          Assigned-skip user_id current d desired t t' added c
            (assign_all-Assigned faults (suc i) now user_id current desired t t' added later keyed)
      | inr (t1, row, rest, inserted, later, what) ↦
          subst (Assigned user_id (d ∷ desired) current t t') (sym what) (
            Assigned-insert now user_id current d desired t t1 t' row rest inserted (
              assign_all-Assigned faults (suc i) now user_id current desired t1 t' rest later
                (insert_assigned-IsKeyed now user_id d t t1 row inserted keyed)))
    ]

unassign_all-cons :
    (faults : Faults) (i : ℕ) (desired : List Desired) (s : UserInbound)
    (current : List UserInbound) (t t' : Accounts) (removed : List UserInbound)
    → unassign_all faults i desired (s ∷ current) t ≡ ok (t', removed)
    → ((is_wanted s.inbound_id desired ≡ true)
        × (unassign_all faults (suc i) desired current t ≡ ok (t', removed)))
      ⊎ ((is_wanted s.inbound_id desired ≡ false)
          × (rest : List UserInbound) × (unassign_all faults
                (suc i)
                desired
                current
                (record t { assigned = delete_where (λ r. eqb r.id s.id) t.assigned })
              ≡ ok (t', rest))
          × (removed ≡ s ∷ rest))
unfolding unassign_all
unassign_all-cons faults i desired s current t t' removed e =
    elim (Bool-cases (is_wanted s.inbound_id desired)) [
      | inl c ↦ inl (c, rw (c, unassign_all) at e)
      | inr c ↦
          let e = rw (c, unassign_all) at e in
          let (_, _, e) = bind-eq-ok (call "users: unassign inbound" (faults i)) _ e in
          let ((t1, rest), later, e) =
            bind-eq-ok
              (unassign_all faults (suc i) desired current
                (record t { assigned = delete_where (λ r. eqb r.id s.id) t.assigned }))
              _ e in
          let both = ok-injective e in
          inr (
            c,
            rest,
            later ∙ ap (λ (x : Accounts × List UserInbound). ok (x.0, rest)) both,
            sym (ap (λ (x : Accounts × List UserInbound). x.1) both),
          )
    ]

-- The rows that the second loop removes, and what it leaves.
pub unassign_all-removed :
    (faults : Faults) (i : ℕ) (desired : List Desired) (current : List UserInbound)
    (t t' : Accounts) (removed : List UserInbound)
    → unassign_all faults i desired current t ≡ ok (t', removed)
    → removed ≡ select (λ s. not (is_wanted s.inbound_id desired)) current
unfolding unassign_all select
unassign_all-removed faults i desired [] t t' removed e =
    sym (ap (λ (x : Accounts × List UserInbound). x.1) (ok-injective e))
unassign_all-removed faults i desired (s ∷ current) t t' removed e =
    elim (unassign_all-cons faults i desired s current t t' removed e) [
      | inl (c, later) ↦
          rw c (unassign_all-removed faults (suc i) desired current t t' removed later)
      | inr (c, rest, later, what) ↦ rw c (
          what
          ∙ ap (λ (xs : List UserInbound). s ∷ xs)
              (unassign_all-removed faults (suc i) desired current _ t' rest later))
    ]

pub unassign_all-In :
    (faults : Faults) (i : ℕ) (desired : List Desired) (current : List UserInbound)
    (t t' : Accounts) (removed : List UserInbound) (r : UserInbound)
    → unassign_all faults i desired current t ≡ ok (t', removed)
    → In r t'.assigned ↔ (In r t.assigned × All (λ s. r.id ≢ s.id) removed)
unfolding unassign_all
unassign_all-In faults i desired [] t t' removed r e =
    subst
      (λ (x : Accounts × List UserInbound).
        In r x.0.assigned ↔ (In r t.assigned × All (λ s. r.id ≢ s.id) x.1))
      (ok-injective e) ((λ m. (m, tt)), (λ (m, _). m))
unassign_all-In faults i desired (s ∷ current) t t' removed r e =
    elim (unassign_all-cons faults i desired s current t t' removed e) [
      | inl (_, later) ↦ unassign_all-In faults (suc i) desired current t t' removed r later
      | inr (_, rest, later, what) ↦
          let ih = unassign_all-In faults (suc i) desired current _ t' rest r later in
          subst (λ xs. In r t'.assigned ↔ (In r t.assigned × All (λ k. r.id ≢ k.id) xs)) (sym what)
            (
              (λ m.
                  let (kept, free) = ih.0 m in
                  let (old, ne) = delete_where-In (λ k. eqb k.id s.id) r t.assigned kept in
                  (old, ((eqb-eq-false_iff r.id s.id).0 ne, free))),
              (λ (old, (ne, free)). ih.1 (
                In-delete_where (λ k. eqb k.id s.id) r t.assigned old
                    ((eqb-eq-false_iff r.id s.id).1 ne),
                free,
              )),
            )
    ]
