-- ===== src/Users/Assigned.antt =====
-- The assignments of a user: what the query returns, what one insertion adds, and their ids.
use x_ui_subpage.Prelude.{
  ℕ, suc, ◌<◌, ◌≡◌, ◌≢◌, ap, sym, subst, ◌∙◌, ◌↔◌, ◌⊎◌, inl, inr, Bool, none, List, [], ◌∷◌, ◌++◌,
  eqb, eqb_iff, leb, arith, Bool-cases, ok, ok-injective, select, In, here, there, In-append,
  In-left, In-right, select-In, In-select,
}
use x_ui_subpage.Users.{UserInbound, Desired, Accounts, insert_ordered, ordered, inbounds}
use x_ui_subpage.Users.SetInbounds.{assignment_of, insert_assigned}

-- No two assignments share an id, and all ids have been handed out.
pub record IsKeyed (t : Accounts) : Type 0 where
  pub distinct : (r s : UserInbound) → In r t.assigned → In s t.assigned → r.id ≡ s.id → r ≡ s
  pub below : (r : UserInbound) → In r t.assigned → r.id < t.next_assigned

insert_ordered-In :
    (x r : UserInbound) (rows : List UserInbound)
    → In x (insert_ordered r rows)
    → (x ≡ r) ⊎ In x rows
insert_ordered-In x r [] (here e) = inl e
insert_ordered-In x r [] (there m) = elim m [ ]
insert_ordered-In x r (s ∷ rows) m = elim (Bool-cases (leb r.inbound_id s.inbound_id)) [
  | inl le ↦ elim (rw le at m) [ here e ↦ inl e | there m' ↦ inr m' ]
  | inr gt ↦ elim (rw gt at m) [
    | here e ↦ inr (here e)
    | there m' ↦ elim (insert_ordered-In x r rows m') [ inl e ↦ inl e | inr old ↦ inr (there old) ]
  ]
]

In-insert_ordered :
    (x r : UserInbound) (rows : List UserInbound)
    → (x ≡ r) ⊎ In x rows
    → In x (insert_ordered r rows)
In-insert_ordered x r [] (inl e) = here e
In-insert_ordered x r [] (inr m) = elim m [ ]
In-insert_ordered x r (s ∷ rows) m = elim (Bool-cases (leb r.inbound_id s.inbound_id)) [
  | inl le ↦ rw le (elim m [ inl e ↦ here e | inr old ↦ there old ])
  | inr gt ↦ rw gt (elim m [
    | inl e ↦ there (In-insert_ordered x r rows (inl e))
    | inr (here e) ↦ here e
    | inr (there old) ↦ there (In-insert_ordered x r rows (inr old))
  ])
]

ordered-In : (x : UserInbound) (rows : List UserInbound) → In x (ordered rows) ↔ In x rows
unfolding ordered
ordered-In x [] = ((λ m. m), (λ m. m))
ordered-In x (r ∷ rows) = (
  (λ m. elim (insert_ordered-In x r (ordered rows) m) [
    | inl e ↦ here e
    | inr old ↦ there ((ordered-In x rows).0 old)
  ]),
  (λ m. elim m [
    | here e ↦ In-insert_ordered x r (ordered rows) (inl e)
    | there old ↦ In-insert_ordered x r (ordered rows) (inr ((ordered-In x rows).1 old))
  ]),
)

-- The rows that the query returns are the user's.
pub inbounds-In :
    (user_id : ℕ) (t : Accounts) (current : List UserInbound) (x : UserInbound)
    → inbounds none user_id t ≡ ok current
    → In x current ↔ (In x t.assigned × (x.user_id ≡ user_id))
unfolding inbounds
inbounds-In user_id t current x e =
    let mine : UserInbound → Bool = λ r. eqb r.user_id user_id in
    let own : current ≡ ordered (select mine t.assigned) = sym (ok-injective e) in
    (
      (λ m.
          let (old, holds) =
            select-In mine x t.assigned ((ordered-In x (select mine t.assigned)).0 (rw own at m)) in
          (old, (eqb_iff x.user_id user_id).0 holds)),
      (λ (old, same). rw own (
          (ordered-In x (select mine t.assigned)).1
            (In-select mine x t.assigned old ((eqb_iff x.user_id user_id).1 same)))),
    )

pub insert_assigned-eq-ok :
    (now user_id : ℕ) (d : Desired) (t t' : Accounts) (row : UserInbound)
    → insert_assigned now user_id d t ≡ ok (t', row)
    → (row ≡ assignment_of t.next_assigned now user_id d)
      × (t'.assigned ≡ t.assigned ++ row ∷ [])
      × (t'.next_assigned ≡ suc t.next_assigned)
unfolding insert_assigned
insert_assigned-eq-ok now user_id d t t' row e = ground arith

pub insert_assigned-In :
    (now user_id : ℕ) (d : Desired) (t t' : Accounts) (row r : UserInbound)
    → insert_assigned now user_id d t ≡ ok (t', row)
    → In r t'.assigned ↔ (In r t.assigned ⊎ (r ≡ row))
insert_assigned-In now user_id d t t' row r e =
    let (_, rows, _) = insert_assigned-eq-ok now user_id d t t' row e in
    (
      (λ m. elim (In-append r t.assigned (row ∷ []) (subst (In r) rows m)) [
        | inl old ↦ inl old
        | inr (here same) ↦ inr same
        | inr (there m') ↦ elim m' [ ]
      ]),
      (λ m. subst (In r) (sym rows) (elim m [
        | inl old ↦ In-left r t.assigned (row ∷ []) old
        | inr same ↦ In-right r t.assigned (row ∷ []) (here same)
      ])),
    )

not_new :
    (t : Accounts) (r s row : UserInbound)
    → IsKeyed t
    → In r t.assigned
    → row.id ≡ t.next_assigned
    → s ≡ row
    → r.id ≢ s.id
not_new t r s row keyed old fresh new same =
    let bound = keyed.below r old in
    let at_s : s.id ≡ row.id = ap (λ (x : UserInbound). x.id) new in
    omega (arith, bound, at_s, fresh, same)

pub insert_assigned-IsKeyed :
    (now user_id : ℕ) (d : Desired) (t t' : Accounts) (row : UserInbound)
    → insert_assigned now user_id d t ≡ ok (t', row)
    → IsKeyed t
    → IsKeyed t'
insert_assigned-IsKeyed now user_id d t t' row e keyed =
    let (what, _, next) = insert_assigned-eq-ok now user_id d t t' row e in
    let fresh : row.id ≡ t.next_assigned = ap (λ (x : UserInbound). x.id) what in
    record {
      distinct = λ r s at_r at_s same.
          elim ((insert_assigned-In now user_id d t t' row r e).0 at_r) [
            | inl old ↦ elim ((insert_assigned-In now user_id d t t' row s e).0 at_s) [
              | inl old' ↦ keyed.distinct r s old old' same
              | inr new ↦ absurd (not_new t r s row keyed old fresh new same)
            ]
            | inr new ↦ elim ((insert_assigned-In now user_id d t t' row s e).0 at_s) [
              | inl old' ↦ absurd (not_new t s r row keyed old' fresh new (sym same))
              | inr new' ↦ new ∙ sym new'
            ]
          ];
      below = λ r at_r. elim ((insert_assigned-In now user_id d t t' row r e).0 at_r) [
        | inl old ↦ let bound = keyed.below r old in omega (arith, bound, next)
        | inr new ↦
            let at_r : r.id ≡ row.id = ap (λ (x : UserInbound). x.id) new in
            omega (arith, at_r, fresh, next)
      ];
    }
