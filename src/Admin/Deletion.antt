-- ===== src/Admin/Deletion.antt =====
-- The deletion of an account, with everything that hangs on it.
use x_ui_subpage.Prelude.{
  arith, ◌==◌, eq_iff, delete_where-In, In-delete_where, affected, affected-eq-zero_iff, ℕ, ◌≡◌,
  refl, sym, subst, ◌∙◌, ap, inl, inr, ◌⊎◌, ◌≢◌, ◌↔◌, eqb, eqb_iff, String, eq_refl, false,
  Bool-cases, Option, none, some, List, [], ◌∷◌, ◌++◌, Error, not_found, Result, ok, err, In, here,
  first-absent, delete_where, delete_where-All,
}
use x_ui_subpage.Sync.Store.{Op, Job, Jobs}
use x_ui_subpage.Users
use x_ui_subpage.Users.{User, UserInbound, Accounts, is_user}
use x_ui_subpage.Users.Assigned.{inbounds-In}
use x_ui_subpage.Users.Edits.{delete_lem}
use x_ui_subpage.Assignment
use x_ui_subpage.Assignment.Lookups.{resolve-delete_all}
use x_ui_subpage.Routing
use x_ui_subpage.Admin.{State, Response, to_users, payload_for}
use x_ui_subpage.Admin.Users.{enqueue_delete, delete_outcome, delete_assigned, handle_user_delete}
use x_ui_subpage.Admin.Queueing.{quiet, IsJob, enqueue-rows}

-- One job to delete the client where the user has an assignment, and none where the user has none.
abbrev pub DeletesClient : ℕ → User → State → State → Type 0
DeletesClient id u s s' =
    (((a : UserInbound) → In a s.accounts.assigned → a.user_id ≢ id) × (s'.jobs ≡ s.jobs))
    ⊎ ((a : UserInbound) × In a s.accounts.assigned
        × (a.user_id ≡ id)
        × ((j : Job) × (s'.jobs.rows ≡ s.jobs.rows ++ j ∷ [])
            × IsJob id 0 Op.delete (payload_for u) j))

-- A deletion by the token takes the rows of the token, and no others.
rows-others :
    {R : Type 0} (token_of : R → String) (sub_id : String) (rows : List R) (r : R)
    → In r (delete_where (λ x. token_of x == sub_id) rows) ↔ (In r rows × (token_of r ≢ sub_id))
rows-others token_of sub_id rows r = (
  (λ m.
      let (old, miss) = delete_where-In (λ x. token_of x == sub_id) r rows m in
      (old, λ same. ground (arith, miss, same, eq_iff (token_of r) sub_id))),
  (λ (old, other).
      In-delete_where (λ x. token_of x == sub_id) r rows old
        (elim (Bool-cases (token_of r == sub_id)) [
          | inl hit ↦ absurd (other (ground (arith, hit, eq_iff (token_of r) sub_id)))
          | inr miss ↦ miss
        ])),
)

routing-gone :
    (sub_id : String) (db : Routing.Db)
    → Routing.get none sub_id (Routing.delete_all none sub_id db).0 ≡ ok (false, "")
unfolding Routing.get Routing.delete_all
routing-gone sub_id db = ap (Routing.scanned none) (
    first-absent (Routing.is_for sub_id) (delete_where (Routing.is_for sub_id) db.rows)
      (delete_where-All (Routing.is_for sub_id) db.rows))

delete-of_get :
    (id : ℕ) (u : User) (t : Accounts)
    → Users.get none id t ≡ ok u
    → (Users.delete none id t).1 ≡ none
unfolding Users.get Users.delete
delete-of_get id u t found = elim (Bool-cases (eqb (affected (is_user id) t.users) 0)) [
  | inr some_row ↦ rw some_row refl
  | inl no_row ↦
      let absent = first-absent (is_user id) t.users (
        (affected-eq-zero_iff (is_user id) t.users).0
          ((eqb_iff (affected (is_user id) t.users) 0).0 no_row)) in
      let impossible : err not_found ≡ ok u = ap (Users.scan_one none) (sym absent) ∙ found in cc
]

inbounds-total :
    (id : ℕ) (t : Accounts) → (rows : List UserInbound) × (Users.inbounds none id t ≡ ok rows)
unfolding Users.inbounds
inbounds-total id t = (_, refl)

ends :
    (now : ℕ → ℕ) (id : ℕ) (u : User) (s : State) (rows : List UserInbound)
    → Users.get none id s.accounts ≡ ok u
    → delete_assigned (quiet now) id u s (ok rows)
      ≡ ((delete_assigned (quiet now) id u s (ok rows)).0, to_users)
ends now id u s rows found =
    by_outcome (Users.delete none id s.accounts) (delete-of_get id u s.accounts found)
  where
    s1 : State
    s1 = record s {
      jobs = (enqueue_delete (quiet now) id u rows s.jobs).0;
      assignments = (Assignment.delete_all none u.sub_id s.assignments).0;
      routing = (Routing.delete_all none u.sub_id s.routing).0;
    }

    by_outcome :
        (o : Accounts × Option Error)
        → o.1 ≡ none
        → delete_outcome s1 o ≡ ((delete_outcome s1 o).0, to_users)
    by_outcome (accounts, none) e = refl
    by_outcome (accounts, some x) e = cc

deletes-client :
    (now : ℕ → ℕ) (id : ℕ) (u : User) (s s' : State) (rows : List UserInbound)
    → Users.inbounds none id s.accounts ≡ ok rows
    → s'.jobs ≡ (enqueue_delete (quiet now) id u rows s.jobs).0
    → DeletesClient id u s s'
deletes-client now id u s s' [] listed same =
    inl ((λ a m mine. elim ((inbounds-In id s.accounts [] a listed).1 (m, mine)) [ ]), same)
deletes-client now id u s s' (a ∷ rows) listed same =
    let (m, mine) = (inbounds-In id s.accounts (a ∷ rows) a listed).0 (here refl) in
    let (j, added, is) = enqueue-rows (now 2) id 0 Op.delete (payload_for u) s.jobs in
    inr (a, m, mine, (j, ap (λ (t : Jobs). t.rows) same ∙ added, is))

-- What a deletion that ends on the list did: the account and every row of it are gone, and all
-- other accounts and rows are there.
abbrev pub Deleted : ℕ → User → State → State → Type 0
Deleted id u s s' =
    (Users.get none id s'.accounts ≡ err not_found)
    × ((v : User) → v.id ≢ id → In v s'.accounts.users ↔ In v s.accounts.users)
    × ((a : UserInbound)
        → In a s'.accounts.assigned ↔ (In a s.accounts.assigned × (a.user_id ≢ id)))
    × ((r : Assignment.Row)
        → In r s'.assignments.rows ↔ (In r s.assignments.rows × (r.sub_id ≢ u.sub_id)))
    × ((r : Routing.Row) → In r s'.routing.rows ↔ (In r s.routing.rows × (r.sub_id ≢ u.sub_id)))
    × (s'.routing.generator ≡ s.routing.generator)
    × DeletesClient id u s s'

delete_assigned-Deleted :
    (now : ℕ → ℕ) (id : ℕ) (u : User) (s s' : State) (r : Result (List UserInbound))
    → Users.inbounds none id s.accounts ≡ r
    → Users.get none id s.accounts ≡ ok u
    → delete_assigned (quiet now) id u s r ≡ (s', to_users)
    → Deleted id u s s'
      × (s'.assignments ≡ (Assignment.delete_all none u.sub_id s.assignments).0)
      × (s'.routing ≡ (Routing.delete_all none u.sub_id s.routing).0)
unfolding Assignment.delete_all Routing.delete_all
delete_assigned-Deleted now id u s s' (err e) listed found h = cc
delete_assigned-Deleted now id u s s' (ok rows) listed found h =
    by_outcome (Users.delete none id s.accounts) refl h
  where
    s1 : State
    s1 = record s {
      jobs = (enqueue_delete (quiet now) id u rows s.jobs).0;
      assignments = (Assignment.delete_all none u.sub_id s.assignments).0;
      routing = (Routing.delete_all none u.sub_id s.routing).0;
    }

    by_outcome :
        (o : Accounts × Option Error)
        → Users.delete none id s.accounts ≡ o
        → delete_outcome s1 o ≡ (s', to_users)
        → Deleted id u s s'
          × (s'.assignments ≡ (Assignment.delete_all none u.sub_id s.assignments).0)
          × (s'.routing ≡ (Routing.delete_all none u.sub_id s.routing).0)
    by_outcome (accounts, none) deleted h =
        let same : record s1 { accounts = accounts } ≡ s' = ap (λ (x : State × Response). x.0) h in
        let (gone, others, assigned) = delete_lem id s.accounts accounts deleted in
        subst
          (λ x.
            Deleted id u s x
            × (x.assignments ≡ (Assignment.delete_all none u.sub_id s.assignments).0)
            × (x.routing ≡ (Routing.delete_all none u.sub_id s.routing).0))
          same
          (
            (
              gone,
              others,
              assigned,
              rows-others (λ (r : Assignment.Row). r.sub_id) u.sub_id s.assignments.rows,
              rows-others (λ (r : Routing.Row). r.sub_id) u.sub_id s.routing.rows,
              refl,
              deletes-client now id u s (record s1 { accounts = accounts }) rows listed refl,
            ),
            refl,
            refl,
          )
    by_outcome (accounts, some e) deleted h =
        let impossible : none ≡ some e =
          sym (delete-of_get id u s.accounts found)
          ∙ ap (λ (o : Accounts × Option Error). o.1) deleted in
        cc

-- When the engine does not fail, the deletion of a user that exists ends on the list. The account
-- is gone with its assignments, and with the template and routing rows of its token; every other
-- account and row stays. The token has the default template for every known format and no routing
-- profile. The queue has one more job exactly when the user had an assignment: to delete the client
-- with the account's data.
pub handle_user_delete-Deleted :
    (now : ℕ → ℕ) (id : ℕ) (u : User) (s : State) (format client_type : String)
    → Users.get none id s.accounts ≡ ok u
    → Assignment.format_to_client_type Assignment.client_types format ≡ some client_type
    → (s' : State) × (handle_user_delete (quiet now) (some id) s ≡ (s', to_users))
      × Deleted id u s s'
      × (Assignment.resolve none u.sub_id format s'.assignments ≡ ok Assignment.default_profile)
      × (Routing.get none u.sub_id s'.routing ≡ ok (false, ""))
unfolding handle_user_delete
handle_user_delete-Deleted now id u s format client_type found known =
    let (rows, listed) = inbounds-total id s.accounts in
    let s' = (delete_assigned (quiet now) id u s (ok rows)).0 in
    let ended : delete_assigned (quiet now) id u s (ok rows) ≡ (s', to_users) =
      ends now id u s rows found in
    let (deleted, profiles, routes) =
      delete_assigned-Deleted now id u s s' (ok rows) listed found ended in
    (
      s',
      rw (found, listed) ended,
      deleted,
      ap (Assignment.resolve none u.sub_id format) profiles
          ∙ resolve-delete_all u.sub_id u.sub_id format client_type s.assignments known
          ∙ rw (eq_refl u.sub_id) refl,
      ap (Routing.get none u.sub_id) routes ∙ routing-gone u.sub_id s.routing,
    )
