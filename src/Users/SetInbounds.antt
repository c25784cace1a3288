-- ===== src/Users/SetInbounds.antt =====
-- internal/users: `SetInbounds`, which brings a user's assignments to a desired set and reports the
-- difference.
use x_ui_subpage.Prelude.{
  ℕ, suc, Bool, true, false, ◌&&◌, ◌||◌, List, [], ◌∷◌, ◌++◌, if◌then◌else◌, eqb, new, wrap, Result,
  ok, err, ◌>>=◌, ◌>>◌, Faults, call, commit, affected, delete_where,
}
use x_ui_subpage.Users.{UserInbound, Desired, Accounts, is_user, unique_failed, inbounds}

-- _, exists := currentByID[id]
unfoldable pub is_current : ℕ → List UserInbound → Bool
is_current id [] = false
is_current id (r ∷ rows) = eqb r.inbound_id id || is_current id rows

-- _, wanted := desiredByID[id]
unfoldable pub is_wanted : ℕ → List Desired → Bool
is_wanted id [] = false
is_wanted id (d ∷ desired) = eqb d.inbound_id id || is_wanted id desired

-- UNIQUE(user_id, inbound_id)
abbrev pub is_pair : ℕ → ℕ → UserInbound → Bool
is_pair user_id inbound_id r = eqb r.user_id user_id && eqb r.inbound_id inbound_id

abbrev pub assignment_of : ℕ → ℕ → ℕ → Desired → UserInbound
assignment_of id now user_id d = record {
  id = id;
  user_id = user_id;
  inbound_id = d.inbound_id;
  inbound_tag = d.inbound_tag;
  protocol = d.protocol;
  created_at = now;
  updated_at = now;
}

-- The engine's INSERT INTO user_inbounds, with the checks of the foreign key and of the pair.
unfoldable pub insert_assigned : ℕ → ℕ → Desired → Accounts → Result (Accounts × UserInbound)
insert_assigned now user_id d t =
    if eqb (affected (is_user user_id) t.users) 0
    then err (wrap "users: assign inbound" (new "FOREIGN KEY constraint failed"))
    else if eqb (affected (is_pair user_id d.inbound_id) t.assigned) 0
    then (let row = assignment_of t.next_assigned now user_id d in
        ok (
          record t { assigned = t.assigned ++ row ∷ []; next_assigned = suc t.next_assigned },
          row,
        ))
    else err (wrap "users: assign inbound" unique_failed)

-- The loop over the desired set; `faults i` is for the INSERT of the i-th entry.
unfoldable pub assign_all :
    Faults
    → ℕ
    → ℕ
    → ℕ
    → List UserInbound
    → List Desired
    → Accounts
    → Result (Accounts × List UserInbound)
unfolding insert_assigned is_current
assign_all faults i now user_id current [] t = ok (t, [])
assign_all faults i now user_id current (d ∷ desired) t = elim (is_current d.inbound_id current) [
  | true ↦ assign_all faults (suc i) now user_id current desired t
  | false ↦
      call "users: assign inbound" (faults i)
      >> (insert_assigned now user_id d t >>= λ (t', row).
          (assign_all faults (suc i) now user_id current desired t' >>= λ (t'', added).
          ok (t'', row ∷ added)))
]

-- The loop over the current assignments; `faults i` is for the DELETE of the i-th entry.
unfoldable pub unassign_all :
    Faults → ℕ → List Desired → List UserInbound → Accounts → Result (Accounts × List UserInbound)
unfolding is_wanted
unassign_all faults i desired [] t = ok (t, [])
unassign_all faults i desired (r ∷ current) t = elim (is_wanted r.inbound_id desired) [
  | true ↦ unassign_all faults (suc i) desired current t
  | false ↦
      call "users: unassign inbound" (faults i)
      >> (unassign_all faults (suc i) desired current
            (record t { assigned = delete_where (λ s. eqb s.id r.id) t.assigned })
          >>= λ (t', removed). ok (t', r ∷ removed))
]

-- Engine calls: `faults 0` is for the query, 1 begins the transaction, 2 commits it.
unfoldable pub reconcile :
    Faults
    → Faults
    → Faults
    → ℕ
    → ℕ
    → List Desired
    → List UserInbound
    → Accounts
    → Result (Accounts × (List UserInbound × List UserInbound))
unfolding assign_all unassign_all
reconcile faults assign_faults unassign_faults now user_id desired current t = do
  call "users: set inbounds begin tx" (faults 1)
  (t', added) ← assign_all assign_faults 0 now user_id current desired t
  (t'', removed) ← unassign_all unassign_faults 0 desired current t'
  call "users: set inbounds commit" (faults 2)
  ok (t'', (added, removed))

unfoldable pub set_inbounds :
    Faults
    → Faults
    → Faults
    → ℕ
    → ℕ
    → List Desired
    → Accounts
    → Accounts × Result (List UserInbound × List UserInbound)
unfolding inbounds reconcile
set_inbounds faults assign_faults unassign_faults now user_id desired t = commit t (
    inbounds (faults 0) user_id t >>= λ current.
    reconcile faults assign_faults unassign_faults now user_id desired current t)
