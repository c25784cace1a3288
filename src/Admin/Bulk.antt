-- ===== src/Admin/Bulk.antt =====
-- internal/admin/handlers_users.go: the actions on many users at once, and the retry of a job.
use x_ui_subpage.Prelude.{
  ℕ, suc, String, Bool, true, false, Option, none, some, List, [], ◌∷◌, if◌then◌else◌, ◌==◌, Error,
  new, not_found, Result, ok, err, Fault, concat,
}
use x_ui_subpage.Users
use x_ui_subpage.Users.{User, UserInbound, Accounts}
use x_ui_subpage.Sync.Store.{Op, Jobs, retry}
use x_ui_subpage.Admin.{
  State, Response, to_users, to_sync, internal_error, http_error, Calls, payload_for, enqueue_until,
  enqueue_update_for_all_assignments, with_jobs,
}
use x_ui_subpage.Admin.Users.{enqueue_delete, invalid_id}

abbrev pub after_enabled :
    Calls → Calls → ℕ → User → State → Accounts × Option Error → State × Option Error
after_enabled calls loop id u s (accounts, some e) = (record s { accounts = accounts }, some e)
after_enabled calls loop id u s (accounts, none) =
    enqueue_update_for_all_assignments (calls.fault 2) loop id u (record s { accounts = accounts })

abbrev pub bulk_enabled : Calls → Calls → ℕ → User → Bool → State → State × Option Error
bulk_enabled calls loop id u enabled s =
    after_enabled calls loop id (record u { enabled = enabled }) s
      (Users.set_enabled (calls.fault 1) (calls.now 1) id enabled s.accounts)

abbrev pub bulk_reset : Calls → ℕ → User → State → Result (List UserInbound) → State × Option Error
bulk_reset loop id u s (err e) = (s, some e)
bulk_reset loop id u s (ok rows) =
    with_jobs s (enqueue_until loop 0 id Op.reset_traffic (payload_for u) rows s.jobs)

abbrev pub drop_account : Calls → ℕ → State → Option Error → State × Option Error
drop_account calls id s (some e) = (s, some e)
drop_account calls id s none =
    let (accounts, failed) = Users.delete (calls.fault 3) id s.accounts in
    (record s { accounts = accounts }, failed)

abbrev pub bulk_delete : Calls → ℕ → User → State → Result (List UserInbound) → State × Option Error
bulk_delete calls id u s (err e) = (s, some e)
bulk_delete calls id u s (ok rows) =
    let (jobs, failed) = enqueue_delete calls id u rows s.jobs in
    drop_account calls id (record s { jobs = jobs }) failed

abbrev pub bulk_action : Calls → Calls → ℕ → String → User → State → State × Option Error
bulk_action calls loop id action u s =
    if action == "enable"
    then bulk_enabled calls loop id u true s
    else if action == "disable"
    then bulk_enabled calls loop id u false s
    else if action == "reset_traffic"
    then bulk_reset loop id u s (Users.inbounds (calls.fault 1) id s.accounts)
    else if action == "delete"
    then bulk_delete calls id u s (Users.inbounds (calls.fault 1) id s.accounts)
    else (s, some (new (concat ("unknown bulk action " ∷ action ∷ []))))

abbrev pub bulk_found : Calls → Calls → ℕ → String → State → Result User → State × Option Error
bulk_found calls loop id action s (err e) = (s, some e)
bulk_found calls loop id action s (ok u) = bulk_action calls loop id action u s

-- The engine's calls, in order; `loop` are those of the loops that enqueue.
unfoldable pub bulk_apply : Calls → Calls → ℕ → String → State → State × Option Error
unfolding payload_for enqueue_until enqueue_update_for_all_assignments
bulk_apply calls loop id action s =
    bulk_found calls loop id action s (Users.get (calls.fault 0) id s.accounts)

-- The loop over the form's ids, which goes on after a failure.
unfoldable pub bulk_each : (ℕ → Calls) → (ℕ → Calls) → ℕ → String → List (Option ℕ) → State → State
unfolding bulk_apply
bulk_each calls loops i action [] s = s
bulk_each calls loops i action (none ∷ raws) s = bulk_each calls loops (suc i) action raws s
bulk_each calls loops i action (some id ∷ raws) s =
    bulk_each calls loops (suc i) action raws (bulk_apply (calls i) (loops i) id action s).0

-- The form's ids, none where the form cannot be parsed.
unfoldable pub handle_users_bulk :
    (ℕ → Calls) → (ℕ → Calls) → String → Option (List (Option ℕ)) → State → State × Response
unfolding bulk_each
handle_users_bulk calls loops action none s = (s, http_error "invalid form" 400)
handle_users_bulk calls loops action (some raws) s =
    (bulk_each calls loops 0 action raws s, to_users)

abbrev pub after_retry : State → Jobs × Option Error → State × Response
after_retry s (jobs, none) = (record s { jobs = jobs }, to_sync)
after_retry s (jobs, some not_found) = (record s { jobs = jobs }, to_sync)
after_retry s (jobs, some _) = (record s { jobs = jobs }, internal_error)

unfoldable pub handle_sync_retry : Fault → ℕ → Option ℕ → State → State × Response
handle_sync_retry fault now none s = (s, invalid_id)
handle_sync_retry fault now (some id) s = after_retry s (retry fault now id s.jobs)
