-- ===== src/Admin/Users.antt =====
-- internal/admin/handlers_users.go: the handlers themselves. An `id` is that of the URL, none where
-- it is no number; a negative one names no row, as an unused one.
use x_ui_subpage.Prelude.{
  ℕ, String, Bool, true, not, Option, none, some, List, [], ◌∷◌, if◌then◌else◌, eqb, ◌==◌, Error,
  not_found, duplicate, message, Result, ok, err, Fault, Faults,
}
use x_ui_subpage.Users
use x_ui_subpage.Users.{User, UserInbound, Desired, Accounts}
use x_ui_subpage.Users.SetInbounds.{set_inbounds}
use x_ui_subpage.Sync.Store.{Op, Jobs, enqueue}
use x_ui_subpage.Assignment
use x_ui_subpage.Routing
use x_ui_subpage.Xui.Models.{Inbound}
use x_ui_subpage.Admin.{
  State, Response, to_users, to_user, http_error, status_bad_request, status_conflict,
  status_bad_gateway, http_not_found, internal_error, Calls, payload_for, error_of, enqueue_each,
  enqueue_update_for_all_assignments, Form, Parsers, user_from_form, user_routing_from_form,
  apply_assignments_from_form,
}

abbrev pub invalid_id : Response
invalid_id = http_error "invalid id" status_bad_request

abbrev pub already_in_use : Response
already_in_use = http_error "username or subscription id already in use" status_conflict

-- How a handler answers an error of a store: `ErrNotFound` and `ErrDuplicate` have their own pages.
abbrev pub refusal : Error → Response
refusal not_found = http_not_found
refusal duplicate = already_in_use
refusal _ = internal_error

-- Where `ErrDuplicate` has no page of its own.
abbrev pub plain_refusal : Error → Response
plain_refusal not_found = http_not_found
plain_refusal _ = internal_error

-- A handler on an existing user: the page's id, then the row.
abbrev pub on_row :
    ℕ → (ℕ → User → State → State × Response) → State → Result User → State × Response
on_row id next s (err e) = (s, plain_refusal e)
on_row id next s (ok u) = next id u s

abbrev pub on_user :
    Fault → Option ℕ → (ℕ → User → State → State × Response) → State → State × Response
on_user fault none next s = (s, invalid_id)
on_user fault (some id) next s = on_row id next s (Users.get fault id s.accounts)

-- The profiles and the routing that the form sets for a token; their failures are only logged.
abbrev pub store_form : Calls → Calls → Parsers → Form → Bool × String → String → State → State
store_form calls profiles p form (enabled, b64) sub_id s = record s {
  assignments = (apply_assignments_from_form profiles p form sub_id s.assignments).0;
  routing = (Routing.set (calls.fault 1) (calls.now 1) sub_id enabled b64 s.routing).0;
}

abbrev pub create_refusal : Error → Response
create_refusal duplicate = already_in_use
create_refusal _ = internal_error

abbrev pub after_create :
    Calls
    → Calls
    → Parsers
    → Form
    → Bool × String
    → User
    → State
    → Accounts × Result ℕ
    → State × Response
after_create calls profiles p form routing u s (accounts, err e) =
    (record s { accounts = accounts }, create_refusal e)
after_create calls profiles p form routing u s (accounts, ok id) = (
  store_form calls profiles p form routing u.sub_id (record s { accounts = accounts }),
  to_user id,
)

abbrev pub create_with_form :
    Calls
    → Calls
    → Parsers
    → String
    → Result String
    → Form
    → Result User
    → Result (Bool × String)
    → State
    → State × Response
create_with_form calls profiles p uuid token form (err e) routing s =
    (s, http_error (message e) status_bad_request)
create_with_form calls profiles p uuid token form (ok u) (err e) s =
    (s, http_error (message e) status_bad_request)
create_with_form calls profiles p uuid token form (ok u) (ok routing) s =
    after_create calls profiles p form routing u s (
      Users.create (calls.fault 0) (calls.now 0) uuid token (record u { enabled = true })
        s.accounts)

-- The engine's calls are the INSERT of the user (0) and that of the routing (1); `profiles` are
-- those of the template assignments.
unfoldable pub handle_user_create :
    Calls → Calls → Parsers → String → Result String → Form → State → State × Response
unfolding user_from_form user_routing_from_form apply_assignments_from_form
handle_user_create calls profiles p uuid token form s =
    create_with_form calls profiles p uuid token form (user_from_form p form)
      (user_routing_from_form p form) s

abbrev pub moved : Calls → String → String → State → State
moved calls old_sub_id sub_id s = if old_sub_id == sub_id then s else record s {
  assignments = (Assignment.delete_all (calls.fault 2) old_sub_id s.assignments).0;
  routing = (Routing.delete_all (calls.fault 3) old_sub_id s.routing).0;
}

abbrev pub tell_panel : Fault → Calls → ℕ → State → Result User → State
tell_panel fault loop id s (err e) = s
tell_panel fault loop id s (ok u) = (enqueue_update_for_all_assignments fault loop id u s).0

abbrev pub after_update :
    Calls
    → Calls
    → Calls
    → Parsers
    → Form
    → Bool × String
    → ℕ
    → String
    → User
    → State
    → Accounts × Option Error
    → State × Response
after_update calls profiles loop p form routing id old_sub_id u s (accounts, some e) =
    (record s { accounts = accounts }, refusal e)
after_update calls profiles loop p form routing id old_sub_id u s (accounts, none) = (
  tell_panel (calls.fault 5) loop id
      (store_form calls profiles p form routing u.sub_id
        (moved calls old_sub_id u.sub_id (record s { accounts = accounts })))
      (Users.get (calls.fault 4) id accounts),
  to_user id,
)

abbrev pub update_with_form :
    Calls
    → Calls
    → Calls
    → Parsers
    → Form
    → ℕ
    → Result User
    → Result (Bool × String)
    → State
    → State × Response
update_with_form calls profiles loop p form id (err e) routing s =
    (s, http_error (message e) status_bad_request)
update_with_form calls profiles loop p form id (ok u) (err e) s =
    (s, http_error (message e) status_bad_request)
update_with_form calls profiles loop p form id (ok u) (ok routing) s =
    on_user (calls.fault 6) (some id)
      (λ _ existing s'.
        after_update calls profiles loop p form routing id existing.sub_id u s'
          (Users.update (calls.fault 0) (calls.now 0) id u s'.accounts))
      s

-- The engine's calls: the UPDATE (0), the routing (1), the clean-up after a change of the token (2
-- and 3), the query for the updated row (4) and for its assignments (5), and that for the row before
-- the update (6).
unfoldable pub handle_user_update :
    Calls → Calls → Calls → Parsers → Option ℕ → Form → State → State × Response
unfolding user_from_form user_routing_from_form apply_assignments_from_form
    enqueue_update_for_all_assignments
handle_user_update calls profiles loop p none form s = (s, invalid_id)
handle_user_update calls profiles loop p (some id) form s =
    update_with_form calls profiles loop p form id (user_from_form p form)
      (user_routing_from_form p form) s

abbrev pub delete_outcome : State → Accounts × Option Error → State × Response
delete_outcome s (accounts, none) = (record s { accounts = accounts }, to_users)
delete_outcome s (accounts, some not_found) = (record s { accounts = accounts }, to_users)
delete_outcome s (accounts, some _) = (record s { accounts = accounts }, internal_error)

-- One job that deletes the client on the panel, where the user has an assignment.
abbrev pub enqueue_delete : Calls → ℕ → User → List UserInbound → Jobs → Jobs × Option Error
enqueue_delete calls id u [] t = (t, none)
enqueue_delete calls id u (_ ∷ _) t =
    let (t', added) = enqueue (calls.fault 2) (calls.now 2) id 0 Op.delete (payload_for u) t in
    (t', error_of added)

abbrev pub delete_assigned : Calls → ℕ → User → State → Result (List UserInbound) → State × Response
delete_assigned calls id u s (err e) = (s, internal_error)
delete_assigned calls id u s (ok rows) =
    delete_outcome
      (record s {
        jobs = (enqueue_delete calls id u rows s.jobs).0;
        assignments = (Assignment.delete_all (calls.fault 3) u.sub_id s.assignments).0;
        routing = (Routing.delete_all (calls.fault 4) u.sub_id s.routing).0;
      })
      (Users.delete (calls.fault 5) id s.accounts)

-- The engine's calls, in order: the row, its assignments, the job, the two clean-ups and the DELETE.
unfoldable pub handle_user_delete : Calls → Option ℕ → State → State × Response
unfolding payload_for
handle_user_delete calls id s =
    on_user (calls.fault 0) id
      (λ i u s'. delete_assigned calls i u s' (Users.inbounds (calls.fault 1) i s'.accounts)) s

abbrev pub after_toggle :
    Calls → Calls → ℕ → User → State → Accounts × Option Error → State × Response
after_toggle calls loop id u s (accounts, some e) =
    (record s { accounts = accounts }, internal_error)
after_toggle calls loop id u s (accounts, none) = (
  (enqueue_update_for_all_assignments (calls.fault 2) loop id u
      (record s { accounts = accounts })).0,
  to_user id,
)

unfoldable pub handle_user_toggle : Calls → Calls → Option ℕ → State → State × Response
unfolding enqueue_update_for_all_assignments
handle_user_toggle calls loop id s =
    on_user (calls.fault 0) id
      (λ i u s'.
        after_toggle calls loop i (record u { enabled = not u.enabled }) s'
          (Users.set_enabled (calls.fault 1) (calls.now 1) i (not u.enabled) s'.accounts))
      s

abbrev pub reset_assigned : Calls → ℕ → User → State → Result (List UserInbound) → State × Response
reset_assigned loop id u s (err e) = (s, internal_error)
reset_assigned loop id u s (ok rows) = (
  record s { jobs = (enqueue_each loop 0 id Op.reset_traffic (payload_for u) rows s.jobs).0 },
  to_user id,
)

unfoldable pub handle_user_reset_traffic : Calls → Calls → Option ℕ → State → State × Response
unfolding payload_for enqueue_each
handle_user_reset_traffic calls loop id s =
    on_user (calls.fault 0) id
      (λ i u s'. reset_assigned loop i u s' (Users.inbounds (calls.fault 1) i s'.accounts)) s

abbrev pub after_regenerate : Calls → Calls → ℕ → State → Accounts × Result User → State × Response
after_regenerate calls loop id s (accounts, err e) =
    (record s { accounts = accounts }, plain_refusal e)
after_regenerate calls loop id s (accounts, ok u) = (
  (enqueue_update_for_all_assignments (calls.fault 2) loop id u
      (record s { accounts = accounts })).0,
  to_user id,
)

-- `uuid` and `token` are the fresh credentials.
unfoldable pub handle_user_regenerate_uuid :
    Calls → Calls → String → Result String → Option ℕ → State → State × Response
unfolding enqueue_update_for_all_assignments
handle_user_regenerate_uuid calls loop uuid token none s = (s, invalid_id)
handle_user_regenerate_uuid calls loop uuid token (some id) s = after_regenerate calls loop id s (
    Users.regenerate_credentials (calls.fault 0) (calls.fault 1) (calls.now 0) uuid token id
      s.accounts)

-- ib, ok := byID[n], where the last inbound with the id stands in the map.
unfoldable pub by_id : ℕ → List Inbound → Option Inbound
by_id n [] = none
by_id n (ib ∷ live) = elim (by_id n live) [
  | some later ↦ some later
  | none ↦ if eqb ib.id n then some ib else none
]

-- The loop over the form's values; none is one that is no number.
unfoldable pub desired_of : List Inbound → List (Option ℕ) → List Desired
unfolding by_id
desired_of live [] = []
desired_of live (none ∷ raws) = desired_of live raws
desired_of live (some n ∷ raws) = elim (by_id n live) [
  | none ↦ desired_of live raws
  | some ib ↦
      record { inbound_id = n; inbound_tag = ib.remark; protocol = ib.protocol }
      ∷ desired_of live raws
]

abbrev pub after_set_inbounds :
    Calls
    → Calls
    → ℕ
    → User
    → State
    → Accounts × Result (List UserInbound × List UserInbound)
    → State × Response
after_set_inbounds assigns unassigns id u s (accounts, err e) =
    (record s { accounts = accounts }, internal_error)
after_set_inbounds assigns unassigns id u s (accounts, ok (added, removed)) = (
  record s {
    accounts = accounts;
    jobs =
        (enqueue_each unassigns 0 id Op.unassign (payload_for u) removed
          (enqueue_each assigns 0 id Op.assign (payload_for u) added s.jobs).0).0;
  },
  to_user id,
)

-- The engine's reports on the calls of `SetInbounds`.
pub record SetCalls : Type 0 where
  pub own : Faults
  pub assign : Faults
  pub unassign : Faults
  pub now : ℕ

abbrev pub set_on_live :
    SetCalls
    → Calls
    → Calls
    → List (Option ℕ)
    → ℕ
    → User
    → State
    → Result (List Inbound)
    → State × Response
set_on_live set assigns unassigns raws id u s (err e) =
    (s, http_error "panel unreachable, try again" status_bad_gateway)
set_on_live set assigns unassigns raws id u s (ok live) =
    after_set_inbounds assigns unassigns id u s
      (set_inbounds set.own set.assign set.unassign set.now id (desired_of live raws) s.accounts)

-- `live` is the panel's answer, and `raws` the form's values for `inbound_id`, none where the form
-- cannot be parsed.
unfoldable pub handle_user_set_inbounds :
    Fault
    → SetCalls
    → Calls
    → Calls
    → Result (List Inbound)
    → Option (List (Option ℕ))
    → Option ℕ
    → State
    → State × Response
unfolding payload_for enqueue_each desired_of
handle_user_set_inbounds fault set assigns unassigns live none id s =
    on_user fault id (λ i u s'. (s', http_error "invalid form" status_bad_request)) s
handle_user_set_inbounds fault set assigns unassigns live (some raws) id s =
    on_user fault id (λ i u s'. set_on_live set assigns unassigns raws i u s' live) s
