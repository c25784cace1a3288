-- ===== src/Admin/Tests.antt =====
-- The theorems on the admin panel's handlers at concrete tables.
use x_ui_subpage.Prelude.{
  ℕ, ◌≡◌, ◌≢◌, refl, true, false, not, none, some, List, [], ◌∷◌, Result, ok, first, select,
  affected, update_where, delete_where,
}
use x_ui_subpage.Prelude.Int.{pos}
use x_ui_subpage.Users
use x_ui_subpage.Users.{User, UserInbound}
use x_ui_subpage.Users.SetInbounds.{set_inbounds}
use x_ui_subpage.Users.Samples.{account, accounts, keyed}
use x_ui_subpage.Assignment
use x_ui_subpage.Routing
use x_ui_subpage.Xui.Models.{Inbound}
use x_ui_subpage.Admin.{
  State, to_user, to_users, payload_for, Form, Parsers, user_from_form, user_routing_from_form,
}
use x_ui_subpage.Admin.Users.{
  SetCalls, handle_user_set_inbounds, handle_user_toggle, handle_user_update, handle_user_delete,
  desired_of, by_id,
}
use x_ui_subpage.Admin.Queueing.{quiet}
use x_ui_subpage.Admin.Enqueues.{Gains, Losses, NoOthers, handle_user_set_inbounds-jobs}
use x_ui_subpage.Admin.Telling.{Tells, handle_user_toggle-jobs}
use x_ui_subpage.Admin.Updating.{IsOf, handle_user_update-jobs}
use x_ui_subpage.Admin.Deletion.{Deleted, handle_user_delete-Deleted}

abbrev clock : ℕ → ℕ
clock i = 9

abbrev state : State
state = record {
  accounts = accounts;
  jobs = record { rows = []; next_id = 1 };
  assignments = record { rows = []; legacy = none };
  routing = record { rows = []; generator = none };
}

abbrev inbound : ℕ → Inbound
inbound id = record {
  id = id;
  up = pos 0;
  down = pos 0;
  total = pos 0;
  remark = "in";
  enable = true;
  expiry_time = pos 0;
  listen = "";
  port = 443;
  protocol = "vless";
  settings = [];
  stream_settings = [];
  tag = "in";
  sniffing = [];
  client_stats = [];
}

abbrev set_calls : SetCalls
set_calls = record { own = λ _. none; assign = λ _. none; unassign = λ _. none; now = 9 }

abbrev live : Result (List Inbound)
live = ok (inbound 10 ∷ inbound 20 ∷ inbound 30 ∷ [])

-- Bob's inbounds 10 and 20 become 20 and 30.
abbrev moved_state : State
moved_state =
    (handle_user_set_inbounds none set_calls (quiet clock) (quiet clock) live
      (some (some 20 ∷ none ∷ some 30 ∷ [])) (some 1) state).0

set_runs :
    handle_user_set_inbounds none set_calls
      (quiet clock)
      (quiet clock)
      live
      (some (some 20 ∷ none ∷ some 30 ∷ []))
      (some 1)
      state
    ≡ (moved_state, to_user 1)
unfolding handle_user_set_inbounds Users.get first desired_of by_id set_inbounds select affected
    delete_where
set_runs = refl

handle_user_set_inbounds-jobs_example :
    (u : User) × (Users.get none 1 state.accounts ≡ ok u)
    × (Gains 1 u state moved_state × Losses 1 u state moved_state × NoOthers 1 u state moved_state)
handle_user_set_inbounds-jobs_example =
    handle_user_set_inbounds-jobs none set_calls clock clock live (some 20 ∷ none ∷ some 30 ∷ []) 1
      state moved_state keyed set_runs

abbrev toggled : State
toggled = (handle_user_toggle (quiet clock) (quiet clock) (some 1) state).0

toggle_runs : handle_user_toggle (quiet clock) (quiet clock) (some 1) state ≡ (toggled, to_user 1)
unfolding handle_user_toggle Users.get first Users.set_enabled affected
toggle_runs = refl

handle_user_toggle-jobs_example :
    (u : User) × (w : User) × (Users.get none 1 state.accounts ≡ ok u)
    × (Users.get none 1 toggled.accounts ≡ ok w)
    × (w.enabled ≡ not u.enabled)
    × Tells 1 w state toggled
handle_user_toggle-jobs_example = handle_user_toggle-jobs clock clock 1 state toggled toggle_runs

abbrev parsers : Parsers
parsers = record {
  trim_space = λ s. s;
  parse_limit = λ s. some (pos 5);
  parse_date = λ s. none;
  is_base64 = λ s. true;
  quote = λ s. s;
}

-- Bob becomes Rob.
abbrev form : Form
form = record {
  username = "rob";
  sub_id = "tok-r";
  total_gb = "5";
  expiry = "";
  flow = "";
  method = "";
  notes = "";
  profile = λ key. "";
  routing_enabled = "";
  routing_b64 = "";
}

abbrev renamed : State
renamed =
    (handle_user_update (quiet clock) (quiet clock) (quiet clock) parsers (some 1) form state).0

update_runs :
    handle_user_update (quiet clock) (quiet clock) (quiet clock) parsers (some 1) form state
    ≡ (renamed, to_user 1)
unfolding handle_user_update user_from_form user_routing_from_form Users.get first Users.update
    affected update_where
update_runs = refl

handle_user_update-jobs_example :
    (v : User) × (w : User) × (Users.get none 1 state.accounts ≡ ok v)
    × (Users.get none 1 renamed.accounts ≡ ok w)
    × IsOf parsers form w
    × ((w.uuid ≡ v.uuid)
        × (w.password ≡ v.password)
        × (w.enabled ≡ v.enabled)
        × (w.created_at ≡ v.created_at))
    × ((k : ℕ) → k ≢ 1 → Users.get none k renamed.accounts ≡ Users.get none k state.accounts)
    × ((payload_for w).email ≡ parsers.trim_space form.username)
    × Tells 1 w state renamed
handle_user_update-jobs_example =
    handle_user_update-jobs clock (quiet clock) clock parsers form 1 state renamed update_runs

bob : Users.get none 1 state.accounts ≡ ok (account 1 "bob" "tok-b")
unfolding Users.get first
bob = refl

clash_known : Assignment.format_to_client_type Assignment.client_types "clash" ≡ some "clash"
unfolding Assignment.format_to_client_type
clash_known = refl

handle_user_delete-Deleted_example :
    (s' : State) × (handle_user_delete (quiet clock) (some 1) state ≡ (s', to_users))
    × Deleted 1 (account 1 "bob" "tok-b") state s'
    × (Assignment.resolve none "tok-b" "clash" s'.assignments ≡ ok Assignment.default_profile)
    × (Routing.get none "tok-b" s'.routing ≡ ok (false, ""))
handle_user_delete-Deleted_example =
    handle_user_delete-Deleted clock 1 (account 1 "bob" "tok-b") state "clash" "clash" bob
      clash_known
