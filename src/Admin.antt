-- ===== src/Admin.antt =====
-- internal/admin/handlers_users.go: the handlers of the admin panel that change users, on the stores
-- of users, jobs, template assignments and routing profiles. Logging is left out.
pub mod Users
pub mod Queueing
pub mod Enqueues
pub mod Telling
pub mod Updating
pub mod Deletion
pub mod Bulk
mod Tests
use x_ui_subpage.Prelude.{
  concat, ℕ, suc, ◌+◌, String, Bool, true, false, not, ◌||◌, Option, none, some, List, [], ◌∷◌,
  if◌then◌else◌, eqb, ◌==◌, Error, new, wrap, not_found, duplicate, Result, ok, err, ◌>>=◌, Fault,
  Faults, length,
}
use x_ui_subpage.Prelude.Int.{ℤ, pos}
use x_ui_subpage.Users.{User, UserInbound, Accounts}
use x_ui_subpage.Sync.Store.{Op, Payload, Jobs, enqueue}
use x_ui_subpage.Assignment
use x_ui_subpage.Routing

pub record State : Type 0 where
  pub accounts : Accounts
  pub jobs : Jobs
  pub assignments : Assignment.Db
  pub routing : Routing.Db

-- What the handler writes: a redirect to the list or to the jobs, one to a user's page, or an error's status and
-- text.
pub data Response : Type 0 where
  to_users to_sync : Response
  to_user : ℕ → Response
  http_error : String → ℕ → Response

abbrev pub status_bad_request : ℕ
status_bad_request = 400

abbrev pub status_not_found : ℕ
status_not_found = 404

abbrev pub status_conflict : ℕ
status_conflict = 409

abbrev pub status_internal : ℕ
status_internal = 500

abbrev pub status_bad_gateway : ℕ
status_bad_gateway = 502

abbrev pub http_not_found : Response
http_not_found = http_error "404 page not found" status_not_found

abbrev pub internal_error : Response
internal_error = http_error "internal error" status_internal

-- What the engine reports and the time, for the calls of a handler in order.
pub record Calls : Type 0 where
  pub fault : Faults
  pub now : ℕ → ℕ

unfoldable pub payload_for : User → Payload
payload_for u = record {
  email = u.username;
  sub_id = u.sub_id;
  uuid = u.uuid;
  password = u.password;
  method = u.method;
  flow = u.flow;
  enable = u.enabled;
  total_gb = u.total_gb;
  expiry_ms = u.expiry_ms;
}

abbrev pub first_error : Option Error → Option Error → Option Error
first_error none e = e
first_error (some e) _ = some e

abbrev pub error_of {ℓ} : {A : Type ℓ} → Result A → Option Error
error_of (ok _) = none
error_of (err e) = some e

-- The loop over assignments that enqueues a job for each; it goes on after a failure, and reports
-- the first one.
unfoldable pub enqueue_each :
    Calls → ℕ → ℕ → Op → Payload → List UserInbound → Jobs → Jobs × Option Error
enqueue_each calls i user_id op payload [] t = (t, none)
enqueue_each calls i user_id op payload (a ∷ rows) t =
    let (t', added) = enqueue (calls.fault i) (calls.now i) user_id a.inbound_id op payload t in
    let (t'', later) = enqueue_each calls (suc i) user_id op payload rows t' in
    (t'', first_error (error_of added) later)

-- The same loop where it stops at a failure.
unfoldable pub enqueue_until :
    Calls → ℕ → ℕ → Op → Payload → List UserInbound → Jobs → Jobs × Option Error
enqueue_until calls i user_id op payload [] t = (t, none)
enqueue_until calls i user_id op payload (a ∷ rows) t =
    let (t', added) = enqueue (calls.fault i) (calls.now i) user_id a.inbound_id op payload t in
    elim added [
      | err e ↦ (t', some e)
      | ok _ ↦ enqueue_until calls (suc i) user_id op payload rows t'
    ]

abbrev pub with_jobs {ℓ} : {A : Type ℓ} → State → Jobs × A → State × A
with_jobs s (t, a) = (record s { jobs = t }, a)

abbrev pub updates_for : Calls → ℕ → User → State → Result (List UserInbound) → State × Option Error
updates_for loop user_id u s (err e) = (s, some e)
updates_for loop user_id u s (ok rows) =
    with_jobs s (enqueue_each loop 0 user_id Op.update (payload_for u) rows s.jobs)

-- `fault` is for the query of the assignments, `loop` for the calls that enqueue.
unfoldable pub enqueue_update_for_all_assignments :
    Fault → Calls → ℕ → User → State → State × Option Error
unfolding payload_for enqueue_each
enqueue_update_for_all_assignments fault loop user_id u s =
    updates_for loop user_id u s (x_ui_subpage.Users.inbounds fault user_id s.accounts)

-- The form's fields as the browser sends them, `profile` by client type.
pub record Form : Type 0 where
  pub username : String
  pub sub_id : String
  pub total_gb : String
  pub expiry : String
  pub flow : String
  pub method : String
  pub notes : String
  pub profile : String → String
  pub routing_enabled : String
  pub routing_b64 : String

-- strings.TrimSpace; the bytes of a limit in gigabytes (strconv.ParseFloat, times 1e9); the
-- milliseconds of a date (time.Parse); whether base64 decodes a text; a text as `%q` prints it.
pub record Parsers : Type 0 where
  pub trim_space : String → String
  pub parse_limit : String → Option ℤ
  pub parse_date : String → Option ℤ
  pub is_base64 : String → Bool
  pub quote : String → String

abbrev pub or_invalid : Error → Option ℤ → Result ℤ
or_invalid invalid none = err invalid
or_invalid invalid (some n) = ok n

abbrev pub optional_field : Error → (String → Option ℤ) → String → Result ℤ
optional_field invalid parse v = if v == "" then ok (pos 0) else or_invalid invalid (parse v)

abbrev pub invalid_limit : Parsers → String → Error
invalid_limit p v = new (concat ("invalid traffic limit " ∷ p.quote v ∷ []))

abbrev pub invalid_date : Parsers → String → Error
invalid_date p v = new (concat ("invalid expiry date " ∷ p.quote v ∷ " (use YYYY-MM-DD)" ∷ []))

abbrev pub form_user : Form → String → String → ℤ → ℤ → User
form_user form username sub_id total expiry = record {
  id = 0;
  username = username;
  sub_id = sub_id;
  uuid = "";
  password = "";
  method = form.method;
  flow = form.flow;
  enabled = false;
  total_gb = total;
  expiry_ms = expiry;
  notes = form.notes;
  created_at = 0;
  updated_at = 0;
}

unfoldable pub user_from_form : Parsers → Form → Result User
user_from_form p form =
    if p.trim_space form.username == "" || p.trim_space form.sub_id == ""
    then err (new "username and subscription id are required")
    else optional_field (invalid_limit p (p.trim_space form.total_gb)) p.parse_limit
        (p.trim_space form.total_gb)
      >>= λ total.
          (optional_field (invalid_date p (p.trim_space form.expiry)) p.parse_date
              (p.trim_space form.expiry)
            >>= λ expiry. ok (
                form_user form (p.trim_space form.username) (p.trim_space form.sub_id) total
                  expiry))

unfoldable pub user_routing_from_form : Parsers → Form → Result (Bool × String)
user_routing_from_form p form =
    let b64 = p.trim_space form.routing_b64 in
    if b64 == "" || p.is_base64 b64
    then ok (not (form.routing_enabled == ""), b64)
    else err (new "routing configuration must be a valid Base64 string")

abbrev pub profile_of : Parsers → Form → String → String
profile_of p form key =
    let profile = p.trim_space (form.profile key) in
    if profile == "" then Assignment.default_profile else profile

-- The loop over the client types, which stops at a failure.
unfoldable pub apply_profiles :
    Calls
    → ℕ
    → Parsers
    → Form
    → String
    → List Assignment.ClientType
    → Assignment.Db
    → Assignment.Db × Option Error
apply_profiles calls i p form sub_id [] db = (db, none)
apply_profiles calls i p form sub_id (ct ∷ cts) db =
    let (db', failed) =
      Assignment.set (calls.fault i) (calls.now i) sub_id ct.key (profile_of p form ct.key) db in
    elim failed [
      | some e ↦ (db', some e)
      | none ↦ apply_profiles calls (suc i) p form sub_id cts db'
    ]

unfoldable pub apply_assignments_from_form :
    Calls → Parsers → Form → String → Assignment.Db → Assignment.Db × Option Error
unfolding apply_profiles
apply_assignments_from_form calls p form sub_id db =
    apply_profiles calls 0 p form sub_id Assignment.client_types db
