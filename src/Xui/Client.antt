-- ===== src/Xui/Client.antt =====
-- internal/xui/client.go: the client of the panel's HTTP API. What lies behind the network is a state
-- of any type. Waiting and logging are left out.
pub mod Attempts
pub mod Idempotence
mod Tests
use Prim.Native.String.{◌++◌}
use x_ui_subpage.Prelude.{
  ℕ, zero, suc, String, Bool, true, false, not, ◌&&◌, ◌||◌, Option, none, some, List, [], ◌∷◌,
  if◌then◌else◌, eqb, leb, Error, new, wrap, message, contains, Result, ok, err, ◌>>=◌,
}
use x_ui_subpage.Xui.Models.{Inbound, HostGroup, ManagedClient}
use x_ui_subpage.Sync.Worker.{Writer}

-- The values that are sent as JSON bodies.
pub data Body : Type 0 where
  add_client_request : ManagedClient → List ℕ → Body
  managed_client : ManagedClient → Body
  attach_detach_request : List ℕ → Body

pub record Request : Type 0 where
  pub method : String
  pub url : String
  pub authorization : String
  pub payload : Option Body

-- How one request can end: an error of the transport, a body that cannot be read, or a status with
-- its body.
pub data Outcome : Type 0 where
  failed : Error → Outcome
  unread : Error → Outcome
  answered : ℕ → String → Outcome

-- The envelope of every answer; `obj` is left as JSON text.
pub record ApiResponse : Type 0 where
  pub success : Bool
  pub msg : String
  pub obj : String

-- The libraries that the client calls: net/http, encoding/json and net/url.
pub record Wire (P : Type 0) : Type 0 where
  pub send : Request → P → P × Outcome
  pub envelope : String → Result ApiResponse
  pub inbounds : String → Result (List Inbound)
  pub hosts : String → Result (List HostGroup)
  pub links : String → Result (List String)
  pub client : String → Result ManagedClient
  pub path_escape : String → String

pub record Client : Type 0 where
  pub base_url : String
  pub api_key : String
  pub max_attempts : ℕ

-- Whether an attempt is the last one.
pub data Verdict (T : Type 0) : Type 0 where
  again : Error → Verdict T
  done : Result T → Verdict T

abbrev pub not_found_msg_fragment : String
not_found_msg_fragment = "record not found"

abbrev pub decoded : {T : Type 0} → String → Result T → Result T
decoded context (ok x) = ok x
decoded context (err e) = err (wrap context e)

module _ {T : Type 0} (path : String) (read : String → Result T) where
  -- Out of the envelope: a reported failure, or the decoded object.
  unfoldable pub opened : Result ApiResponse → Result T
  opened (err e) = err (wrap ("xui: decode envelope " ++ path) e)
  opened (ok r) =
      if r.success
      then decoded ("xui: decode obj " ++ path) (read r.obj)
      else err (new ("xui: " ++ path ++ " reported failure: " ++ r.msg))

  -- The `switch` on the status and what follows it; the status is left out of the error's text.
  unfoldable pub judge : (String → Result ApiResponse) → Outcome → Verdict T
  unfolding opened
  judge envelope (failed e) = again (wrap ("xui: request " ++ path) e)
  judge envelope (unread e) = again (wrap ("xui: read body " ++ path) e)
  judge envelope (answered status body) =
      if eqb status 401 || eqb status 403
      then done (err (new ("xui: " ++ path ++ " rejected the API key: " ++ body)))
      else if leb 500 status
      then again (new ("xui: " ++ path ++ " returned: " ++ body))
      else if not (eqb status 200)
      then done (err (new ("xui: " ++ path ++ " returned: " ++ body)))
      else done (opened (envelope body))

  abbrev pub gave_up : Option Error → Result T
  gave_up none = err (new ("xui: " ++ path ++ " failed after all attempts"))
  gave_up (some e) = err (wrap ("xui: " ++ path ++ " failed after all attempts") e)

module _ {P T : Type 0} (wire : Wire P) (path : String) (read : String → Result T)
    (request : Request) where
  abbrev pub follow : Verdict T → (Error → P → P × Result T) → P → P × Result T
  follow (again e) rest p = rest e p
  follow (done r) rest p = (p, r)

  abbrev pub answer : (Error → P → P × Result T) → P × Outcome → P × Result T
  answer rest (p, outcome) = follow (judge path read wire.envelope outcome) rest p

  abbrev pub attempt : Option Error → (Error → P → P × Result T) → P → P × Result T
  attempt (some e) rest p = (p, err (wrap ("xui: " ++ path) e))
  attempt none rest p = answer rest (wire.send request p)

  -- The loop: `left` attempts remain from the n-th on, and `last` is the error of the one before.
  -- `stopped n` is `ctx.Err()` as the n-th attempt reads it.
  unfoldable pub attempts : (ℕ → Option Error) → ℕ → ℕ → Option Error → P → P × Result T
  unfolding judge
  attempts stopped zero n last p = (p, gave_up path read last)
  attempts stopped (suc left) n last p =
      let rest = λ (e : Error) (q : P). attempts stopped left (suc n) (some e) q in
      attempt (stopped n) rest p

abbrev pub request_of : Client → String → String → Option Body → Request
request_of c method path payload = record {
  method = method;
  url = c.base_url ++ path;
  authorization = "Bearer " ++ c.api_key;
  payload = payload;
}

abbrev pub ignore_not_found : Result (Unit {0}) → Option Error
ignore_not_found (ok _) = none
ignore_not_found (err e) = if contains (message e) not_found_msg_fragment then none else some e

abbrev pub error_of : Result (Unit {0}) → Option Error
error_of (ok _) = none
error_of (err e) = some e

abbrev pub found_client : Result ManagedClient → Result (Option ManagedClient)
found_client (ok c) = ok (some c)
found_client (err e) = if contains (message e) not_found_msg_fragment then ok none else err e

-- Every call takes its context as the errors that each attempt reads from it.
module _ {P : Type 0} (wire : Wire P) (c : Client) (stopped : ℕ → Option Error) where
  unfoldable pub do_json_body :
      {T : Type 0} → String → String → Option Body → (String → Result T) → P → P × Result T
  unfolding attempts
  do_json_body method path payload read p =
      attempts wire path read (request_of c method path payload) stopped c.max_attempts 1 none p

  unfoldable pub do_json : {T : Type 0} → String → String → (String → Result T) → P → P × Result T
  unfolding do_json_body
  do_json method path read p = do_json_body method path none read p

  abbrev pub send_only : String → Option Body → P → P × Result (Unit {0})
  send_only path payload p = do_json_body "POST" path payload (λ _. ok tt) p

  unfoldable pub list_inbounds : P → P × Result (List Inbound)
  list_inbounds p = do_json "GET" "/panel/api/inbounds/list" wire.inbounds p

  unfoldable pub list_hosts : P → P × Result (List HostGroup)
  list_hosts p = do_json "GET" "/panel/api/hosts/list" wire.hosts p

  unfoldable pub add_client : ManagedClient → List ℕ → P → P × Option Error
  add_client client inbound_ids p =
      let (q, r) =
        send_only "/panel/api/clients/add" (some (add_client_request client inbound_ids)) p in
      (q, error_of r)

  unfoldable pub update_client : ManagedClient → P → P × Option Error
  update_client client p =
      let (q, r) =
        send_only ("/panel/api/clients/update/" ++ wire.path_escape client.email)
          (some (managed_client client)) p in
      (q, error_of r)

  unfoldable pub attach_client : String → List ℕ → P → P × Option Error
  attach_client email inbound_ids p =
      let (q, r) =
        send_only ("/panel/api/clients/" ++ wire.path_escape email ++ "/attach")
          (some (attach_detach_request inbound_ids)) p in
      (q, error_of r)

  unfoldable pub detach_client : String → List ℕ → P → P × Option Error
  detach_client email inbound_ids p =
      let (q, r) =
        send_only ("/panel/api/clients/" ++ wire.path_escape email ++ "/detach")
          (some (attach_detach_request inbound_ids)) p in
      (q, ignore_not_found r)

  unfoldable pub delete_client : String → P → P × Option Error
  delete_client email p =
      let (q, r) =
        send_only ("/panel/api/clients/del/" ++ wire.path_escape email ++ "?keepTraffic=0") none
          p in
      (q, ignore_not_found r)

  unfoldable pub reset_client_traffic : String → P → P × Option Error
  reset_client_traffic email p =
      let (q, r) =
        send_only ("/panel/api/clients/resetTraffic/" ++ wire.path_escape email) none p in
      (q, ignore_not_found r)

  unfoldable pub get_sub_links : String → P → P × Result (List String)
  get_sub_links sub_id p =
      do_json "GET" ("/panel/api/clients/subLinks/" ++ wire.path_escape sub_id) wire.links p

  unfoldable pub get_client : String → P → P × Result (Option ManagedClient)
  get_client email p =
      let (q, r) =
        do_json "GET" ("/panel/api/clients/get/" ++ wire.path_escape email) wire.client p in
      (q, found_client r)

  -- The client is the worker's `Writer`.
  abbrev pub writer : Writer P
  writer = record {
    get_client = get_client;
    add_client = add_client;
    attach_client = attach_client;
    update_client = update_client;
    detach_client = detach_client;
    delete_client = delete_client;
    reset_client_traffic = reset_client_traffic;
  }
