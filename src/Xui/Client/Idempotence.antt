-- ===== src/Xui/Client/Idempotence.antt =====
-- Removing what is gone already succeeds.
use Prim.Native.String.{◌++◌}
use x_ui_subpage.Prelude.{
  ℕ, zero, suc, ◌≡◌, refl, Bool, true, false, String, Option, none, List, [], ◌∷◌, arith, Error,
  new, message, contains, contains-append, Result, ok, err, ◌<◌,
}
use x_ui_subpage.Sync.Store.{Op, assign, update, unassign, delete, reset_traffic, other, Job}
use x_ui_subpage.Sync.Worker.{dispatch_op, dispatch}
use x_ui_subpage.Xui.Client.{
  Body, Request, answered, Wire, Client, done, opened, judge, attempts, request_of, do_json_body,
  send_only, writer, ignore_not_found, not_found_msg_fragment, detach_client, delete_client,
  reset_client_traffic,
}

abbrev pub is_removal : Op → Bool
is_removal unassign = true
is_removal delete = true
is_removal reset_traffic = true
is_removal _ = false

-- The answer "record not found": status 200 with an envelope that reports a failure whose message
-- has that fragment.
pub record AnswersGone {P : Type 0} (wire : Wire P) (p : P) : Type 0 where
  pub body : String
  pub msg : String
  pub obj : String
  pub answers : (request : Request) → (wire.send request p).1 ≡ answered 200 body
  pub envelope : wire.envelope body ≡ ok (record { success = false; msg = msg; obj = obj })
  pub fragment : contains msg not_found_msg_fragment ≡ true

attempts_settled :
    {P T : Type 0} (wire : Wire P) (path : String) (read : String → Result T) (request : Request)
    (stopped : ℕ → Option Error) (left n : ℕ) (last : Option Error) (p : P) (r : Result T)
    → 0 < left
    → stopped n ≡ none
    → judge path read wire.envelope (wire.send request p).1 ≡ done r
    → (attempts wire path read request stopped left n last p).1 ≡ r
unfolding attempts
attempts_settled wire path read request stopped zero n last p r some_left running settles =
    absurd (omega (arith, some_left))
attempts_settled wire path read request stopped (suc left) n last p r some_left running settles =
    rw (running, settles) refl

ignored :
    (text : String)
    → contains text not_found_msg_fragment ≡ true
    → ignore_not_found (err (new text)) ≡ none
unfolding message
ignored text e = rw e

module _ {P : Type 0} (wire : Wire P) (c : Client) (stopped : ℕ → Option Error) (p : P)
    (gone : AnswersGone wire p) (running : stopped 1 ≡ none) (tries : 0 < c.max_attempts) where
  gone_judged :
      (path : String)
      → judge {T = Unit {0}} path (λ _. ok tt) wire.envelope (answered 200 gone.body)
        ≡ done (err (new ("xui: " ++ path ++ " reported failure: " ++ gone.msg)))
  unfolding judge opened
  gone_judged path = rw gone.envelope refl

  gone_ignored :
      (path : String) (payload : Option Body)
      → ignore_not_found (send_only wire c stopped path payload p).1 ≡ none
  unfolding do_json_body
  gone_ignored path payload =
      let request = request_of c "POST" path payload in
      let failure : Result (Unit {0}) =
        err (new ("xui: " ++ path ++ " reported failure: " ++ gone.msg)) in
      let settled : (send_only wire c stopped path payload p).1 ≡ failure =
        attempts_settled wire path (λ _. ok tt) request stopped c.max_attempts 1 none p failure
          tries running (rw (gone.answers request) (gone_judged path)) in
      rw settled (
        ignored ("xui: " ++ path ++ " reported failure: " ++ gone.msg) (
          contains-append "xui: " _ not_found_msg_fragment (
            contains-append path _ not_found_msg_fragment (
              contains-append " reported failure: " gone.msg not_found_msg_fragment
                gone.fragment))))

  gone_removes :
      (email : String) (inbound_ids : List ℕ)
      → ((detach_client wire c stopped email inbound_ids p).1 ≡ none)
        × ((delete_client wire c stopped email p).1 ≡ none)
        × ((reset_client_traffic wire c stopped email p).1 ≡ none)
  unfolding detach_client delete_client reset_client_traffic
  gone_removes email inbound_ids = (gone_ignored _ _, gone_ignored _ _, gone_ignored _ _)

  dispatch_op_gone :
      (op : Op) (j : Job)
      → is_removal op ≡ true
      → (dispatch_op (writer wire c stopped) op j p).1 ≡ none
  unfolding dispatch_op
  dispatch_op_gone assign j e = cc
  dispatch_op_gone update j e = cc
  dispatch_op_gone unassign j e = (gone_removes j.payload.email (j.inbound_id ∷ [])).0
  dispatch_op_gone delete j e = (gone_removes j.payload.email []).1
  dispatch_op_gone reset_traffic j e = (gone_removes j.payload.email []).2
  dispatch_op_gone (other s) j e = cc

  -- A job of the worker that takes a client away (unassign, delete, reset of the traffic) succeeds
  -- while the panel answers "record not found", where at least one attempt is allowed and the
  -- context is not cancelled.
  pub dispatch_gone :
      (j : Job) → is_removal j.op ≡ true → (dispatch (writer wire c stopped) j p).1 ≡ none
  unfolding dispatch
  dispatch_gone j e = dispatch_op_gone j.op j e
