-- ===== src/Xui/Client/Tests.antt =====
-- The theorems on the client at a panel that fails before it answers.
use x_ui_subpage.Prelude.{
  ℕ, suc, ◌≡◌, refl, true, false, Option, none, [], ◌∷◌, arith, Error, new, ok, err, contains,
  message, ltb, if◌then◌else◌,
}
use x_ui_subpage.Prelude.Int.{pos}
use x_ui_subpage.Sync.Store.{unassign, pending, Job}
use x_ui_subpage.Sync.Worker.{dispatch}
use x_ui_subpage.Xui.Client.{
  failed, answered, Wire, Client, request_of, do_json_body, attempts, judge, opened, writer,
  detach_client,
}
use x_ui_subpage.Xui.Client.Attempts.{Sent, do_json_body-Sent}
use x_ui_subpage.Xui.Client.Idempotence.{AnswersGone, dispatch_gone}

-- The panel counts the requests. The first two do not get through; then it says that the record is
-- not there.
abbrev wire : Wire ℕ
wire = record {
  send = λ request n. (suc n, if ltb n 2 then failed (new "timeout") else answered 200 "{}");
  envelope = λ body. ok (record { success = false; msg = "Obtain (record not found)"; obj = "" });
  inbounds = λ obj. err (new "unexpected end of JSON input");
  hosts = λ obj. err (new "unexpected end of JSON input");
  links = λ obj. ok (obj ∷ []);
  client = λ obj. err (new "unexpected end of JSON input");
  path_escape = λ s. s;
}

abbrev client : Client
client = record { base_url = "http://panel"; api_key = "key"; max_attempts = 3 }

abbrev running : ℕ → Option Error
running n = none

abbrev job : Job
job = record {
  id = 1;
  user_id = 1;
  inbound_id = 2;
  op = unassign;
  status = pending;
  attempts = 0;
  last_error = "";
  next_attempt_at = 0;
  payload = record {
    email = "bob";
    sub_id = "tok";
    uuid = "u";
    password = "";
    method = "";
    flow = "";
    enable = true;
    total_gb = pos 0;
    expiry_ms = pos 0;
  };
  created_at = 1;
  updated_at = 1;
}

-- Three requests are sent, and the detachment reports no error.
third_settles : dispatch (writer wire client running) job 0 ≡ (3, none)
unfolding dispatch attempts judge opened detach_client do_json_body contains message
third_settles = refl

do_json_body-Sent_example :
    Sent wire "/x"
      (λ obj. ok obj)
      (request_of client "GET" "/x" none)
      3
      0
      (do_json_body wire client running "GET" "/x" none (λ obj. ok obj) 0).0
      (do_json_body wire client running "GET" "/x" none (λ obj. ok obj) 0).1
do_json_body-Sent_example =
    do_json_body-Sent wire client running "GET" "/x" none (λ obj. ok obj) 0 (λ n. refl)

gone : AnswersGone wire 2
unfolding contains
gone = record {
  body = "{}";
  msg = "Obtain (record not found)";
  obj = "";
  answers = λ request. refl;
  envelope = refl;
  fragment = refl;
}

dispatch_gone_example : (dispatch (writer wire client running) job 2).1 ≡ none
dispatch_gone_example = dispatch_gone wire client running 2 gone refl (omega arith) job refl
