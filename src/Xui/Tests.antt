-- ===== src/Xui/Tests.antt =====
-- The theorems on the cache and on the panel's data at concrete inputs, and runs of the code.
use x_ui_subpage.Prelude.{
  ℕ, suc, String, ◌≡◌, refl, Bool, true, false, none, some, List, [], ◌∷◌, map, arith, new, Result,
  ok, err, select, if◌then◌else◌, eqb,
}
use x_ui_subpage.Prelude.Int.{pos}
use x_ui_subpage.Domain.{MatchedClient}
use x_ui_subpage.Xui.Models.{RawMessage, Inbound, EmbeddedClient, HostGroup, RawStreamSettings}
use x_ui_subpage.Xui.Cache.{TtlCache, CachedLister, Upstream, look, keep, refresh, get, get_all}
use x_ui_subpage.Xui.Cache.Window.{get-window}
use x_ui_subpage.Xui.Parse.{
  Std, trim_space, select_host_for_inbound, apply_host, is_supported, matched_clients_by_sub_id,
  decode_clients, decode_stream_settings,
}
use x_ui_subpage.Xui.Parse.Flexible.{IsValue}
use x_ui_subpage.Xui.Parse.Hosts.{Answers, select_host_for_inbound-Answers}
use x_ui_subpage.Xui.Parse.Matches.{expected, AllShow, matched_clients_by_sub_id-AllShow}

-- An upstream that counts its calls and fails at every call after the first.
abbrev flaky : ℕ → ℕ × Result ℕ
flaky n = (suc n, if eqb n 0 then ok 7 else err (new "panel is down"))

abbrev empty_cache : TtlCache ℕ
empty_cache = record { ttl = 10; value = 0; fetched_at = 0; last_err = none; errored_at = 0 }

abbrev at : ℕ → ℕ → ℕ
at now _ = now

-- A failure is replayed, and does not count as a call.
replayed : (get_all flaky (at 100 ∷ at 105 ∷ at 120 ∷ at 125 ∷ at 140 ∷ []) empty_cache 0).0.1 ≡ 3
unfolding get_all get look refresh keep
replayed = refl

missed : look 100 100 empty_cache ≡ none
unfolding look
missed = refl

get-window_example :
    (get_all flaky
        (at 105 ∷ at 109 ∷ [])
        (get flaky (at 100) empty_cache 1).0.0
        (get flaky (at 100) empty_cache 1).0.1
      ≡ (
        (get flaky (at 100) empty_cache 1).0,
        map (λ _. (get flaky (at 100) empty_cache 1).1) (at 105 ∷ at 109 ∷ []),
      ))
    × ((get flaky (at 100) empty_cache 1).0.1 ≡ (flaky 1).0)
    × ((get flaky (at 100) empty_cache 1).1 ≡ (flaky 1).1)
get-window_example =
    get-window flaky (at 100) empty_cache 1 (at 105 ∷ at 109 ∷ []) (omega arith) (omega arith)
      (λ i. omega arith) missed missed ((λ i. omega arith), ((λ i. omega arith), tt))

abbrev counting : Upstream ℕ ℕ ℕ
counting = record {
  list_inbounds = flaky;
  list_hosts = λ n. (suc n, ok 9);
  get_sub_links = λ sub_id n. (suc n, ok []);
}

abbrev warm : CachedLister ℕ ℕ
warm = record {
  inbounds = record { ttl = 10; value = 3; fetched_at = 95; last_err = none; errored_at = 0 };
  hosts = record {
    ttl = 10;
    value = 4;
    fetched_at = 0;
    last_err = some (new "panel is down");
    errored_at = 96;
  };
}

abbrev host : String → ℕ → Bool → HostGroup
host name order hidden = record {
  group_id = name;
  inbound_ids = 1 ∷ 2 ∷ [];
  hosts = "cdn.example.com" ∷ [];
  sort_order = pos order;
  is_disabled = false;
  is_hidden = hidden;
  port = 8443;
  security = "same";
  sni = "front.example.com";
  host_header = "";
  path = "";
  alpn = [];
  fingerprint = "";
  allow_insecure = false;
}

abbrev groups : List HostGroup
groups = host "a" 5 false ∷ host "b" 1 true ∷ host "c" 2 false ∷ host "d" 2 false ∷ []

select_visible : select_host_for_inbound groups 2 ≡ some (host "c" 2 false)
unfolding select_host_for_inbound
select_visible = refl

select_host_for_inbound-Answers_example : Answers 2 groups (select_host_for_inbound groups 2)
select_host_for_inbound-Answers_example = select_host_for_inbound-Answers groups 2

abbrev bob : EmbeddedClient
bob = record {
  id = "u1";
  password = "";
  method = "";
  flow = "";
  email = "bob";
  sub_id = "tok";
  enable = true;
  total_gb = pos 0;
  expiry_time = pos 0;
}

abbrev reality : RawStreamSettings
reality = record {
  network = "";
  security = "reality";
  tls = record { server_name = ""; alpn = []; fingerprint = "" };
  reality = record {
    server_names = "a.example" ∷ [];
    short_ids = "01" ∷ [];
    public_key = "pk";
    fingerprint = "chrome";
    spider_x = "/";
  };
  tcp_header_type = "none";
  ws_path = "";
  ws_host = "";
  grpc_service_name = "";
}

-- The settings `{…}` hold one client, and a JSON string is its text without the quotes.
abbrev inner : RawMessage → RawMessage
inner [] = []
inner (c ∷ []) = []
inner (c ∷ d ∷ s) = c ∷ inner (d ∷ s)

abbrev unquote : RawMessage → RawMessage
unquote [] = []
unquote (c ∷ s) = inner s

abbrev std : Std
std = record {
  text = λ raw. ok (unquote raw);
  settings = λ raw out. ok (record { clients = bob ∷ [] });
  stream = λ raw out. ok reality;
  split_host_port = λ entry. err (new "missing port in address");
  atoi = λ s. err (new "invalid syntax");
}

abbrev braces : RawMessage
braces = 123 ∷ 125 ∷ []

abbrev quoted_braces : RawMessage
quoted_braces = 32 ∷ 34 ∷ 123 ∷ 125 ∷ 34 ∷ []

braces-IsValue : IsValue braces
unfolding trim_space
braces-IsValue = record { trimmed = refl; filled = refl; something = refl; bare = refl }

quotes : trim_space quoted_braces ≡ 34 ∷ 123 ∷ 125 ∷ 34 ∷ []
unfolding trim_space
quotes = refl

abbrev inbound : ℕ → Bool → Inbound
inbound id enable = record {
  id = id;
  up = pos 0;
  down = pos 0;
  total = pos 0;
  remark = "";
  enable = enable;
  expiry_time = pos 0;
  listen = "0.0.0.0";
  port = 443;
  protocol = "vless";
  settings = braces;
  stream_settings = quoted_braces;
  tag = "in";
  sniffing = [];
  client_stats =
      record {
        email = "bob";
        enable = true;
        up = pos 3;
        down = pos 4;
        total = pos 100;
        expiry_time = pos 0;
      }
      ∷ [];
}

abbrev matched : MatchedClient
matched = record {
  inbound_id = 2;
  tag = "in";
  remark = "";
  protocol = "vless";
  server = "cdn.example.com";
  port = 8443;
  client = record {
    id = "u1";
    password = "";
    method = "";
    email = "bob";
    sub_id = "tok";
    flow = "";
    enable = true;
    total_gb = pos 100;
    expiry_ms = pos 0;
    up = pos 3;
    down = pos 4;
  };
  stream = record {
    network = "tcp";
    security = "reality";
    tls = record {
      sni = "front.example.com";
      alpn = [];
      fingerprint = "chrome";
      insecure = false;
      public_key = "pk";
      short_id = "01";
      spider_x = "/";
    };
    transport = record { path = ""; host = ""; service_name = ""; header_type = "none" };
  };
}

one_match :
    matched_clients_by_sub_id std (inbound 1 false ∷ inbound 2 true ∷ []) groups "tok" "me"
    ≡ ok (matched ∷ [])
unfolding matched_clients_by_sub_id select_host_for_inbound is_supported select decode_clients
    trim_space decode_stream_settings apply_host
one_match = refl

matched_clients_by_sub_id-AllShow_example :
    AllShow (expected std (inbound 1 false ∷ inbound 2 true ∷ []) "tok") (matched ∷ [])
matched_clients_by_sub_id-AllShow_example =
    matched_clients_by_sub_id-AllShow std (inbound 1 false ∷ inbound 2 true ∷ []) groups "tok" "me"
      (matched ∷ []) one_match
