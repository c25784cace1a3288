-- ===== src/Resolver/Tests.antt =====
-- The theorems on resolving at concrete panels.
use x_ui_subpage.Prelude.{
  select, ℕ, suc, ◌≡◌, refl, Bool, true, false, List, [], ◌∷◌, arith, new, not_found, ok, err, ◌↔◌,
}
use x_ui_subpage.Prelude.Int.{ℤ, pos, negsuc, ◌+ℤ◌}
use x_ui_subpage.Domain.{MatchedClient, expired}
use x_ui_subpage.Xui.Models.{Inbound}
use x_ui_subpage.Xui.Parse.{
  Std, matched_clients_by_sub_id, decode_clients, select_host_for_inbound, decode_stream_settings,
  trim_space, is_supported,
}
use x_ui_subpage.Xui.Parse.Matches.{expected}
use x_ui_subpage.Resolver.{Lister, summarise, resolve}
use x_ui_subpage.Resolver.Totals.{total_of, Bounds, summarise-traffic}
use x_ui_subpage.Resolver.Verdict.{verdict, summarise-status}
use x_ui_subpage.Resolver.Failures.{resolve_lem}

abbrev client : Bool → ℕ → ℤ → MatchedClient
client enable quota expiry_ms = record {
  inbound_id = 1;
  tag = "in";
  remark = "";
  protocol = "vless";
  server = "s";
  port = 443;
  client = record {
    id = "u";
    password = "";
    method = "";
    email = "bob";
    sub_id = "tok";
    flow = "";
    enable = enable;
    total_gb = pos quota;
    expiry_ms = expiry_ms;
    up = pos 10;
    down = pos 20;
  };
  stream = record {
    network = "tcp";
    security = "none";
    tls = record {
      sni = "";
      alpn = [];
      fingerprint = "";
      insecure = false;
      public_key = "";
      short_id = "";
      spider_x = "";
    };
    transport = record { path = ""; host = ""; service_name = ""; header_type = "" };
  };
}

abbrev clients : List MatchedClient
clients = client false 0 (pos 9) ∷ client true 50 (pos 5) ∷ client true 40 (negsuc 3) ∷ []

-- At 6 ms the earliest expiry, 5 ms, has passed.
over : (summarise 6_000_000 "tok" clients []).status ≡ expired
unfolding summarise
over = refl

summarise-status_example :
    (summarise 6_000_000 "tok" clients []).status
    ≡ verdict 6_000_000 clients (summarise 6_000_000 "tok" clients [])
summarise-status_example = summarise-status 6_000_000 "tok" clients []

summarise-traffic_example :
    ((summarise 7 "tok" clients []).traffic.up ≡ total_of (λ m. m.client.up) (pos 0) clients)
    × ((summarise 7 "tok" clients []).traffic.down ≡ total_of (λ m. m.client.down) (pos 0) clients)
    × Bounds (pos 0) clients (summarise 7 "tok" clients []).traffic.total
unfolding ◌+ℤ◌
summarise-traffic_example = summarise-traffic 7 "tok" clients [] (omega arith) (omega arith)

abbrev std : Std
std = record {
  text = λ raw. ok raw;
  settings = λ raw out. ok (record {
    clients =
        record {
          id = "u";
          password = "";
          method = "";
          flow = "";
          email = "bob";
          sub_id = "tok";
          enable = true;
          total_gb = pos 50;
          expiry_time = pos 9;
        }
        ∷ [];
  });
  stream = λ raw out. ok out;
  split_host_port = λ entry. err (new "missing port in address");
  atoi = λ s. err (new "invalid syntax");
}

abbrev inbound : Inbound
inbound = record {
  id = 1;
  up = pos 0;
  down = pos 0;
  total = pos 0;
  remark = "";
  enable = true;
  expiry_time = pos 0;
  listen = "s";
  port = 443;
  protocol = "vless";
  settings = 123 ∷ 125 ∷ [];
  stream_settings = 123 ∷ 125 ∷ [];
  tag = "in";
  sniffing = [];
  client_stats =
      record {
        email = "bob";
        enable = true;
        up = pos 10;
        down = pos 20;
        total = pos 0;
        expiry_time = pos 0;
      }
      ∷ [];
}

-- A panel with one inbound, whose hosts cannot be listed.
abbrev lister : Lister ℕ
lister = record {
  list_inbounds = λ n. (suc n, ok (inbound ∷ []));
  list_hosts = λ n. (suc n, err (new "timeout"));
  get_sub_links = λ sub_id n. (suc n, ok ("vless://x" ∷ []));
}

bob_matches :
    matched_clients_by_sub_id std (inbound ∷ []) [] "tok" "me" ≡ ok (client true 50 (pos 9) ∷ [])
unfolding matched_clients_by_sub_id select is_supported decode_clients trim_space
    decode_stream_settings select_host_for_inbound
bob_matches = refl

resolve_lem_example :
    (((resolve std lister "me" 7 "tok" 0).1 ≡ err not_found)
      ↔ (expected std (inbound ∷ []) "tok" ≡ []))
    × ((expected std (inbound ∷ []) "tok" ≡ [] → ⊥)
        → (lister.get_sub_links "tok" 2).1 ≡ ok ("vless://x" ∷ [])
        → (resolve std lister "me" 7 "tok" 0).1
          ≡ ok (summarise 7 "tok" (client true 50 (pos 9) ∷ []) ("vless://x" ∷ [])))
resolve_lem_example =
    resolve_lem std lister "me" 7 "tok" 0 (inbound ∷ []) (err (new "timeout"))
      (client true 50 (pos 9) ∷ []) ("vless://x" ∷ []) refl refl bob_matches
