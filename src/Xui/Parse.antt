-- ===== src/Xui/Parse.antt =====
-- internal/xui/parse.go: from the panel's inbounds and hosts to the clients of one subscription.
-- The standard library's JSON decoder, `net.SplitHostPort` and `strconv.Atoi` are parameters.
pub mod Flexible
pub mod Hosts
pub mod Overrides
pub mod Matches
use x_ui_subpage.Prelude.{
  ℕ, String, Bool, true, false, not, ◌&&◌, ◌||◌, Option, none, some, List, [], ◌∷◌, ◌++◌, map, eqb,
  if◌then◌else◌, ◌==◌, Error, wrap, Result, ok, err, ◌>>=◌, select,
}
use x_ui_subpage.Prelude.Int.{ℤ, pos, eqb_ℤ, ltb_ℤ}
use x_ui_subpage.Xui.Models.{
  ClientStat, RawMessage, Inbound, EmbeddedClient, HostGroup, RawSettings, RawStreamSettings,
}
use x_ui_subpage.Domain.{
  protocol_vless, protocol_vmess, protocol_trojan, protocol_shadowsocks, security_none,
  security_tls, security_reality, network_tcp, network_ws, network_grpc, TlsSettings,
  TransportSettings, StreamSettings, ClientAccount, MatchedClient,
}

-- A decoder fills a value that starts as given; `text` decodes a JSON string.
pub record Std : Type 0 where
  pub text : RawMessage → Result RawMessage
  pub settings : RawMessage → RawSettings → Result RawSettings
  pub stream : RawMessage → RawStreamSettings → Result RawStreamSettings
  pub split_host_port : String → Result (String × String)
  pub atoi : String → Result ℕ

unfoldable pub wildcard_host : String → Bool
wildcard_host listen = listen == "" || listen == "0.0.0.0" || listen == "::"

unfoldable pub connect_host : Inbound → String → String
unfolding wildcard_host
connect_host inbound fallback = if wildcard_host inbound.listen then fallback else inbound.listen

-- White space of JSON texts: `bytes.TrimSpace` on bytes below 128.
abbrev pub is_space : ℕ → Bool
is_space c = eqb c 9 || eqb c 10 || eqb c 11 || eqb c 12 || eqb c 13 || eqb c 32

abbrev pub trim_left : RawMessage → RawMessage
trim_left [] = []
trim_left (c ∷ s) = let rest = trim_left s in if is_space c then rest else c ∷ s

abbrev pub all_space : RawMessage → Bool
all_space [] = true
all_space (c ∷ s) = is_space c && all_space s

abbrev pub trim_right : RawMessage → RawMessage
trim_right [] = []
trim_right (c ∷ s) = let rest = trim_right s in if all_space (c ∷ s) then [] else c ∷ rest

unfoldable pub trim_space : RawMessage → RawMessage
trim_space s = trim_right (trim_left s)

abbrev pub is_empty : RawMessage → Bool
is_empty [] = true
is_empty (_ ∷ _) = false

-- string(trimmed) == "null"
abbrev pub is_null : RawMessage → Bool
is_null (a ∷ b ∷ c ∷ d ∷ []) = eqb a b'n' && eqb b b'u' && eqb c b'l' && eqb d b'l'
is_null _ = false

-- trimmed[0] == '"'
abbrev pub is_quoted : RawMessage → Bool
is_quoted [] = false
is_quoted (c ∷ _) = eqb c 34

unfoldable pub unmarshal_flexible :
    {T : Type 0}
    → (RawMessage → Result RawMessage)
    → (RawMessage → T → Result T)
    → RawMessage
    → T
    → Result T
unmarshal_flexible text unmarshal raw out =
    let trimmed = trim_space raw in
    if is_empty trimmed || is_null trimmed
    then ok out
    else if is_quoted trimmed
    then (text trimmed >>= λ s. if is_empty s then ok out else unmarshal s out)
    else unmarshal trimmed out

abbrev pub no_stream : RawStreamSettings
no_stream = record {
  network = "";
  security = "";
  tls = record { server_name = ""; alpn = []; fingerprint = "" };
  reality = record {
    server_names = [];
    short_ids = [];
    public_key = "";
    fingerprint = "";
    spider_x = "";
  };
  tcp_header_type = "";
  ws_path = "";
  ws_host = "";
  grpc_service_name = "";
}

abbrev pub or_default : String → String → String
or_default default s = if s == "" then default else s

abbrev pub head_or : String → List String → String
head_or d [] = d
head_or d (x ∷ _) = x

abbrev pub no_tls : TlsSettings
no_tls = record {
  sni = "";
  alpn = [];
  fingerprint = "";
  insecure = false;
  public_key = "";
  short_id = "";
  spider_x = "";
}

unfoldable pub tls_of : String → RawStreamSettings → TlsSettings
tls_of security rs =
    if security == security_tls
    then record no_tls {
      sni = rs.tls.server_name;
      alpn = rs.tls.alpn;
      fingerprint = rs.tls.fingerprint;
    }
    else if security == security_reality
    then record no_tls {
      sni = head_or "" rs.reality.server_names;
      short_id = head_or "" rs.reality.short_ids;
      public_key = rs.reality.public_key;
      fingerprint = rs.reality.fingerprint;
      spider_x = rs.reality.spider_x;
    }
    else no_tls

abbrev pub no_transport : TransportSettings
no_transport = record { path = ""; host = ""; service_name = ""; header_type = "" }

unfoldable pub transport_of : String → RawStreamSettings → TransportSettings
transport_of network rs =
    if network == network_tcp
    then record no_transport { header_type = rs.tcp_header_type }
    else if network == network_ws
    then record no_transport { path = rs.ws_path; host = rs.ws_host }
    else if network == network_grpc
    then record no_transport { service_name = rs.grpc_service_name }
    else no_transport

-- The normalised settings of a decoded value.
unfoldable pub normalize_stream : RawStreamSettings → StreamSettings
unfolding tls_of transport_of
normalize_stream rs =
    let network = or_default network_tcp rs.network in
    let security = or_default security_none rs.security in
    record {
      network = network;
      security = security;
      tls = tls_of security rs;
      transport = transport_of network rs;
    }

abbrev pub wrap_err {ℓ} : {A : Type ℓ} → String → Result A → Result A
wrap_err context (ok a) = ok a
wrap_err context (err e) = err (wrap context e)

abbrev pub applies_to : ℕ → List ℕ → Bool
applies_to id [] = false
applies_to id (b ∷ bs) = eqb b id || applies_to id bs

-- The groups that the loop does not skip.
abbrev pub is_eligible : ℕ → HostGroup → Bool
is_eligible id g = not (g.is_disabled || g.is_hidden) && applies_to id g.inbound_ids

-- !found || g.SortOrder < best.SortOrder
abbrev pub is_better : HostGroup → Option HostGroup → Bool
is_better g none = true
is_better g (some best) = ltb_ℤ g.sort_order best.sort_order

-- The loop of `selectHostForInbound`; `none` is `found == false`.
unfoldable pub select_from : Option HostGroup → List HostGroup → ℕ → Option HostGroup
select_from best [] id = best
select_from best (g ∷ groups) id =
    select_from (if is_eligible id g && is_better g best then some g else best) groups id

unfoldable pub select_host_for_inbound : List HostGroup → ℕ → Option HostGroup
unfolding select_from
select_host_for_inbound groups id = select_from none groups id

abbrev pub first_non_zero : ℕ → ℕ → ℕ
first_non_zero a b = if not (eqb a 0) then a else b

abbrev pub override : String → String → String
override old new = if not (new == "") then new else old

-- "same" keeps the inbound's own security.
abbrev pub override_security : String → String → String
override_security old new = if not (new == "") && not (new == "same") then new else old

abbrev pub override_alpn : List String → List String → List String
override_alpn old [] = old
override_alpn old (x ∷ xs) = x ∷ xs

-- The map of `statsByEmail`: of two entries with one email the later one stays.
unfoldable pub stats_by_email : List ClientStat → String → Option ClientStat
stats_by_email [] email = none
stats_by_email (s ∷ stats) email = elim (stats_by_email stats email) [
  | none ↦ if s.email == email then some s else none
  | some t ↦ some t
]

unfoldable pub is_supported : String → Bool
is_supported protocol =
    protocol == protocol_vless
    || protocol == protocol_vmess
    || protocol == protocol_trojan
    || protocol == protocol_shadowsocks

abbrev pub inherit_zero : ℤ → ℤ → ℤ
inherit_zero own stat = if eqb_ℤ own (pos 0) then stat else own

unfoldable pub account_of : EmbeddedClient → Option ClientStat → ClientAccount
account_of c none = record {
  id = c.id;
  password = c.password;
  method = c.method;
  email = c.email;
  sub_id = c.sub_id;
  flow = c.flow;
  enable = c.enable;
  total_gb = c.total_gb;
  expiry_ms = c.expiry_time;
  up = pos 0;
  down = pos 0;
}
account_of c (some st) = record {
  id = c.id;
  password = c.password;
  method = c.method;
  email = c.email;
  sub_id = c.sub_id;
  flow = c.flow;
  enable = c.enable;
  total_gb = inherit_zero c.total_gb st.total;
  expiry_ms = inherit_zero c.expiry_time st.expiry_time;
  up = st.up;
  down = st.down;
}

module _ (std : Std) where
  unfoldable pub decode_stream_settings : RawMessage → Result StreamSettings
  unfolding normalize_stream unmarshal_flexible
  decode_stream_settings raw =
      wrap_err "decode streamSettings" (unmarshal_flexible std.text std.stream raw no_stream)
      >>= λ rs. ok (normalize_stream rs)

  unfoldable pub decode_clients : RawMessage → Result (List EmbeddedClient)
  unfolding unmarshal_flexible
  decode_clients raw =
      wrap_err "decode settings"
        (unmarshal_flexible std.text std.settings raw (record { clients = [] }))
      >>= λ s. ok s.clients

  unfoldable pub parse_host_address : String → ℕ → String × ℕ
  parse_host_address entry fallback_port = elim (std.split_host_port entry) [
    | err _ ↦ (entry, fallback_port)
    | ok (h, p) ↦ elim (std.atoi p) [ ok parsed ↦ (h, parsed) | err _ ↦ (h, fallback_port) ]
  ]

  -- The address that a host overrides.
  unfoldable pub host_address : List String → ℕ → String → ℕ → String × ℕ
  host_address [] host_port server port = (server, port)
  host_address (entry ∷ _) host_port server port =
      parse_host_address entry (first_non_zero host_port port)

  unfoldable pub apply_host : MatchedClient → HostGroup → MatchedClient
  unfolding host_address parse_host_address
  apply_host mc host =
      let address = host_address host.hosts host.port mc.server mc.port in
      record mc {
        server = address.0;
        port = address.1;
        stream = record mc.stream {
          security = override_security mc.stream.security host.security;
          tls = record mc.stream.tls {
            sni = override mc.stream.tls.sni host.sni;
            alpn = override_alpn mc.stream.tls.alpn host.alpn;
            fingerprint = override mc.stream.tls.fingerprint host.fingerprint;
            insecure = host.allow_insecure;
          };
          transport = record mc.stream.transport {
            path = override mc.stream.transport.path host.path;
            host = override mc.stream.transport.host host.host_header;
          };
        };
      }

  abbrev pub apply_host_if : MatchedClient → Option HostGroup → MatchedClient
  apply_host_if mc none = mc
  apply_host_if mc (some host) = apply_host mc host

  -- One client of one inbound.
  unfoldable pub matched_client :
      Inbound → String → StreamSettings → Option HostGroup → EmbeddedClient → MatchedClient
  unfolding connect_host account_of stats_by_email
  matched_client ib fallback stream host c =
      apply_host_if
        (record {
          inbound_id = ib.id;
          tag = ib.tag;
          remark = ib.remark;
          protocol = ib.protocol;
          server = connect_host ib fallback;
          port = ib.port;
          client = account_of c (stats_by_email ib.client_stats c.email);
          stream = stream;
        })
        host

  -- What an inbound with matches contributes.
  unfoldable pub match_clients :
      Inbound → List HostGroup → String → List EmbeddedClient → Result (List MatchedClient)
  unfolding matched_client
  match_clients ib groups fallback [] = ok []
  match_clients ib groups fallback (c ∷ cs) = do
    stream ← wrap_err "inbound" (decode_stream_settings ib.stream_settings)
    ok (map (matched_client ib fallback stream (select_host_for_inbound groups ib.id)) (c ∷ cs))

  -- One round of the outer loop.
  unfoldable pub match_inbound :
      Inbound → List HostGroup → String → String → Result (List MatchedClient)
  unfolding match_clients
  match_inbound ib groups sub_id fallback =
      if not ib.enable
      then ok []
      else if is_supported ib.protocol
      then (wrap_err "inbound" (decode_clients ib.settings) >>= λ clients.
          match_clients ib groups fallback (select (λ c. c.sub_id == sub_id) clients))
      else ok []

  unfoldable pub matched_clients_by_sub_id :
      List Inbound → List HostGroup → String → String → Result (List MatchedClient)
  unfolding match_inbound
  matched_clients_by_sub_id [] groups sub_id fallback = ok []
  matched_clients_by_sub_id (ib ∷ inbounds) groups sub_id fallback = do
    here ← match_inbound ib groups sub_id fallback
    rest ← matched_clients_by_sub_id inbounds groups sub_id fallback
    ok (here ++ rest)
