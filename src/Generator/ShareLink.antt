-- ===== src/Generator/ShareLink.antt =====
-- internal/generator/tmplctx/sharelink.go: the share links that the panel renders, read back into the
-- parameters of a connection. Here vless, trojan and vmess links.
pub mod Shadowsocks
pub mod Links
pub mod Forms
mod Tests
use x_ui_subpage.Prelude.{
  String, Bool, true, false, ◌||◌, Option, none, some, List, [], ◌∷◌, if◌then◌else◌, ◌==◌, Error,
  new, wrap, Result, ok, err, ◌>>=◌, in_context, concat, cut, cut_last, trim_prefix,
}
use x_ui_subpage.Prelude.Int.{ℤ, pos}
use x_ui_subpage.Domain.{protocol_vless, protocol_vmess, protocol_trojan}
use x_ui_subpage.Generator.{ClientContext}

-- A map from texts to texts.
abbrev pub Params : Type 0
Params = List (String × String)

-- What url.Parse gives, with the methods that are called on it; a query has the first value of each
-- key.
pub record Url : Type 0 where
  pub username : String
  pub hostname : String
  pub port : String
  pub fragment : String
  pub query : Params

-- A JSON value: null, a text, or another one with what fmt.Sprint prints.
pub data Value : Type 0 where
  null : Value
  text : String → Value
  other : String → Value

pub data Encoding : Type 0 where
  standard raw_standard url raw_url : Encoding

-- What this code calls of strings, net/url, net, strconv, encoding/base64 and encoding/json.
-- strconv.Atoi gives a number beside an error, too.
pub record Std : Type 0 where
  pub to_lower : String → String
  pub equal_fold : String → String → Bool
  pub parse_url : String → Result Url
  pub query_unescape : String → Result String
  pub parse_query : String → Result Params
  pub split_host_port : String → Result (String × String)
  pub atoi : String → ℤ × Option Error
  pub decode : Encoding → String → Result String
  pub unmarshal : String → Result (List (String × Value))

-- The value of a key, and the empty text without it.
unfoldable pub lookup : Params → String → String
lookup [] k = ""
lookup ((k', v) ∷ params) k = let later = lookup params k in if k' == k then v else later

abbrev pub field : List (String × Value) → String → Value
field [] k = null
field ((k', v) ∷ raw) k = let later = field raw k in if k' == k then v else later

-- `stringField`, where a key that is missing and one that is null are alike.
abbrev pub string_of : Value → String
string_of null = ""
string_of (text s) = s
string_of (other printed) = printed

unfoldable pub string_field : List (String × Value) → String → String
string_field raw k = string_of (field raw k)

abbrev pub sprint : Value → String
sprint null = "<nil>"
sprint (text s) = s
sprint (other printed) = printed

abbrev pub printed_params : List (String × Value) → Params
printed_params [] = []
printed_params ((k, v) ∷ raw) = (k, sprint v) ∷ printed_params raw

abbrev pub first_non_empty : String → String → String
first_non_empty s fallback = if s == "" then fallback else s

abbrev pub is_truthy : Std → String → Bool
is_truthy std s = s == "1" || std.equal_fold s "true"

abbrev pub or_else : Result String → Result String → Result String
or_else (ok s) later = ok s
or_else (err _) later = later

-- The four encodings, in the order of the loop.
unfoldable pub decode_base64_any : Std → String → Result String
decode_base64_any std s = or_else (std.decode standard s) (
    or_else (std.decode raw_standard s) (
      or_else (std.decode url s)
        (or_else (std.decode raw_url s) (err (new "not valid base64 in any known variant")))))

-- The number that strconv.Atoi reads, as a value or an error.
abbrev pub checked_atoi : Std → String → Result ℤ
checked_atoi std s = elim (std.atoi s).1 [ none ↦ ok (std.atoi s).0 | some e ↦ err e ]

-- The zero value of the struct.
abbrev pub no_context : ClientContext
no_context = record {
  protocol = "";
  uuid = "";
  password = "";
  method = "";
  remark = "";
  server = "";
  port = pos 0;
  flow = "";
  network = "";
  security = "";
  sni = "";
  alpn = "";
  fingerprint = "";
  insecure = false;
  public_key = "";
  short_id = "";
  spider_x = "";
  path = "";
  host = "";
  service_name = "";
  header_type = "";
  raw_params = [];
}

-- What the query of a vless or trojan link carries.
abbrev pub uri_context : Std → String → Url → ℤ → ClientContext
uri_context std protocol u port =
    let q = u.query in
    record no_context {
      protocol = protocol;
      server = u.hostname;
      port = port;
      remark = u.fragment;
      network = first_non_empty (lookup q "type") "tcp";
      security = first_non_empty (lookup q "security") "none";
      flow = lookup q "flow";
      sni = lookup q "sni";
      alpn = lookup q "alpn";
      fingerprint = lookup q "fp";
      insecure = is_truthy std (lookup q "allowInsecure");
      public_key = lookup q "pbk";
      short_id = lookup q "sid";
      spider_x = lookup q "spx";
      path = lookup q "path";
      host = lookup q "host";
      service_name = lookup q "serviceName";
      raw_params = q;
    }

-- The user of the link is the uuid of a vless client and the password of a trojan client.
abbrev pub with_user : String → String → ClientContext → ClientContext
with_user protocol user client =
    if protocol == protocol_vless
    then record client { uuid = user }
    else if protocol == protocol_trojan
    then record client { password = user }
    else client

unfoldable pub parse_uri_scheme : Std → String → String → Result ClientContext
unfolding lookup
parse_uri_scheme std link protocol = do
  u ← in_context (concat ("tmplctx: parse " ∷ protocol ∷ " link" ∷ [])) (std.parse_url link)
  port ← in_context (concat ("tmplctx: parse " ∷ protocol ∷ " port" ∷ [])) (checked_atoi std u.port)
  ok (with_user protocol u.username (uri_context std protocol u port))

abbrev pub before_or_all : String → Option (String × String) → String
before_or_all s none = s
before_or_all s (some (before, _)) = before

abbrev pub vmess_context : Std → List (String × Value) → ClientContext
vmess_context std raw = record no_context {
  protocol = protocol_vmess;
  uuid = string_field raw "id";
  remark = string_field raw "ps";
  server = string_field raw "add";
  port = (std.atoi (string_field raw "port")).0;
  network = first_non_empty (string_field raw "net") "tcp";
  security = first_non_empty (string_field raw "tls") "none";
  sni = string_field raw "sni";
  alpn = string_field raw "alpn";
  fingerprint = string_field raw "fp";
  path = string_field raw "path";
  host = string_field raw "host";
  header_type = string_field raw "type";
  raw_params = printed_params raw;
}

unfoldable pub parse_vmess : Std → String → Result ClientContext
unfolding string_field decode_base64_any cut
parse_vmess std link =
    let body = trim_prefix link "vmess://" in
    do
      decoded ←
          in_context "tmplctx: base64-decode vmess link"
            (decode_base64_any std (before_or_all body (cut body "#")))
      raw ← in_context "tmplctx: parse vmess JSON" (std.unmarshal decoded)
      ok (vmess_context std raw)
