-- ===== src/Generator/ShareLink/Shadowsocks.antt =====
-- internal/generator/tmplctx/sharelink.go: shadowsocks links, in both of their forms.
use x_ui_subpage.Prelude.{
  String, Option, none, some, [], new, Result, ok, err, ◌>>=◌, in_context, cut, cut_last,
  trim_prefix,
}
use x_ui_subpage.Prelude.Int.{ℤ}
use x_ui_subpage.Domain.{protocol_shadowsocks}
use x_ui_subpage.Generator.{ClientContext}
use x_ui_subpage.Generator.ShareLink.{Params, Std, no_context, decode_base64_any, checked_atoi}

-- A text that is unescaped where it can be.
abbrev pub unescaped : Std → String → String
unescaped std s = elim (std.query_unescape s) [ ok plain ↦ plain | err _ ↦ s ]

-- The link without its fragment, and the remark in the fragment.
abbrev pub without_remark : Std → String → Option (String × String) → String × String
without_remark std rest none = (rest, "")
without_remark std rest (some (body, fragment)) = (body, unescaped std fragment)

abbrev pub credentials_of : Std → String → String
credentials_of std userinfo = elim (decode_base64_any std userinfo) [
  | ok decoded ↦ decoded
  | err _ ↦ unescaped std userinfo
]

abbrev pub legacy_parts : Option (String × String) → Result (String × String)
legacy_parts none = err (new "tmplctx: legacy shadowsocks link missing '@'")
legacy_parts (some parts) = ok parts

-- The method with the password, and the host with the port.
abbrev pub parts_of : Std → String → Option (String × String) → Result (String × String)
parts_of std rest (some (userinfo, host_port)) = ok (credentials_of std userinfo, host_port)
parts_of std rest none = do
  full ← in_context "tmplctx: decode legacy shadowsocks link" (decode_base64_any std rest)
  legacy_parts (cut_last 64 full)

-- The host with the port, and the parameters behind them.
abbrev pub without_query : Std → String → Option (String × String) → String × Params
without_query std host_port none = (host_port, [])
without_query std host_port (some (before, query)) =
    (before, elim (std.parse_query query) [ ok q ↦ q | err _ ↦ [] ])

abbrev pub method_password : Option (String × String) → Result (String × String)
method_password none = err (new "tmplctx: shadowsocks link method:password malformed")
method_password (some parts) = ok parts

abbrev pub shadowsocks_context : String → String → String → ℤ → String → Params → ClientContext
shadowsocks_context method password server port remark params = record no_context {
  protocol = protocol_shadowsocks;
  method = method;
  password = password;
  server = server;
  port = port;
  remark = remark;
  network = "tcp";
  security = "none";
  raw_params = params;
}

-- From the query on.
abbrev pub finished : Std → String → String → String × Params → Result ClientContext
finished std remark credentials (host_port, params) = do
  (method, password) ← method_password (cut credentials ":")
  (server, port_text) ←
      in_context "tmplctx: shadowsocks link host:port malformed" (std.split_host_port host_port)
  port ← in_context "tmplctx: shadowsocks link port malformed" (checked_atoi std port_text)
  ok (shadowsocks_context method password server port remark params)

unfoldable pub parse_shadowsocks : Std → String → Result ClientContext
unfolding decode_base64_any cut cut_last
parse_shadowsocks std link =
    let all = trim_prefix link "ss://" in
    let (rest, remark) = without_remark std all (cut all "#") in
    parts_of std rest (cut rest "@") >>= λ parts.
    finished std remark parts.0 (without_query std parts.1 (cut parts.1 "?"))
