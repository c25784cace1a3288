-- ===== src/Generator/Yaml.antt =====
-- internal/generator/yamlgen/inject.go: YAML nodes, and the proxies and the proxy groups that are put
-- into the document of a template. A mapping's content is its keys and values in turn.
pub mod Groups
pub mod Document
pub mod Lookups
pub mod Options
pub mod Choices
pub mod Refusals
pub mod Additions
pub mod Proxies
pub mod Injected
pub mod Rendered
mod Tests
use x_ui_subpage.Prelude.{
  ℕ, String, Bool, true, false, not, ◌&&◌, Option, none, some, List, [], ◌∷◌, ◌++◌, map, length,
  if◌then◌else◌, ◌==◌, Error, new, wrap, Result, ok, err, ◌>>=◌,
}
use x_ui_subpage.Prelude.Int.{ℤ, pos}
use x_ui_subpage.Domain.{
  protocol_vless, protocol_vmess, protocol_trojan, protocol_shadowsocks, security_none,
  security_tls, security_reality, network_ws, network_grpc, network_xhttp,
}
use x_ui_subpage.Generator.{ClientContext}

pub data Kind : Type 0 where
  zero_kind document scalar mapping_kind sequence alias : Kind

pub data Style : Type 0 where
  plain double_quoted : Style

-- gopkg.in/yaml.v3's Node, with the fields that this code reads or writes.
mutual
  pub data Node : Type 0 where
    node : Kind → String → String → Style → Content → Node

  pub data Content : Type 0 where
    empty : Content
    more : Node → Content → Content

abbrev pub kind_of : Node → Kind
kind_of (node kind _ _ _ _) = kind

abbrev pub value_of : Node → String
value_of (node _ _ value _ _) = value

abbrev pub content_of : Node → Content
content_of (node _ _ _ _ content) = content

abbrev pub with_content : Node → Content → Node
with_content (node kind tag value style _) content = node kind tag value style content

abbrev pub is_mapping : Node → Bool
is_mapping (node mapping_kind _ _ _ _) = true
is_mapping _ = false

abbrev pub is_sequence : Node → Bool
is_sequence (node sequence _ _ _ _) = true
is_sequence _ = false

abbrev pub nodes : List Node → Content
nodes [] = empty
nodes (n ∷ ns) = more n (nodes ns)

-- append(content, ns...)
unfoldable pub append : Content → Content → Content
append empty ns = ns
append (more n content) ns = more n (append content ns)

-- strconv.Itoa, regexp.Compile with MatchString, Node.Decode into a bool, rand.Intn and rand.Shuffle.
pub record Std : Type 0 where
  pub itoa : ℤ → String
  pub compile : String → Result (String → Bool)
  pub decode_bool : Node → Result Bool
  pub intn : ℕ → ℕ
  pub shuffle : List String → List String

abbrev pub key : String → Node
key s = node scalar "!!str" s plain empty

abbrev pub str : String → Node
str s = node scalar "!!str" s double_quoted empty

abbrev pub num : Std → ℤ → Node
num std i = node scalar "!!int" (std.itoa i) plain empty

abbrev pub boolean : Bool → Node
boolean b = node scalar "!!bool" (if b then "true" else "false") plain empty

abbrev pub mapping : List Node → Node
mapping pairs = node mapping_kind "" "" plain (nodes pairs)

abbrev pub map_append : Node → List Node → Node
map_append m pairs = with_content m (append (content_of m) (nodes pairs))

-- The loop of `mapGet` over the pairs of a mapping.
unfoldable pub find : Content → String → Option Node
find empty key_name = none
find (more k empty) key_name = none
find (more k (more v rest)) key_name =
    let later = find rest key_name in if value_of k == key_name then some v else later

unfoldable pub map_get : Node → String → Option Node
unfolding find
map_get m key_name = if is_mapping m then find (content_of m) key_name else none

-- The loop of `mapSet`, with the pair that is appended at the end.
unfoldable pub put : Content → String → Node → Content
put empty key_name value = more (key key_name) (more value empty)
put (more k empty) key_name value = more k (more (key key_name) (more value empty))
put (more k (more v rest)) key_name value =
    let later = put rest key_name value in
    if value_of k == key_name then more k (more value rest) else more k (more v later)

unfoldable pub map_set : Node → String → Node → Node
unfolding put
map_set m key_name value = with_content m (put (content_of m) key_name value)

-- The loop of `mapDelete`: the content without the pair.
unfoldable pub drop : Content → String → Content
drop empty key_name = empty
drop (more k empty) key_name = more k empty
drop (more k (more v rest)) key_name =
    let later = drop rest key_name in if value_of k == key_name then rest else more k (more v later)

-- `mapDelete` does not look at the kind.
unfoldable pub map_delete : Node → String → Node × Option Node
unfolding find drop
map_delete m key_name =
    (with_content m (drop (content_of m) key_name), find (content_of m) key_name)

abbrev pub proxy_type : String → String
proxy_type protocol = if protocol == protocol_shadowsocks then "ss" else protocol

abbrev pub append_if : Bool → List Node → Node → Node
append_if b pairs m = if b then map_append m pairs else m

-- What the network appends, if anything.
abbrev pub transport_pairs : ClientContext → List Node
transport_pairs cc =
    if cc.network == network_ws
    then key "ws-opts"
      ∷ mapping
          (key "path" ∷ str cc.path ∷ key "headers" ∷ mapping (key "Host" ∷ str cc.host ∷ []) ∷ [])
      ∷ []
    else if cc.network == network_grpc
    then key "grpc-opts" ∷ mapping (key "grpc-service-name" ∷ str cc.service_name ∷ []) ∷ []
    else if cc.network == network_xhttp
    then key "xhttp-opts" ∷ mapping (key "path" ∷ str cc.path ∷ key "host" ∷ str cc.host ∷ []) ∷ []
    else []

unfoldable pub append_transport_opts : ClientContext → Node → Node
unfolding append
append_transport_opts cc m = map_append m (transport_pairs cc)

-- What the security of a VLESS client appends, if anything.
abbrev pub security_pairs : ClientContext → List Node
security_pairs cc =
    if cc.security == security_reality
    then key "servername"
      ∷ str cc.sni
      ∷ key "client-fingerprint"
      ∷ str cc.fingerprint
      ∷ key "reality-opts"
      ∷ mapping (key "public-key" ∷ str cc.public_key ∷ key "short-id" ∷ str cc.short_id ∷ [])
      ∷ []
    else if cc.security == security_tls
    then key "servername" ∷ str cc.sni ∷ key "client-fingerprint" ∷ str cc.fingerprint ∷ []
    else []

abbrev pub append_security : ClientContext → Node → Node
append_security cc m = map_append m (security_pairs cc)

abbrev pub skip_cert_verify : List Node
skip_cert_verify = key "skip-cert-verify" ∷ boolean true ∷ []

unfoldable pub append_vless : ClientContext → Node → Node
unfolding append append_transport_opts
append_vless cc m = append_transport_opts cc (
    append_security cc (
      append_if (not (cc.flow == "")) (key "flow" ∷ str cc.flow ∷ []) (
        append_if cc.insecure skip_cert_verify (
          map_append m (
            key "uuid"
            ∷ str cc.uuid
            ∷ key "network"
            ∷ key cc.network
            ∷ key "tls"
            ∷ boolean (not (cc.security == security_none))
            ∷ [])))))

unfoldable pub append_vmess : Std → ClientContext → Node → Node
unfolding append append_transport_opts
append_vmess std cc m = append_transport_opts cc (
    append_if cc.insecure skip_cert_verify (
      map_append m (
        key "uuid"
        ∷ str cc.uuid
        ∷ key "alterId"
        ∷ num std (pos 0)
        ∷ key "cipher"
        ∷ key "auto"
        ∷ key "network"
        ∷ key cc.network
        ∷ key "tls"
        ∷ boolean (not (cc.security == security_none))
        ∷ [])))

unfoldable pub append_trojan : ClientContext → Node → Node
unfolding append
append_trojan cc m = append_if cc.insecure skip_cert_verify (
    append_if (not (cc.sni == "")) (key "sni" ∷ str cc.sni ∷ [])
      (map_append m (key "password" ∷ str cc.password ∷ [])))

unfoldable pub append_shadowsocks : ClientContext → Node → Node
unfolding append
append_shadowsocks cc m =
    map_append m (key "cipher" ∷ str cc.method ∷ key "password" ∷ str cc.password ∷ [])

abbrev pub proxy_base : Std → ClientContext → Node
proxy_base std cc = mapping (
    key "name"
    ∷ str cc.remark
    ∷ key "type"
    ∷ key (proxy_type cc.protocol)
    ∷ key "server"
    ∷ str cc.server
    ∷ key "port"
    ∷ num std cc.port
    ∷ key "udp"
    ∷ boolean true
    ∷ [])

unfoldable pub build_proxy_node : Std → ClientContext → Result Node
unfolding append_vless append_vmess append_trojan append_shadowsocks
build_proxy_node std cc =
    if cc.protocol == protocol_vless
    then ok (append_vless cc (proxy_base std cc))
    else if cc.protocol == protocol_vmess
    then ok (append_vmess std cc (proxy_base std cc))
    else if cc.protocol == protocol_trojan
    then ok (append_trojan cc (proxy_base std cc))
    else if cc.protocol == protocol_shadowsocks
    then ok (append_shadowsocks cc (proxy_base std cc))
    else err (new "unknown protocol")
