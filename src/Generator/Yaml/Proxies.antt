-- ===== src/Generator/Yaml/Proxies.antt =====
-- Every client's proxy has its name, type, server and port, whatever its protocol adds.
use x_ui_subpage.Prelude.{
  ◌≡◌, refl, subst, inl, inr, Bool, true, false, not, Bool-cases, List, [], ◌∷◌, if◌then◌else◌,
  ◌==◌, Error, ok, err, ok-injective,
}
use x_ui_subpage.Prelude.Int.{pos}
use x_ui_subpage.Domain.{
  protocol_vless, protocol_vmess, protocol_trojan, protocol_shadowsocks, security_reality,
  security_tls, security_none, network_ws, network_grpc, network_xhttp,
}
use x_ui_subpage.Generator.{ClientContext}
use x_ui_subpage.Generator.Yaml.{
  Node, Std, key, str, num, boolean, nodes, map_append, append_if, transport_pairs, security_pairs,
  append_transport_opts, skip_cert_verify, append_vless, append_vmess, append_trojan,
  append_shadowsocks, proxy_base, build_proxy_node,
}
use x_ui_subpage.Generator.Yaml.Lookups.{
  IsPaired, IsMapping, Extends, Extends-trans, map_append-Extends,
}

Extends-refl : (m : Node) → IsMapping m → Extends m m
Extends-refl m is = (is, λ k v e. e)

append_if-Extends :
    (b : Bool) (pairs : List Node) (m : Node)
    → IsMapping m
    → IsPaired (nodes pairs)
    → Extends m (append_if b pairs m)
append_if-Extends true pairs m is added = map_append-Extends m pairs is added
append_if-Extends false pairs m is added = Extends-refl m is

transport_pairs-IsPaired : (client : ClientContext) → IsPaired (nodes (transport_pairs client))
transport_pairs-IsPaired client = elim (Bool-cases (client.network == network_ws)) [
  | inl ws ↦ rw ws tt
  | inr no_ws ↦ elim (Bool-cases (client.network == network_grpc)) [
    | inl grpc ↦ rw (no_ws, grpc) tt
    | inr no_grpc ↦ elim (Bool-cases (client.network == network_xhttp)) [
      | inl xhttp ↦ rw (no_ws, no_grpc, xhttp) tt
      | inr other ↦ rw (no_ws, no_grpc, other) tt
    ]
  ]
]

security_pairs-IsPaired : (client : ClientContext) → IsPaired (nodes (security_pairs client))
security_pairs-IsPaired client = elim (Bool-cases (client.security == security_reality)) [
  | inl reality ↦ rw reality tt
  | inr no_reality ↦ elim (Bool-cases (client.security == security_tls)) [
    | inl tls ↦ rw (no_reality, tls) tt
    | inr other ↦ rw (no_reality, other) tt
  ]
]

-- Pairs behind those that came before.
and_append :
    (l m : Node) (pairs : List Node)
    → Extends l m
    → IsPaired (nodes pairs)
    → Extends l (map_append m pairs)
and_append l m pairs f added =
    Extends-trans l m (map_append m pairs) f (map_append-Extends m pairs f.0 added)

and_append_if :
    (b : Bool) (l m : Node) (pairs : List Node)
    → Extends l m
    → IsPaired (nodes pairs)
    → Extends l (append_if b pairs m)
and_append_if true l m pairs f added = and_append l m pairs f added
and_append_if false l m pairs f added = f

append_vless-Extends :
    (client : ClientContext) (m : Node) → IsMapping m → Extends m (append_vless client m)
unfolding append_vless append_transport_opts
append_vless-Extends client m is =
    and_append m _ (transport_pairs client)
      (and_append m _ (security_pairs client)
        (and_append_if (not (client.flow == "")) m _ (key "flow" ∷ str client.flow ∷ [])
          (and_append_if client.insecure m _ skip_cert_verify
            (map_append-Extends m
              (key "uuid"
                ∷ str client.uuid
                ∷ key "network"
                ∷ key client.network
                ∷ key "tls"
                ∷ boolean (not (client.security == security_none))
                ∷ [])
              is tt)
            tt)
          tt)
        (security_pairs-IsPaired client))
      (transport_pairs-IsPaired client)

append_vmess-Extends :
    (std : Std) (client : ClientContext) (m : Node)
    → IsMapping m
    → Extends m (append_vmess std client m)
unfolding append_vmess append_transport_opts
append_vmess-Extends std client m is =
    and_append m _ (transport_pairs client)
      (and_append_if client.insecure m _ skip_cert_verify
        (map_append-Extends m
          (key "uuid"
            ∷ str client.uuid
            ∷ key "alterId"
            ∷ num std (pos 0)
            ∷ key "cipher"
            ∷ key "auto"
            ∷ key "network"
            ∷ key client.network
            ∷ key "tls"
            ∷ boolean (not (client.security == security_none))
            ∷ [])
          is tt)
        tt)
      (transport_pairs-IsPaired client)

append_trojan-Extends :
    (client : ClientContext) (m : Node) → IsMapping m → Extends m (append_trojan client m)
unfolding append_trojan
append_trojan-Extends client m is =
    and_append_if client.insecure m _ skip_cert_verify
      (and_append_if (not (client.sni == "")) m _ (key "sni" ∷ str client.sni ∷ [])
        (map_append-Extends m (key "password" ∷ str client.password ∷ []) is tt) tt)
      tt

append_shadowsocks-Extends :
    (client : ClientContext) (m : Node) → IsMapping m → Extends m (append_shadowsocks client m)
unfolding append_shadowsocks
append_shadowsocks-Extends client m is =
    map_append-Extends m
      (key "cipher" ∷ str client.method ∷ key "password" ∷ str client.password ∷ []) is tt

refused : {A : Type 0} {x : Error} {a : A} → err x ≡ ok a → ⊥
refused q = cc

-- What the last test of the protocol lets through.
let_through : (b : Bool) (m n : Node) (x : Error) → (if b then ok m else err x) ≡ ok n → m ≡ n
let_through true m n x e = ok-injective e
let_through false m n x e = absurd (refused e)

-- A proxy that is built has what all proxies have, whatever its protocol appends.
pub build_proxy_node-Extends :
    (std : Std) (client : ClientContext) (n : Node)
    → build_proxy_node std client ≡ ok n
    → Extends (proxy_base std client) n
unfolding build_proxy_node
build_proxy_node-Extends std client n e = elim (Bool-cases (client.protocol == protocol_vless)) [
  | inl vless ↦
      subst (Extends (proxy_base std client)) (ok-injective (rw vless at e))
        (append_vless-Extends client (proxy_base std client) (refl, tt))
  | inr no_vless ↦ elim (Bool-cases (client.protocol == protocol_vmess)) [
    | inl vmess ↦
        subst (Extends (proxy_base std client)) (ok-injective (rw (no_vless, vmess) at e))
          (append_vmess-Extends std client (proxy_base std client) (refl, tt))
    | inr no_vmess ↦ elim (Bool-cases (client.protocol == protocol_trojan)) [
      | inl trojan ↦
          subst (Extends (proxy_base std client))
            (ok-injective (rw (no_vless, no_vmess, trojan) at e))
            (append_trojan-Extends client (proxy_base std client) (refl, tt))
      | inr no_trojan ↦
          subst (Extends (proxy_base std client))
            (let_through (client.protocol == protocol_shadowsocks)
              (append_shadowsocks client (proxy_base std client)) n _
              (rw (no_vless, no_vmess, no_trojan) at e))
            (append_shadowsocks-Extends client (proxy_base std client) (refl, tt))
    ]
  ]
]
