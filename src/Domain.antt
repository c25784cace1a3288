-- ===== src/Domain.antt =====
-- internal/domain/domain.go: the types shared by the service. A protocol, a network and a security
-- are texts, with the source's constants.
use x_ui_subpage.Prelude.{ℕ, String, Bool, Option, List, if◌then◌else◌}
use x_ui_subpage.Prelude.Int.{ℤ, pos, negsuc, eqb_ℤ, ltb_ℤ, add64, sub64}

abbrev pub protocol_vless : String
protocol_vless = "vless"

abbrev pub protocol_vmess : String
protocol_vmess = "vmess"

abbrev pub protocol_trojan : String
protocol_trojan = "trojan"

abbrev pub protocol_shadowsocks : String
protocol_shadowsocks = "shadowsocks"

abbrev pub security_none : String
security_none = "none"

abbrev pub security_tls : String
security_tls = "tls"

abbrev pub security_reality : String
security_reality = "reality"

abbrev pub network_tcp : String
network_tcp = "tcp"

abbrev pub network_ws : String
network_ws = "ws"

abbrev pub network_grpc : String
network_grpc = "grpc"

abbrev pub network_xhttp : String
network_xhttp = "xhttp"

pub record TlsSettings : Type 0 where
  pub sni : String
  pub alpn : List String
  pub fingerprint : String
  pub insecure : Bool
  pub public_key : String
  pub short_id : String
  pub spider_x : String

pub record TransportSettings : Type 0 where
  pub path : String
  pub host : String
  pub service_name : String
  pub header_type : String

pub record StreamSettings : Type 0 where
  pub network : String
  pub security : String
  pub tls : TlsSettings
  pub transport : TransportSettings

pub record ClientAccount : Type 0 where
  pub id : String
  pub password : String
  pub method : String
  pub email : String
  pub sub_id : String
  pub flow : String
  pub enable : Bool
  pub total_gb : ℤ
  pub expiry_ms : ℤ
  pub up : ℤ
  pub down : ℤ

pub record MatchedClient : Type 0 where
  pub inbound_id : ℕ
  pub tag : String
  pub remark : String
  pub protocol : String
  pub server : String
  pub port : ℕ
  pub client : ClientAccount
  pub stream : StreamSettings

pub record TrafficStats : Type 0 where
  pub up : ℤ
  pub down : ℤ
  pub total : ℤ

unfoldable pub used : TrafficStats → ℤ
unfolding add64
used t = add64 t.up t.down

unfoldable pub remaining : TrafficStats → ℤ
unfolding sub64 used
remaining t =
    if eqb_ℤ t.total (pos 0)
    then negsuc 0
    else (let r = sub64 t.total (used t) in if ltb_ℤ r (pos 0) then pos 0 else r)

pub data Status : Type 0 where
  active expired depleted disabled : Status

-- `expires_at` is in milliseconds since the Unix epoch.
pub record Subscription : Type 0 where
  pub sub_id : String
  pub username : String
  pub status : Status
  pub expires_at : Option ℤ
  pub traffic : TrafficStats
  pub clients : List MatchedClient
  pub links : List String
