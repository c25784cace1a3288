-- ===== src/Xui/Models.antt =====
-- internal/xui/models.go: the panel's records. An int64 and a sort order are signed integers; ids
-- and ports are natural numbers. Raw JSON is a list of bytes.
use x_ui_subpage.Prelude.{ℕ, String, Bool, List}
use x_ui_subpage.Prelude.Int.{ℤ}

pub record ClientStat : Type 0 where
  pub email : String
  pub enable : Bool
  pub up : ℤ
  pub down : ℤ
  pub total : ℤ
  pub expiry_time : ℤ

abbrev pub RawMessage : Type 0
RawMessage = List ℕ

pub record Inbound : Type 0 where
  pub id : ℕ
  pub up : ℤ
  pub down : ℤ
  pub total : ℤ
  pub remark : String
  pub enable : Bool
  pub expiry_time : ℤ
  pub listen : String
  pub port : ℕ
  pub protocol : String
  pub settings : RawMessage
  pub stream_settings : RawMessage
  pub tag : String
  pub sniffing : RawMessage
  pub client_stats : List ClientStat

pub record EmbeddedClient : Type 0 where
  pub id : String
  pub password : String
  pub method : String
  pub flow : String
  pub email : String
  pub sub_id : String
  pub enable : Bool
  pub total_gb : ℤ
  pub expiry_time : ℤ

pub record ManagedClient : Type 0 where
  pub id : ℕ
  pub email : String
  pub sub_id : String
  pub uuid : String
  pub password : String
  pub flow : String
  pub enable : Bool
  pub total_gb : ℤ
  pub expiry_time : ℤ

pub record HostGroup : Type 0 where
  pub group_id : String
  pub inbound_ids : List ℕ
  pub hosts : List String
  pub sort_order : ℤ
  pub is_disabled : Bool
  pub is_hidden : Bool
  pub port : ℕ
  pub security : String
  pub sni : String
  pub host_header : String
  pub path : String
  pub alpn : List String
  pub fingerprint : String
  pub allow_insecure : Bool

pub record RawSettings : Type 0 where
  pub clients : List EmbeddedClient

pub record RawTlsSettings : Type 0 where
  pub server_name : String
  pub alpn : List String
  pub fingerprint : String

pub record RawRealitySettings : Type 0 where
  pub server_names : List String
  pub short_ids : List String
  pub public_key : String
  pub fingerprint : String
  pub spider_x : String

-- `ws_host` is the header map's entry "Host", which is "" when absent.
pub record RawStreamSettings : Type 0 where
  pub network : String
  pub security : String
  pub tls : RawTlsSettings
  pub reality : RawRealitySettings
  pub tcp_header_type : String
  pub ws_path : String
  pub ws_host : String
  pub grpc_service_name : String
