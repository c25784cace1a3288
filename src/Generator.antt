-- ===== src/Generator.antt =====
-- internal/generator: what the generators render from. Here internal/generator/tmplctx/tmplctx.go:
-- the parameters of one share link.
pub mod Yaml
pub mod ShareLink
use x_ui_subpage.Prelude.{String, Bool, List}
use x_ui_subpage.Prelude.Int.{ℤ}

-- The struct's field `Email` is always empty.
pub record ClientContext : Type 0 where
  pub protocol : String
  pub uuid : String
  pub password : String
  pub method : String
  pub remark : String
  pub server : String
  pub port : ℤ
  pub flow : String
  pub network : String
  pub security : String
  pub sni : String
  pub alpn : String
  pub fingerprint : String
  pub insecure : Bool
  pub public_key : String
  pub short_id : String
  pub spider_x : String
  pub path : String
  pub host : String
  pub service_name : String
  pub header_type : String
  pub raw_params : List (String × String)
