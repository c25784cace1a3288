-- ===== src/Routing.antt =====
-- internal/routing: the routing profiles of the subscribers for the apps Happ and Incy, the state of
-- the generator page, and the encoding of a profile for the apps.
pub mod Migration
mod Tests
use x_ui_subpage.Prelude.{
  ℕ, ◌/◌, String, Bool, true, false, not, Option, none, some, List, [], ◌∷◌, if◌then◌else◌, eqb,
  ◌==◌, Error, new, wrap, Result, ok, err, ◌>>=◌, Fault, first, upsert, delete_where,
}

pub record Profile : Type 0 where
  pub global_proxy : Bool
  pub route_order : String
  pub domain_strategy : String
  pub remote_dns_type : String
  pub remote_dns_domain : String
  pub remote_dns_ip : String
  pub domestic_dns_type : String
  pub domestic_dns_domain : String
  pub domestic_dns_ip : String
  pub dns_hosts : List (String × String)
  pub geo_ip_url : String
  pub geo_site_url : String
  pub direct_sites : List String
  pub direct_ip : List String
  pub proxy_sites : List String
  pub proxy_ip : List String
  pub block_sites : List String
  pub block_ip : List String
  pub fake_dns : Bool
  pub use_chunk_files : Bool

pub record WireProfile : Type 0 where
  pub name : String
  pub global_proxy : String
  pub route_order : String
  pub domain_strategy : String
  pub remote_dns_type : String
  pub remote_dns_domain : String
  pub remote_dns_ip : String
  pub domestic_dns_type : String
  pub domestic_dns_domain : String
  pub domestic_dns_ip : String
  pub dns_hosts : List (String × String)
  pub geoipurl : String
  pub geositeurl : String
  pub direct_sites : List String
  pub direct_ip : List String
  pub proxy_sites : List String
  pub proxy_ip : List String
  pub block_sites : List String
  pub block_ip : List String
  pub fake_dns : String
  pub use_chunk_files : Bool
  pub last_updated : String

-- encoding/json, encoding/base64 and strconv.FormatInt.
pub record Codec : Type 0 where
  pub marshal_indent : WireProfile → Result String
  pub marshal : WireProfile → Result String
  pub base64 : String → String
  pub format_int : ℕ → String
  pub marshal_profile : Profile → Result String
  pub unmarshal_profile : String → Result Profile

pub record GeneratedRouting : Type 0 where
  pub preview_json : String
  pub base64 : String

abbrev pub bool_string : Bool → String
bool_string b = if b then "true" else "false"

abbrev pub second : ℕ
second = 1_000_000_000

unfoldable pub to_wire : Codec → ℕ → String → Profile → WireProfile
to_wire codec now name p = record {
  name = name;
  global_proxy = bool_string p.global_proxy;
  route_order = p.route_order;
  domain_strategy = p.domain_strategy;
  remote_dns_type = p.remote_dns_type;
  remote_dns_domain = p.remote_dns_domain;
  remote_dns_ip = p.remote_dns_ip;
  domestic_dns_type = p.domestic_dns_type;
  domestic_dns_domain = p.domestic_dns_domain;
  domestic_dns_ip = p.domestic_dns_ip;
  dns_hosts = p.dns_hosts;
  geoipurl = p.geo_ip_url;
  geositeurl = p.geo_site_url;
  direct_sites = p.direct_sites;
  direct_ip = p.direct_ip;
  proxy_sites = p.proxy_sites;
  proxy_ip = p.proxy_ip;
  block_sites = p.block_sites;
  block_ip = p.block_ip;
  fake_dns = bool_string p.fake_dns;
  use_chunk_files = p.use_chunk_files;
  last_updated = codec.format_int (now / second);
}

abbrev pub in_context {ℓ} : {A : Type ℓ} → String → Result A → Result A
in_context context (ok a) = ok a
in_context context (err e) = err (wrap context e)

unfoldable pub encode : Codec → ℕ → String → Profile → Result GeneratedRouting
unfolding to_wire
encode codec now name p = do
  pretty ← in_context "routing: encode preview" (codec.marshal_indent (to_wire codec now name p))
  compact ← in_context "routing: encode base64" (codec.marshal (to_wire codec now name p))
  ok (record { preview_json = pretty; base64 = codec.base64 compact })

-- A row of `user_routing`; `config` is the column of the old shape, empty where there is none.
pub record Row : Type 0 where
  pub sub_id : String
  pub enabled : ℕ
  pub routing_b64 : String
  pub updated_at : ℕ
  pub config : String

-- The row of `routing_generator`.
pub record Generator : Type 0 where
  pub name : String
  pub profile : String
  pub generated_b64 : String
  pub updated_at : ℕ

pub record Db : Type 0 where
  pub rows : List Row
  pub generator : Option Generator

abbrev pub is_for : String → Row → Bool
is_for sub_id r = r.sub_id == sub_id

abbrev pub scanned : Fault → Option Row → Result (Bool × String)
scanned (some cause) row = err (wrap "routing: query" (new cause))
scanned none none = ok (false, "")
scanned none (some r) = ok (not (eqb r.enabled 0), r.routing_b64)

unfoldable pub get : Fault → String → Db → Result (Bool × String)
get fault sub_id db = scanned fault (first (is_for sub_id) db.rows)

abbrev pub flag : Bool → ℕ
flag b = if b then 1 else 0

unfoldable pub set : Fault → ℕ → String → Bool → String → Db → Db × Option Error
set (some cause) now sub_id enabled routing_b64 db = (db, some (wrap "routing: set" (new cause)))
set none now sub_id enabled routing_b64 db = (
  record db {
    rows =
        upsert (is_for sub_id)
          (λ (r : Row). record r {
            enabled = flag enabled;
            routing_b64 = routing_b64;
            updated_at = now;
          })
          (record {
            sub_id = sub_id;
            enabled = flag enabled;
            routing_b64 = routing_b64;
            updated_at = now;
            config = "";
          })
          db.rows;
  },
  none,
)

unfoldable pub delete_all : Fault → String → Db → Db × Option Error
delete_all (some cause) sub_id db = (db, some (wrap "routing: delete" (new cause)))
delete_all none sub_id db = (record db { rows = delete_where (is_for sub_id) db.rows }, none)

abbrev pub zero_profile : Profile
zero_profile = record {
  global_proxy = false;
  route_order = "";
  domain_strategy = "";
  remote_dns_type = "";
  remote_dns_domain = "";
  remote_dns_ip = "";
  domestic_dns_type = "";
  domestic_dns_domain = "";
  domestic_dns_ip = "";
  dns_hosts = [];
  geo_ip_url = "";
  geo_site_url = "";
  direct_sites = [];
  direct_ip = [];
  proxy_sites = [];
  proxy_ip = [];
  block_sites = [];
  block_ip = [];
  fake_dns = false;
  use_chunk_files = false;
}

abbrev pub loaded : Codec → Fault → Option Generator → Result (String × (Profile × String))
loaded codec (some cause) row = err (wrap "routing: query generator" (new cause))
loaded codec none none = ok ("", (zero_profile, ""))
loaded codec none (some g) =
    in_context "routing: decode generator profile" (codec.unmarshal_profile g.profile)
    >>= λ profile. ok (g.name, (profile, g.generated_b64))

unfoldable pub get_generator : Codec → Fault → Db → Result (String × (Profile × String))
get_generator codec fault db = loaded codec fault db.generator

abbrev pub saved :
    Fault → ℕ → String → Db → Result (GeneratedRouting × String) → Db × Result GeneratedRouting
saved fault now name db (err e) = (db, err e)
saved (some cause) now name db (ok _) = (db, err (wrap "routing: save generator" (new cause)))
saved none now name db (ok (generated, profile)) = (
  record db {
    generator = some (record {
      name = name;
      profile = profile;
      generated_b64 = generated.base64;
      updated_at = now;
    });
  },
  ok generated,
)

unfoldable pub save_generator :
    Codec → Fault → ℕ → String → Profile → Db → Db × Result GeneratedRouting
unfolding encode
save_generator codec fault now name p db = saved fault now name db (
    encode codec now name p >>= λ generated.
    (in_context "routing: encode generator profile" (codec.marshal_profile p) >>= λ profile.
    ok (generated, profile)))
