-- ===== src/Generator/Yaml/Tests.antt =====
-- Runs of the injection on a small document, and the theorems applied to them.
use x_ui_subpage.Prelude.{
  subst, ok-injective, ◌≡◌, refl, String, true, false, List, [], ◌∷◌, if◌then◌else◌, ◌==◌, Error,
  new, ok, err, select, ◌⊎◌,
}
use x_ui_subpage.Prelude.Int.{pos}
use x_ui_subpage.Generator.{ClientContext}
use x_ui_subpage.Generator.Yaml.{
  Node, Std, node, document, sequence, plain, key, str, mapping, boolean, nodes, value_of,
  content_of, map_delete,
}
use x_ui_subpage.Generator.Yaml.Groups.{
  parse_remnawave_group_opts, injected, add_names, populate, inject_group,
}
use x_ui_subpage.Generator.Yaml.Document.{Codec, check_providers, root_mapping, render}
use x_ui_subpage.Generator.Yaml.Lookups.{IsPaired}
use x_ui_subpage.Generator.Yaml.Additions.{inject_group-Populated, Injects}
use x_ui_subpage.Generator.Yaml.Refusals.{IsRefused}
use x_ui_subpage.Generator.Yaml.Choices.{IsShuffle, IsIntn}
use mathlib.Core.List.Perm
use x_ui_subpage.Generator.Yaml.Rendered.{root_of, render-Renders, Renders}

-- A filter matches its own text only.
abbrev std : Std
std = record {
  itoa = λ _. "443";
  compile = λ pattern. ok (λ s. s == pattern);
  decode_bool = λ n.
      if value_of n == "true"
      then ok true
      else if value_of n == "false"
      then ok false
      else err (new "no bool");
  intn = λ _. 0;
  shuffle = λ names. names;
}

shuffles : IsShuffle std
shuffles names = Perm.refl names

draws_below : IsIntn std
draws_below n positive = positive

abbrev ss_client : ClientContext
ss_client = record {
  protocol = "shadowsocks";
  uuid = "";
  password = "secret";
  method = "aes-256-gcm";
  remark = "de";
  server = "a.example";
  port = pos 443;
  flow = "";
  network = "tcp";
  security = "none";
  sni = "";
  alpn = "";
  fingerprint = "";
  insecure = false;
  public_key = "";
  short_id = "";
  spider_x = "";
  path = "";
  host = "";
  service_name = "";
  header_type = "";
  raw_params = [];
}

abbrev trojan_client : ClientContext
trojan_client = record ss_client { protocol = "trojan"; remark = "nl"; sni = "b.example" }

abbrev seq : List Node → Node
seq ns = node sequence "" "" plain (nodes ns)

abbrev group : Node
group = mapping (
    key "name"
    ∷ str "auto"
    ∷ key "remnawave"
    ∷ mapping (key "shuffle-proxies-order" ∷ boolean true ∷ [])
    ∷ key "exclude-filter"
    ∷ str "nl"
    ∷ key "proxies"
    ∷ seq (str "DIRECT" ∷ [])
    ∷ [])

abbrev filled_group : Node
filled_group = mapping (
    key "name"
    ∷ str "auto"
    ∷ key "exclude-filter"
    ∷ str "nl"
    ∷ key "proxies"
    ∷ seq (str "DIRECT" ∷ str "de" ∷ [])
    ∷ [])

group_filled : inject_group std ("de" ∷ "nl" ∷ []) group ≡ ok filled_group
unfolding inject_group map_delete parse_remnawave_group_opts populate injected add_names select
group_filled = refl

inject_group-Populated_example :
    ((g' : Node) × (inject_group std ("de" ∷ "nl" ∷ []) group ≡ ok g')
      × Injects std ("de" ∷ "nl" ∷ []) group g')
    ⊎ ((e : Error) × (inject_group std ("de" ∷ "nl" ∷ []) group ≡ err e) × IsRefused std group)
inject_group-Populated_example =
    inject_group-Populated std ("de" ∷ "nl" ∷ []) group shuffles draws_below (refl, tt)

abbrev providers : Node
providers = mapping (key "main" ∷ mapping (key "url" ∷ str "c.example" ∷ []) ∷ [])

abbrev root : Node
root = mapping (
    key "mode"
    ∷ key "rule"
    ∷ key "proxy-groups"
    ∷ seq (group ∷ [])
    ∷ key "proxy-providers"
    ∷ providers
    ∷ [])

-- A provider with a block is refused.
block_refused :
    check_providers (nodes (key "main" ∷ mapping (key "remnawave" ∷ mapping [] ∷ []) ∷ []))
    ≡ err (new "proxy-providers: dialer-chaining (remnawave: block) is not supported")
unfolding check_providers
block_refused = refl

-- A decoder that reads every text as the document with `root`.
abbrev codec : Codec
codec = record {
  unmarshal = λ _. ok (node document "" "" plain (nodes (root ∷ [])));
  probe = λ _. ok tt;
  marshal = λ doc. ok "rendered";
}

decodes-IsPaired :
    (text : String) (doc : Node)
    → codec.unmarshal text ≡ ok doc
    → IsPaired (content_of (root_of doc))
unfolding root_mapping
decodes-IsPaired text doc e = subst (λ d. IsPaired (content_of (root_of d))) (ok-injective e) tt

rendered : render codec std (ss_client ∷ trojan_client ∷ []) (ok "template") ≡ ok "rendered"
unfolding render select
rendered = refl

render-Renders_example : Renders codec std (ss_client ∷ trojan_client ∷ []) "template" "rendered"
render-Renders_example =
    render-Renders codec std (ss_client ∷ trojan_client ∷ []) "template" "rendered" decodes-IsPaired
      rendered
