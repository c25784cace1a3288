-- ===== src/Generator/Yaml/Document.antt =====
-- internal/generator/yamlgen/inject.go and yamlgen.go: the whole document of a template.
use x_ui_subpage.Prelude.{
  in_context, true, false, Bool, String, Option, none, some, List, [], ◌∷◌, if◌then◌else◌, new,
  Result, ok, err, ◌>>=◌,
}
use x_ui_subpage.Generator.{ClientContext}
use x_ui_subpage.Generator.Yaml.{
  Node, Content, Kind, empty, more, node, zero_kind, document, mapping_kind, sequence, plain, Std,
  content_of, with_content, is_mapping, is_sequence, nodes, map_get, map_set, build_proxy_node,
}
use x_ui_subpage.Generator.Yaml.Groups.{inject_group}

-- The loop over the clients: their nodes, and their names.
unfoldable pub build_proxies : Std → List ClientContext → Result (List Node)
unfolding build_proxy_node
build_proxies std [] = ok []
build_proxies std (cc ∷ ccs) =
    build_proxy_node std cc >>= λ n. (build_proxies std ccs >>= λ ns. ok (n ∷ ns))

abbrev pub remarks : List ClientContext → List String
remarks [] = []
remarks (cc ∷ ccs) = cc.remark ∷ remarks ccs

-- The loop over the groups, which passes over what is no mapping.
unfoldable pub inject_groups : Std → List String → Content → Result Content
unfolding inject_group
inject_groups std names empty = ok empty
inject_groups std names (more g rest) =
    (if is_mapping g then inject_group std names g else ok g) >>= λ g'.
    (inject_groups std names rest >>= λ rest'. ok (more g' rest'))

abbrev pub has_remnawave : Node → Bool
has_remnawave entry = elim (map_get entry "remnawave") [ none ↦ false | some _ ↦ is_mapping entry ]

-- The loop over the providers' pairs.
unfoldable pub check_providers : Content → Result (Unit {0})
unfolding map_get
check_providers empty = ok tt
check_providers (more name empty) = ok tt
check_providers (more name (more entry rest)) =
    let later = check_providers rest in
    if has_remnawave entry
    then err (new "proxy-providers: dialer-chaining (remnawave: block) is not supported")
    else later

abbrev pub with_groups : Std → List String → Node → Option Node → Result Node
with_groups std names root none = ok root
with_groups std names root (some groups) =
    if is_sequence groups
    then (inject_groups std names (content_of groups) >>= λ content.
        ok (map_set root "proxy-groups" (with_content groups content)))
    else ok root

abbrev pub checked : Node → Option Node → Result Node
checked root none = ok root
checked root (some providers) =
    if is_mapping providers
    then (check_providers (content_of providers) >>= λ _. ok root)
    else ok root

-- On the document's top-level mapping.
unfoldable pub inject_root : Std → List ClientContext → Node → Result Node
unfolding build_proxies inject_groups check_providers map_set
inject_root std ccs root = build_proxies std ccs >>= λ proxies.
    let filled = map_set root "proxies" (node sequence "" "" plain (nodes proxies)) in
    (with_groups std (remarks ccs) filled (map_get filled "proxy-groups") >>= λ grouped.
    checked grouped (map_get grouped "proxy-providers"))

abbrev pub document_kind : Kind → Kind
document_kind zero_kind = document
document_kind kind = kind

abbrev pub root_or_new : Bool → Node → Content → Node × Content
root_or_new true first rest = (first, rest)
root_or_new false first rest = (node mapping_kind "" "" plain empty, empty)

-- `rootMapping`: the first child where it is a mapping, and else an empty mapping as the only child.
unfoldable pub root_mapping : Node → Node × Content
root_mapping (node kind tag value style empty) = (node mapping_kind "" "" plain empty, empty)
root_mapping (node kind tag value style (more first rest)) =
    root_or_new (is_mapping first) first rest

abbrev pub with_root : Node → Content → Node → Node
with_root (node kind tag value style _) rest root =
    node (document_kind kind) tag value style (more root rest)

unfoldable pub inject_clash : Std → List ClientContext → Node → Result Node
unfolding inject_root root_mapping
inject_clash std ccs doc =
    let (root, rest) = root_mapping doc in
    inject_root std ccs root >>= λ root'. ok (with_root doc rest root')

-- yaml.Unmarshal into a node, and whether a text is YAML at all; yaml.Marshal.
pub record Codec : Type 0 where
  pub unmarshal : String → Result Node
  pub probe : String → Result (Unit {0})
  pub marshal : Node → Result String

-- The compiling of a template in the generator's cache.
unfoldable pub parse_template : Codec → String → String → Result String
parse_template codec name content =
    in_context "template is not valid YAML" (codec.probe content) >>= λ _. ok content

-- `Build`, from what the cache gives.
unfoldable pub render : Codec → Std → List ClientContext → Result String → Result String
unfolding inject_clash
render codec std clients template = do
  content ← in_context "yamlgen: load template" template
  doc ← in_context "yamlgen: parse template" (codec.unmarshal content)
  doc' ← in_context "yamlgen: inject proxies" (inject_clash std clients doc)
  out ← in_context "yamlgen: render" (codec.marshal doc')
  _ ← in_context "yamlgen: rendered template is not valid YAML" (codec.probe out)
  ok out
