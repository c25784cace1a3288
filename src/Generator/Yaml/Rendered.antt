-- ===== src/Generator/Yaml/Rendered.antt =====
-- What the text that is rendered for a subscriber stands for.
use x_ui_subpage.Prelude.{
  in_context-eq-ok, in_context, ◌≡◌, refl, sym, subst, ap, inl, inr, String, Bool, true, false,
  Bool-cases, List, ◌∙◌, ok, bind-eq-ok, ok-injective, none, some,
}
use x_ui_subpage.Generator.{ClientContext}
use x_ui_subpage.Generator.Yaml.{
  Node, Content, Std, empty, more, node, is_mapping, content_of, map_get,
}
use x_ui_subpage.Generator.Yaml.Document.{
  Codec, inject_root, root_mapping, root_or_new, with_root, inject_clash, render,
}
use x_ui_subpage.Generator.Yaml.Lookups.{IsPaired}
use x_ui_subpage.Generator.Yaml.Injected.{Filled, inject_root-Shows}

-- The document's top-level mapping, a new one where it has none.
abbrev pub root_of : Node → Node
root_of doc = (root_mapping doc).0

chosen-is_mapping :
    (b : Bool) (first : Node) (rest : Content)
    → is_mapping first ≡ b
    → is_mapping (root_or_new b first rest).0 ≡ true
chosen-is_mapping true first rest e = e
chosen-is_mapping false first rest e = refl

chosen_first :
    (b : Bool) (first : Node) (rest : Content) → b ≡ true → (root_or_new b first rest).0 ≡ first
chosen_first true first rest e = refl
chosen_first false first rest e = absurd (no_mapping e)
  where
    no_mapping : false ≡ true → ⊥
    no_mapping q = cc

root_of-is_mapping : (doc : Node) → is_mapping (root_of doc) ≡ true
unfolding root_mapping
root_of-is_mapping (node kind tag value style empty) = refl
root_of-is_mapping (node kind tag value style (more first rest)) =
    chosen-is_mapping (is_mapping first) first rest refl

root_of-with_root :
    (doc : Node) (rest : Content) (root : Node)
    → is_mapping root ≡ true
    → root_of (with_root doc rest root) ≡ root
unfolding root_mapping
root_of-with_root (node kind tag value style content) rest root is =
    chosen_first (is_mapping root) root rest is

found-is_mapping : (m : Node) (k : String) (v : Node) → map_get m k ≡ some v → is_mapping m ≡ true
unfolding map_get
found-is_mapping m k v e = elim (Bool-cases (is_mapping m)) [
  | inl is ↦ is
  | inr other ↦ absurd (no_value (rw other at e))
]
  where
    no_value : none ≡ some v → ⊥
    no_value q = cc

inject_clash-Filled :
    (std : Std) (clients : List ClientContext) (doc doc' : Node)
    → IsPaired (content_of (root_of doc))
    → inject_clash std clients doc ≡ ok doc'
    → Filled std clients (root_of doc) (root_of doc')
unfolding inject_clash
inject_clash-Filled std clients doc doc' paired e =
    let (root', injected, e1) = bind-eq-ok (inject_root std clients (root_of doc)) _ e in
    let filled =
      inject_root-Shows std clients (root_of doc) root' (root_of-is_mapping doc, paired) injected in
    let is = found-is_mapping root' "proxies" _ filled.0.1 in
    subst (Filled std clients (root_of doc))
      (sym (root_of-with_root doc (root_mapping doc).1 root' is) ∙ ap root_of (ok-injective e1))
      filled

-- What the rendering is made of, when it succeeds.
abbrev pub Renders : Codec → Std → List ClientContext → String → String → Type 0
Renders codec std clients content out =
    (doc : Node) × (doc' : Node) × (codec.unmarshal content ≡ ok doc)
    × (codec.marshal doc' ≡ ok out)
    × (codec.probe out ≡ ok tt)
    × Filled std clients (root_of doc) (root_of doc')

-- When the rendering of a template succeeds, its text is YAML, and it is written from a document that
-- has the clients' proxies under "proxies", one for one and in their order, with their names, types,
-- servers and ports, and the template's value under each other key but "proxy-groups"; no provider
-- of the template has a `remnawave:` block. A mapping that the decoder reads has a value for each key.
pub render-Renders :
    (codec : Codec) (std : Std) (clients : List ClientContext) (content out : String)
    → ((text : String) (doc : Node)
        → codec.unmarshal text ≡ ok doc
        → IsPaired (content_of (root_of doc)))
    → render codec std clients (ok content) ≡ ok out
    → Renders codec std clients content out
unfolding render
render-Renders codec std clients content out paired e =
    let (doc, read, e1) =
      bind-eq-ok (in_context "yamlgen: parse template" (codec.unmarshal content)) _ e in
    let (doc', injected, e2) =
      bind-eq-ok (in_context "yamlgen: inject proxies" (inject_clash std clients doc)) _ e1 in
    let (text, written, e3) = bind-eq-ok (in_context "yamlgen: render" (codec.marshal doc')) _ e2 in
    let (_, probed, e4) =
      bind-eq-ok (in_context "yamlgen: rendered template is not valid YAML" (codec.probe text)) _
        e3 in
    let same = ok-injective e4 in
    let is_read = in_context-eq-ok _ (codec.unmarshal content) read in
    (
      doc,
      doc',
      is_read,
      in_context-eq-ok _ (codec.marshal doc') written ∙ ap ok same,
      subst (λ t. codec.probe t ≡ ok tt) same (in_context-eq-ok _ (codec.probe text) probed),
      inject_clash-Filled std clients doc doc' (paired content doc is_read)
          (in_context-eq-ok _ (inject_clash std clients doc) injected),
    )
