-- ===== src/Generator/Yaml/Injected.antt =====
-- What the document of a template has after the injection.
use x_ui_subpage.Prelude.{
  ◌≡◌, refl, sym, subst, ◌∙◌, ap, inl, inr, String, true, false, Bool-cases, Option, none, some,
  List, [], ◌∷◌, ◌==◌, Error, ok, err, bind-eq-ok, ok-injective,
}
use x_ui_subpage.Generator.{ClientContext}
use x_ui_subpage.Generator.Yaml.{
  Node, Content, Std, empty, more, node, sequence, plain, key, str, num, nodes, is_mapping,
  is_sequence, content_of, with_content, find, map_get, map_set, proxy_type, build_proxy_node,
}
use x_ui_subpage.Generator.Yaml.Document.{
  build_proxies, remarks, inject_groups, check_providers, has_remnawave, with_groups, checked,
  inject_root,
}
use x_ui_subpage.Generator.Yaml.Lookups.{
  IsMapping, map_get-map_set_self, map_get-map_set_other, map_set-IsMapping,
}
use x_ui_subpage.Generator.Yaml.Proxies.{build_proxy_node-Extends}

-- The proxies stand for the clients one for one, in order, each with the client's name, server and
-- port and the dialect's name of its protocol.
abbrev pub Shows : Std → List Node → List ClientContext → Type 0
Shows std [] [] = Unit
Shows std (n ∷ ns) (client ∷ clients) =
    ((map_get n "name" ≡ some (str client.remark))
      × (map_get n "type" ≡ some (key (proxy_type client.protocol)))
      × (map_get n "server" ≡ some (str client.server))
      × (map_get n "port" ≡ some (num std client.port)))
    × Shows std ns clients
Shows std _ _ = ⊥

build_proxies-Shows :
    (std : Std) (clients : List ClientContext) (ns : List Node)
    → build_proxies std clients ≡ ok ns
    → Shows std ns clients
unfolding build_proxies map_get find
build_proxies-Shows std [] ns e = subst (λ x. Shows std x []) (ok-injective e) tt
build_proxies-Shows std (client ∷ clients) ns e =
    let (n, built, e1) = bind-eq-ok (build_proxy_node std client) _ e in
    let (ns', rest, e2) = bind-eq-ok (build_proxies std clients) _ e1 in
    let (_, has) = build_proxy_node-Extends std client n built in
    subst (λ x. Shows std x (client ∷ clients)) (ok-injective e2)
      (
        (
          has "name" (str client.remark) refl,
          has "type" (key (proxy_type client.protocol)) refl,
          has "server" (str client.server) refl,
          has "port" (num std client.port) refl,
        ),
        build_proxies-Shows std clients ns' rest,
      )

-- No provider has a `remnawave:` block.
abbrev pub NoBlocks : Content → Type 0
NoBlocks empty = Unit
NoBlocks (more name empty) = Unit
NoBlocks (more name (more entry rest)) = (has_remnawave entry ≡ false) × NoBlocks rest

check_providers-NoBlocks : (c : Content) → check_providers c ≡ ok tt → NoBlocks c
unfolding check_providers
check_providers-NoBlocks empty e = tt
check_providers-NoBlocks (more name empty) e = tt
check_providers-NoBlocks (more name (more entry rest)) e = elim (Bool-cases (has_remnawave entry)) [
  | inl block ↦ absurd (refused (rw (block, check_providers) at e))
  | inr fine ↦ (fine, check_providers-NoBlocks rest (rw (fine, check_providers) at e))
]
  where
    refused : {x : Error} → err x ≡ ok (tt {0}) → ⊥
    refused q = cc

with_groups-other :
    (std : Std) (names : List String) (root root' : Node) (o : Option Node) (k : String)
    → IsMapping root
    → with_groups std names root o ≡ ok root'
    → "proxy-groups" == k ≡ false
    → map_get root' k ≡ map_get root k
with_groups-other std names root root' none k is e ne = ap (λ x. map_get x k) (sym (ok-injective e))
with_groups-other std names root root' (some groups) k is e ne =
    elim (Bool-cases (is_sequence groups)) [
      | inr other ↦ ap (λ x. map_get x k) (sym (ok-injective (rw other at e)))
      | inl s ↦
          let (content, _, e1) =
            bind-eq-ok (inject_groups std names (content_of groups)) _ (rw s at e) in
          ap (λ x. map_get x k) (sym (ok-injective e1))
          ∙ map_get-map_set_other root "proxy-groups" k (with_content groups content) is ne
    ]

checked-same : (root root' : Node) (o : Option Node) → checked root o ≡ ok root' → root ≡ root'
checked-same root root' none e = ok-injective e
checked-same root root' (some providers) e = elim (Bool-cases (is_mapping providers)) [
  | inr other ↦ ok-injective (rw other at e)
  | inl m ↦
      let (_, _, e1) = bind-eq-ok (check_providers (content_of providers)) _ (rw m at e) in
      ok-injective e1
]

checked-NoBlocks :
    (root root' providers : Node)
    → checked root (some providers) ≡ ok root'
    → is_mapping providers ≡ true
    → NoBlocks (content_of providers)
checked-NoBlocks root root' providers e m =
    let (done, passed, _) = bind-eq-ok (check_providers (content_of providers)) _ (rw m at e) in
    check_providers-NoBlocks (content_of providers) (passed ∙ ap ok (only done))
  where
    only : (u : Unit {0}) → u ≡ tt
    only u = refl

-- The document has the clients' proxies, and else what the template has.
abbrev pub Filled : Std → List ClientContext → Node → Node → Type 0
Filled std clients root root' =
    ((ns : List Node) × (map_get root' "proxies" ≡ some (node sequence "" "" plain (nodes ns)))
      × Shows std ns clients)
    × ((k : String)
        → "proxies" == k ≡ false
        → "proxy-groups" == k ≡ false
        → map_get root' k ≡ map_get root k)
    × ((providers : Node)
        → map_get root "proxy-providers" ≡ some providers
        → is_mapping providers ≡ true
        → NoBlocks (content_of providers))

-- When the injection into a document succeeds, its "proxies" are the clients' proxies one for one,
-- in the clients' order and with their names, servers and ports; every key but "proxies" and
-- "proxy-groups" keeps its value; and no provider of the document has a `remnawave:` block. The
-- document's root is a mapping.
pub inject_root-Shows :
    (std : Std) (clients : List ClientContext) (root root' : Node)
    → IsMapping root
    → inject_root std clients root ≡ ok root'
    → Filled std clients root root'
unfolding inject_root
inject_root-Shows std clients root root' is e =
    let (ns, built, e1) = bind-eq-ok (build_proxies std clients) _ e in
    let proxies = node sequence "" "" plain (nodes ns) in
    let filled = map_set root "proxies" proxies in
    let is_filled = map_set-IsMapping root "proxies" proxies is in
    let (grouped, groups, e2) =
      bind-eq-ok (with_groups std (remarks clients) filled (map_get filled "proxy-groups")) _ e1 in
    let same = checked-same grouped root' (map_get grouped "proxy-providers") e2 in
    let keeps = λ (k : String).
      with_groups-other std (remarks clients) filled grouped (map_get filled "proxy-groups") k
        is_filled groups in
    let others = λ (k : String) (ne : "proxies" == k ≡ false) (ne' : "proxy-groups" == k ≡ false).
      ap (λ x. map_get x k) (sym same)
      ∙ keeps k ne'
      ∙ map_get-map_set_other root "proxies" k proxies is ne in
    (
      (
        ns,
        ap (λ x. map_get x "proxies") (sym same)
            ∙ keeps "proxies" refl
            ∙ map_get-map_set_self root "proxies" proxies is,
        build_proxies-Shows std clients ns built,
      ),
      others,
      λ providers has m.
          checked-NoBlocks grouped root' providers
            (ap (checked grouped) (
                sym (
                  ap (λ x. map_get x "proxy-providers") same
                  ∙ others "proxy-providers" refl refl
                  ∙ has))
              ∙ e2)
            m,
    )
