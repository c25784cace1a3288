-- ===== src/Generator/Yaml/Additions.antt =====
-- What the injection does to a proxy group.
use x_ui_subpage.Prelude.{
  ◌≢◌, ◌≡◌, refl, sym, subst, ◌∙◌, ap, inl, inr, ◌⊎◌, String, Bool, true, false, Option, none, some,
  List, ◌==◌, Error, Result, ok, err, ◌>>=◌, bind-eq-ok, ok-injective,
}
use x_ui_subpage.Generator.Yaml.{
  Node, Content, Kind, Std, node, sequence, content_of, with_content, is_sequence, nodes, append,
  find, map_get, map_delete,
}
use x_ui_subpage.Generator.Yaml.Groups.{
  RemnawaveGroupOpts, parse_remnawave_group_opts, filtered, injected, strs, own_entries,
  sequence_of, add_names, populate, inject_group,
}
use x_ui_subpage.Generator.Yaml.Refusals.{IsRefused, inject_group-IsRefused}
use x_ui_subpage.Generator.Yaml.Options.{Reads, parse_remnawave_group_opts-Reads}
use x_ui_subpage.Generator.Yaml.Choices.{
  wanted, IsChosen, IsShuffle, IsIntn, filtered-wanted, injected-IsChosen,
}
use x_ui_subpage.Generator.Yaml.Lookups.{
  IsMapping, map_get-map_set_self, map_get-map_set_other, map_get-map_delete_other,
  map_delete-IsMapping,
}

-- The group's proxies after the injection: what it had, and then the added names.
abbrev pub Adds : List String → Node → Node → Type 0
Adds added g g' =
    (p : Node) × (map_get g' "proxies" ≡ some p)
    × (is_sequence p ≡ true)
    × (content_of p ≡ append (own_entries (map_get g "proxies")) (nodes (strs added)))

sequence_of-content :
    (o : Option Node) (c : Content)
    → (is_sequence (with_content (sequence_of o) c) ≡ true)
      × (content_of (sequence_of o) ≡ own_entries o)
sequence_of-content none c = (refl, refl)
sequence_of-content (some (node sequence t v s d)) c = (refl, refl)
sequence_of-content (some (node Kind.zero_kind t v s d)) c = (refl, refl)
sequence_of-content (some (node Kind.document t v s d)) c = (refl, refl)
sequence_of-content (some (node Kind.scalar t v s d)) c = (refl, refl)
sequence_of-content (some (node Kind.mapping_kind t v s d)) c = (refl, refl)
sequence_of-content (some (node Kind.alias t v s d)) c = (refl, refl)

content_of-with_content : (m : Node) (c : Content) → content_of (with_content m c) ≡ c
content_of-with_content (node k t v s _) c = refl

add_names-Adds : (names : List String) (g : Node) → IsMapping g → Adds names g (add_names names g)
unfolding add_names
add_names-Adds names g is =
    let s = sequence_of (map_get g "proxies") in
    let c = append (content_of s) (nodes (strs names)) in
    (
      with_content s c,
      map_get-map_set_self g "proxies" (with_content s c) is,
      (sequence_of-content (map_get g "proxies") c).0,
      content_of-with_content s c
          ∙ ap (λ x. append x (nodes (strs names))) (sequence_of-content (map_get g "proxies") c).1,
    )

-- What populating a group did: nothing where the options say so, and else the chosen ones of the
-- names that it wants were added.
abbrev pub Populated : Std → List String → RemnawaveGroupOpts → Node → Node → Type 0
Populated std names opts g g' =
    ((opts.include_proxies ≡ some false) × (g' ≡ g))
    ⊎ (opts.include_proxies ≢ some false
        × (added : List String) × Adds added g g'
        × IsChosen opts (wanted std g names) added)

populate-Populated :
    (std : Std) (opts : RemnawaveGroupOpts) (names : List String) (g g' : Node)
    → IsShuffle std
    → IsIntn std
    → IsMapping g
    → populate std opts names g ≡ ok g'
    → Populated std names opts g g'
      × ((k : String) → "proxies" == k ≡ false → map_get g' k ≡ map_get g k)
unfolding populate
populate-Populated std opts names g g' shuffles below is e = by_block opts.include_proxies refl
  where
    adding :
        (filtered std "proxy-groups: invalid filter regexp" true (map_get g "filter") names
            >>= λ candidates.
                (filtered std "proxy-groups: invalid exclude-filter regexp" false
                    (map_get g "exclude-filter")
                    candidates
                  >>= λ candidates'. ok (add_names (injected std opts candidates') g)))
          ≡ ok g'
        → opts.include_proxies ≢ some false
        → Populated std names opts g g'
          × ((k : String) → "proxies" == k ≡ false → map_get g' k ≡ map_get g k)
    adding e within_opts =
        let (some_names, first_filter, e1) =
          bind-eq-ok
            (filtered std "proxy-groups: invalid filter regexp" true (map_get g "filter") names) _
            e in
        let (candidates, second_filter, e2) =
          bind-eq-ok
            (filtered std "proxy-groups: invalid exclude-filter regexp" false
              (map_get g "exclude-filter") some_names)
            _ e1 in
        let done : add_names (injected std opts candidates) g ≡ g' = ok-injective e2 in
        let is_wanted =
          filtered-wanted std _ _ g names some_names candidates first_filter second_filter in
        subst
          (λ x.
            Populated std names opts g x
            × ((k : String) → "proxies" == k ≡ false → map_get x k ≡ map_get g k))
          done
          (
            inr (
              within_opts,
              injected std opts candidates,
              add_names-Adds (injected std opts candidates) g is,
              subst (λ ws. IsChosen opts ws (injected std opts candidates)) is_wanted
                  (injected-IsChosen std opts candidates shuffles below),
            ),
            λ k ne. map_get-map_set_other g "proxies" k _ is ne,
          )

    by_block :
        (o : Option Bool)
        → opts.include_proxies ≡ o
        → Populated std names opts g g'
          × ((k : String) → "proxies" == k ≡ false → map_get g' k ≡ map_get g k)
    by_block none q = adding (rw (q, populate) at e) (λ no. cc)
    by_block (some true) q = adding (rw (q, populate) at e) (λ no. cc)
    by_block (some false) q =
        let same_group : g ≡ g' = ok-injective (rw (q, populate) at e) in
        (inl (q, sym same_group), λ k _. ap (λ x. map_get x k) (sym same_group))

wanted-drop :
    (std : Std) (g : Node) (names : List String)
    → wanted std (map_delete g "remnawave").0 names ≡ wanted std g names
wanted-drop std g names =
    rw
      (
        map_get-map_delete_other g "remnawave" "filter" refl,
        map_get-map_delete_other g "remnawave" "exclude-filter" refl,
      )
      refl

-- What an injection that succeeds did: the options are the last values of the block's keys, and the
-- group either opts out, or its own entries are followed by the chosen names.
abbrev pub Injects : Std → List String → Node → Node → Type 0
Injects std names g g' =
    (opts : RemnawaveGroupOpts) × Reads std (find (content_of g) "remnawave") opts
    × (((opts.include_proxies ≡ some false) × (map_get g' "proxies" ≡ map_get g "proxies"))
        ⊎ (opts.include_proxies ≢ some false
            × (added : List String) × Adds added g g'
            × IsChosen opts (wanted std g names) added))
    × ((k : String)
        → "proxies" == k ≡ false
        → "remnawave" == k ≡ false
        → map_get g' k ≡ map_get g k)

injected_group :
    (std : Std) (names : List String) (g g' : Node)
    → IsShuffle std
    → IsIntn std
    → IsMapping g
    → inject_group std names g ≡ ok g'
    → Injects std names g g'
unfolding inject_group map_delete
injected_group std names g g' shuffles below is e =
    let bare = (map_delete g "remnawave").0 in
    let same_proxies : map_get bare "proxies" ≡ map_get g "proxies" =
      map_get-map_delete_other g "remnawave" "proxies" refl in
    let (opts, parsed, e1) =
      bind-eq-ok (parse_remnawave_group_opts std (find (content_of g) "remnawave")) _ e in
    let (what, others) =
      populate-Populated std opts names bare g' shuffles below
        (map_delete-IsMapping g "remnawave" is) e1 in
    (
      opts,
      parse_remnawave_group_opts-Reads std (find (content_of g) "remnawave") opts parsed,
      elim what [
        | inl (out, unchanged) ↦ inl (out, ap (λ x. map_get x "proxies") unchanged ∙ same_proxies)
        | inr (stays, added, adds, chosen) ↦ inr (
          stays,
          added,
          subst
              (λ o.
                (p : Node) × (map_get g' "proxies" ≡ some p)
                × (is_sequence p ≡ true)
                × (content_of p ≡ append (own_entries o) (nodes (strs added))))
              same_proxies adds,
          subst (λ ws. IsChosen opts ws added) (wanted-drop std g names) chosen,
        )
      ],
      λ k ne ne'. others k ne ∙ map_get-map_delete_other g "remnawave" k ne',
    )

-- The injection into a group that is a mapping succeeds, or the group is refused: for a block that
-- is not a mapping of Booleans, or for a filter that is no regular expression where the group does
-- not opt out. When it succeeds, the block's options are the last values of its keys, and the group
-- either opts out with `include-proxies: false` and its proxies stay as they were, or does not, and
-- behind the entries that it had stand the names of clients that its filters leave: one of them for
-- `select-random-proxy`, else all of them in some order for `shuffle-proxies-order`, else all of them
-- in their order. Every other key but "remnawave" keeps its value. Shuffling permutes, and a random
-- index is below its bound.
pub inject_group-Populated :
    (std : Std) (names : List String) (g : Node)
    → IsShuffle std
    → IsIntn std
    → IsMapping g
    → ((g' : Node) × (inject_group std names g ≡ ok g') × Injects std names g g')
      ⊎ ((e : Error) × (inject_group std names g ≡ err e) × IsRefused std g)
inject_group-Populated std names g shuffles below is = by_outcome (inject_group std names g) refl
  where
    by_outcome :
        (r : Result Node)
        → inject_group std names g ≡ r
        → ((g' : Node) × (r ≡ ok g') × Injects std names g g')
          ⊎ ((e : Error) × (r ≡ err e) × IsRefused std g)
    by_outcome (ok g') done = inl (g', refl, injected_group std names g g' shuffles below is done)
    by_outcome (err e) refused = inr (e, refl, inject_group-IsRefused std names g e refused)

-- A group without a block and without filters gets the names of all clients, in their order.
pub inject_group-all :
    (std : Std) (names : List String) (g : Node)
    → IsMapping g
    → find (content_of g) "remnawave" ≡ none
    → map_get g "filter" ≡ none
    → map_get g "exclude-filter" ≡ none
    → (g' : Node) × (inject_group std names g ≡ ok g') × Adds names g g'
unfolding inject_group map_delete parse_remnawave_group_opts populate injected
inject_group-all std names g is no_block no_filter no_exclude =
    let bare = (map_delete g "remnawave").0 in
    let unfiltered : map_get bare "filter" ≡ none =
      map_get-map_delete_other g "remnawave" "filter" refl ∙ no_filter in
    let unexcluded : map_get bare "exclude-filter" ≡ none =
      map_get-map_delete_other g "remnawave" "exclude-filter" refl ∙ no_exclude in
    (
      add_names names bare,
      rw (no_block, unfiltered, unexcluded) refl,
      subst
          (λ o.
            (p : Node) × (map_get (add_names names bare) "proxies" ≡ some p)
            × (is_sequence p ≡ true)
            × (content_of p ≡ append (own_entries o) (nodes (strs names))))
          (map_get-map_delete_other g "remnawave" "proxies" refl)
          (add_names-Adds names bare (map_delete-IsMapping g "remnawave" is)),
    )
