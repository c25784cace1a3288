-- ===== src/Generator/Yaml/Refusals.antt =====
-- Which proxy groups are refused.
use x_ui_subpage.Prelude.{
  ◌≡◌, ◌≢◌, refl, sym, ◌∙◌, inl, inr, ◌⊎◌, String, Bool, true, false, Bool-cases, Option, none,
  some, List, Error, Result, ok, err, ◌>>=◌, in_context,
}
use x_ui_subpage.Generator.Yaml.{
  Node, Content, Std, empty, more, value_of, content_of, is_mapping, find, map_get, map_delete,
}
use x_ui_subpage.Generator.Yaml.Groups.{
  RemnawaveGroupOpts, no_opts, with_opt, parse_opts, parse_remnawave_group_opts, filtered, injected,
  add_names, populate, inject_group,
}
use x_ui_subpage.Generator.Yaml.Options.{Reads, parse_remnawave_group_opts-Reads}
use x_ui_subpage.Generator.Yaml.Lookups.{map_get-map_delete_other}

-- Some value of the pairs is not a Boolean.
abbrev pub HasBadValue : Std → Content → Type 0
HasBadValue std empty = ⊥
HasBadValue std (more k empty) = ⊥
HasBadValue std (more k (more v rest)) =
    ((x : Error) × (std.decode_bool v ≡ err x)) ⊎ HasBadValue std rest

abbrev pub IsBadBlock : Std → Option Node → Type 0
IsBadBlock std o =
    (block : Node) × (o ≡ some block)
    × ((is_mapping block ≡ false) ⊎ HasBadValue std (content_of block))

-- A filter that is not a regular expression.
abbrev pub IsBadFilter : Std → Option Node → Type 0
IsBadFilter std o =
    (pattern : Node) × (o ≡ some pattern) × (x : Error) × (std.compile (value_of pattern) ≡ err x)

-- A bad block, or a bad filter of a group that does not opt out.
abbrev pub IsRefused : Std → Node → Type 0
IsRefused std g =
    IsBadBlock std (find (content_of g) "remnawave")
    ⊎ ((opts : RemnawaveGroupOpts) × Reads std (find (content_of g) "remnawave") opts
        × (opts.include_proxies ≢ some false)
        × (IsBadFilter std (map_get g "filter") ⊎ IsBadFilter std (map_get g "exclude-filter")))

bind-eq-err {ℓ κ} :
    {X : Type ℓ} {Y : Type κ} (first_link : Result X) (next : X → Result Y) {e : Error}
    → first_link >>= next ≡ err e
    → ((x : Error) × (first_link ≡ err x)) ⊎ ((x : X) × (first_link ≡ ok x) × (next x ≡ err e))
bind-eq-err (err x) next h = inl (x, refl)
bind-eq-err (ok x) next h = inr (x, refl, h)

in_context-eq-err :
    {A : Type 0} (context : String) (r : Result A) {e : Error}
    → in_context context r ≡ err e
    → (x : Error) × (r ≡ err x)
in_context-eq-err context (ok a) h = cc
in_context-eq-err context (err x) h = (x, refl)

parse_opts-HasBadValue :
    (std : Std) (c : Content) (o : RemnawaveGroupOpts) (e : Error)
    → parse_opts std c o ≡ err e
    → HasBadValue std c
unfolding parse_opts
parse_opts-HasBadValue std empty o e h = cc
parse_opts-HasBadValue std (more k empty) o e h = cc
parse_opts-HasBadValue std (more k (more v rest)) o e h =
    elim (bind-eq-err (in_context "proxy-groups: remnawave" (std.decode_bool v)) _ h) [
      | inl (x, bad) ↦ inl (in_context-eq-err "proxy-groups: remnawave" (std.decode_bool v) bad)
      | inr (b, _, later) ↦
          inr (parse_opts-HasBadValue std rest (with_opt (value_of k) b o) e later)
    ]

parse_remnawave_group_opts-IsBadBlock :
    (std : Std) (block : Option Node) (e : Error)
    → parse_remnawave_group_opts std block ≡ err e
    → IsBadBlock std block
unfolding parse_remnawave_group_opts
parse_remnawave_group_opts-IsBadBlock std none e h = cc
parse_remnawave_group_opts-IsBadBlock std (some n) e h = elim (Bool-cases (is_mapping n)) [
  | inl m ↦ (n, refl, inr (parse_opts-HasBadValue std (content_of n) no_opts e (rw m at h)))
  | inr other ↦ (n, refl, inl other)
]

filtered-IsBadFilter :
    (std : Std) (context : String) (keep_matching : Bool) (o : Option Node) (names : List String)
    (e : Error)
    → filtered std context keep_matching o names ≡ err e
    → IsBadFilter std o
filtered-IsBadFilter std context keep_matching none names e h = cc
filtered-IsBadFilter std context keep_matching (some n) names e h =
    elim (bind-eq-err (in_context context (std.compile (value_of n))) _ h) [
      | inl (x, bad) ↦
          let (y, why) = in_context-eq-err context (std.compile (value_of n)) bad in
          (n, refl, y, why)
      | inr (m, _, later) ↦ absurd (accepted later)
    ]
  where
    accepted : {names' : List String} → ok names' ≡ err e → ⊥
    accepted q = cc

populate_refused :
    (std : Std) (opts : RemnawaveGroupOpts) (names : List String) (g : Node) (e : Error)
    → populate std opts names g ≡ err e
    → (opts.include_proxies ≢ some false)
      × (IsBadFilter std (map_get g "filter") ⊎ IsBadFilter std (map_get g "exclude-filter"))
unfolding populate
populate_refused std opts names g e h = by_block opts.include_proxies refl
  where
    bad :
        (filtered std "proxy-groups: invalid filter regexp" true (map_get g "filter") names
            >>= λ candidates.
                (filtered std "proxy-groups: invalid exclude-filter regexp" false
                    (map_get g "exclude-filter")
                    candidates
                  >>= λ candidates'. ok (add_names (injected std opts candidates') g)))
          ≡ err e
        → IsBadFilter std (map_get g "filter") ⊎ IsBadFilter std (map_get g "exclude-filter")
    bad h =
        elim (bind-eq-err
          (filtered std "proxy-groups: invalid filter regexp" true (map_get g "filter") names) _
          h) [
            | inl (x, first) ↦
                inl (filtered-IsBadFilter std _ true (map_get g "filter") names x first)
            | inr (some_names, _, h1) ↦
                elim (bind-eq-err
                  (filtered std "proxy-groups: invalid exclude-filter regexp" false
                    (map_get g "exclude-filter") some_names)
                  _ h1) [
                    | inl (x, second) ↦ inr (
                        filtered-IsBadFilter std _ false (map_get g "exclude-filter") some_names x
                          second)
                    | inr (candidates, _, added) ↦ absurd (accepted added)
                  ]
          ]
      where
        accepted : {g' : Node} → ok g' ≡ err e → ⊥
        accepted q = cc

    by_block :
        (o : Option Bool)
        → opts.include_proxies ≡ o
        → (opts.include_proxies ≢ some false)
          × (IsBadFilter std (map_get g "filter") ⊎ IsBadFilter std (map_get g "exclude-filter"))
    by_block none q = ((λ no. cc), bad (rw (q, populate) at h))
    by_block (some true) q = ((λ no. cc), bad (rw (q, populate) at h))
    by_block (some false) q = absurd (kept (rw (q, populate) at h))
      where
        kept : ok g ≡ err e → ⊥
        kept q = cc

pub inject_group-IsRefused :
    (std : Std) (names : List String) (g : Node) (e : Error)
    → inject_group std names g ≡ err e
    → IsRefused std g
unfolding inject_group map_delete
inject_group-IsRefused std names g e h =
    let bare = (map_delete g "remnawave").0 in
    elim (bind-eq-err (parse_remnawave_group_opts std (find (content_of g) "remnawave")) _ h) [
      | inl (x, bad) ↦
          inl (parse_remnawave_group_opts-IsBadBlock std (find (content_of g) "remnawave") x bad)
      | inr (opts, parsed, later) ↦
          let (stays, what) = populate_refused std opts names bare e later in
          inr (
            opts,
            parse_remnawave_group_opts-Reads std (find (content_of g) "remnawave") opts parsed,
            stays,
            elim what [
              | inl (x, is, y, bad) ↦
                  inl (x, sym (map_get-map_delete_other g "remnawave" "filter" refl) ∙ is, y, bad)
              | inr (x, is, y, bad) ↦ inr (
                x,
                sym (map_get-map_delete_other g "remnawave" "exclude-filter" refl) ∙ is,
                y,
                bad,
              )
            ],
          )
    ]
