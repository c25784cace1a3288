-- ===== src/Generator/Yaml/Options.antt =====
-- What a proxy group's `remnawave:` block says.
use x_ui_subpage.Prelude.{
  ◌≡◌, refl, sym, subst, ap, ◌∙◌, inl, inr, String, eq_iff, arith, Bool, true, false, Bool-cases,
  Option, none, some, if◌then◌else◌, ◌==◌, Error, Result, ok, err, bind-eq-ok, ok-injective,
  in_context-eq-ok, in_context,
}
use x_ui_subpage.Generator.Yaml.{Node, Content, Std, empty, more, value_of, content_of, is_mapping}
use x_ui_subpage.Generator.Yaml.Groups.{
  RemnawaveGroupOpts, no_opts, with_opt, parse_opts, parse_remnawave_group_opts,
}

abbrev decoded : Result Bool → Option Bool
decoded (ok b) = some b
decoded (err _) = none

abbrev later_or : Option Bool → Option Bool → Option Bool
later_or (some b) here = some b
later_or none here = here

-- The last value that the pairs have for a key, as a Boolean.
abbrev pub flag_in : Std → String → Content → Option Bool
flag_in std key empty = none
flag_in std key (more k empty) = none
flag_in std key (more k (more v rest)) =
    later_or (flag_in std key rest)
      (if value_of k == key then decoded (std.decode_bool v) else none)

abbrev pub flag_of : Std → String → Option Node → Option Bool
flag_of std key none = none
flag_of std key (some block) = flag_in std key (content_of block)

-- A flag, or what holds without it.
abbrev pub or_default {ℓ} : {A : Type ℓ} → (Bool → A) → Option Bool → A → A
or_default given none default = default
or_default given (some b) default = given b

abbrev pub itself : Bool → Bool
itself b = b

-- The options are the block's flags: opting in or out, and else false.
abbrev pub Reads : Std → Option Node → RemnawaveGroupOpts → Type 0
Reads std block opts =
    (opts.include_proxies ≡ flag_of std "include-proxies" block)
    × (opts.select_random_proxy ≡ or_default itself (flag_of std "select-random-proxy" block) false)
    × (opts.shuffle_proxies_order
        ≡ or_default itself (flag_of std "shuffle-proxies-order" block) false)

one_flag {ℓ} :
    {A : Type ℓ} (given : Bool → A) (later : Option Bool) (t b : Bool) (default : A)
    → or_default given later (if t then given b else default)
      ≡ or_default given (later_or later (if t then some b else none)) default
one_flag given (some _) t b default = refl
one_flag given none true b default = refl
one_flag given none false b default = refl

with_opt-include :
    (k : String) (b : Bool) (o : RemnawaveGroupOpts)
    → (with_opt k b o).include_proxies
      ≡ (if k == "include-proxies" then some b else o.include_proxies)
with_opt-include k b o = elim (Bool-cases (k == "include-proxies")) [
  | inl hit ↦ rw hit refl
  | inr miss ↦ elim (Bool-cases (k == "select-random-proxy")) [
    | inl hit ↦ rw (miss, hit) refl
    | inr miss' ↦ elim (Bool-cases (k == "shuffle-proxies-order")) [
      | inl hit ↦ rw (miss, miss', hit) refl
      | inr miss'' ↦ rw (miss, miss', miss'') refl
    ]
  ]
]

with_opt-select :
    (k : String) (b : Bool) (o : RemnawaveGroupOpts)
    → (with_opt k b o).select_random_proxy
      ≡ (if k == "select-random-proxy" then b else o.select_random_proxy)
with_opt-select k b o = elim (Bool-cases (k == "include-proxies")) [
  | inl hit ↦
      let same : k ≡ "include-proxies" = ground (arith, hit, eq_iff k "include-proxies") in
      subst
        (λ x.
          (with_opt x b o).select_random_proxy
          ≡ (if x == "select-random-proxy" then b else o.select_random_proxy))
        (sym same) refl
  | inr miss ↦ elim (Bool-cases (k == "select-random-proxy")) [
    | inl hit ↦ rw (miss, hit) refl
    | inr miss' ↦ elim (Bool-cases (k == "shuffle-proxies-order")) [
      | inl hit ↦ rw (miss, miss', hit) refl
      | inr miss'' ↦ rw (miss, miss', miss'') refl
    ]
  ]
]

with_opt-shuffle :
    (k : String) (b : Bool) (o : RemnawaveGroupOpts)
    → (with_opt k b o).shuffle_proxies_order
      ≡ (if k == "shuffle-proxies-order" then b else o.shuffle_proxies_order)
with_opt-shuffle k b o = elim (Bool-cases (k == "shuffle-proxies-order")) [
  | inl hit ↦
      let same : k ≡ "shuffle-proxies-order" =
        ground (arith, hit, eq_iff k "shuffle-proxies-order") in
      subst
        (λ x.
          (with_opt x b o).shuffle_proxies_order
          ≡ (if x == "shuffle-proxies-order" then b else o.shuffle_proxies_order))
        (sym same) refl
  | inr miss ↦ elim (Bool-cases (k == "include-proxies")) [
    | inl hit ↦ rw (hit, miss) refl
    | inr miss' ↦ elim (Bool-cases (k == "select-random-proxy")) [
      | inl hit ↦ rw (miss', hit, miss) refl
      | inr miss'' ↦ rw (miss', miss'', miss) refl
    ]
  ]
]

parse_opts-flags :
    (std : Std) (c : Content) (o opts : RemnawaveGroupOpts)
    → parse_opts std c o ≡ ok opts
    → (opts.include_proxies ≡ or_default some (flag_in std "include-proxies" c) o.include_proxies)
      × (opts.select_random_proxy
          ≡ or_default itself (flag_in std "select-random-proxy" c) o.select_random_proxy)
      × (opts.shuffle_proxies_order
          ≡ or_default itself (flag_in std "shuffle-proxies-order" c) o.shuffle_proxies_order)
unfolding parse_opts
parse_opts-flags std empty o opts e = rw (← ok-injective e) (refl, refl, refl)
parse_opts-flags std (more k empty) o opts e = rw (← ok-injective e) (refl, refl, refl)
parse_opts-flags std (more k (more v rest)) o opts e =
    let (b, read, e1) = bind-eq-ok (in_context "proxy-groups: remnawave" (std.decode_bool v)) _ e in
    let reads = in_context-eq-ok "proxy-groups: remnawave" (std.decode_bool v) read in
    let (include, random, shuffle) =
      parse_opts-flags std rest (with_opt (value_of k) b o) opts e1 in
    rw reads (
      include
          ∙ ap (or_default some (flag_in std "include-proxies" rest))
              (with_opt-include (value_of k) b o)
          ∙ one_flag some (flag_in std "include-proxies" rest) (value_of k == "include-proxies") b
              o.include_proxies,
      random
          ∙ ap (or_default itself (flag_in std "select-random-proxy" rest))
              (with_opt-select (value_of k) b o)
          ∙ one_flag itself (flag_in std "select-random-proxy" rest)
              (value_of k == "select-random-proxy") b o.select_random_proxy,
      shuffle
          ∙ ap (or_default itself (flag_in std "shuffle-proxies-order" rest))
              (with_opt-shuffle (value_of k) b o)
          ∙ one_flag itself (flag_in std "shuffle-proxies-order" rest)
              (value_of k == "shuffle-proxies-order") b o.shuffle_proxies_order,
    )

some_or_none : (f : Option Bool) → or_default some f none ≡ f
some_or_none none = refl
some_or_none (some b) = refl

pub parse_remnawave_group_opts-Reads :
    (std : Std) (block : Option Node) (opts : RemnawaveGroupOpts)
    → parse_remnawave_group_opts std block ≡ ok opts
    → Reads std block opts
unfolding parse_remnawave_group_opts
parse_remnawave_group_opts-Reads std none opts e = rw (← ok-injective e) (refl, refl, refl)
parse_remnawave_group_opts-Reads std (some n) opts e = elim (Bool-cases (is_mapping n)) [
  | inr other ↦ absurd (refused (rw other at e))
  | inl m ↦
      let (include, random, shuffle) =
        parse_opts-flags std (content_of n) no_opts opts (rw m at e) in
      (include ∙ some_or_none (flag_in std "include-proxies" (content_of n)), random, shuffle)
]
  where
    refused : {x : Error} → err x ≡ ok opts → ⊥
    refused q = cc
