-- ===== src/Generator/Yaml/Choices.antt =====
-- Which names of clients a proxy group takes.
use x_ui_subpage.Prelude.{
  ℕ, ◌<◌, ◌≡◌, refl, sym, ap, ◌∙◌, inl, inr, ◌⊎◌, String, arith, Bool, true, false, not, ◌&&◌,
  Bool-cases, Option, none, some, List, [], ◌∷◌, if◌then◌else◌, length, Result, ok, err, bind-eq-ok,
  ok-injective, In, here, there, select, in_context, in_context-eq-ok,
}
use mathlib.Core.List.{Perm}
use x_ui_subpage.Generator.Yaml.{Node, Std, value_of, map_get}
use x_ui_subpage.Generator.Yaml.Groups.{
  RemnawaveGroupOpts, filter_names, same, filtered, nth, injected,
}

-- A name matches the pattern of a filter.
abbrev pub matches : Std → Node → String → Bool
matches std pattern n = elim (std.compile (value_of pattern)) [ ok m ↦ m n | err _ ↦ false ]

-- What the group's "filter" lets in, and its "exclude-filter" takes out; without one, all and none.
abbrev pub lets_in : Std → Option Node → String → Bool
lets_in std none n = true
lets_in std (some pattern) n = matches std pattern n

abbrev pub takes_out : Std → Option Node → String → Bool
takes_out std none n = false
takes_out std (some pattern) n = matches std pattern n

-- The names that the group is about, in their order.
abbrev pub wanted : Std → Node → List String → List String
wanted std g names =
    select
      (λ n.
        lets_in std (map_get g "filter") n && not (takes_out std (map_get g "exclude-filter") n))
      names

-- One of the names, where there is one.
abbrev pub IsOneOf : List String → List String → Type 0
IsOneOf [] added = added ≡ []
IsOneOf (w ∷ ws) added = (n : String) × In n (w ∷ ws) × (added ≡ n ∷ [])

abbrev pub IsShuffled : Bool → List String → List String → Type 0
IsShuffled true ws added = Perm ws added
IsShuffled false ws added = added ≡ ws

-- By the options: one of the names, all of them in some order, or all of them in their order.
abbrev pub IsChosen : RemnawaveGroupOpts → List String → List String → Type 0
IsChosen opts ws added =
    ((opts.select_random_proxy ≡ true) × IsOneOf ws added)
    ⊎ ((opts.select_random_proxy ≡ false) × IsShuffled opts.shuffle_proxies_order ws added)

-- Shuffling puts names into some order, and a random index is below its bound.
abbrev pub IsShuffle : Std → Type 0
IsShuffle std = (names : List String) → Perm names (std.shuffle names)

abbrev pub IsIntn : Std → Type 0
IsIntn std = (n : ℕ) → 0 < n → std.intn n < n

select-same :
    (p q : String → Bool) (names : List String)
    → ((n : String) → p n ≡ q n)
    → select p names ≡ select q names
unfolding select
select-same p q [] e = refl
select-same p q (n ∷ names) e = rw (e n, select-same p q names e) refl

select-select :
    (p q : String → Bool) (names : List String)
    → select q (select p names) ≡ select (λ n. p n && q n) names
unfolding select
select-select p q [] = refl
select-select p q (n ∷ names) = elim (Bool-cases (p n)) [
  | inr out ↦ rw out (select-select p q names)
  | inl within ↦ elim (Bool-cases (q n)) [
    | inl kept ↦ rw (within, kept, select-select p q names) refl
    | inr dropped ↦ rw (within, dropped) (select-select p q names)
  ]
]

same-true : (b : Bool) → same b true ≡ b
same-true true = refl
same-true false = refl

same-false : (b : Bool) → same b false ≡ not b
same-false true = refl
same-false false = refl

select-all : (names : List String) → names ≡ select (λ _. true) names
unfolding select
select-all [] = refl
select-all (n ∷ names) = ap (λ ns. n ∷ ns) (select-all names)

compiled-matches :
    (std : Std) (x : Node) (m : String → Bool) (n : String)
    → std.compile (value_of x) ≡ ok m
    → m n ≡ matches std x n
compiled-matches std x m n is =
    ap (λ (r : Result (String → Bool)). elim r [ ok f ↦ f n | err _ ↦ false ]) (sym is)

filtered-lets_in :
    (std : Std) (context : String) (o : Option Node) (names names' : List String)
    → filtered std context true o names ≡ ok names'
    → names' ≡ select (lets_in std o) names
unfolding filter_names
filtered-lets_in std context none names names' e = sym (ok-injective e) ∙ select-all names
filtered-lets_in std context (some x) names names' e =
    let (m, compiled, e1) = bind-eq-ok (in_context context (std.compile (value_of x))) _ e in
    let is = in_context-eq-ok context (std.compile (value_of x)) compiled in
    sym (ok-injective e1)
    ∙ select-same (λ n. same (m n) true) (lets_in std (some x)) names
        (λ n. same-true (m n) ∙ compiled-matches std x m n is)

filtered-takes_out :
    (std : Std) (context : String) (o : Option Node) (names names' : List String)
    → filtered std context false o names ≡ ok names'
    → names' ≡ select (λ n. not (takes_out std o n)) names
unfolding filter_names
filtered-takes_out std context none names names' e = sym (ok-injective e) ∙ select-all names
filtered-takes_out std context (some x) names names' e =
    let (m, compiled, e1) = bind-eq-ok (in_context context (std.compile (value_of x))) _ e in
    let is = in_context-eq-ok context (std.compile (value_of x)) compiled in
    sym (ok-injective e1)
    ∙ select-same (λ n. same (m n) false) (λ n. not (takes_out std (some x) n)) names
        (λ n. same-false (m n) ∙ ap not (compiled-matches std x m n is))

-- Both filters, one after the other.
pub filtered-wanted :
    (std : Std) (context context' : String) (g : Node) (names some_names candidates : List String)
    → filtered std context true (map_get g "filter") names ≡ ok some_names
    → filtered std context' false (map_get g "exclude-filter") some_names ≡ ok candidates
    → candidates ≡ wanted std g names
filtered-wanted std context context' g names some_names candidates first second =
    filtered-takes_out std context' (map_get g "exclude-filter") some_names candidates second
    ∙ ap (select (λ n. not (takes_out std (map_get g "exclude-filter") n)))
        (filtered-lets_in std context (map_get g "filter") names some_names first)
    ∙ select-select (lets_in std (map_get g "filter"))
        (λ n. not (takes_out std (map_get g "exclude-filter") n)) names

nth-IsOneOf :
    (i : ℕ) (names : List String)
    → i < length names
    → (n : String) × In n names × (nth i names ≡ n ∷ [])
nth-IsOneOf i [] below = absurd (omega arith)
nth-IsOneOf ℕ.zero (x ∷ names) below = (x, here refl, refl)
nth-IsOneOf (ℕ.suc i) (x ∷ names) below =
    let (n, m, is) = nth-IsOneOf i names (omega arith) in (n, there m, is)

random-IsOneOf :
    (std : Std) (names : List String)
    → IsIntn std
    → IsOneOf names (nth (std.intn (length names)) names)
random-IsOneOf std [] below = refl
random-IsOneOf std (w ∷ ws) below =
    nth-IsOneOf (std.intn (length (w ∷ ws))) (w ∷ ws) (below (length (w ∷ ws)) (omega arith))

pub injected-IsChosen :
    (std : Std) (opts : RemnawaveGroupOpts) (names : List String)
    → IsShuffle std
    → IsIntn std
    → IsChosen opts names (injected std opts names)
unfolding injected
injected-IsChosen std opts names shuffles below = elim (Bool-cases opts.select_random_proxy) [
  | inl random ↦ inl (random, rw random (random-IsOneOf std names below))
  | inr all ↦ inr (all, rw all (in_order opts.shuffle_proxies_order))
]
  where
    in_order : (b : Bool) → IsShuffled b names (if b then std.shuffle names else names)
    in_order true = shuffles names
    in_order false = refl
