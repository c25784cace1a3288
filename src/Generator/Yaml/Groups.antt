-- ===== src/Generator/Yaml/Groups.antt =====
-- internal/generator/yamlgen/inject.go: the names of the proxies that a proxy group gets.
use x_ui_subpage.Prelude.{
  in_context, ℕ, String, Bool, true, false, not, Option, none, some, List, [], ◌∷◌, length,
  if◌then◌else◌, ◌==◌, new, Result, ok, err, ◌>>=◌, select,
}
use x_ui_subpage.Generator.Yaml.{
  Node, Content, empty, more, node, sequence, plain, Std, value_of, content_of, with_content,
  is_mapping, is_sequence, nodes, append, str, map_get, map_set, map_delete,
}

pub record RemnawaveGroupOpts : Type 0 where
  pub include_proxies : Option Bool
  pub select_random_proxy : Bool
  pub shuffle_proxies_order : Bool

abbrev pub no_opts : RemnawaveGroupOpts
no_opts = record {
  include_proxies = none;
  select_random_proxy = false;
  shuffle_proxies_order = false;
}

abbrev pub with_opt : String → Bool → RemnawaveGroupOpts → RemnawaveGroupOpts
with_opt k b opts =
    if k == "include-proxies"
    then record opts { include_proxies = some b }
    else if k == "select-random-proxy"
    then record opts { select_random_proxy = b }
    else if k == "shuffle-proxies-order"
    then record opts { shuffle_proxies_order = b }
    else opts

-- The loop over the block's pairs.
unfoldable pub parse_opts : Std → Content → RemnawaveGroupOpts → Result RemnawaveGroupOpts
parse_opts std empty opts = ok opts
parse_opts std (more k empty) opts = ok opts
parse_opts std (more k (more v rest)) opts =
    in_context "proxy-groups: remnawave" (std.decode_bool v) >>= λ b.
    parse_opts std rest (with_opt (value_of k) b opts)

unfoldable pub parse_remnawave_group_opts : Std → Option Node → Result RemnawaveGroupOpts
unfolding parse_opts
parse_remnawave_group_opts std none = ok no_opts
parse_remnawave_group_opts std (some n) =
    if is_mapping n
    then parse_opts std (content_of n) no_opts
    else err (new "proxy-groups: remnawave key must be a mapping")

abbrev pub same : Bool → Bool → Bool
same true b = b
same false b = not b

unfoldable pub filter_names : (String → Bool) → Bool → List String → List String
filter_names matches keep_matching names = select (λ n. same (matches n) keep_matching) names

-- One of the group's two filters, where it has it.
abbrev pub filtered : Std → String → Bool → Option Node → List String → Result (List String)
filtered std context keep_matching none names = ok names
filtered std context keep_matching (some n) names =
    in_context context (std.compile (value_of n)) >>= λ matches.
    ok (filter_names matches keep_matching names)

-- names[i]
abbrev pub nth : ℕ → List String → List String
nth i [] = []
nth ℕ.zero (n ∷ names) = n ∷ []
nth (ℕ.suc i) (n ∷ names) = nth i names

-- One of the candidates at random, all of them in a random order, or all of them in their order.
unfoldable pub injected : Std → RemnawaveGroupOpts → List String → List String
injected std opts candidates =
    if opts.select_random_proxy
    then nth (std.intn (length candidates)) candidates
    else if opts.shuffle_proxies_order
    then std.shuffle candidates
    else candidates

abbrev pub strs : List String → List Node
strs [] = []
strs (n ∷ names) = str n ∷ strs names

-- The group's own entries, where its "proxies" are a sequence.
abbrev pub own_entries : Option Node → Content
own_entries none = empty
own_entries (some n) = if is_sequence n then content_of n else empty

abbrev pub sequence_of : Option Node → Node
sequence_of none = node sequence "" "" plain empty
sequence_of (some n) = if is_sequence n then n else node sequence "" "" plain empty

-- The names go behind the entries that are there.
unfoldable pub add_names : List String → Node → Node
unfolding append map_get map_set
add_names names group =
    let proxies = sequence_of (map_get group "proxies") in
    map_set group "proxies"
      (with_content proxies (append (content_of proxies) (nodes (strs names))))

unfoldable pub populate : Std → RemnawaveGroupOpts → List String → Node → Result Node
unfolding filter_names injected add_names
populate std opts names group = elim opts.include_proxies [
  | some false ↦ ok group
  | _ ↦
      filtered std "proxy-groups: invalid filter regexp" true (map_get group "filter") names
      >>= λ candidates.
          (filtered std "proxy-groups: invalid exclude-filter regexp" false
              (map_get group "exclude-filter") candidates
            >>= λ candidates'. ok (add_names (injected std opts candidates') group))
]

unfoldable pub inject_group : Std → List String → Node → Result Node
unfolding parse_remnawave_group_opts populate map_delete
inject_group std names group =
    let (bare, block) = map_delete group "remnawave" in
    parse_remnawave_group_opts std block >>= λ opts. populate std opts names bare
