-- ===== src/Generator/Yaml/Lookups.antt =====
-- What a lookup finds in a mapping after it was changed.
use x_ui_subpage.Prelude.{
  ◌≡◌, refl, sym, subst, ◌∙◌, inl, inr, String, eq_iff, eq_refl, true, false, Bool-cases, some,
  List, ◌==◌, arith,
}
use x_ui_subpage.Generator.Yaml.{
  Node, Content, Kind, empty, more, node, mapping_kind, sequence, value_of, content_of,
  with_content, is_mapping, nodes, append, find, map_get, put, map_set, drop, map_delete,
  map_append,
}

-- Each key has its value.
abbrev pub IsPaired : Content → Type 0
IsPaired empty = Unit
IsPaired (more k empty) = ⊥
IsPaired (more k (more v rest)) = IsPaired rest

-- A mapping as the parser gives it.
abbrev pub IsMapping : Node → Type 0
IsMapping m = (is_mapping m ≡ true) × IsPaired (content_of m)

find-put_self : (c : Content) (k : String) (v : Node) → IsPaired c → find (put c k v) k ≡ some v
unfolding find put
find-put_self empty k v h = rw (eq_refl k) refl
find-put_self (more x empty) k v h = elim h [ ]
find-put_self (more x (more y rest)) k v h = elim (Bool-cases (value_of x == k)) [
  | inl hit ↦ rw (hit, hit) refl
  | inr miss ↦ rw (miss, miss) (find-put_self rest k v h)
]

find-put_other :
    (c : Content) (k k' : String) (v : Node)
    → IsPaired c
    → k == k' ≡ false
    → find (put c k v) k' ≡ find c k'
unfolding find put
find-put_other empty k k' v h ne = rw ne refl
find-put_other (more x empty) k k' v h ne = elim h [ ]
find-put_other (more x (more y rest)) k k' v h ne = elim (Bool-cases (value_of x == k)) [
  | inl hit ↦
      let apart : value_of x == k' ≡ false =
        ground (arith, eq_iff (value_of x) k, eq_iff (value_of x) k', eq_iff k k') in
      rw (hit, apart) refl
  | inr miss ↦ rw (miss, find-put_other rest k k' v h ne)
]

put-IsPaired : (c : Content) (k : String) (v : Node) → IsPaired c → IsPaired (put c k v)
unfolding put
put-IsPaired empty k v h = tt
put-IsPaired (more x empty) k v h = elim h [ ]
put-IsPaired (more x (more y rest)) k v h = elim (Bool-cases (value_of x == k)) [
  | inl hit ↦ rw hit h
  | inr miss ↦ rw miss (put-IsPaired rest k v h)
]

find-drop_other : (c : Content) (k k' : String) → k == k' ≡ false → find (drop c k) k' ≡ find c k'
unfolding find drop
find-drop_other empty k k' ne = refl
find-drop_other (more x empty) k k' ne = refl
find-drop_other (more x (more y rest)) k k' ne = elim (Bool-cases (value_of x == k)) [
  | inl hit ↦
      let apart : value_of x == k' ≡ false =
        ground (arith, eq_iff (value_of x) k, eq_iff (value_of x) k', eq_iff k k') in
      rw (hit, apart) refl
  | inr miss ↦ rw (miss, find-drop_other rest k k' ne)
]

drop-IsPaired : (c : Content) (k : String) → IsPaired c → IsPaired (drop c k)
unfolding drop
drop-IsPaired empty k h = tt
drop-IsPaired (more x empty) k h = elim h [ ]
drop-IsPaired (more x (more y rest)) k h = elim (Bool-cases (value_of x == k)) [
  | inl hit ↦ rw hit h
  | inr miss ↦ rw miss (drop-IsPaired rest k h)
]

find-append :
    (c ns : Content) (k : String) (v : Node)
    → IsPaired c
    → find c k ≡ some v
    → find (append c ns) k ≡ some v
unfolding find append
find-append empty ns k v h e = cc
find-append (more x empty) ns k v h e = elim h [ ]
find-append (more x (more y rest)) ns k v h e = elim (Bool-cases (value_of x == k)) [
  | inl hit ↦ rw hit (rw hit at e)
  | inr miss ↦ rw miss (find-append rest ns k v h (rw miss at e))
]

append-IsPaired : (c ns : Content) → IsPaired c → IsPaired ns → IsPaired (append c ns)
unfolding append
append-IsPaired empty ns h g = g
append-IsPaired (more x empty) ns h g = elim h [ ]
append-IsPaired (more x (more y rest)) ns h g = append-IsPaired rest ns h g

is_mapping-with_content : (m : Node) (c : Content) → is_mapping (with_content m c) ≡ is_mapping m
is_mapping-with_content (node Kind.zero_kind t v s _) c = refl
is_mapping-with_content (node Kind.document t v s _) c = refl
is_mapping-with_content (node Kind.scalar t v s _) c = refl
is_mapping-with_content (node mapping_kind t v s _) c = refl
is_mapping-with_content (node sequence t v s _) c = refl
is_mapping-with_content (node Kind.alias t v s _) c = refl

content_of-with_content : (m : Node) (c : Content) → content_of (with_content m c) ≡ c
content_of-with_content (node k t v s _) c = refl

pub map_get-map_set_self :
    (m : Node) (k : String) (v : Node) → IsMapping m → map_get (map_set m k v) k ≡ some v
unfolding map_get map_set
map_get-map_set_self m k v (is, paired) =
    rw
      (
        is_mapping-with_content m (put (content_of m) k v),
        is,
        content_of-with_content m (put (content_of m) k v),
      )
      (find-put_self (content_of m) k v paired)

pub map_get-map_set_other :
    (m : Node) (k k' : String) (v : Node)
    → IsMapping m
    → k == k' ≡ false
    → map_get (map_set m k v) k' ≡ map_get m k'
unfolding map_get map_set
map_get-map_set_other m k k' v (is, paired) ne =
    rw
      (
        is_mapping-with_content m (put (content_of m) k v),
        is,
        content_of-with_content m (put (content_of m) k v),
      )
      (find-put_other (content_of m) k k' v paired ne)

pub map_set-IsMapping : (m : Node) (k : String) (v : Node) → IsMapping m → IsMapping (map_set m k v)
unfolding map_set
map_set-IsMapping m k v (is, paired) = (
  is_mapping-with_content m (put (content_of m) k v) ∙ is,
  subst IsPaired (sym (content_of-with_content m (put (content_of m) k v)))
      (put-IsPaired (content_of m) k v paired),
)

pub map_get-map_delete_other :
    (m : Node) (k k' : String) → k == k' ≡ false → map_get (map_delete m k).0 k' ≡ map_get m k'
unfolding map_get map_delete
map_get-map_delete_other m k k' ne =
    rw
      (
        is_mapping-with_content m (drop (content_of m) k),
        content_of-with_content m (drop (content_of m) k),
        find-drop_other (content_of m) k k' ne,
      )
      refl

pub map_delete-IsMapping : (m : Node) (k : String) → IsMapping m → IsMapping (map_delete m k).0
unfolding map_delete
map_delete-IsMapping m k (is, paired) = (
  is_mapping-with_content m (drop (content_of m) k) ∙ is,
  subst IsPaired (sym (content_of-with_content m (drop (content_of m) k)))
      (drop-IsPaired (content_of m) k paired),
)

-- One mapping has all that another one has.
abbrev pub Extends : Node → Node → Type 0
Extends m m' =
    IsMapping m' × ((k : String) (v : Node) → map_get m k ≡ some v → map_get m' k ≡ some v)

pub map_append-Extends :
    (m : Node) (pairs : List Node)
    → IsMapping m
    → IsPaired (nodes pairs)
    → Extends m (map_append m pairs)
unfolding map_get
map_append-Extends m pairs (is, paired) added =
    let c = append (content_of m) (nodes pairs) in
    (
      (
        is_mapping-with_content m c ∙ is,
        subst IsPaired (sym (content_of-with_content m c))
            (append-IsPaired (content_of m) (nodes pairs) paired added),
      ),
      λ k v e.
          rw (is_mapping-with_content m c, is, content_of-with_content m c)
            (find-append (content_of m) (nodes pairs) k v paired (rw is at e)),
    )

pub Extends-trans : (l m n : Node) → Extends l m → Extends m n → Extends l n
Extends-trans l m n (_, f) (is, g) = (is, λ k v e. g k v (f k v e))
