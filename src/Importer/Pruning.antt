-- ===== src/Importer/Pruning.antt =====
-- What the loop over the old manifest does to the row of one key.
use x_ui_subpage.Prelude.{
  ℕ, suc, ◌≡◌, refl, sym, subst, ◌∙◌, ap, ◌⊎◌, inl, inr, true, false, ◌&&◌, Option, none, some,
  List, [], ◌∷◌, arith, if◌then◌else◌, eqb, eqb_iff, eqb-eq-false_iff, Bool-cases, ok, Fault,
  Faults, call, In, here, there, bind-eq-ok, ok-injective, first-delete_where_self,
  first-delete_where_other, delete_where-In,
}
use x_ui_subpage.Templates.{Row}
use x_ui_subpage.Importer.{
  ManifestKey, Entry, Tables, has_slot, is_for, same_key, key_of, about, is_current, still_matches,
  prune_row, prune_orphaned,
}
use x_ui_subpage.Importer.Slot.{row_at, has_slot-apart, same_key-eq, same_key_refl, NotOwned}

abbrev pub pruned : ManifestKey → Entry → Option Row → Option Row
pruned k e o = if same_key k (key_of e) && still_matches e o then none else o

prune_row-pruned :
    (fault : Fault) (k : ManifestKey) (e : Entry) (t t' : Tables)
    → prune_row fault e t ≡ ok t'
    → (row_at k t' ≡ pruned k e (row_at k t)) × (t'.manifest ≡ t.manifest)
unfolding prune_row
prune_row-pruned fault k e t t' h = elim (Bool-cases (same_key k (key_of e))) [
  | inl same ↦
      subst
        (λ (j : ManifestKey).
          (row_at j t'
            ≡ (if same_key j (key_of e) && still_matches e (row_at j t) then none else row_at j t))
          × (t'.manifest ≡ t.manifest))
        (same_key-eq k (key_of e) same) own
  | inr apart ↦ elim (Bool-cases (still_matches e (row_at (key_of e) t))) [
    | inl matches ↦
        let (_, _, done) =
          bind-eq-ok (call (about "importer: prune orphaned" (key_of e)) fault) _
            (rw matches at h) in
        rw apart (
          subst (λ x. (row_at k x ≡ row_at k t) × (x.manifest ≡ t.manifest)) (ok-injective done)
            (
              first-delete_where_other (has_slot (key_of e)) (has_slot k)
                  (λ x. has_slot-apart k (key_of e) x apart) t.templates,
              refl,
            ))
    | inr differs ↦ rw apart (
        subst (λ x. (row_at k x ≡ row_at k t) × (x.manifest ≡ t.manifest))
          (ok-injective (rw differs at h)) (refl, refl))
  ]
]
  where
    own :
        (row_at (key_of e) t' ≡ pruned (key_of e) e (row_at (key_of e) t))
        × (t'.manifest ≡ t.manifest)
    own = elim (Bool-cases (still_matches e (row_at (key_of e) t))) [
      | inl matches ↦
          let (_, _, done) =
            bind-eq-ok (call (about "importer: prune orphaned" (key_of e)) fault) _
              (rw matches at h) in
          rw (same_key_refl (key_of e), matches)
            (subst (λ x. (row_at (key_of e) x ≡ none) × (x.manifest ≡ t.manifest))
              (ok-injective done) (first-delete_where_self (has_slot (key_of e)) t.templates, refl))
      | inr differs ↦
          rw (same_key_refl (key_of e), differs)
            (subst (λ x. (row_at (key_of e) x ≡ row_at (key_of e) t) × (x.manifest ≡ t.manifest))
              (ok-injective (rw differs at h)) (refl, refl))
    ]

-- What the whole loop makes of the row.
unfoldable pub pruned_all : ManifestKey → List ManifestKey → List Entry → Option Row → Option Row
pruned_all k current [] o = o
pruned_all k current (e ∷ old) o =
    pruned_all k current old (if is_current (key_of e) current then o else pruned k e o)

pub prune_orphaned-pruned :
    (faults : ℕ → Faults) (i : ℕ) (k : ManifestKey) (current : List ManifestKey) (old : List Entry)
    (t t' : Tables)
    → prune_orphaned faults i old current t ≡ ok t'
    → (row_at k t' ≡ pruned_all k current old (row_at k t))
      × ((x : Entry) → In x t'.manifest → In x t.manifest)
unfolding prune_orphaned pruned_all
prune_orphaned-pruned faults i k current [] t t' h =
    subst (λ x. (row_at k x ≡ row_at k t) × ((y : Entry) → In y x.manifest → In y t.manifest))
      (ok-injective h) (refl, λ _ m. m)
prune_orphaned-pruned faults i k current (e ∷ old) t t' h =
    elim (Bool-cases (is_current (key_of e) current)) [
      | inl kept ↦
          rw kept (
            prune_orphaned-pruned faults (suc i) k current old t t'
              (rw (kept, prune_orphaned) at h))
      | inr orphan ↦
          let (_, _, step) =
            bind-eq-ok (call (about "importer: check orphaned" (key_of e)) (faults i 0)) _
              (rw (orphan, prune_orphaned) at h) in
          let (t1, row, rest) = bind-eq-ok (prune_row (faults i 1) e t) _ step in
          let (_, _, later) =
            bind-eq-ok (call (about "importer: clear manifest" (key_of e)) (faults i 2)) _ rest in
          let (rows, manifest) = prune_row-pruned (faults i 1) k e t t1 row in
          let (all, within) = prune_orphaned-pruned faults (suc i) k current old _ t' later in
          (
            rw orphan (all ∙ ap (pruned_all k current old) rows),
            λ x m.
                subst (In x) manifest
                  (delete_where-In (is_for (key_of e)) x t1.manifest (within x m)).0,
          )
    ]

pub pruned_all-keeps :
    (k : ManifestKey) (current : List ManifestKey) (r : Row) (old : List Entry)
    → NotOwned k r old
    → pruned_all k current old (some r) ≡ some r
unfolding pruned_all
pruned_all-keeps k current r [] h = refl
pruned_all-keeps k current r (e ∷ old) h =
    ap (pruned_all k current old) stays ∙ pruned_all-keeps k current r old (λ x m. h x (there m))
  where
    not_it : (same_key k (key_of e) && eqb r.updated_at e.updated_at) ≡ false
    not_it = elim (Bool-cases (same_key k (key_of e))) [
      | inl same ↦
          rw same
            ((eqb-eq-false_iff r.updated_at e.updated_at).1 (λ q. h e (here refl) same (sym q)))
      | inr apart ↦ rw apart refl
    ]

    stays : (if is_current (key_of e) current then some r else pruned k e (some r)) ≡ some r
    stays = elim (Bool-cases (is_current (key_of e) current)) [
      | inl c ↦ rw c refl
      | inr c ↦ rw (c, not_it) refl
    ]

pub pruned_all-current :
    (k : ManifestKey) (current : List ManifestKey) (old : List Entry) (o : Option Row)
    → is_current k current ≡ true
    → pruned_all k current old o ≡ o
unfolding pruned_all
pruned_all-current k current [] o h = refl
pruned_all-current k current (e ∷ old) o h =
    ap (pruned_all k current old) stays ∙ pruned_all-current k current old o h
  where
    stays : (if is_current (key_of e) current then o else pruned k e o) ≡ o
    stays = elim (Bool-cases (same_key k (key_of e))) [
      | inl same ↦
          let c : is_current (key_of e) current ≡ true =
            subst (λ j. is_current j current ≡ true) (sym (same_key-eq k (key_of e) same)) h in
          rw c refl
      | inr apart ↦ elim (Bool-cases (is_current (key_of e) current)) [
        | inl c ↦ rw c refl
        | inr c ↦ rw (c, apart) refl
      ]
    ]

pub pruned_all-none :
    (k : ManifestKey) (current : List ManifestKey) (old : List Entry)
    → pruned_all k current old none ≡ none
unfolding pruned_all
pruned_all-none k current [] = refl
pruned_all-none k current (e ∷ old) =
    ap (pruned_all k current old) (ground arith) ∙ pruned_all-none k current old

-- The row goes when some entry has its key and its stamp and no file had the key.
pub pruned_all-orphan :
    (k : ManifestKey) (current : List ManifestKey) (old : List Entry) (r : Row) (e : Entry)
    → In e old
    → is_for k e ≡ true
    → r.updated_at ≡ e.updated_at
    → is_current k current ≡ false
    → pruned_all k current old (some r) ≡ none
unfolding pruned_all
pruned_all-orphan k current [] r e m is stamp h = elim m [ ]
pruned_all-orphan k current (x ∷ old) r e (here at_x) is stamp h =
    ap (pruned_all k current old) gone ∙ pruned_all-none k current old
  where
    same : same_key k (key_of x) ≡ true
    same = subst (λ y. same_key k (key_of y) ≡ true) at_x is

    orphan : is_current (key_of x) current ≡ false
    orphan = subst (λ j. is_current j current ≡ false) (sym (same_key-eq k (key_of x) same)) h

    matches : eqb r.updated_at x.updated_at ≡ true
    matches = (eqb_iff r.updated_at x.updated_at).1 (stamp ∙ ap (λ y. y.updated_at) at_x)

    gone : (if is_current (key_of x) current then some r else pruned k x (some r)) ≡ none
    gone = rw (orphan, same, matches) refl
pruned_all-orphan k current (x ∷ old) r e (there m) is stamp h = elim outcome [
  | inl stays ↦
      ap (pruned_all k current old) stays ∙ pruned_all-orphan k current old r e m is stamp h
  | inr goes ↦ ap (pruned_all k current old) goes ∙ pruned_all-none k current old
]
  where
    after : Option Row
    after = if is_current (key_of x) current then some r else pruned k x (some r)

    outcome : (after ≡ some r) ⊎ (after ≡ none)
    outcome = elim (Bool-cases (is_current (key_of x) current)) [
      | inl c ↦ rw c (inl refl)
      | inr c ↦ elim (Bool-cases (same_key k (key_of x) && eqb r.updated_at x.updated_at)) [
        | inl hit ↦ rw (c, hit) (inr refl)
        | inr miss ↦ rw (c, miss) (inl refl)
      ]
    ]
