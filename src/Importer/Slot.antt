-- ===== src/Importer/Slot.antt =====
-- What the writes of an import do to the rows of one key.
use x_ui_subpage.Prelude.{
  ℕ, ◌≡◌, refl, sym, subst, ◌∙◌, ap, ◌≢◌, inl, inr, String, eq_iff, Bool, true, false, not, ◌&&◌,
  Option, none, some, List, [], ◌∷◌, ◌++◌, arith, if◌then◌else◌, eqb-eq-false_iff, Bool-cases, ◌==◌,
  ok, Fault, Faults, call, first, update_where, upsert, In, bind-eq-ok, ok-injective,
  first-append_none, first-append_other, first-one, first-eq-some, first-update_where_self,
  first-update_where_other, upsert-In,
}
use x_ui_subpage.Templates.{Row, rewritten, row_of}
use x_ui_subpage.Templates.Edits.{is_at-row_of}
use x_ui_subpage.Importer.{
  ManifestKey, Entry, Tables, has_slot, is_for, same_key, entry_of, about, record_manifest,
  is_pristine, upsert_found, upsert_template_preserving_edits,
}

abbrev pub row_at : ManifestKey → Tables → Option Row
row_at k t = first (has_slot k) t.templates

-- A row of one key is none of another key.
pub has_slot-apart :
    (k j : ManifestKey) (r : Row)
    → same_key k j ≡ false
    → has_slot j r ≡ true
    → has_slot k r ≡ false
has_slot-apart k j r e h = ground (
  arith,
  eq_iff j.format k.format,
  eq_iff j.profile k.profile,
  eq_iff j.protocol k.protocol,
  eq_iff r.format k.format,
  eq_iff r.profile k.profile,
  eq_iff r.protocol k.protocol,
  eq_iff r.format j.format,
  eq_iff r.profile j.profile,
  eq_iff r.protocol j.protocol,
)

pub is_for-apart :
    (k j : ManifestKey) (r : Entry) → same_key k j ≡ false → is_for j r ≡ true → is_for k r ≡ false
is_for-apart k j r e h = ground (
  arith,
  eq_iff j.format k.format,
  eq_iff j.profile k.profile,
  eq_iff j.protocol k.protocol,
  eq_iff r.format k.format,
  eq_iff r.profile k.profile,
  eq_iff r.protocol k.protocol,
  eq_iff r.format j.format,
  eq_iff r.profile j.profile,
  eq_iff r.protocol j.protocol,
)

pub same_key-eq : (k j : ManifestKey) → same_key k j ≡ true → j ≡ k
same_key-eq k j e =
    ground
      (arith, eq_iff j.format k.format, eq_iff j.profile k.profile, eq_iff j.protocol k.protocol)

pub same_key_refl : (k : ManifestKey) → same_key k k ≡ true
same_key_refl k =
    ground
      (arith, eq_iff k.format k.format, eq_iff k.profile k.profile, eq_iff k.protocol k.protocol)

pub has_slot-row_of :
    (k : ManifestKey) (content : String) (now : ℕ)
    → has_slot k (row_of k.format k.profile k.protocol content now) ≡ true
has_slot-row_of k content now = is_at-row_of k.format k.profile k.protocol content now

-- No entry for the key carries the row's stamp: the importer did not write the row last.
abbrev pub NotOwned : ManifestKey → Row → List Entry → Type 0
NotOwned k r entries = (e : Entry) → In e entries → is_for k e ≡ true → e.updated_at ≢ r.updated_at

-- The row of the key stays, and so does that it is not the importer's.
abbrev pub Untouched : ManifestKey → Tables → Tables → Type 0
Untouched k t t' =
    (row_at k t' ≡ row_at k t) × ((r : Row) → NotOwned k r t.manifest → NotOwned k r t'.manifest)

NotOwned-upsert :
    (k j : ManifestKey) (r : Row) (now : ℕ) (entries : List Entry)
    → same_key k j ≡ false
    → NotOwned k r entries
    → NotOwned k r (upsert (is_for j) (λ e. record e { updated_at = now }) (entry_of j now) entries)
NotOwned-upsert k j r now entries apart h e m is =
    elim (upsert-In (is_for j) (λ x. record x { updated_at = now }) (entry_of j now) e entries m) [
      | inl old ↦ h e old is
      | inr (inl fresh) ↦ absurd (clash apart (rw fresh at is))
      | inr (inr (x, hit, changed)) ↦
          absurd (clash (is_for-apart k j x apart hit) (rw changed at is))
    ]
  where
    clash : {b : Bool} → b ≡ false → b ≡ true → ⊥
    clash e f = cc

record_manifest-Untouched :
    (fault : Fault) (k j : ManifestKey) (now : ℕ) (t t' : Tables)
    → same_key k j ≡ false
    → record_manifest fault j now t ≡ ok t'
    → Untouched k t t'
unfolding record_manifest
record_manifest-Untouched (some cause) k j now t t' apart e = cc
record_manifest-Untouched none k j now t t' apart e =
    subst (λ x. Untouched k t x) (ok-injective e)
      (refl, λ r h. NotOwned-upsert k j r now t.manifest apart h)

record_manifest-templates :
    (fault : Fault) (k : ManifestKey) (now : ℕ) (t t' : Tables)
    → record_manifest fault k now t ≡ ok t'
    → t'.templates ≡ t.templates
unfolding record_manifest
record_manifest-templates (some cause) k now t t' e = cc
record_manifest-templates none k now t t' e =
    subst (λ x. x.templates ≡ t.templates) (ok-injective e) refl

inserted-apart :
    (k j : ManifestKey) (content : String) (now : ℕ) (rows : List Row)
    → same_key k j ≡ false
    → first (has_slot k) (rows ++ row_of j.format j.profile j.protocol content now ∷ [])
      ≡ first (has_slot k) rows
inserted-apart k j content now rows apart =
    first-append_other (has_slot k) rows (row_of j.format j.profile j.protocol content now) (
      has_slot-apart k j (row_of j.format j.profile j.protocol content now) apart
        (has_slot-row_of j content now))

rewritten-apart :
    (k j : ManifestKey) (content : String) (now : ℕ) (rows : List Row)
    → same_key k j ≡ false
    → first (has_slot k) (update_where (has_slot j) (rewritten content now) rows)
      ≡ first (has_slot k) rows
rewritten-apart k j content now rows apart =
    first-update_where_other (has_slot j) (has_slot k) (rewritten content now)
      (λ x hit. (has_slot-apart k j x apart hit, has_slot-apart k j x apart hit)) rows

upsert_found-Untouched :
    (faults : Faults) (k j : ManifestKey) (content : String) (old : List Entry) (now : ℕ)
    (o : Option Row) (t t' : Tables)
    → same_key k j ≡ false
    → upsert_found faults j content old now o t ≡ ok t'
    → Untouched k t t'
unfolding upsert_found
upsert_found-Untouched faults k j content old now none t t' apart e =
    let (_, _, recorded) = bind-eq-ok (call (about "importer: insert" j) (faults 1)) _ e in
    let (same, kept) = record_manifest-Untouched (faults 2) k j now _ t' apart recorded in
    (same ∙ inserted-apart k j content now t.templates apart, kept)
upsert_found-Untouched faults k j content old now (some r) t t' apart e =
    elim (Bool-cases (is_pristine r (first (is_for j) old))) [
      | inr edited ↦ subst (λ x. Untouched k t x) (ok-injective (rw edited at e)) (refl, λ _ h. h)
      | inl pristine ↦ elim (Bool-cases (r.content == content)) [
        | inl same ↦
            subst (λ x. Untouched k t x) (ok-injective (rw (pristine, same) at e)) (refl, λ _ h. h)
        | inr differs ↦
            let (_, _, recorded) =
              bind-eq-ok (call (about "importer: refresh" j) (faults 1)) _
                (rw (pristine, differs) at e) in
            let (same, kept) = record_manifest-Untouched (faults 2) k j now _ t' apart recorded in
            (same ∙ rewritten-apart k j content now t.templates apart, kept)
      ]
    ]

-- The write of another key.
pub upsert-Untouched :
    (faults : Faults) (k j : ManifestKey) (content : String) (old : List Entry) (now : ℕ)
    (t t' : Tables)
    → same_key k j ≡ false
    → upsert_template_preserving_edits faults j content old now t ≡ ok t'
    → Untouched k t t'
unfolding upsert_template_preserving_edits
upsert-Untouched faults k j content old now t t' apart e =
    let (_, _, found) = bind-eq-ok (call (about "importer: check existing" j) (faults 0)) _ e in
    upsert_found-Untouched faults k j content old now (row_at j t) t t' apart found

-- What the write of a key makes of the key's own row.
unfoldable pub written : ManifestKey → String → ℕ → Option Entry → Option Row → Row
written k content now last none = row_of k.format k.profile k.protocol content now
written k content now last (some r) =
    if is_pristine r last && not (r.content == content) then rewritten content now r else r

upsert_found-written :
    (faults : Faults) (k : ManifestKey) (content : String) (old : List Entry) (now : ℕ)
    (o : Option Row) (t t' : Tables)
    → row_at k t ≡ o
    → upsert_found faults k content old now o t ≡ ok t'
    → row_at k t' ≡ some (written k content now (first (is_for k) old) o)
unfolding upsert_found written
upsert_found-written faults k content old now none t t' o e =
    let (_, _, recorded) = bind-eq-ok (call (about "importer: insert" k) (faults 1)) _ e in
    ap (first (has_slot k)) (record_manifest-templates (faults 2) k now _ t' recorded)
    ∙ first-append_none (has_slot k) t.templates _ o
    ∙ first-one (has_slot k) (row_of k.format k.profile k.protocol content now)
        (has_slot-row_of k content now)
upsert_found-written faults k content old now (some r) t t' o e =
    elim (Bool-cases (is_pristine r (first (is_for k) old))) [
      | inr edited ↦ rw edited (subst (λ x. row_at k x ≡ some r) (ok-injective (rw edited at e)) o)
      | inl pristine ↦ elim (Bool-cases (r.content == content)) [
        | inl same ↦
            rw (pristine, same)
              (subst (λ x. row_at k x ≡ some r) (ok-injective (rw (pristine, same) at e)) o)
        | inr differs ↦
            let (_, _, recorded) =
              bind-eq-ok (call (about "importer: refresh" k) (faults 1)) _
                (rw (pristine, differs) at e) in
            rw (pristine, differs)
              (ap (first (has_slot k)) (record_manifest-templates (faults 2) k now _ t' recorded)
                ∙ first-update_where_self (has_slot k) (rewritten content now) (λ _ h. h)
                    t.templates r o)
      ]
    ]

pub upsert-written :
    (faults : Faults) (k : ManifestKey) (content : String) (old : List Entry) (now : ℕ)
    (t t' : Tables)
    → upsert_template_preserving_edits faults k content old now t ≡ ok t'
    → row_at k t' ≡ some (written k content now (first (is_for k) old) (row_at k t))
unfolding upsert_template_preserving_edits
upsert-written faults k content old now t t' e =
    let (_, _, found) = bind-eq-ok (call (about "importer: check existing" k) (faults 0)) _ e in
    upsert_found-written faults k content old now (row_at k t) t t' refl found

-- A row that the importer does not own keeps everything, whatever the file says.
pub upsert-keeps :
    (faults : Faults) (k : ManifestKey) (content : String) (old : List Entry) (now : ℕ) (r : Row)
    (t t' : Tables)
    → row_at k t ≡ some r
    → NotOwned k r old
    → upsert_template_preserving_edits faults k content old now t ≡ ok t'
    → t ≡ t'
unfolding upsert_template_preserving_edits upsert_found
upsert-keeps faults k content old now r t t' found h e =
    let (_, _, rest) = bind-eq-ok (call (about "importer: check existing" k) (faults 0)) _ e in
    ok-injective (rw (found, upsert_found, not_pristine) at rest)
  where
    by_entry : (o : Option Entry) → first (is_for k) old ≡ o → is_pristine r o ≡ false
    by_entry none e = refl
    by_entry (some x) e =
        let (m, is) = first-eq-some (is_for k) old x e in
        (eqb-eq-false_iff r.updated_at x.updated_at).1 (λ same. h x m is (sym same))

    not_pristine : is_pristine r (first (is_for k) old) ≡ false
    not_pristine = by_entry (first (is_for k) old) refl
