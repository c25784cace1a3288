-- ===== src/Importer/Runs.antt =====
-- What a whole import of a format does to the row of one key.
use x_ui_subpage.Prelude.{
  in_context-eq-ok, in_context, ℕ, suc, ◌≡◌, refl, sym, subst, ◌∙◌, ap, inl, inr, String, true,
  false, none, some, List, [], ◌∷◌, ◌++◌, arith, Bool-cases, Result, ok, Fault, Faults, call, first,
  select, All, bind-eq-ok, ok-injective, commit-eq-ok,
}
use x_ui_subpage.Templates.{Row, one_of}
use x_ui_subpage.Importer.{
  ManifestKey, Entry, Tables, DirEntry, Reports, is_for, same_key, is_current, is_template, slot_of,
  commit_error, load_manifest, upsert_template_preserving_edits, import_entries, prune_orphaned,
  import_yaml_templates, import_tx,
}
use x_ui_subpage.Importer.Slot.{
  row_at, same_key-eq, same_key_refl, NotOwned, upsert-Untouched, written, upsert-written,
  upsert-keeps,
}

-- The row and what makes it survive.
abbrev pub Kept : ManifestKey → Row → Tables → Type 0
Kept k r t = (row_at k t ≡ some r) × NotOwned k r t.manifest

-- One round of the loop over the directory.
round :
    (faults : ℕ → Faults) (i : ℕ) (format : String) (old : List Entry) (now : ℕ) (e : DirEntry)
    (entries : List DirEntry) (t t' : Tables) (current : List ManifestKey)
    → is_template e ≡ true
    → import_entries faults i format old now (e ∷ entries) t ≡ ok (t', current)
    → (content : String) × (t1 : Tables) × (seen : List ManifestKey) × (e.content ≡ ok content)
      × (upsert_template_preserving_edits (faults i) (slot_of format e.name) content old now t
          ≡ ok t1)
      × (import_entries faults (suc i) format old now entries t1 ≡ ok (t', seen))
      × (current ≡ slot_of format e.name ∷ seen)
unfolding import_entries
round faults i format old now e entries t t' current is h =
    let (content, read, h1) =
      bind-eq-ok (in_context _ e.content) _ (rw (is, import_entries) at h) in
    let (t1, wrote, h2) =
      bind-eq-ok
        (in_context _
          (upsert_template_preserving_edits (faults i) (slot_of format e.name) content old now t))
        _ h1 in
    let ((t2, seen), rest, h3) =
      bind-eq-ok (import_entries faults (suc i) format old now entries t1) _ h2 in
    let same : (t2, slot_of format e.name ∷ seen) ≡ (t', current) = ok-injective h3 in
    (
      content,
      t1,
      seen,
      in_context-eq-ok _ e.content read,
      in_context-eq-ok _ _ wrote,
      rest ∙ ap (λ x. ok (x, seen)) (ap (λ x. x.0) same),
      sym (ap (λ x. x.1) same),
    )

-- A file that is no template is passed over.
passed :
    (faults : ℕ → Faults) (i : ℕ) (format : String) (old : List Entry) (now : ℕ) (e : DirEntry)
    (entries : List DirEntry) (t : Tables) {r : Result (Tables × List ManifestKey)}
    → is_template e ≡ false
    → import_entries faults i format old now (e ∷ entries) t ≡ r
    → import_entries faults (suc i) format old now entries t ≡ r
unfolding import_entries
passed faults i format old now e entries t is h = rw (is, import_entries) at h

pub import_entries-keeps :
    (faults : ℕ → Faults) (i : ℕ) (format : String) (old : List Entry) (now : ℕ)
    (entries : List DirEntry) (t t' : Tables) (current : List ManifestKey) (k : ManifestKey)
    (r : Row)
    → NotOwned k r old
    → Kept k r t
    → import_entries faults i format old now entries t ≡ ok (t', current)
    → Kept k r t'
unfolding import_entries
import_entries-keeps faults i format old now [] t t' current k r h kept e =
    subst (Kept k r) (ap (λ x. x.0) (ok-injective e)) kept
import_entries-keeps faults i format old now (e ∷ entries) t t' current k r h kept q =
    elim (Bool-cases (is_template e)) [
      | inr other ↦
          import_entries-keeps faults (suc i) format old now entries t t' current k r h kept
            (passed faults i format old now e entries t other q)
      | inl is ↦
          let (content, t1, seen, _, wrote, rest, _) =
            round faults i format old now e entries t t' current is q in
          import_entries-keeps faults (suc i) format old now entries t1 t' seen k r h
            (after_write content t1 wrote) rest
    ]
  where
    after_write :
        (content : String) (t1 : Tables)
        → upsert_template_preserving_edits (faults i) (slot_of format e.name) content old now t
          ≡ ok t1
        → Kept k r t1
    after_write content t1 wrote = elim (Bool-cases (same_key k (slot_of format e.name))) [
      | inr apart ↦
          let (row, entries_kept) =
            upsert-Untouched (faults i) k (slot_of format e.name) content old now t t1 apart
              wrote in
          (row ∙ kept.0, entries_kept r kept.1)
      | inl same ↦
          subst (Kept k r)
            (upsert-keeps (faults i) k content old now r t t1 kept.0 h (
              subst (λ j. upsert_template_preserving_edits (faults i) j content old now t ≡ ok t1)
                (same_key-eq k (slot_of format e.name) same) wrote))
            kept
    ]

-- No template file of the directory has the key.
abbrev pub NoFile : ManifestKey → String → List DirEntry → Type 0
NoFile k format entries =
    All (λ e. is_template e ≡ true → same_key k (slot_of format e.name) ≡ false) entries

pub import_entries-absent :
    (faults : ℕ → Faults) (i : ℕ) (format : String) (old : List Entry) (now : ℕ)
    (entries : List DirEntry) (t t' : Tables) (current : List ManifestKey) (k : ManifestKey)
    → NoFile k format entries
    → import_entries faults i format old now entries t ≡ ok (t', current)
    → (row_at k t' ≡ row_at k t) × (is_current k current ≡ false)
unfolding import_entries
import_entries-absent faults i format old now [] t t' current k h e =
    subst
      (λ (x : Tables × List ManifestKey). (row_at k x.0 ≡ row_at k t) × (is_current k x.1 ≡ false))
      (ok-injective e) (refl, refl)
import_entries-absent faults i format old now (e ∷ entries) t t' current k (apart, h) q =
    elim (Bool-cases (is_template e)) [
      | inr other ↦
          import_entries-absent faults (suc i) format old now entries t t' current k h
            (passed faults i format old now e entries t other q)
      | inl is ↦
          let (content, t1, seen, _, wrote, rest, all) =
            round faults i format old now e entries t t' current is q in
          let (rows, unseen) =
            import_entries-absent faults (suc i) format old now entries t1 t' seen k h rest in
          let (row, _) =
            upsert-Untouched (faults i) k (slot_of format e.name) content old now t t1 (apart is)
              wrote in
          (rows ∙ row, subst (λ x. is_current k x ≡ false) (sym all) (rw (apart is) unseen))
    ]

-- The only file of a key decides on its row.
pub import_entries-written :
    (faults : ℕ → Faults) (i : ℕ) (format : String) (old : List Entry) (now : ℕ)
    (before : List DirEntry) (file : DirEntry) (later : List DirEntry) (t t' : Tables)
    (current : List ManifestKey) (content : String)
    → is_template file ≡ true
    → file.content ≡ ok content
    → NoFile (slot_of format file.name) format before
    → NoFile (slot_of format file.name) format later
    → import_entries faults i format old now (before ++ file ∷ later) t ≡ ok (t', current)
    → (row_at (slot_of format file.name) t'
        ≡ some (
            written
              (slot_of format file.name)
              content
              now
              (first (is_for (slot_of format file.name)) old)
              (row_at (slot_of format file.name) t)))
      × (is_current (slot_of format file.name) current ≡ true)
unfolding import_entries
import_entries-written faults i format old now [] file later t t' current content is read _
      none_later q =
    let k = slot_of format file.name in
    let (content', t1, seen, read', wrote, rest, all) =
      round faults i format old now file later t t' current is q in
    let same : content' ≡ content = ok-injective (sym read' ∙ read) in
    let (rows, _) =
      import_entries-absent faults (suc i) format old now later t1 t' seen k none_later rest in
    (
      rows
          ∙ upsert-written (faults i) k content' old now t t1 wrote
          ∙ ap (λ c. some (written k c now (first (is_for k) old) (row_at k t))) same,
      subst (λ x. is_current k x ≡ true) (sym all) (rw (same_key_refl k) refl),
    )
import_entries-written faults i format old now (e ∷ before) file later t t' current content is read
      (apart, none_before) none_later q =
    elim (Bool-cases (is_template e)) [
      | inr other ↦
          import_entries-written faults (suc i) format old now before file later t t' current
            content is read none_before none_later
            (passed faults i format old now e (before ++ file ∷ later) t other q)
      | inl e_is ↦
          let k = slot_of format file.name in
          let (content', t1, seen, _, wrote, rest, all) =
            round faults i format old now e (before ++ file ∷ later) t t' current e_is q in
          let (rows, seen_it) =
            import_entries-written faults (suc i) format old now before file later t1 t' seen
              content is read none_before none_later rest in
          let (row, _) =
            upsert-Untouched (faults i) k (slot_of format e.name) content' old now t t1 (apart e_is)
              wrote in
          (
            rows ∙ ap (λ o. some (written k content now (first (is_for k) old) o)) row,
            subst (λ x. is_current k x ≡ true) (sym all) (rw seen_it (ground arith)),
          )
    ]

load_manifest-eq-ok :
    (fault : Fault) (format : String) (t : Tables) (old : List Entry)
    → load_manifest fault (format ∷ []) t ≡ ok old
    → old ≡ select (λ (e : Entry). one_of e.format (format ∷ [])) t.manifest
unfolding load_manifest
load_manifest-eq-ok (some cause) format t old e = cc
load_manifest-eq-ok none format t old e = sym (ok-injective e)

-- The parts of an import that succeeds.
pub import-steps :
    (range : List Entry → List Entry) (faults : Reports) (now : ℕ) (path format : String)
    (dir : Result (List DirEntry)) (t t' : Tables)
    → import_yaml_templates range faults now path format dir t ≡ (t', ok tt)
    → (entries : List DirEntry) × (t1 : Tables) × (current : List ManifestKey) × (dir ≡ ok entries)
      × (import_entries faults.writes 0 format
            (select (λ (e : Entry). one_of e.format (format ∷ [])) t.manifest)
            now
            entries
            t
          ≡ ok (t1, current))
      × (prune_orphaned faults.prunes 0
            (range (select (λ (e : Entry). one_of e.format (format ∷ [])) t.manifest))
            current
            t1
          ≡ ok t')
unfolding import_yaml_templates import_tx
import-steps range faults now path format dir t t' h =
    let (entries, listed, h1) =
      bind-eq-ok (in_context _ dir) _
        (commit-eq-ok t (import_tx range faults now path format dir t) h) in
    let (_, _, h2) = bind-eq-ok (call "importer: begin tx" (faults.own 0)) _ h1 in
    let (old, loaded, h3) = bind-eq-ok (load_manifest (faults.own 1) (format ∷ []) t) _ h2 in
    let ((t1, current), wrote, h4) =
      bind-eq-ok (import_entries faults.writes 0 format old now entries t) _ h3 in
    let (t2, gone, h5) = bind-eq-ok (prune_orphaned faults.prunes 0 (range old) current t1) _ h4 in
    let (_, _, h6) = bind-eq-ok (commit_error (faults.own 2)) _ h5 in
    let same = load_manifest-eq-ok (faults.own 1) format t old loaded in
    let last : t2 ≡ t' = ap (λ (x : Tables × Unit {0}). x.0) (ok-injective h6) in
    (
      entries,
      t1,
      current,
      in_context-eq-ok _ dir listed,
      subst (λ o. import_entries faults.writes 0 format o now entries t ≡ ok (t1, current)) same
          wrote,
      subst (λ o. prune_orphaned faults.prunes 0 (range o) current t1 ≡ ok t') same
          (gone ∙ ap ok last),
    )
