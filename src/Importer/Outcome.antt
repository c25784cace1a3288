-- ===== src/Importer/Outcome.antt =====
-- What an import that succeeds stores and removes.
use x_ui_subpage.Prelude.{
  ℕ, ◌≡◌, refl, sym, subst, ◌∙◌, ap, inl, inr, String, eq_iff, true, Option, none, some, List, [],
  ◌∷◌, ◌++◌, arith, eqb_iff, Bool-cases, ◌==◌, not_found, ok, err, first, select, In, ok-injective,
  first-select, In-select,
}
use x_ui_subpage.Templates.{Row, row_of, one_of, get, scanned}
use x_ui_subpage.Importer.{
  ManifestKey, Entry, Tables, DirEntry, Reports, is_for, is_pristine, is_template, slot_of,
  import_entries, import_yaml_templates,
}
use x_ui_subpage.Importer.Slot.{row_at, written}
use x_ui_subpage.Importer.Pruning.{
  pruned_all, prune_orphaned-pruned, pruned_all-current, pruned_all-orphan,
}
use x_ui_subpage.Importer.Runs.{import-steps, import_entries-written, import_entries-absent, NoFile}
use x_ui_subpage.Importer.Survival.{IsRange}

-- An entry for a key of the format is among those that were loaded.
of_format :
    (k : ManifestKey) (e : Entry) → is_for k e ≡ true → one_of e.format (k.format ∷ []) ≡ true
of_format k e h = ground (arith, eq_iff e.format k.format, eq_iff k.format e.format)

import-written :
    (range : List Entry → List Entry) (faults : Reports) (now : ℕ) (path format : String)
    (before : List DirEntry) (file : DirEntry) (later : List DirEntry) (content : String)
    (t t' : Tables)
    → is_template file ≡ true
    → file.content ≡ ok content
    → NoFile (slot_of format file.name) format before
    → NoFile (slot_of format file.name) format later
    → import_yaml_templates range faults now path format (ok (before ++ file ∷ later)) t
      ≡ (t', ok tt)
    → row_at (slot_of format file.name) t'
      ≡ some (
          written
            (slot_of format file.name)
            content
            now
            (first (is_for (slot_of format file.name)) t.manifest)
            (row_at (slot_of format file.name) t))
import-written range faults now path format before file later content t t' is read no_before
      no_later h =
    let k = slot_of format file.name in
    let (entries, t1, current, listed, wrote, gone) =
      import-steps range faults now path format (ok (before ++ file ∷ later)) t t' h in
    let wrote' =
      subst
        (λ es.
          import_entries faults.writes 0 format
            (select (λ (e : Entry). one_of e.format (format ∷ [])) t.manifest) now es t
          ≡ ok (t1, current))
        (sym (ok-injective listed)) wrote in
    let (row, seen) =
      import_entries-written faults.writes 0 format _ now before file later t t1 current content is
        read no_before no_later wrote' in
    let (rows, _) = prune_orphaned-pruned faults.prunes 0 k current _ t1 t' gone in
    rows
    ∙ pruned_all-current k current _ (row_at k t1) seen
    ∙ row
    ∙ ap (λ o. some (written k content now o (row_at k t)))
        (first-select (λ (e : Entry). one_of e.format (format ∷ [])) (is_for k) (of_format k)
          t.manifest)

scanned-none : (o : Option Row) → scanned none o ≡ err not_found → o ≡ none
scanned-none none e = refl
scanned-none (some r) e = cc

scanned-some : (o : Option Row) (r : Row) → scanned none o ≡ ok r → o ≡ some r
scanned-some none r e = cc
scanned-some (some x) r e = ap some (ok-injective e)

written-content :
    (k : ManifestKey) (content : String) (now : ℕ) (last : Option Entry) (r : Row)
    → is_pristine r last ≡ true
    → (written k content now last (some r)).content ≡ content
unfolding written
written-content k content now last r h = elim (Bool-cases (r.content == content)) [
  | inl same ↦ rw (h, same) ((eq_iff r.content content).0 same)
  | inr differs ↦ rw (h, differs) refl
]

-- When an import of a format succeeds and one template file of the directory stands for a key, its
-- content is the one that the table has for the key afterwards, where the table had no row for it,
-- stamped with the time of the import, or where its row had the stamp that the manifest has for the
-- key. A row whose key has no entry in the manifest stays what it was.
pub import-get :
    (range : List Entry → List Entry) (faults : Reports) (now : ℕ) (path format : String)
    (before : List DirEntry) (file : DirEntry) (later : List DirEntry) (content : String)
    (t t' : Tables)
    → is_template file ≡ true
    → file.content ≡ ok content
    → NoFile (slot_of format file.name) format before
    → NoFile (slot_of format file.name) format later
    → import_yaml_templates range faults now path format (ok (before ++ file ∷ later)) t
      ≡ (t', ok tt)
    → (get none format (slot_of format file.name).profile "" t.templates ≡ err not_found
        → get none format (slot_of format file.name).profile "" t'.templates
          ≡ ok (row_of format (slot_of format file.name).profile "" content now))
      × ((r : Row) (e : Entry)
          → get none format (slot_of format file.name).profile "" t.templates ≡ ok r
          → first (is_for (slot_of format file.name)) t.manifest ≡ some e
          → r.updated_at ≡ e.updated_at
          → (r' : Row) × (get none format (slot_of format file.name).profile "" t'.templates
              ≡ ok r')
            × (r'.content ≡ content))
      × ((r : Row)
          → get none format (slot_of format file.name).profile "" t.templates ≡ ok r
          → first (is_for (slot_of format file.name)) t.manifest ≡ none
          → get none format (slot_of format file.name).profile "" t'.templates ≡ ok r)
unfolding get written
import-get range faults now path format before file later content t t' is read no_before no_later
      h =
    let k = slot_of format file.name in
    let row =
      import-written range faults now path format before file later content t t' is read no_before
        no_later h in
    (
      (λ absent. ap (scanned none) (
          row
          ∙ ap (λ o. some (written k content now (first (is_for k) t.manifest) o))
              (scanned-none (row_at k t) absent))),
      (λ r e found tracked same.
          let old : row_at k t ≡ some r = scanned-some (row_at k t) r found in
          (
            written k content now (some e) (some r),
            ap (scanned none) (
                row
                ∙ ap (λ o. some (written k content now o (row_at k t))) tracked
                ∙ ap (λ o. some (written k content now (some e) o)) old),
            written-content k content now (some e) r ((eqb_iff r.updated_at e.updated_at).1 same),
          )),
      (λ r found untracked.
          let old : row_at k t ≡ some r = scanned-some (row_at k t) r found in
          ap (scanned none) (
            row
            ∙ ap (λ o. some (written k content now o (row_at k t))) untracked
            ∙ ap (λ o. some (written k content now none o)) old)),
    )

-- When an import of a format succeeds, a row of the format whose stamp some manifest entry of its
-- key has, and whose key no template file of the directory has any more, is gone afterwards.
pub import-prunes :
    (range : List Entry → List Entry) (faults : Reports) (now : ℕ) (path : String)
    (entries : List DirEntry) (k : ManifestKey) (r : Row) (e : Entry) (t t' : Tables)
    → IsRange range
    → get none k.format k.profile k.protocol t.templates ≡ ok r
    → In e t.manifest
    → is_for k e ≡ true
    → r.updated_at ≡ e.updated_at
    → NoFile k k.format entries
    → import_yaml_templates range faults now path k.format (ok entries) t ≡ (t', ok tt)
    → get none k.format k.profile k.protocol t'.templates ≡ err not_found
unfolding get
import-prunes range faults now path entries k r e t t' ranges found m is stamp no_file h =
    let (entries', t1, current, listed, wrote, gone) =
      import-steps range faults now path k.format (ok entries) t t' h in
    let none_of = subst (NoFile k k.format) (ok-injective listed) no_file in
    let (same, orphan) =
      import_entries-absent faults.writes 0 k.format _ now entries' t t1 current k none_of wrote in
    let (rows, _) = prune_orphaned-pruned faults.prunes 0 k current _ t1 t' gone in
    let old = (ranges _ e).1 (
      In-select (λ (x : Entry). one_of x.format (k.format ∷ [])) e t.manifest m
        (of_format k e is)) in
    ap (scanned none) (
      rows
      ∙ ap (pruned_all k current _) (same ∙ scanned-some (row_at k t) r found)
      ∙ pruned_all-orphan k current _ r e old is stamp orphan)
