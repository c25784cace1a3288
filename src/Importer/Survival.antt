-- ===== src/Importer/Survival.antt =====
-- What an administrator edited outlives every import.
use x_ui_subpage.Prelude.{
  ℕ, ◌≡◌, sym, subst, ◌∙◌, ap, ◌≢◌, String, none, List, [], ◌∷◌, Result, ok, Bool, true, In, commit,
  commit_inv, select, select-In,
}
use x_ui_subpage.Templates.{Row, one_of, put, get, scanned}
use x_ui_subpage.Templates.Edits.{put-row}
use x_ui_subpage.Importer.{
  ManifestKey, Entry, Tables, DirEntry, Reports, is_for, import_yaml_templates, import_tx,
}
use x_ui_subpage.Importer.Slot.{NotOwned}
use x_ui_subpage.Importer.Pruning.{prune_orphaned-pruned, pruned_all, pruned_all-keeps}
use x_ui_subpage.Importer.Runs.{Kept, import-steps, import_entries-keeps}

-- Go's `range` gives the entries of the map and no others.
abbrev pub IsRange : (List Entry → List Entry) → Type 0
IsRange range =
    (xs : List Entry) (e : Entry) → (In e (range xs) → In e xs) × (In e xs → In e (range xs))

NotOwned-select :
    (k : ManifestKey) (r : Row) (p : Entry → Bool) (entries : List Entry)
    → NotOwned k r entries
    → NotOwned k r (select p entries)
NotOwned-select k r p entries h e m = h e (select-In p e entries m).0

import-ok-Kept :
    (range : List Entry → List Entry) (faults : Reports) (now : ℕ) (path format : String)
    (dir : Result (List DirEntry)) (k : ManifestKey) (r : Row) (t t' : Tables)
    → IsRange range
    → Kept k r t
    → import_yaml_templates range faults now path format dir t ≡ (t', ok tt)
    → Kept k r t'
import-ok-Kept range faults now path format dir k r t t' ranges kept h =
    let (entries, t1, current, _, wrote, gone) =
      import-steps range faults now path format dir t t' h in
    let not_old = NotOwned-select k r (λ e. one_of e.format (format ∷ [])) t.manifest kept.1 in
    let (row, owned) =
      import_entries-keeps faults.writes 0 format _ now entries t t1 current k r not_old kept
        wrote in
    let (rows, within) = prune_orphaned-pruned faults.prunes 0 k current _ t1 t' gone in
    (
      rows
          ∙ ap (pruned_all k current _) row
          ∙ pruned_all-keeps k current r _ (λ e m. not_old e ((ranges _ e).0 m)),
      λ e m. owned e (within e m),
    )

-- Any number of imports, of whatever formats and files, that succeed or fail.
pub data Imports : Tables → Tables → Type 0 where
  done : {t t' : Tables} → t ≡ t' → Imports t t'
  then_import :
      {t t' : Tables} (range : List Entry → List Entry) (faults : Reports) (now : ℕ)
      (path format : String) (dir : Result (List DirEntry))
      → IsRange range
      → Imports (import_yaml_templates range faults now path format dir t).0 t'
      → Imports t t'

-- Whatever becomes of the import.
import-Kept :
    (range : List Entry → List Entry) (faults : Reports) (now : ℕ) (path format : String)
    (dir : Result (List DirEntry)) (k : ManifestKey) (r : Row) (t : Tables)
    → IsRange range
    → Kept k r t
    → Kept k r (import_yaml_templates range faults now path format dir t).0
unfolding import_yaml_templates
import-Kept range faults now path format dir k r t ranges kept =
    commit_inv (Kept k r) t (import_tx range faults now path format dir t) kept (λ t' _ e.
      import-ok-Kept range faults now path format dir k r t t' ranges kept (ap (commit t) e))

Imports-Kept : {t t' : Tables} (k : ManifestKey) (r : Row) → Kept k r t → Imports t t' → Kept k r t'
Imports-Kept k r kept (done e) = subst (Kept k r) e kept
Imports-Kept k r kept (then_import {t} range faults now path format dir ranges more) =
    Imports-Kept k r (import-Kept range faults now path format dir k r t ranges kept) more

-- After the Put of a template that does not fail, at a time that no manifest entry of its key
-- carries, the template's content is the one that was put, after any number of imports of whatever
-- formats, files and failures.
pub put-Imports :
    (now : ℕ) (format profile protocol content : String) (t t' : Tables)
    → ((e : Entry)
        → In e t.manifest
        → is_for (record { format = format; profile = profile; protocol = protocol }) e ≡ true
        → e.updated_at ≢ now)
    → Imports
        (record t { templates = (put none now format profile protocol content t.templates).0 })
        t'
    → (r : Row) × (get none format profile protocol t'.templates ≡ ok r) × (r.content ≡ content)
unfolding get
put-Imports now format profile protocol content t t' fresh imports =
    let k : ManifestKey = record { format = format; profile = profile; protocol = protocol } in
    let (r, found, same, stamp) = put-row now format profile protocol content t.templates in
    let (stays, _) =
      Imports-Kept k r (found, λ e m is. subst (λ x. e.updated_at ≢ x) (sym stamp) (fresh e m is))
        imports in
    (r, ap (scanned none) stays, same)
