-- ===== src/Importer/Tests.antt =====
-- The theorems on imports at concrete files.
use x_ui_subpage.Prelude.{
  ℕ, ◌≡◌, ◌≢◌, refl, sym, ap, ◌∙◌, true, false, none, some, List, [], ◌∷◌, arith, String, In, here,
  there, not_found, ok, err, first, select, update_where, upsert, delete_where, concat, has_suffix,
  trim_suffix,
}
use x_ui_subpage.Templates.{Row, row_of, put, get}
use x_ui_subpage.Importer.{
  Entry, Tables, DirEntry, Reports, import_yaml_templates, import_tx, slot_of, is_for,
  load_manifest, import_entries, upsert_template_preserving_edits, upsert_found, record_manifest,
  prune_orphaned, prune_row,
}
use x_ui_subpage.Importer.Survival.{IsRange, done, then_import, put-Imports}
use x_ui_subpage.Importer.Outcome.{import-get, import-prunes}

abbrev no_reports : Reports
no_reports = record { own = λ _. none; writes = λ _ _. none; prunes = λ _ _. none }

abbrev in_order : List Entry → List Entry
in_order entries = entries

abbrev in_order-IsRange : IsRange in_order
in_order-IsRange xs e = ((λ m. m), (λ m. m))

abbrev file : String → String → DirEntry
file name content = record { name = name; is_dir = false; content = ok content }

-- The importer wrote one row, at 5.
abbrev imported : Tables
imported = record {
  templates = row_of "clash" "default" "" "shipped" 5 ∷ [];
  manifest = record { format = "clash"; profile = "default"; protocol = ""; updated_at = 5 } ∷ [];
}

abbrev newer : List DirEntry
newer = file "default.yaml.tmpl" "newer" ∷ []

abbrev edited : Tables
edited = record imported {
  templates = (put none 9 "clash" "default" "" "edited" imported.templates).0;
}

put-Imports_example :
    (r : Row) × (get none "clash" "default" ""
        (import_yaml_templates in_order no_reports 12 "t" "clash" (ok newer) edited).0.templates
      ≡ ok r)
    × (r.content ≡ "edited")
put-Imports_example =
    put-Imports 9 "clash" "default" "" "edited" imported
      (import_yaml_templates in_order no_reports 12 "t" "clash" (ok newer) edited).0 not_stamped
      (then_import in_order no_reports 12 "t" "clash" (ok newer) in_order-IsRange (done refl))
  where
    not_stamped :
        (e : Entry)
        → In e imported.manifest
        → is_for (record { format = "clash"; profile = "default"; protocol = "" }) e ≡ true
        → e.updated_at ≢ 9
    not_stamped e (here q) is same =
        let at : ◌≡◌ {A = ℕ} 5 9 = sym (ap (λ (x : Entry). x.updated_at) q) ∙ same in
        omega (arith, at)
    not_stamped e (there m) is same = elim m [ ]

abbrev after_import : Tables
after_import = (import_yaml_templates in_order no_reports 12 "t" "clash" (ok newer) imported).0

import_runs :
    import_yaml_templates in_order no_reports 12 "t" "clash" (ok newer) imported
    ≡ (after_import, ok tt)
unfolding import_yaml_templates import_tx load_manifest import_entries
    upsert_template_preserving_edits upsert_found record_manifest prune_orphaned prune_row
    has_suffix trim_suffix concat first select update_where upsert delete_where
import_runs = refl

import-get_example :
    (get none "clash" "default" "" imported.templates ≡ err not_found
      → get none "clash" "default" "" after_import.templates
        ≡ ok (row_of "clash" "default" "" "newer" 12))
    × ((r : Row) (e : Entry)
        → get none "clash" "default" "" imported.templates ≡ ok r
        → first (is_for (slot_of "clash" "default.yaml.tmpl")) imported.manifest ≡ some e
        → r.updated_at ≡ e.updated_at
        → (r' : Row) × (get none "clash" "default" "" after_import.templates ≡ ok r')
          × (r'.content ≡ "newer"))
    × ((r : Row)
        → get none "clash" "default" "" imported.templates ≡ ok r
        → first (is_for (slot_of "clash" "default.yaml.tmpl")) imported.manifest ≡ none
        → get none "clash" "default" "" after_import.templates ≡ ok r)
unfolding trim_suffix has_suffix
import-get_example =
    import-get in_order no_reports 12 "t" "clash" [] (file "default.yaml.tmpl" "newer") [] "newer"
      imported after_import refl refl tt tt import_runs

abbrev after_removal : Tables
after_removal = (import_yaml_templates in_order no_reports 12 "t" "clash" (ok []) imported).0

removal_runs :
    import_yaml_templates in_order no_reports 12 "t" "clash" (ok []) imported
    ≡ (after_removal, ok tt)
unfolding import_yaml_templates import_tx load_manifest import_entries prune_orphaned prune_row
    concat first select delete_where
removal_runs = refl

stored_row :
    get none "clash" "default" "" imported.templates ≡ ok (row_of "clash" "default" "" "shipped" 5)
unfolding get first
stored_row = refl

import-prunes_example : get none "clash" "default" "" after_removal.templates ≡ err not_found
import-prunes_example =
    import-prunes in_order no_reports 12 "t" []
      (record { format = "clash"; profile = "default"; protocol = "" })
      (row_of "clash" "default" "" "shipped" 5)
      (record { format = "clash"; profile = "default"; protocol = ""; updated_at = 5 }) imported
      after_removal in_order-IsRange stored_row (here refl) refl refl tt removal_runs
