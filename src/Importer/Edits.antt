-- ===== src/Importer/Edits.antt =====
-- What an edit of the admin panel is worth to a whole import.
use x_ui_subpage.Prelude.{ℕ, suc, refl, ok, err, String, List, [], ◌∷◌, Result, concat}
use x_ui_subpage.Importer.{Tables, DirEntry, Reports, import_yaml_templates}
use x_ui_subpage.Importer.Survival.{IsRange, Imports, done, then_import}
use x_ui_subpage.Importer.Whole.{
  Std, Calls, Disk, Database, unless_failed, import_formats, formats, after_apps, after_themes,
  import,
}
use x_ui_subpage.Apps.{Applications}
use x_ui_subpage.Themes.{Tables as ThemeTables}

unless_failed-Imports :
    (t : Tables) (x next : Tables × Result (Unit {0}))
    → Imports x.0 next.0
    → Imports x.0 (unless_failed x next).0
unless_failed-Imports t (t', ok _) next more = more
unless_failed-Imports t (t', err e) next more = done refl

import_formats-Imports :
    (std : Std) (reports : ℕ → Reports) (i now : ℕ) (dir : String)
    (files : String → Result (List DirEntry)) (names : List String) (t : Tables)
    → IsRange std.range
    → Imports t (import_formats std reports i now dir files names t).0
unfolding import_formats
import_formats-Imports std reports i now dir files [] t ranges = done refl
import_formats-Imports std reports i now dir files (format ∷ names) t ranges =
    let path = concat (dir ∷ "/templates/" ∷ format ∷ []) in
    let x = import_yaml_templates std.range (reports i) now path format (files format) t in
    then_import std.range (reports i) now path format (files format) ranges (
      unless_failed-Imports t x (import_formats std reports (suc i) now dir files names x.0)
        (import_formats-Imports std reports (suc i) now dir files names x.0 ranges))

after_themes-Imports :
    (std : Std) (calls : Calls) (now : ℕ) (dir : String) (disk : Disk) (db : Database)
    (x : ThemeTables × Result (Unit {0}))
    → IsRange std.range
    → Imports db.templates (after_themes std calls now dir disk db x).0.templates
after_themes-Imports std calls now dir disk db (t, err e) ranges = done refl
after_themes-Imports std calls now dir disk db (t, ok _) ranges =
    import_formats-Imports std calls.templates 0 now dir disk.templates formats db.templates ranges

after_apps-Imports :
    (std : Std) (calls : Calls) (now : ℕ) (dir : String) (disk : Disk) (db : Database)
    (x : Applications × Result (Unit {0}))
    → IsRange std.range
    → Imports db.templates (after_apps std calls now dir disk db x).0.templates
after_apps-Imports std calls now dir disk db (a, err e) ranges = done refl
after_apps-Imports std calls now dir disk db (a, ok _) ranges =
    after_themes-Imports std calls now dir disk (record db { applications = a }) _ ranges

-- A whole import, whatever becomes of it, does to the templates what some imports of single formats
-- do.
pub import-Imports :
    (std : Std) (calls : Calls) (now : ℕ) (dir : String) (disk : Disk) (db : Database)
    → IsRange std.range
    → Imports db.templates (import std calls now dir disk db).0.templates
unfolding import
import-Imports std calls now dir disk db ranges =
    after_apps-Imports std calls now dir disk db _ ranges
