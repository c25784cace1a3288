-- ===== src/Importer/Whole.antt =====
-- internal/importer: the whole import of a directory, part by part up to the first that fails. The
-- parts that came before stay imported.
use x_ui_subpage.Prelude.{ℕ, suc, String, List, [], ◌∷◌, Result, ok, err, Faults, concat}
use x_ui_subpage.Apps.{Applications, Json as AppsJson}
use x_ui_subpage.Themes.{Meta, Tables as ThemeTables, Json as ThemeJson}
use x_ui_subpage.Importer.{
  Tables as TemplateTables, Entry, DirEntry, Reports, import_yaml_templates,
}
use x_ui_subpage.Importer.Applications.{AppJson, import_applications}
use x_ui_subpage.Importer.Themes.{ThemeDir, import_themes}

pub record Database : Type 0 where
  pub applications : Applications
  pub themes : ThemeTables
  pub templates : TemplateTables

-- What the import reads.
pub record Disk : Type 0 where
  pub apps : Result String
  pub themes : Result (List ThemeDir)
  pub templates : String → Result (List DirEntry)

-- What the engine reports to each part; the formats count from 0.
pub record Calls : Type 0 where
  pub apps : Faults
  pub app_inserts : Faults
  pub themes : ℕ → Faults
  pub theme_files : ℕ → Faults
  pub templates : ℕ → Reports

-- encoding/json, and the order in which Go ranges over a map.
pub record Std : Type 0 where
  pub apps : AppsJson
  pub parse_apps : String → Result (List AppJson)
  pub themes : ThemeJson
  pub parse_meta : String → Result Meta
  pub range : List Entry → List Entry

abbrev pub formats : List String
formats = "xray_json" ∷ "clash" ∷ "mihomo" ∷ "happ" ∷ "incy" ∷ []

abbrev pub unless_failed :
    TemplateTables × Result (Unit {0})
    → TemplateTables × Result (Unit {0})
    → TemplateTables × Result (Unit {0})
unless_failed (t, ok _) next = next
unless_failed (t, err e) next = (t, err e)

-- One format after the other.
unfoldable pub import_formats :
    Std
    → (ℕ → Reports)
    → ℕ
    → ℕ
    → String
    → (String → Result (List DirEntry))
    → List String
    → TemplateTables
    → TemplateTables × Result (Unit {0})
unfolding import_yaml_templates
import_formats std reports i now dir files [] t = (t, ok tt)
import_formats std reports i now dir files (format ∷ rest) t =
    let done_one =
      import_yaml_templates std.range (reports i) now (concat (dir ∷ "/templates/" ∷ format ∷ []))
        format (files format) t in
    unless_failed done_one (import_formats std reports (suc i) now dir files rest done_one.0)

abbrev pub with_templates :
    Database → TemplateTables × Result (Unit {0}) → Database × Result (Unit {0})
with_templates db (t, r) = (record db { templates = t }, r)

abbrev pub after_themes :
    Std
    → Calls
    → ℕ
    → String
    → Disk
    → Database
    → ThemeTables × Result (Unit {0})
    → Database × Result (Unit {0})
after_themes std calls now dir disk db (t, err e) = (record db { themes = t }, err e)
after_themes std calls now dir disk db (t, ok _) =
    with_templates (record db { themes = t })
      (import_formats std calls.templates 0 now dir disk.templates formats db.templates)

abbrev pub after_apps :
    Std
    → Calls
    → ℕ
    → String
    → Disk
    → Database
    → Applications × Result (Unit {0})
    → Database × Result (Unit {0})
after_apps std calls now dir disk db (a, err e) = (record db { applications = a }, err e)
after_apps std calls now dir disk db (a, ok _) =
    after_themes std calls now dir disk (record db { applications = a })
      (import_themes std.themes std.parse_meta calls.themes calls.theme_files now
        (concat (dir ∷ "/themes" ∷ [])) disk.themes db.themes)

unfoldable pub import : Std → Calls → ℕ → String → Disk → Database → Database × Result (Unit {0})
unfolding import_applications import_themes import_formats
import std calls now dir disk db = after_apps std calls now dir disk db (
    import_applications std.apps std.parse_apps calls.apps calls.app_inserts now
      (concat (dir ∷ "/applications/apps.json" ∷ [])) disk.apps db.applications)
