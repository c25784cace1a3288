-- ===== src/Importer/Themes/Tests.antt =====
-- A theme of one page beside its theme.json, imported over an older one.
use x_ui_subpage.Prelude.{
  ◌≡◌, refl, String, false, true, none, [], ◌∷◌, ◌==◌, ok, affected, delete_where, upsert,
}
use x_ui_subpage.Themes.{Tables, Meta, Json, file_row, theme_row, get_file}
use x_ui_subpage.Importer.Themes.{directory, file, ThemeDir, import_one_theme}
use x_ui_subpage.Importer.Themes.Shipped.{shipped, read, import_one_theme-get_file}

abbrev json : Json
json = record { marshal = λ _. ok "{}"; unmarshal = λ _. ok [] }

abbrev sample : Meta
sample = record {
  slug = "";
  name = "Dark";
  description = "";
  logo = "";
  favicon = "";
  colors = [];
  fonts = [];
}

abbrev dark : ThemeDir
dark = record {
  is_dir = true;
  name = "dark";
  theme_json = ok "{}";
  visits = directory ∷ file (ok "index.html") (ok "new") ∷ file (ok "theme.json") (ok "{}") ∷ [];
}

abbrev before : Tables
before = record {
  themes = [];
  files =
      file_row "dark" "index.html" "old" 3
      ∷ file_row "dark" "old.css" "old" 3
      ∷ file_row "light" "index.html" "light" 3
      ∷ [];
}

abbrev after : Tables
after = record {
  themes = theme_row "dark" sample "{}" "{}" 8 ∷ [];
  files = file_row "light" "index.html" "light" 3 ∷ file_row "dark" "index.html" "new" 8 ∷ [];
}

imported :
    import_one_theme json (λ _. ok sample) (λ _. none) (λ _. none) 8 dark before ≡ (after, ok tt)
unfolding import_one_theme upsert delete_where affected
imported = refl

import_one_theme-get_file_example :
    ((p : String) → get_file none "dark" p after ≡ read (shipped p dark.visits))
    × ((slug p : String)
        → "dark" == slug ≡ false
        → get_file none slug p after ≡ get_file none slug p before)
import_one_theme-get_file_example =
    import_one_theme-get_file json (λ _. ok sample) (λ _. none) (λ _. none) 8 dark before after
      imported
