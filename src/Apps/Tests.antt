-- ===== src/Apps/Tests.antt =====
-- The theorem on the catalogue at a concrete table.
use x_ui_subpage.Prelude.{◌≡◌, true, none, [], ◌∷◌, String, arith, ok}
use x_ui_subpage.Prelude.Int.{pos}
use x_ui_subpage.Apps.{
  App, Applications, Json, Catalog, new_catalog, load_apps, list_all, create, delete,
  reload_if_needed, row_of,
}
use x_ui_subpage.Apps.Coherence.{starts, steps, creates, deletes, reads, list_all-Reach}

abbrev no_json : Json
no_json = record { marshal = λ _. ok "[]"; unmarshal = λ _. ok [] }

abbrev app : String → App
app name = record {
  id = 0;
  name = name;
  icon = "";
  description = "";
  platforms = [];
  download = "";
  deeplink = "";
  instructions = "";
  visible = true;
  sort_order = pos 0;
}

abbrev table : Applications
table = record {
  rows = row_of 1 (app "one") "[]" 4 ∷ row_of 2 (app "two") "[]" 3 ∷ [];
  next_id = 3;
}

abbrev loaded : Catalog
loaded = (reload_if_needed no_json none none table new_catalog).0

-- The second row goes and a third one comes: the number of rows is what was loaded.
abbrev changed : Applications
changed = (create no_json none 7 (app "three") (delete none 2 table).0).0

list_all-Reach_example :
    (list_all no_json none none changed loaded).1 ≡ load_apps no_json changed.rows
list_all-Reach_example = list_all-Reach no_json 7 changed loaded (
    steps
      (steps (steps (starts 5 table (omega arith, (omega arith, tt))) (reads none none))
        (deletes none 6 2 (omega arith)))
      (creates none 7 (app "three") (omega arith)))
