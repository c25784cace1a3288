-- ===== src/Importer/Applications.antt =====
-- internal/importer: the applications, which an import replaces as a whole.
use x_ui_subpage.Prelude.{
  in_context, ℕ, suc, String, Bool, Option, none, some, List, [], ◌∷◌, ◌++◌, Result, ok, ◌>>=◌,
  ◌>>◌, Faults, call, commit, concat,
}
use x_ui_subpage.Prelude.Int.{ℤ}
use x_ui_subpage.Apps.{AppRow, Applications, Json, flag}
use x_ui_subpage.Importer.{commit_error}

pub record AppJson : Type 0 where
  pub name : String
  pub icon : String
  pub description : String
  pub platforms : List String
  pub download : String
  pub deeplink : String
  pub instructions : String
  pub visible : Option Bool
  pub sort_order : ℤ

-- Visible unless the file says false.
abbrev pub visible_of : Option Bool → ℕ
visible_of none = 1
visible_of (some b) = flag b

abbrev pub imported_row : ℕ → AppJson → String → ℕ → AppRow
imported_row id a platforms now = record {
  id = id;
  name = a.name;
  icon = a.icon;
  description = a.description;
  platforms = platforms;
  download = a.download;
  deeplink = a.deeplink;
  instructions = a.instructions;
  visible = visible_of a.visible;
  sort_order = a.sort_order;
  updated_at = now;
}

-- The loop over the file's applications; `faults i` is for the INSERT of the i-th one.
unfoldable pub insert_apps :
    Json → Faults → ℕ → ℕ → List AppJson → Applications → Result Applications
insert_apps json faults i now [] t = ok t
insert_apps json faults i now (a ∷ apps) t =
    in_context "importer: marshal platforms" (json.marshal a.platforms) >>= λ platforms.
    (call "importer: insert application" (faults i)
      >> insert_apps json faults (suc i) now apps (record {
        rows = t.rows ++ imported_row t.next_id a platforms now ∷ [];
        next_id = suc t.next_id;
      }))

-- The transaction's calls of the engine begin it (0), clear the table (1), prepare the INSERT (2)
-- and commit (3).
unfoldable pub replace_all :
    Json → Faults → Faults → ℕ → List AppJson → Applications → Result (Applications × Unit {0})
unfolding insert_apps
replace_all json faults inserts now apps t = do
  call "importer: begin tx" (faults 0)
  call "importer: clear applications" (faults 1)
  call "importer: prepare insert" (faults 2)
  t' ← insert_apps json inserts 0 now apps (record t { rows = [] })
  commit_error (faults 3)
  ok (t', tt)

-- `file` is what reading apps.json gives, and `parse` its JSON decoder.
unfoldable pub import_applications :
    Json
    → (String → Result (List AppJson))
    → Faults
    → Faults
    → ℕ
    → String
    → Result String
    → Applications
    → Applications × Result (Unit {0})
unfolding replace_all
import_applications json parse faults inserts now path file t = commit t (
    in_context (concat ("importer: read " ∷ path ∷ [])) file >>= λ bytes.
    (in_context (concat ("importer: parse " ∷ path ∷ [])) (parse bytes) >>= λ apps.
    replace_all json faults inserts now apps t))
