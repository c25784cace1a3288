-- ===== src/Importer/Themes.antt =====
-- internal/importer: the themes, each of which an import replaces in a transaction of its own.
pub mod Shipped
mod Tests
use x_ui_subpage.Prelude.{
  ℕ, suc, String, Bool, true, false, Option, none, some, List, [], ◌∷◌, ◌++◌, if◌then◌else◌, eqb,
  ◌==◌, Error, new, wrap, Result, ok, err, ◌>>=◌, ◌>>◌, Fault, Faults, call, commit, in_context,
  affected, delete_where, concat,
}
use x_ui_subpage.Themes.{Tables, FileRow, Meta, Json, is_file, is_of, file_row, theme_row, upserted}
use x_ui_subpage.Importer.{commit_error}

-- What filepath.WalkDir visits below a theme's directory: something that it cannot read, a directory,
-- or a file with its slash-separated path from there and its content.
pub data Visit : Type 0 where
  broken : Error → Visit
  directory : Visit
  file : Result String → Result String → Visit

-- The INSERT of a file, which the primary key refuses where the path is taken.
abbrev pub insert_file : Fault → FileRow → List FileRow → Result (List FileRow)
insert_file (some cause) r files = err (new cause)
insert_file none r files =
    if eqb (affected (is_file r.theme_slug r.path) files) 0
    then ok (files ++ r ∷ [])
    else err (new "UNIQUE constraint failed")

abbrev pub insert_read :
    Fault → ℕ → String → String → Result String → List FileRow → Result (List FileRow)
insert_read fault now slug path content files = do
  bytes ← in_context "read" content
  in_context (concat ("insert theme_files " ∷ path ∷ []))
      (insert_file fault (file_row slug path bytes now) files)

-- One call of the function that WalkDir is given; theme.json itself is no file of the theme.
abbrev pub visit : Fault → ℕ → String → Visit → List FileRow → Result (List FileRow)
visit fault now slug (broken e) files = err e
visit fault now slug directory files = ok files
visit fault now slug (file (err e) content) files = err e
visit fault now slug (file (ok path) content) files =
    if path == "theme.json" then ok files else insert_read fault now slug path content files

unfoldable pub walk : Faults → ℕ → ℕ → String → List Visit → List FileRow → Result (List FileRow)
walk faults i now slug [] files = ok files
walk faults i now slug (v ∷ visits) files =
    visit (faults i) now slug v files >>= λ files'. walk faults (suc i) now slug visits files'

-- The calls of the engine begin the transaction (0), upsert the theme's row (1), clear its files (2),
-- prepare the INSERT (3) and commit (4).
unfoldable pub theme_tx :
    Faults
    → Faults
    → ℕ
    → String
    → Meta
    → String
    → String
    → List Visit
    → Tables
    → Result (Tables × Unit {0})
unfolding walk
theme_tx faults inserts now slug m colors fonts visits t = do
  call "begin tx" (faults 0)
  call "upsert themes row" (faults 1)
  call "clear theme_files" (faults 2)
  call "prepare theme_files insert" (faults 3)
  files ← walk inserts 0 now slug visits (delete_where (is_of slug) t.files)
  commit_error (faults 4)
  ok (record (upserted (theme_row slug m colors fonts now) t) { files = files }, tt)

-- A theme on disk: its directory's name, its theme.json, and what walking the directory visits.
pub record ThemeDir : Type 0 where
  pub is_dir : Bool
  pub name : String
  pub theme_json : Result String
  pub visits : List Visit

-- `parse` is the JSON decoder of theme.json.
unfoldable pub import_one_theme :
    Json
    → (String → Result Meta)
    → Faults
    → Faults
    → ℕ
    → ThemeDir
    → Tables
    → Tables × Result (Unit {0})
unfolding theme_tx
import_one_theme json parse faults inserts now dir t = commit t (do
  bytes ← in_context "read theme.json" dir.theme_json
  m ← in_context "parse theme.json" (parse bytes)
  colors ← in_context "marshal colors" (json.marshal m.colors)
  fonts ← in_context "marshal fonts" (json.marshal m.fonts)
  theme_tx faults inserts now dir.name m colors fonts dir.visits t)

-- The loop over the directory: the themes before one that fails stay imported.
unfoldable pub import_each :
    Json
    → (String → Result Meta)
    → (ℕ → Faults)
    → (ℕ → Faults)
    → ℕ
    → ℕ
    → List ThemeDir
    → Tables
    → Tables × Result (Unit {0})
unfolding import_one_theme
import_each json parse faults inserts i now [] t = (t, ok tt)
import_each json parse faults inserts i now (dir ∷ dirs) t = elim dir.is_dir [
  | false ↦ import_each json parse faults inserts (suc i) now dirs t
  | true ↦ elim (import_one_theme json parse (faults i) (inserts i) now dir t).1 [
    | ok _ ↦
        import_each json parse faults inserts (suc i) now dirs
          (import_one_theme json parse (faults i) (inserts i) now dir t).0
    | err e ↦ (
      (import_one_theme json parse (faults i) (inserts i) now dir t).0,
      err (wrap (concat ("importer: theme " ∷ dir.name ∷ [])) e),
    )
  ]
]

unfoldable pub import_themes :
    Json
    → (String → Result Meta)
    → (ℕ → Faults)
    → (ℕ → Faults)
    → ℕ
    → String
    → Result (List ThemeDir)
    → Tables
    → Tables × Result (Unit {0})
unfolding import_each
import_themes json parse faults inserts now path (err e) t =
    (t, err (wrap (concat ("importer: read themes dir " ∷ path ∷ [])) e))
import_themes json parse faults inserts now path (ok dirs) t =
    import_each json parse faults inserts 0 now dirs t
