-- ===== src/Themes.antt =====
-- internal/theme/admin.go: the tables `themes` and `theme_files`, and the operations that the admin
-- panel runs on them. The primary keys are the slug, and (theme_slug, path).
use x_ui_subpage.Prelude.{
  ℕ, String, Bool, ◌&&◌, Option, none, some, List, [], ◌∷◌, if◌then◌else◌, eqb, ◌==◌, Error, new,
  wrap, not_found, Result, ok, err, ◌>>=◌, Fault, in_context, select, first, upsert, delete_where,
  affected,
}
use x_ui_subpage.Templates.{order_by}

pub record ThemeRow : Type 0 where
  pub slug : String
  pub name : String
  pub description : String
  pub logo : String
  pub favicon : String
  pub colors : String
  pub fonts : String
  pub updated_at : ℕ

pub record FileRow : Type 0 where
  pub theme_slug : String
  pub path : String
  pub content : String
  pub updated_at : ℕ

pub record Tables : Type 0 where
  pub themes : List ThemeRow
  pub files : List FileRow

-- A map from texts to texts.
abbrev pub Params : Type 0
Params = List (String × String)

pub record Meta : Type 0 where
  pub slug : String
  pub name : String
  pub description : String
  pub logo : String
  pub favicon : String
  pub colors : Params
  pub fonts : Params

-- encoding/json on these maps.
pub record Json : Type 0 where
  pub marshal : Params → Result String
  pub unmarshal : String → Result Params

abbrev pub has_slug : String → ThemeRow → Bool
has_slug slug r = r.slug == slug

abbrev pub is_file : String → String → FileRow → Bool
is_file slug path r = r.theme_slug == slug && r.path == path

abbrev pub is_of : String → FileRow → Bool
is_of slug r = r.theme_slug == slug

abbrev slugs_of : List ThemeRow → List String
slugs_of [] = []
slugs_of (r ∷ rows) = r.slug ∷ slugs_of rows

abbrev paths_of : List FileRow → List String
paths_of [] = []
paths_of (r ∷ rows) = r.path ∷ paths_of rows

-- `le` is the engine's order on texts.
unfoldable pub list_slugs : (String → String → Bool) → Fault → Tables → Result (List String)
unfolding order_by
list_slugs le (some cause) t = err (wrap "theme: query slugs" (new cause))
list_slugs le none t = ok (order_by le (slugs_of t.themes))

abbrev decoded : Json → String → ThemeRow → Result Meta
decoded json slug r = do
  colors ← in_context "theme: decode colors" (json.unmarshal r.colors)
  fonts ← in_context "theme: decode fonts" (json.unmarshal r.fonts)
  ok (record {
    slug = slug;
    name = r.name;
    description = r.description;
    logo = r.logo;
    favicon = r.favicon;
    colors = colors;
    fonts = fonts;
  })

abbrev scanned_theme : Json → Fault → String → Option ThemeRow → Result Meta
scanned_theme json (some cause) slug row = err (wrap "theme: query" (new cause))
scanned_theme json none slug none = err not_found
scanned_theme json none slug (some r) = decoded json slug r

unfoldable pub get_meta : Json → Fault → String → Tables → Result Meta
get_meta json fault slug t = scanned_theme json fault slug (first (has_slug slug) t.themes)

abbrev pub theme_row : String → Meta → String → String → ℕ → ThemeRow
theme_row slug m colors fonts now = record {
  slug = slug;
  name = m.name;
  description = m.description;
  logo = m.logo;
  favicon = m.favicon;
  colors = colors;
  fonts = fonts;
  updated_at = now;
}

-- A row in conflict has the slug, so that the whole row is what was to be inserted.
abbrev pub upserted : ThemeRow → Tables → Tables
upserted row t = record t { themes = upsert (has_slug row.slug) (λ _. row) row t.themes }

abbrev written : Fault → ThemeRow → Tables → Tables × Option Error
written (some cause) row t = (t, some (wrap "theme: upsert" (new cause)))
written none row t = (upserted row t, none)

unfoldable pub upsert_meta : Json → Fault → ℕ → String → Meta → Tables → Tables × Option Error
upsert_meta json fault now slug m t =
    elim (in_context "theme: marshal colors" (json.marshal m.colors)) [
      | err e ↦ (t, some e)
      | ok colors ↦ elim (in_context "theme: marshal fonts" (json.marshal m.fonts)) [
        | err e ↦ (t, some e)
        | ok fonts ↦ written fault (theme_row slug m colors fonts now) t
      ]
    ]

unfoldable pub list_files :
    (String → String → Bool) → Fault → String → Tables → Result (List String)
unfolding order_by
list_files le (some cause) slug t = err (wrap "theme: query files" (new cause))
list_files le none slug t = ok (order_by le (paths_of (select (is_of slug) t.files)))

abbrev pub scanned_file : Fault → Option FileRow → Result String
scanned_file (some cause) row = err (wrap "theme: query file" (new cause))
scanned_file none none = err not_found
scanned_file none (some r) = ok r.content

unfoldable pub get_file : Fault → String → String → Tables → Result String
get_file fault slug path t = scanned_file fault (first (is_file slug path) t.files)

abbrev pub file_row : String → String → String → ℕ → FileRow
file_row slug path content now = record {
  theme_slug = slug;
  path = path;
  content = content;
  updated_at = now;
}

abbrev pub rewritten : String → ℕ → FileRow → FileRow
rewritten content now r = record r { content = content; updated_at = now }

unfoldable pub put_file : Fault → ℕ → String → String → String → Tables → Tables × Option Error
put_file (some cause) now slug path content t = (t, some (wrap "theme: put file" (new cause)))
put_file none now slug path content t = (
  record t {
    files =
        upsert (is_file slug path) (rewritten content now) (file_row slug path content now) t.files;
  },
  none,
)

unfoldable pub delete_file : Fault → String → String → Tables → Tables × Option Error
delete_file (some cause) slug path t = (t, some (wrap "theme: delete file" (new cause)))
delete_file none slug path t = (
  record t { files = delete_where (is_file slug path) t.files },
  if eqb (affected (is_file slug path) t.files) 0 then some not_found else none,
)
