-- ===== src/Apps.antt =====
-- internal/apps: the catalogue of applications, kept in memory and reloaded when the table changed.
pub mod Writes
pub mod Coherence
mod Tests
use x_ui_subpage.Prelude.{
  ℕ, suc, zero, ◌+◌, String, Bool, true, false, not, ◌&&◌, ◌||◌, Option, none, some, List, [], ◌∷◌,
  ◌++◌, if◌then◌else◌, eqb, leb, Error, new, wrap, not_found, Result, ok, err, ◌>>=◌, ◌>>◌, Fault,
  Faults, call, first, select, update_where, affected, delete_where, length, concat,
}
use x_ui_subpage.Prelude.Int.{ℤ, leb_ℤ}
use x_ui_subpage.Templates.{order_by}

pub record App : Type 0 where
  pub id : ℕ
  pub name : String
  pub icon : String
  pub description : String
  pub platforms : List String
  pub download : String
  pub deeplink : String
  pub instructions : String
  pub visible : Bool
  pub sort_order : ℤ

-- A row of `applications`; `platforms` is a JSON text.
pub record AppRow : Type 0 where
  pub id : ℕ
  pub name : String
  pub icon : String
  pub description : String
  pub platforms : String
  pub download : String
  pub deeplink : String
  pub instructions : String
  pub visible : ℕ
  pub sort_order : ℤ
  pub updated_at : ℕ

-- The table with the next id of its AUTOINCREMENT.
pub record Applications : Type 0 where
  pub rows : List AppRow
  pub next_id : ℕ

-- encoding/json on lists of texts.
pub record Json : Type 0 where
  pub marshal : List String → Result String
  pub unmarshal : String → Result (List String)

-- `apps` is none while the field is nil.
pub record Catalog : Type 0 where
  pub apps : Option (List App)
  pub loaded_at : ℕ

abbrev pub new_catalog : Catalog
new_catalog = record { apps = none; loaded_at = 0 }

-- MAX(updated_at), where NULL scans as 0.
unfoldable pub newest : List AppRow → ℕ
newest [] = 0
newest (r ∷ rows) = let rest = newest rows in if leb r.updated_at rest then rest else r.updated_at

abbrev pub app_of : AppRow → List String → App
app_of r platforms = record {
  id = r.id;
  name = r.name;
  icon = r.icon;
  description = r.description;
  platforms = platforms;
  download = r.download;
  deeplink = r.deeplink;
  instructions = r.instructions;
  visible = not (eqb r.visible 0);
  sort_order = r.sort_order;
}

abbrev pub decoded : Result (List String) → Result (List String)
decoded (ok platforms) = ok platforms
decoded (err e) = err (wrap "apps: decode platforms" e)

-- The loop over the rows.
unfoldable pub scan_apps : Json → List AppRow → Result (List App)
scan_apps json [] = ok []
scan_apps json (r ∷ rows) = decoded (json.unmarshal r.platforms) >>= λ platforms.
    (scan_apps json rows >>= λ apps. ok (app_of r platforms ∷ apps))

unfoldable pub load_apps : Json → List AppRow → Result (List App)
unfolding scan_apps order_by
load_apps json rows =
    scan_apps json (order_by (λ (r : AppRow) s. leb_ℤ r.sort_order s.sort_order) rows)

-- What was loaded is that of the newest stamp and the number of rows.
abbrev pub is_current : ℕ → ℕ → Catalog → Bool
is_current stamp count c = elim c.apps [
  | none ↦ false
  | some apps ↦ eqb stamp c.loaded_at && eqb count (length apps)
]

abbrev pub kept : Catalog → ℕ → Result (List App) → Catalog × Option Error
kept c stamp (err e) = (c, some e)
kept c stamp (ok apps) = (record { apps = some apps; loaded_at = stamp }, none)

-- Under the lock: `current` is the comparison of what was loaded with the table.
abbrev pub reload_unless : Json → Fault → Applications → Catalog → Bool → Catalog × Option Error
reload_unless json fault t c true = (c, none)
reload_unless json fault t c false =
    kept c (newest t.rows) (call "apps: query applications" fault >> load_apps json t.rows)

-- The faults are those of the query for the newest stamp and of that for the rows.
unfoldable pub reload_if_needed :
    Json → Fault → Fault → Applications → Catalog → Catalog × Option Error
unfolding newest load_apps
reload_if_needed json (some cause) fault t c =
    (c, some (wrap "apps: query max updated_at" (new cause)))
reload_if_needed json none fault t c =
    reload_unless json fault t c (is_current (newest t.rows) (length t.rows) c)

abbrev pub or_nil : Option (List App) → List App
or_nil none = []
or_nil (some apps) = apps

-- A list, of all apps or a part of them, from the catalogue that was brought up to date.
abbrev pub answered :
    (List App → Result (List App)) → Catalog × Option Error → Catalog × Result (List App)
answered part (c, some e) = (c, err e)
answered part (c, none) = (c, part (or_nil c.apps))

unfoldable pub list : Json → Fault → Fault → Applications → Catalog → Catalog × Result (List App)
unfolding reload_if_needed
list json stamp_fault fault t c =
    answered (λ apps. ok (select (λ a. a.visible) apps))
      (reload_if_needed json stamp_fault fault t c)

-- strings.EqualFold is a parameter.
unfoldable pub has_platform : (String → String → Bool) → String → List String → Bool
has_platform equal_fold platform [] = false
has_platform equal_fold platform (p ∷ ps) =
    equal_fold p platform || has_platform equal_fold platform ps

unfoldable pub filter_by_platform :
    Json
    → (String → String → Bool)
    → Fault
    → Fault
    → String
    → Applications
    → Catalog
    → Catalog × Result (List App)
unfolding list has_platform
filter_by_platform json equal_fold stamp_fault fault platform t c =
    let (c', all) = list json stamp_fault fault t c in
    (c', all >>= λ apps. ok (select (λ a. has_platform equal_fold platform a.platforms) apps))

unfoldable pub list_all :
    Json → Fault → Fault → Applications → Catalog → Catalog × Result (List App)
unfolding reload_if_needed
list_all json stamp_fault fault t c = answered ok (reload_if_needed json stamp_fault fault t c)

abbrev pub found : Option App → Result App
found none = err not_found
found (some a) = ok a

unfoldable pub get : Json → Fault → Fault → ℕ → Applications → Catalog → Catalog × Result App
unfolding list_all
get json stamp_fault fault id t c =
    let (c', all) = list_all json stamp_fault fault t c in
    (c', all >>= λ apps. found (first (λ a. eqb a.id id) apps))

abbrev pub flag : Bool → ℕ
flag b = if b then 1 else 0

abbrev pub row_of : ℕ → App → String → ℕ → AppRow
row_of id a platforms now = record {
  id = id;
  name = a.name;
  icon = a.icon;
  description = a.description;
  platforms = platforms;
  download = a.download;
  deeplink = a.deeplink;
  instructions = a.instructions;
  visible = flag a.visible;
  sort_order = a.sort_order;
  updated_at = now;
}

abbrev pub marshalled : Result String → Result String
marshalled (ok platforms) = ok platforms
marshalled (err e) = err (wrap "apps: marshal platforms" e)

abbrev pub inserted : Fault → ℕ → App → Applications → Result String → Applications × Result ℕ
inserted fault now a t (err e) = (t, err e)
inserted (some cause) now a t (ok platforms) = (t, err (wrap "apps: insert" (new cause)))
inserted none now a t (ok platforms) = (
  record { rows = t.rows ++ row_of t.next_id a platforms now ∷ []; next_id = suc t.next_id },
  ok t.next_id,
)

unfoldable pub create : Json → Fault → ℕ → App → Applications → Applications × Result ℕ
create json fault now a t = inserted fault now a t (marshalled (json.marshal a.platforms))

abbrev pub has_id : ℕ → AppRow → Bool
has_id id r = eqb r.id id

abbrev pub changed : ℕ → Option Error
changed n = if eqb n 0 then some not_found else none

abbrev pub updated :
    Fault → ℕ → ℕ → App → Applications → Result String → Applications × Option Error
updated fault now id a t (err e) = (t, some e)
updated (some cause) now id a t (ok platforms) = (t, some (wrap "apps: update" (new cause)))
updated none now id a t (ok platforms) = (
  record t { rows = update_where (has_id id) (λ r. row_of r.id a platforms now) t.rows },
  changed (affected (has_id id) t.rows),
)

unfoldable pub update : Json → Fault → ℕ → ℕ → App → Applications → Applications × Option Error
update json fault now id a t = updated fault now id a t (marshalled (json.marshal a.platforms))

unfoldable pub delete : Fault → ℕ → Applications → Applications × Option Error
delete (some cause) id t = (t, some (wrap "apps: delete" (new cause)))
delete none id t =
    (record t { rows = delete_where (has_id id) t.rows }, changed (affected (has_id id) t.rows))
