-- ===== src/Assignment.antt =====
-- internal/assignment: which template profile a subscriber gets, per client type, and the
-- migration from the table that had one profile for all client types.
pub mod Lookups
pub mod Migration
mod Tests
use x_ui_subpage.Prelude.{
  ℕ, suc, String, Bool, true, false, ◌&&◌, Option, none, some, List, [], ◌∷◌, ◌++◌, map,
  if◌then◌else◌, ◌==◌, Error, new, wrap, Result, ok, err, ◌>>=◌, ◌>>◌, Fault, Faults, call, commit,
  select, first, delete_where, upsert,
}

abbrev pub default_profile : String
default_profile = "default"

pub record ClientType : Type 0 where
  pub key : String
  pub label : String
  pub formats : List String

abbrev pub client_types : List ClientType
client_types =
    record { key = "xray"; label = "Xray"; formats = "xray_json" ∷ [] }
    ∷ record { key = "clash"; label = "Clash"; formats = "clash" ∷ [] }
    ∷ record { key = "mihomo"; label = "Mihomo"; formats = "mihomo" ∷ [] }
    ∷ record { key = "happ"; label = "Happ"; formats = "happ" ∷ [] }
    ∷ record { key = "incy"; label = "Incy"; formats = "incy" ∷ [] }
    ∷ []

abbrev pub has_format : String → List String → Bool
has_format format [] = false
has_format format (f ∷ fs) = if f == format then true else has_format format fs

-- The map `formatToClientType`; a later client type takes a format over.
unfoldable pub format_to_client_type : List ClientType → String → Option String
format_to_client_type [] format = none
format_to_client_type (ct ∷ cts) format = elim (format_to_client_type cts format) [
  | none ↦ if has_format format ct.formats then some ct.key else none
  | some key ↦ some key
]

-- A row of `template_assignments`, whose primary key is (sub_id, client_type).
pub record Row : Type 0 where
  pub sub_id : String
  pub client_type : String
  pub profile : String
  pub updated_at : ℕ

-- A row of the old table `assignments`.
pub record Legacy : Type 0 where
  pub sub_id : String
  pub profile : String
  pub updated_at : ℕ

-- `legacy` is `none` where the old table does not exist.
pub record Db : Type 0 where
  pub rows : List Row
  pub legacy : Option (List Legacy)

-- WHERE sub_id = ? AND client_type = ?
abbrev pub has_key : String → String → Row → Bool
has_key sub_id client_type r = r.sub_id == sub_id && r.client_type == client_type

-- The three ways in which the scan of the row can end.
abbrev pub scanned : Fault → Option Row → Result String
scanned (some cause) row = err (wrap "assignment: query" (new cause))
scanned none (some row) = ok row.profile
scanned none none = ok default_profile

unfoldable pub resolve_type : Fault → String → Db → Option String → Result String
resolve_type fault sub_id db none = err (new "assignment: unknown format")
resolve_type fault sub_id db (some client_type) =
    scanned fault (first (has_key sub_id client_type) db.rows)

unfoldable pub resolve : Fault → String → String → Db → Result String
resolve fault sub_id format db =
    resolve_type fault sub_id db (format_to_client_type client_types format)

abbrev pub new_row : String → String → String → ℕ → Row
new_row sub_id client_type profile now = record {
  sub_id = sub_id;
  client_type = client_type;
  profile = profile;
  updated_at = now;
}

-- DO UPDATE SET profile = excluded.profile, updated_at = excluded.updated_at
abbrev pub overwrite : String → ℕ → Row → Row
overwrite profile now r = record r { profile = profile; updated_at = now }

unfoldable pub set : Fault → ℕ → String → String → String → Db → Db × Option Error
set (some cause) now sub_id client_type profile db = (db, some (wrap "assignment: set" (new cause)))
set none now sub_id client_type profile db = (
  record db {
    rows =
        upsert (has_key sub_id client_type) (overwrite profile now)
          (new_row sub_id client_type profile now) db.rows;
  },
  none,
)

-- A map from client types to profiles, as Go's map: the initial entries, then an assignment for
-- each row of the query.
abbrev pub default_of : List ClientType → String → Option String
default_of [] key = none
default_of (ct ∷ cts) key = if ct.key == key then some default_profile else default_of cts key

unfoldable pub assign_rows : List Row → (String → Option String) → String → Option String
assign_rows [] out key = out key
assign_rows (r ∷ rows) out key =
    assign_rows rows (λ k. if r.client_type == k then some r.profile else out k) key

unfoldable pub for_sub_id : Fault → String → Db → Result (String → Option String)
unfolding assign_rows
for_sub_id fault sub_id db = do
  call "assignment: query" fault
  ok (assign_rows (select (λ r. r.sub_id == sub_id) db.rows) (default_of client_types))

unfoldable pub delete_all : Fault → String → Db → Db × Option Error
delete_all (some cause) sub_id db = (db, some (wrap "assignment: delete all" (new cause)))
delete_all none sub_id db =
    (record db { rows = delete_where (λ r. r.sub_id == sub_id) db.rows }, none)

-- INSERT … SELECT of the old rows for one client type; the primary key refuses a second row.
unfoldable pub insert_legacy : String → List Legacy → List Row → Result (List Row)
insert_legacy client_type [] rows = ok rows
insert_legacy client_type (l ∷ legacy) rows = elim (first (has_key l.sub_id client_type) rows) [
  | some _ ↦ err (new "UNIQUE constraint failed")
  | none ↦
      insert_legacy client_type legacy
        (rows ++ new_row l.sub_id client_type l.profile l.updated_at ∷ [])
]

unfoldable pub fan_out : Faults → ℕ → List ClientType → List Legacy → List Row → Result (List Row)
unfolding insert_legacy
fan_out faults i [] legacy rows = ok rows
fan_out faults i (ct ∷ cts) legacy rows = do
  call "assignment: migrate legacy rows" (faults i)
  rows' ← insert_legacy ct.key legacy rows
  fan_out faults (suc i) cts legacy rows'

-- Engine calls: 0 checks for the old table, 1 begins the transaction, 2 drops the table, 3 commits,
-- and the inserts are counted from 4.
unfoldable pub migrate_tx : Faults → List Legacy → Db → Result (Db × Unit {0})
unfolding fan_out
migrate_tx faults legacy db = do
  call "assignment: begin migration" (faults 1)
  rows ← fan_out faults 4 client_types legacy db.rows
  call "assignment: drop legacy table" (faults 2)
  call "assignment: commit migration" (faults 3)
  ok (record { rows = rows; legacy = none }, tt)

abbrev pub migrate_present : Faults → Db → Option (List Legacy) → Db × Result (Unit {0})
migrate_present faults db none = (db, ok tt)
migrate_present faults db (some legacy) = commit db (migrate_tx faults legacy db)

abbrev pub migrate_checked : Fault → Faults → Db → Option (List Legacy) → Db × Result (Unit {0})
migrate_checked (some cause) faults db old =
    (db, err (wrap "assignment: check legacy table" (new cause)))
migrate_checked none faults db old = migrate_present faults db old

unfoldable pub migrate_legacy : Faults → Db → Db × Result (Unit {0})
migrate_legacy faults db = migrate_checked (faults 0) faults db db.legacy
