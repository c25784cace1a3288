-- ===== src/Assignment/Tests.antt =====
-- The theorems on template assignments at concrete tables.
use x_ui_subpage.Prelude.{
  String, ◌≡◌, refl, ◌&&◌, ◌==◌, if◌then◌else◌, Option, none, some, [], ◌∷◌, new, wrap, ok, err,
  here, Faults, first, eqb, select,
}
use x_ui_subpage.Assignment.{
  Row, Legacy, Db, client_types, default_of, format_to_client_type, resolve, set, for_sub_id,
  assign_rows, migrate_legacy, migrate_tx, resolve_type,
}
use x_ui_subpage.Assignment.Lookups.{resolve-set}
use x_ui_subpage.Assignment.Migration.{migrate_legacy_complete}

abbrev row : String → String → String → Row
row sub_id client_type profile = record {
  sub_id = sub_id;
  client_type = client_type;
  profile = profile;
  updated_at = 1;
}

abbrev db : Db
db = record { rows = row "bob" "clash" "minimal" ∷ row "eve" "xray" "lean" ∷ []; legacy = none }

known_xray : format_to_client_type client_types "xray_json" ≡ some "xray"
unfolding format_to_client_type
known_xray = refl

known_clash : format_to_client_type client_types "clash" ≡ some "clash"
unfolding format_to_client_type
known_clash = refl

resolve-set_example : resolve none "bob" "xray_json" (set none 7 "bob" "xray" "gaming" db).0 ≡ (
    if "bob" == "bob" && "xray" == "xray" then ok "gaming" else resolve none "bob" "xray_json" db)
resolve-set_example = resolve-set 7 "bob" "xray" "gaming" "bob" "xray_json" "xray" db known_xray

resolved : resolve none "bob" "clash" db ≡ ok "minimal"
unfolding resolve format_to_client_type resolve_type first
resolved = refl

abbrev profiles : String → Option String
unfolding assign_rows
profiles = assign_rows (row "bob" "clash" "minimal" ∷ []) (default_of client_types)

looked_up : for_sub_id none "bob" db ≡ ok profiles
unfolding for_sub_id assign_rows select
looked_up = refl

abbrev carol : Legacy
carol = record { sub_id = "carol"; profile = "gaming"; updated_at = 1 }

abbrev old : Db
old = record { rows = []; legacy = some (carol ∷ []) }

abbrev quiet : Faults
quiet n = none

abbrev migrated : Db
migrated = record {
  rows =
      row "carol" "xray" "gaming"
      ∷ row "carol" "clash" "gaming"
      ∷ row "carol" "mihomo" "gaming"
      ∷ row "carol" "happ" "gaming"
      ∷ row "carol" "incy" "gaming"
      ∷ [];
  legacy = none;
}

migrates : migrate_legacy quiet old ≡ (migrated, ok tt)
unfolding migrate_legacy migrate_tx first
migrates = refl

migrate_legacy_complete_example :
    (resolve none "carol" "clash" migrated ≡ ok "gaming")
    × (migrate_legacy quiet migrated ≡ (migrated, ok tt))
migrate_legacy_complete_example =
    migrate_legacy_complete quiet quiet old migrated (carol ∷ []) carol "clash" "clash" refl
      migrates (here refl) known_clash refl

-- The drop of the old table fails.
abbrev locked : Faults
locked n = if eqb n 2 then some "database is locked" else none

fails :
    (migrate_legacy locked old).1
    ≡ err (wrap "assignment: drop legacy table" (new "database is locked"))
unfolding migrate_legacy migrate_tx first
fails = refl
