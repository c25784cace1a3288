-- ===== src/Routing/Migration.antt =====
-- internal/routing/migrate.go: the texts that the apps get, filled in from the profiles of the old
-- shape of the table.
use x_ui_subpage.Prelude.{
  ℕ, suc, Bool, true, not, ◌&&◌, Option, none, some, List, [], ◌∷◌, if◌then◌else◌, ◌==◌, Error, ok,
  err, ◌>>=◌, ◌>>◌, Faults, call, select, update_where,
}
use x_ui_subpage.Routing.{Codec, Row, Db, encode, in_context, is_for}

-- Which of the two columns the table has.
pub record Columns : Type 0 where
  pub config : Bool
  pub routing_b64 : Bool

-- WHERE routing_b64 = '' AND config != '' AND config != '{}'
abbrev pub is_pending : Row → Bool
is_pending r = r.routing_b64 == "" && not (r.config == "") && not (r.config == "{}")

-- The loop over the pending rows, which has no transaction: what it did stays when it fails.
unfoldable pub backfill : Codec → Faults → ℕ → ℕ → List Row → Db → Db × Option Error
unfolding encode
backfill codec faults now i [] db = (db, none)
backfill codec faults now i (r ∷ pending) db =
    elim (in_context "routing: decode legacy profile" (codec.unmarshal_profile r.config)
      >>= λ profile.
          (in_context "routing: encode legacy profile" (encode codec now r.sub_id profile)
            >>= λ generated.
                (call "routing: backfill routing_b64" (faults i) >> ok generated.base64))) [
                  | err e ↦ (db, some e)
                  | ok b64 ↦ backfill codec faults now (suc i) pending (record db {
                    rows =
                        update_where (is_for r.sub_id) (λ x. record x { routing_b64 = b64 })
                          db.rows;
                  })
                ]

-- The calls of the engine ask for the columns (0 and 1), add one (2) and query the rows (3). A row
-- of a table without the column `routing_b64` has the empty text there, its default.
unfoldable pub migrate_legacy :
    Codec → Faults → Faults → ℕ → Columns → Db → Columns × (Db × Option Error)
unfolding backfill
migrate_legacy codec faults updates now columns db =
    elim (call "routing: check legacy column" (faults 0)) [
      | err e ↦ (columns, (db, some e))
      | ok _ ↦
          if not columns.config
          then (columns, (db, none))
          else elim (call "routing: check routing_b64 column" (faults 1)
              >> (if columns.routing_b64
                  then ok tt
                  else call "routing: add routing_b64 column" (faults 2))) [
                    | err e ↦ (columns, (db, some e))
                    | ok _ ↦ (
                      record columns { routing_b64 = true },
                      elim (call "routing: query legacy rows" (faults 3)) [
                        | err e ↦ (db, some e)
                        | ok _ ↦ backfill codec updates now 0 (select is_pending db.rows) db
                      ],
                    )
                  ]
    ]
