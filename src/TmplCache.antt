-- ===== src/TmplCache.antt =====
-- internal/generator/tmplcache: the compiled templates of one format, with the fallback to the
-- profile "default" and with what was compiled kept per resolved key.
pub mod Versions
pub mod Coherence
pub mod Freshness
mod Tests
use x_ui_subpage.Prelude.{
  ℕ, String, Bool, true, false, ◌&&◌, Option, none, some, List, [], ◌∷◌, if◌then◌else◌, eqb, ◌==◌,
  Error, no_rows, new, wrap, is_no_rows, Result, ok, err, Fault, first, upsert, concat,
}
use x_ui_subpage.Templates.{Row, is_at}

abbrev pub default_profile : String
default_profile = "default"

pub record Entry {ℓ} (T : Type ℓ) : Type ℓ where
  pub key : String
  pub value : T
  pub updated_at : ℕ

-- `entries` is the map: at most one entry per key.
pub record Cache {ℓ} (T : Type ℓ) : Type ℓ where
  pub format : String
  pub parse : String → String → Result T
  pub entries : List (Entry T)

-- What a query for a row gives.
pub record Fetched : Type 0 where
  pub content : String
  pub updated_at : ℕ
  pub profile : String

abbrev pub scanned : Fault → String → Option Row → Result Fetched
scanned (some cause) profile row = err (wrap "query template" (new cause))
scanned none profile none = err (wrap "query template" no_rows)
scanned none profile (some r) =
    ok (record { content = r.content; updated_at = r.updated_at; profile = profile })

unfoldable pub query_row : Fault → String → String → String → List Row → Result Fetched
query_row fault format profile protocol t =
    scanned fault profile (first (is_at format profile protocol) t)

abbrev pub no_default : String → String → Error
no_default format profile = new (
    concat (
      "tmplcache: no " ∷ format ∷ " template for profile " ∷ profile
      ∷ " (and it is already the default)" ∷ []))

abbrev pub no_fallback : String → String → Error
no_fallback format profile = new (
    concat (
      "tmplcache: no " ∷ format ∷ " template for profile " ∷ profile ∷ " or fallback "
      ∷ default_profile ∷ []))

-- The second query's outcome.
abbrev pub after_default : Error → Result Fetched → Result Fetched
after_default missing (ok row) = ok row
after_default missing (err e) = if is_no_rows e then err missing else err e

-- The first query's outcome decides whether there is a second one.
abbrev pub after_first : String → String → Result Fetched → Result Fetched → Result Fetched
after_first format profile (ok row) second = ok row
after_first format profile (err e) second =
    if is_no_rows e
    then (if profile == default_profile
        then err (no_default format profile)
        else after_default (no_fallback format profile) second)
    else err e

unfoldable pub fetch : Fault → Fault → String → String → String → List Row → Result Fetched
unfolding query_row
fetch fault default_fault format profile protocol t =
    after_first format profile (query_row fault format profile protocol t)
      (query_row default_fault format default_profile protocol t)

abbrev pub key_of : String → String → String
key_of profile protocol = concat (profile ∷ "|" ∷ protocol ∷ [])

module _ {ℓ} {T : Type ℓ} where
  abbrev pub has_key : String → Entry T → Bool
  has_key key e = e.key == key

  -- e, ok := c.entries[key]; ok && e.updatedAt == updatedAt
  abbrev pub hit : ℕ → Option (Entry T) → Option T
  hit stamp none = none
  hit stamp (some e) = if eqb e.updated_at stamp then some e.value else none

  abbrev pub entry_of : String → T → ℕ → Entry T
  entry_of key value stamp = record { key = key; value = value; updated_at = stamp }

  abbrev pub stored : Cache T → String → ℕ → Result T → Cache T × Result T
  stored c key stamp (err e) =
      (c, err (wrap (concat ("tmplcache: parse " ∷ c.format ∷ "/" ∷ key ∷ [])) e))
  stored c key stamp (ok value) = (
    record c {
      entries =
          upsert (has_key key) (λ _. entry_of key value stamp) (entry_of key value stamp) c.entries;
    },
    ok value,
  )

  -- Under the lock.
  abbrev pub looked_up : Cache T → String → Fetched → Option T → Cache T × Result T
  looked_up c key row (some value) = (c, ok value)
  looked_up c key row none =
      stored c key row.updated_at (c.parse (concat (c.format ∷ "/" ∷ key ∷ [])) row.content)

  abbrev pub resolved : Cache T → String → Result Fetched → Cache T × Result T
  resolved c protocol (err e) = (c, err e)
  resolved c protocol (ok row) =
      looked_up c (key_of row.profile protocol) row
        (hit row.updated_at (first (has_key (key_of row.profile protocol)) c.entries))

  -- The faults are those of the query for the profile and of that for "default".
  unfoldable pub get : Fault → Fault → String → String → List Row → Cache T → Cache T × Result T
  unfolding fetch
  get fault default_fault profile protocol t c =
      resolved c protocol (fetch fault default_fault c.format profile protocol t)
