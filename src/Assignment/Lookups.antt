-- ===== src/Assignment/Lookups.antt =====
-- What a subscriber's profile is after an assignment and after a deletion.
use x_ui_subpage.Prelude.{
  ℕ, String, ◌≡◌, refl, ap, sym, subst, ◌∙◌, true, false, ◌&&◌, ◌==◌, eq_iff, Option, none, some,
  List, [], ◌∷◌, arith, Bool-cases, inl, inr, if◌then◌else◌, ok, ok-injective, first, select,
  delete_where, first-upsert_self, first-upsert_other,
}
use x_ui_subpage.Assignment.{
  ClientType, Row, Db, client_types, default_profile, format_to_client_type, has_key, scanned,
  resolve, set, delete_all, new_row, overwrite, assign_rows, for_sub_id, default_of, resolve_type,
}

pub key_self : (s k : String) → (s == s && k == k) ≡ true
key_self s k = ground (arith, eq_iff s s, eq_iff k k)

key_other :
    (s k s' k' : String) (r : Row)
    → (s == s' && k == k') ≡ false
    → has_key s k r ≡ true
    → has_key s' k' r ≡ false
key_other s k s' k' r ne e = ground (
  arith,
  eq_iff s s',
  eq_iff k k',
  eq_iff r.sub_id s,
  eq_iff r.client_type k,
  eq_iff r.sub_id s',
  eq_iff r.client_type k',
)

scanned-set_self :
    (now : ℕ) (s k p : String) (db : Db)
    → scanned none (first (has_key s k) (set none now s k p db).0.rows) ≡ ok p
unfolding set
scanned-set_self now s k p db =
    let (y, found, what) =
      first-upsert_self (has_key s k) (overwrite p now) (new_row s k p now) db.rows (key_self s k)
        (λ r e. e) in
    rw found (elim what [
      | inl own ↦ ap (λ (r : Row). ok r.profile) own
      | inr (r, _, old) ↦ ap (λ (r : Row). ok r.profile) old
    ])

scanned-set :
    (now : ℕ) (s k p s' k' : String) (db : Db)
    → scanned none (first (has_key s' k') (set none now s k p db).0.rows)
      ≡ (if s == s' && k == k' then ok p else scanned none (first (has_key s' k') db.rows))
scanned-set now s k p s' k' db = elim (Bool-cases (s == s' && k == k')) [
  | inl same ↦
      let s_eq : s ≡ s' = ground (arith, eq_iff s s') in
      let k_eq : k ≡ k' = ground (arith, eq_iff k k') in
      rw same (
        subst (λ x. scanned none (first (has_key x k') (set none now s k p db).0.rows) ≡ ok p) s_eq
          (subst (λ x. scanned none (first (has_key s x) (set none now s k p db).0.rows) ≡ ok p)
            k_eq (scanned-set_self now s k p db)))
  | inr other ↦ rw other (
      ap (scanned none) (
        unfold set in
        first-upsert_other (has_key s k) (has_key s' k') (overwrite p now) (new_row s k p now)
          db.rows other (λ r e. (key_other s k s' k' r other e, key_other s k s' k' r other e))))
]

pub resolve-known :
    (s format k : String) (db : Db)
    → format_to_client_type client_types format ≡ some k
    → resolve none s format db ≡ scanned none (first (has_key s k) db.rows)
unfolding resolve resolve_type
resolve-known s format k db known = ap (resolve_type none s db) known

-- When the engine does not fail, a subscriber's profile for a known format is after an assignment the
-- assigned one where the subscriber and the client type that governs the format are those of the
-- assignment, and else what it was.
pub resolve-set :
    (now : ℕ) (s k p s' format k' : String) (db : Db)
    → format_to_client_type client_types format ≡ some k'
    → resolve none s' format (set none now s k p db).0
      ≡ (if s == s' && k == k' then ok p else resolve none s' format db)
resolve-set now s k p s' format k' db known =
    rw
      (
        resolve-known s' format k' db known,
        resolve-known s' format k' (set none now s k p db).0 known,
      )
      (scanned-set now s k p s' k' db)

first-delete :
    (s s' k' : String) (rows : List Row)
    → first (has_key s' k') (delete_where (λ r. r.sub_id == s) rows)
      ≡ (if s == s' then none else first (has_key s' k') rows)
unfolding first delete_where
first-delete s s' k' [] = ground arith
first-delete s s' k' (r ∷ rows) =
    ground (arith, first-delete s s' k' rows, eq_iff s s', eq_iff r.sub_id s, eq_iff r.sub_id s')

scanned-delete_all :
    (s s' k' : String) (db : Db)
    → scanned none (first (has_key s' k') (delete_all none s db).0.rows)
      ≡ (if s == s' then ok default_profile else scanned none (first (has_key s' k') db.rows))
unfolding delete_all
scanned-delete_all s s' k' db = rw (first-delete s s' k' db.rows) (ground arith)

-- When the engine does not fail, after a deletion the subscriber has the default profile for every
-- known format, and every other subscriber keeps theirs.
pub resolve-delete_all :
    (s s' format k' : String) (db : Db)
    → format_to_client_type client_types format ≡ some k'
    → resolve none s' format (delete_all none s db).0
      ≡ (if s == s' then ok default_profile else resolve none s' format db)
resolve-delete_all s s' format k' db known =
    rw
      (
        resolve-known s' format k' db known,
        resolve-known s' format k' (delete_all none s db).0 known,
      )
      (scanned-delete_all s s' k' db)

-- Of each subscriber and client type there is one row at most: none below repeats the key.
abbrev pub IsKeyed : List Row → Type 0
IsKeyed [] = Unit
IsKeyed (r ∷ rows) = (first (has_key r.sub_id r.client_type) rows ≡ none) × IsKeyed rows

abbrev profile_or : Option String → Option Row → Option String
profile_or default none = default
profile_or default (some r) = some r.profile

fresh_at :
    (r : Row) (rows : List Row) (s k : String)
    → first (has_key r.sub_id r.client_type) rows ≡ none
    → r.sub_id ≡ s
    → r.client_type ≡ k
    → first (has_key s k) rows ≡ none
fresh_at r rows s k fresh p q = rw (← p, ← q) fresh

assign_rows-keyed :
    (s k : String) (rows : List Row) (out : String → Option String)
    → IsKeyed rows
    → assign_rows (select (λ r. r.sub_id == s) rows) out k
      ≡ profile_or (out k) (first (has_key s k) rows)
unfolding assign_rows select first
assign_rows-keyed s k [] out h = refl
assign_rows-keyed s k (r ∷ rows) out (fresh, h) = ground (
  arith,
  assign_rows-keyed s k rows out h,
  assign_rows-keyed s k rows (λ x. if r.client_type == x then some r.profile else out x) h,
  fresh_at r rows s k fresh,
  eq_iff r.sub_id s,
  eq_iff r.client_type k,
)

ok_or_default :
    (row : Option Row) (p : String)
    → scanned none row ≡ ok p
    → profile_or (some default_profile) row ≡ some p
ok_or_default none p e = ap some (ok-injective e)
ok_or_default (some r) p e = ap some (ok-injective e)

governed :
    (cts : List ClientType) (format k : String)
    → format_to_client_type cts format ≡ some k
    → default_of cts k ≡ some default_profile
unfolding format_to_client_type
governed [] format k e = cc
governed (ct ∷ cts) format k e = ground (arith, governed cts format k, eq_iff ct.key k)

-- The map of all client types agrees with the single lookups: at the client type that governs a
-- format it holds the profile that the format resolves to, where no two rows have one key and the
-- engine does not fail.
pub for_sub_id-resolve :
    (s format k p : String) (db : Db) (out : String → Option String)
    → IsKeyed db.rows
    → format_to_client_type client_types format ≡ some k
    → resolve none s format db ≡ ok p
    → for_sub_id none s db ≡ ok out
    → out k ≡ some p
unfolding for_sub_id
for_sub_id-resolve s format k p db out keyed known resolved e = rw (← ok-injective e) (
    assign_rows-keyed s k db.rows (default_of client_types) keyed
    ∙ rw (governed client_types format k known)
        (ok_or_default _ p (sym (resolve-known s format k db known) ∙ resolved)))
