-- ===== src/Assignment/Migration.antt =====
-- The migration of the old table: complete on success, without effect on failure, and once only.
use x_ui_subpage.Prelude.{
  ℕ, suc, String, ◌≡◌, refl, ap, subst, ◌∙◌, Bool, Option, none, some, List, [], ◌∷◌, ◌++◌, arith,
  Option-cases, inl, inr, In, here, there, Error, ok, err, bind-eq-ok, ok-injective, Fault, Faults,
  call, commit-eq-ok, commit-eq-err, first, first-append_none, first-append_some,
}
use x_ui_subpage.Assignment.{
  ClientType, Row, Legacy, Db, client_types, format_to_client_type, has_key, new_row, resolve,
  insert_legacy, fan_out, migrate_tx, migrate_checked, migrate_legacy,
}
use x_ui_subpage.Assignment.Lookups.{key_self, resolve-known}

abbrev migrated : String → Legacy → Row
migrated client_type l = new_row l.sub_id client_type l.profile l.updated_at

insert_legacy-cons :
    (ct : String) (l : Legacy) (legacy : List Legacy) (rows rows' : List Row)
    → insert_legacy ct (l ∷ legacy) rows ≡ ok rows'
    → (first (has_key l.sub_id ct) rows ≡ none)
      × (insert_legacy ct legacy (rows ++ migrated ct l ∷ []) ≡ ok rows')
unfolding insert_legacy
insert_legacy-cons ct l legacy rows rows' e = ground arith

insert_legacy-keeps :
    (q : Row → Bool) (x : Row) (ct : String) (legacy : List Legacy) (rows rows' : List Row)
    → insert_legacy ct legacy rows ≡ ok rows'
    → first q rows ≡ some x
    → first q rows' ≡ some x
unfolding insert_legacy
insert_legacy-keeps q x ct [] rows rows' e h = rw (← ok-injective e) h
insert_legacy-keeps q x ct (l ∷ legacy) rows rows' e h =
    insert_legacy-keeps q x ct legacy _ rows' (insert_legacy-cons ct l legacy rows rows' e).1
      (first-append_some q rows (migrated ct l ∷ []) x h)

first_new :
    (ct : String) (l : Legacy)
    → first (has_key l.sub_id ct) (migrated ct l ∷ []) ≡ some (migrated ct l)
unfolding first
first_new ct l = rw (key_self l.sub_id ct)

insert_legacy-adds :
    (ct : String) (l : Legacy) (legacy : List Legacy) (rows rows' : List Row)
    → insert_legacy ct legacy rows ≡ ok rows'
    → In l legacy
    → first (has_key l.sub_id ct) rows' ≡ some (migrated ct l)
insert_legacy-adds ct l [] rows rows' e m = elim m [ ]
insert_legacy-adds ct l (k ∷ legacy) rows rows' e (here same) =
    let (fresh, later) = insert_legacy-cons ct k legacy rows rows' e in
    rw same (
      insert_legacy-keeps (has_key k.sub_id ct) (migrated ct k) ct legacy _ rows' later
        (first-append_none (has_key k.sub_id ct) rows (migrated ct k ∷ []) fresh ∙ first_new ct k))
insert_legacy-adds ct l (k ∷ legacy) rows rows' e (there m) =
    insert_legacy-adds ct l legacy _ rows' (insert_legacy-cons ct k legacy rows rows' e).1 m

fan_out-cons :
    (faults : Faults) (i : ℕ) (ct : ClientType) (cts : List ClientType) (legacy : List Legacy)
    (rows rows' : List Row)
    → fan_out faults i (ct ∷ cts) legacy rows ≡ ok rows'
    → (mid : List Row) × (insert_legacy ct.key legacy rows ≡ ok mid)
      × (fan_out faults (suc i) cts legacy mid ≡ ok rows')
unfolding fan_out
fan_out-cons faults i ct cts legacy rows rows' e =
    let (_, _, e) = bind-eq-ok (call "assignment: migrate legacy rows" (faults i)) _ e in
    bind-eq-ok (insert_legacy ct.key legacy rows) _ e

fan_out-keeps :
    (q : Row → Bool) (x : Row) (faults : Faults) (i : ℕ) (cts : List ClientType)
    (legacy : List Legacy) (rows rows' : List Row)
    → fan_out faults i cts legacy rows ≡ ok rows'
    → first q rows ≡ some x
    → first q rows' ≡ some x
unfolding fan_out
fan_out-keeps q x faults i [] legacy rows rows' e h = rw (← ok-injective e) h
fan_out-keeps q x faults i (ct ∷ cts) legacy rows rows' e h =
    let (mid, inserted, later) = fan_out-cons faults i ct cts legacy rows rows' e in
    fan_out-keeps q x faults (suc i) cts legacy mid rows' later
      (insert_legacy-keeps q x ct.key legacy rows mid inserted h)

fan_out-adds :
    (faults : Faults) (i : ℕ) (ct : ClientType) (cts : List ClientType) (l : Legacy)
    (legacy : List Legacy) (rows rows' : List Row)
    → fan_out faults i cts legacy rows ≡ ok rows'
    → In ct cts
    → In l legacy
    → first (has_key l.sub_id ct.key) rows' ≡ some (migrated ct.key l)
fan_out-adds faults i ct [] l legacy rows rows' e m n = elim m [ ]
fan_out-adds faults i ct (c ∷ cts) l legacy rows rows' e (here same) n =
    let (mid, inserted, later) = fan_out-cons faults i c cts legacy rows rows' e in
    rw same (
      fan_out-keeps (has_key l.sub_id c.key) (migrated c.key l) faults (suc i) cts legacy mid rows'
        later (insert_legacy-adds c.key l legacy rows mid inserted n))
fan_out-adds faults i ct (c ∷ cts) l legacy rows rows' e (there m) n =
    let (mid, _, later) = fan_out-cons faults i c cts legacy rows rows' e in
    fan_out-adds faults (suc i) ct cts l legacy mid rows' later m n

governs :
    (cts : List ClientType) (format k : String)
    → format_to_client_type cts format ≡ some k
    → (ct : ClientType) × In ct cts × (ct.key ≡ k)
unfolding format_to_client_type
governs [] format k e = cc
governs (ct ∷ cts) format k e = elim (Option-cases (format_to_client_type cts format)) [
  | inl absent ↦ (ct, here refl, ground (arith, absent))
  | inr (k', found) ↦
      let same : k' ≡ k = ground (arith, found) in
      let (c, m, key) = governs cts format k (found ∙ ap some same) in (c, there m, key)
]

migrate_tx-eq-ok :
    (faults : Faults) (legacy : List Legacy) (db db' : Db)
    → migrate_tx faults legacy db ≡ ok (db', tt)
    → (fan_out faults 4 client_types legacy db.rows ≡ ok db'.rows) × (none ≡ db'.legacy)
unfolding migrate_tx
migrate_tx-eq-ok faults legacy db db' e =
    let (_, _, e) = bind-eq-ok (call "assignment: begin migration" (faults 1)) _ e in
    let (rows, filled, e) = bind-eq-ok (fan_out faults 4 client_types legacy db.rows) _ e in
    let (_, _, e) = bind-eq-ok (call "assignment: drop legacy table" (faults 2)) _ e in
    let (_, _, e) = bind-eq-ok (call "assignment: commit migration" (faults 3)) _ e in
    (
      filled ∙ ap (λ (d : Db × Unit {0}). ok d.0.rows) (ok-injective e),
      ap (λ (d : Db × Unit {0}). d.0.legacy) (ok-injective e),
    )

migrate_checked-eq-ok :
    (faults : Faults) (fault : Fault) (old : Option (List Legacy)) (legacy : List Legacy)
    (db db' : Db)
    → migrate_checked fault faults db old ≡ (db', ok tt)
    → old ≡ some legacy
    → migrate_tx faults legacy db ≡ ok (db', tt)
migrate_checked-eq-ok faults (some cause) old legacy db db' e h = cc
migrate_checked-eq-ok faults none none legacy db db' e h = cc
migrate_checked-eq-ok faults none (some found) legacy db db' e h =
    commit-eq-ok db (migrate_tx faults legacy db)
      (subst (λ x. migrate_checked none faults db x ≡ (db', ok tt)) h e)

migrate_checked_again :
    (faults : Faults) (fault : Fault) (old : Option (List Legacy)) (db : Db)
    → fault ≡ none
    → none ≡ old
    → migrate_checked fault faults db old ≡ (db, ok tt)
migrate_checked_again faults fault old db p q = rw (p, ← q)

-- A migration that succeeds gives every subscriber of the old table, for every known format, the
-- profile of the old table, and leaves no old table: a second migration whose first query does not
-- fail does nothing.
pub migrate_legacy_complete :
    (faults faults' : Faults) (db db' : Db) (legacy : List Legacy) (l : Legacy) (format k : String)
    → db.legacy ≡ some legacy
    → migrate_legacy faults db ≡ (db', ok tt)
    → In l legacy
    → format_to_client_type client_types format ≡ some k
    → faults' 0 ≡ none
    → (resolve none l.sub_id format db' ≡ ok l.profile)
      × (migrate_legacy faults' db' ≡ (db', ok tt))
unfolding migrate_legacy
migrate_legacy_complete faults faults' db db' legacy l format k old e m known quiet =
    let (filled, gone) =
      migrate_tx-eq-ok faults legacy db db'
        (migrate_checked-eq-ok faults (faults 0) db.legacy legacy db db' e old) in
    let (ct, governed, key) = governs client_types format k known in
    (
      resolve-known l.sub_id format k db' known
          ∙ rw (
            ← key,
            fan_out-adds faults 4 ct client_types l legacy db.rows db'.rows filled governed m,
          ),
      migrate_checked_again faults' (faults' 0) db'.legacy db' quiet gone,
    )

migrate_checked_atomic :
    (faults : Faults) (fault : Fault) (old : Option (List Legacy)) (db : Db) (e : Error)
    → (migrate_checked fault faults db old).1 ≡ err e
    → (migrate_checked fault faults db old).0 ≡ db
migrate_checked_atomic faults (some cause) old db e h = refl
migrate_checked_atomic faults none none db e h = refl
migrate_checked_atomic faults none (some legacy) db e h =
    commit-eq-err db (migrate_tx faults legacy db) h

-- A migration that fails leaves both tables as they were.
pub migrate_legacy-atomic :
    (faults : Faults) (db : Db) (e : Error)
    → (migrate_legacy faults db).1 ≡ err e
    → (migrate_legacy faults db).0 ≡ db
unfolding migrate_legacy
migrate_legacy-atomic faults db e h = migrate_checked_atomic faults (faults 0) db.legacy db e h
