-- ===== src/Apps/Writes.antt =====
-- What each write to the table of applications does to its rows and their stamps.
use x_ui_subpage.Prelude.{
  in_context, ℕ, suc, ◌≤◌, ◌<◌, ◌≡◌, refl, sym, subst, ◌∙◌, ap, String, Bool, false, none, some,
  List, [], ◌∷◌, ◌++◌, arith, leb, Result, ok, err, ◌>>=◌, Fault, Faults, call, bind-eq-ok,
  ok-injective, commit_inv, select, All, All-append, concat, All-delete_where, All-update_where,
  select-append, All-imp,
}
use x_ui_subpage.Prelude.Sublists.{
  Sub, Sub_refl, Sub_empty, select-none, Sub-update_where, Sub-delete_where,
}
use x_ui_subpage.Importer.{commit_error}
use x_ui_subpage.Importer.Applications.{
  AppJson, imported_row, insert_apps, import_applications, replace_all,
}
use x_ui_subpage.Apps.{
  App, AppRow, Applications, Json, inserted, row_of, create, updated, update, delete, has_id,
  marshalled,
}

-- The rows that are as old as the stamp.
abbrev pub up_to : ℕ → AppRow → Bool
up_to stamp r = leb r.updated_at stamp

-- A write at a time: it leaves no old row that was not there, and stamps what it writes.
abbrev pub Writes : ℕ → List AppRow → List AppRow → Type 0
Writes now rows rows' =
    ((stamp : ℕ) → stamp < now → Sub (select (up_to stamp) rows') (select (up_to stamp) rows))
    × (All (λ r. r.updated_at ≤ now) rows → All (λ r. r.updated_at ≤ now) rows')

Writes-refl : (now : ℕ) (rows : List AppRow) → Writes now rows rows
Writes-refl now rows = ((λ stamp _. Sub_refl (select (up_to stamp) rows)), λ h. h)

later : (stamp now : ℕ) → stamp < now → leb now stamp ≡ false
later stamp now h = ground arith

append-Writes :
    (now : ℕ) (rows : List AppRow) (r : AppRow)
    → r.updated_at ≡ now
    → Writes now rows (rows ++ r ∷ [])
append-Writes now rows r e = (
  (λ stamp h.
      subst (λ x. Sub x (select (up_to stamp) rows))
        (sym (
          select-append (up_to stamp) rows (r ∷ [])
          ∙ ap (λ x. select (up_to stamp) rows ++ x) (fresh stamp h)
          ∙ append_nil (select (up_to stamp) rows)))
        (Sub_refl (select (up_to stamp) rows))),
  λ h. All-append (λ x. x.updated_at ≤ now) rows (r ∷ []) h (omega (arith, e), tt),
)
  where
    fresh : (stamp : ℕ) → stamp < now → select (up_to stamp) (r ∷ []) ≡ []
    fresh stamp h = select-none (up_to stamp) (r ∷ []) (rw e (later stamp now h), tt)

    append_nil : (xs : List AppRow) → xs ++ [] ≡ xs
    append_nil [] = refl
    append_nil (x ∷ xs) = ap (λ ys. x ∷ ys) (append_nil xs)

pub create-Writes :
    (json : Json) (fault : Fault) (now : ℕ) (a : App) (t : Applications)
    → Writes now t.rows (create json fault now a t).0.rows
unfolding create
create-Writes json fault now a t = by_outcome fault (marshalled (json.marshal a.platforms))
  where
    by_outcome :
        (fault : Fault) (r : Result String) → Writes now t.rows (inserted fault now a t r).0.rows
    by_outcome fault (err e) = Writes-refl now t.rows
    by_outcome (some cause) (ok platforms) = Writes-refl now t.rows
    by_outcome none (ok platforms) =
        append-Writes now t.rows (row_of t.next_id a platforms now) refl

pub update-Writes :
    (json : Json) (fault : Fault) (now id : ℕ) (a : App) (t : Applications)
    → Writes now t.rows (update json fault now id a t).0.rows
unfolding update
update-Writes json fault now id a t = by_outcome fault (marshalled (json.marshal a.platforms))
  where
    by_outcome :
        (fault : Fault) (r : Result String) → Writes now t.rows (updated fault now id a t r).0.rows
    by_outcome fault (err e) = Writes-refl now t.rows
    by_outcome (some cause) (ok platforms) = Writes-refl now t.rows
    by_outcome none (ok platforms) = (
      (λ stamp h.
          Sub-update_where (up_to stamp) (has_id id) (λ (r : AppRow). row_of r.id a platforms now)
            (λ _. later stamp now h) t.rows),
      λ h.
          All-update_where (λ r. r.updated_at ≤ now) (has_id id)
            (λ (r : AppRow). row_of r.id a platforms now) (λ _ _. omega arith) t.rows h,
    )

pub delete-Writes :
    (fault : Fault) (now id : ℕ) (t : Applications) → Writes now t.rows (delete fault id t).0.rows
unfolding delete
delete-Writes (some cause) now id t = Writes-refl now t.rows
delete-Writes none now id t = (
  (λ stamp _. Sub-delete_where (up_to stamp) (has_id id) t.rows),
  All-delete_where (λ r. r.updated_at ≤ now) (has_id id) t.rows,
)

insert_apps-stamps :
    (json : Json) (faults : Faults) (i now : ℕ) (apps : List AppJson) (t t' : Applications)
    → All (λ (r : AppRow). r.updated_at ≡ now) t.rows
    → insert_apps json faults i now apps t ≡ ok t'
    → All (λ (r : AppRow). r.updated_at ≡ now) t'.rows
unfolding insert_apps
insert_apps-stamps json faults i now [] t t' h e =
    subst (λ x. All (λ (r : AppRow). r.updated_at ≡ now) x.rows) (ok-injective e) h
insert_apps-stamps json faults i now (a ∷ apps) t t' h e =
    let (platforms, _, e1) = bind-eq-ok (in_context _ (json.marshal a.platforms)) _ e in
    let (_, _, e2) = bind-eq-ok (call "importer: insert application" (faults i)) _ e1 in
    insert_apps-stamps json faults (suc i) now apps _ t'
      (All-append (λ (r : AppRow). r.updated_at ≡ now) t.rows
        (imported_row t.next_id a platforms now ∷ []) h (refl, tt))
      e2

-- An import leaves rows of its own time only.
replaced-Writes :
    (now : ℕ) (rows rows' : List AppRow)
    → All (λ (r : AppRow). r.updated_at ≡ now) rows'
    → Writes now rows rows'
replaced-Writes now rows rows' h = (
  (λ stamp before.
      subst (λ x. Sub x (select (up_to stamp) rows))
        (sym (
          select-none (up_to stamp) rows' (All-imp (λ x e. rw e (later stamp now before)) rows' h)))
        (Sub_empty (select (up_to stamp) rows))),
  λ _. All-imp (λ x e. omega (arith, e)) rows' h,
)

pub import_applications-Writes :
    (json : Json) (parse : String → Result (List AppJson)) (faults inserts : Faults) (now : ℕ)
    (path : String) (file : Result String) (t : Applications)
    → Writes now t.rows (import_applications json parse faults inserts now path file t).0.rows
unfolding import_applications replace_all
import_applications-Writes json parse faults inserts now path file t =
    commit_inv (λ (x : Applications). Writes now t.rows x.rows) t
      (in_context (concat ("importer: read " ∷ path ∷ [])) file >>= λ bytes.
        (in_context (concat ("importer: parse " ∷ path ∷ [])) (parse bytes) >>= λ apps.
        replace_all json faults inserts now apps t))
      (Writes-refl now t.rows)
      (λ t' _ e.
        let (bytes, _, e1) = bind-eq-ok (in_context _ file) _ e in
        let (apps, _, e2) = bind-eq-ok (in_context _ (parse bytes)) _ e1 in
        let (_, _, e3) = bind-eq-ok (call "importer: begin tx" (faults 0)) _ e2 in
        let (_, _, e4) = bind-eq-ok (call "importer: clear applications" (faults 1)) _ e3 in
        let (_, _, e5) = bind-eq-ok (call "importer: prepare insert" (faults 2)) _ e4 in
        let (t1, filled, e6) =
          bind-eq-ok (insert_apps json inserts 0 now apps (record t { rows = [] })) _ e5 in
        let (_, _, e7) = bind-eq-ok (commit_error (faults 3)) _ e6 in
        subst (λ (x : Applications). Writes now t.rows x.rows)
          (ap (λ (x : Applications × Unit {0}). x.0) (ok-injective e7))
          (replaced-Writes now t.rows t1.rows
            (insert_apps-stamps json inserts 0 now apps (record t { rows = [] }) t1 tt filled)))
