-- ===== src/Apps/Coherence.antt =====
-- The catalogue in memory agrees with the table, though it looks only at the newest stamp and at
-- the number of rows before it reloads.
use x_ui_subpage.Prelude.{
  ℕ, suc, ◌≤◌, ◌<◌, ◌≡◌, refl, sym, subst, ◌∙◌, ap, String, Bool, true, false, Option, none, some,
  List, [], ◌∷◌, arith, eqb_iff, Result, ok, err, ◌>>◌, Fault, Faults, call, bind-eq-ok,
  ok-injective, select, All, length, All-imp,
}
use x_ui_subpage.Prelude.Int.{leb_ℤ}
use x_ui_subpage.Prelude.Sublists.{Sub, Sub_refl, Sub_trans, Sub-eq, select-of_All}
use x_ui_subpage.Templates.{insert_ordered, order_by}
use x_ui_subpage.Importer.Applications.{AppJson, import_applications}
use x_ui_subpage.Apps.{
  App, AppRow, Applications, Json, Catalog, new_catalog, newest, decoded, scan_apps, load_apps,
  is_current, kept, reload_unless, reload_if_needed, or_nil, answered, list_all, create, update,
  delete,
}
use x_ui_subpage.Apps.Writes.{
  up_to, Writes, create-Writes, update-Writes, delete-Writes, import_applications-Writes,
}

-- The catalogue holds what some list of rows gives, of which the table has kept a part.
abbrev pub Holds : Json → ℕ → List AppRow → Option (List App) → ℕ → Type 0
Holds json clock rows none stamp = Unit
Holds json clock rows (some apps) stamp =
    (loaded : List AppRow) × (load_apps json loaded ≡ ok apps)
    × (stamp ≤ clock)
    × Sub (select (up_to stamp) rows) loaded

abbrev pub World : Type 0
World = ℕ × Applications × Catalog

-- A step: a write at a later time than all before it, by the admin panel or by an import, or a call
-- that reads the catalogue. The engine may fail at each call.
pub data Step (json : Json) : World → World → Type 0 where
  creates :
      {clock : ℕ} {t : Applications} {c : Catalog} (fault : Fault) (now : ℕ) (a : App)
      → clock < now
      → Step json (clock, t, c) (now, (create json fault now a t).0, c)
  updates :
      {clock : ℕ} {t : Applications} {c : Catalog} (fault : Fault) (now id : ℕ) (a : App)
      → clock < now
      → Step json (clock, t, c) (now, (update json fault now id a t).0, c)
  deletes :
      {clock : ℕ} {t : Applications} {c : Catalog} (fault : Fault) (now id : ℕ)
      → clock < now
      → Step json (clock, t, c) (now, (delete fault id t).0, c)
  imports :
      {clock : ℕ} {t : Applications} {c : Catalog} (parse : String → Result (List AppJson))
      (faults inserts : Faults) (now : ℕ) (path : String) (file : Result String)
      → clock < now
      → Step json
          (clock, t, c)
          (now, (import_applications json parse faults inserts now path file t).0, c)
  reads :
      {clock : ℕ} {t : Applications} {c : Catalog} (stamp_fault fault : Fault)
      → Step json (clock, t, c) (clock, t, (reload_if_needed json stamp_fault fault t c).0)

-- What the service reaches from its start, on a table with stamps of the past.
pub data Reach (json : Json) : World → Type 0 where
  starts :
      (clock : ℕ) (t : Applications)
      → All (λ r. r.updated_at ≤ clock) t.rows
      → Reach json (clock, t, new_catalog)
  steps : {w w' : World} → Reach json w → Step json w w' → Reach json w'

abbrev pub IsCoherent : Json → World → Type 0
IsCoherent json (clock, t, c) =
    All (λ r. r.updated_at ≤ clock) t.rows × Holds json clock t.rows c.apps c.loaded_at

All-older :
    (clock now : ℕ) (rows : List AppRow)
    → clock < now
    → All (λ r. r.updated_at ≤ clock) rows
    → All (λ r. r.updated_at ≤ now) rows
All-older clock now rows h a = All-imp (λ r e. omega (arith, h, e)) rows a

Writes-Holds :
    (json : Json) (clock now : ℕ) (rows rows' : List AppRow) (o : Option (List App)) (stamp : ℕ)
    → clock < now
    → Writes now rows rows'
    → Holds json clock rows o stamp
    → Holds json now rows' o stamp
Writes-Holds json clock now rows rows' none stamp h w k = tt
Writes-Holds json clock now rows rows' (some apps) stamp h (w, _) (loaded, gives, past, part) =
    (loaded, gives, omega (arith, past, h), Sub_trans part (w stamp (omega (arith, past, h))))

written-IsCoherent :
    (json : Json) (clock now : ℕ) (t t' : Applications) (c : Catalog)
    → clock < now
    → Writes now t.rows t'.rows
    → IsCoherent json (clock, t, c)
    → IsCoherent json (now, t', c)
written-IsCoherent json clock now t t' c h w (stamps, holds) = (
  w.1 (All-older clock now t.rows h stamps),
  Writes-Holds json clock now t.rows t'.rows c.apps c.loaded_at h w holds,
)

newest-le :
    (clock : ℕ) (rows : List AppRow) → All (λ r. r.updated_at ≤ clock) rows → newest rows ≤ clock
unfolding newest
newest-le clock [] h = omega arith
newest-le clock (r ∷ rows) (p, h) = ground (arith, newest-le clock rows h)

-- No row is newer than the newest stamp.
All-up_to-newest :
    (rows : List AppRow) (stamp : ℕ) → newest rows ≤ stamp → All (λ r. up_to stamp r ≡ true) rows
unfolding newest
All-up_to-newest [] stamp h = tt
All-up_to-newest (r ∷ rows) stamp h = (ground arith, All-up_to-newest rows stamp (ground arith))

length-insert_ordered :
    (before : AppRow → AppRow → Bool) (r : AppRow) (rows : List AppRow)
    → length (insert_ordered before r rows) ≡ suc (length rows)
length-insert_ordered before r [] = refl
length-insert_ordered before r (s ∷ rows) = ground (arith, length-insert_ordered before r rows)

length-order_by :
    (before : AppRow → AppRow → Bool) (rows : List AppRow)
    → length (order_by before rows) ≡ length rows
unfolding order_by
length-order_by before [] = refl
length-order_by before (r ∷ rows) =
    length-insert_ordered before r (order_by before rows)
    ∙ ap (λ n. suc n) (length-order_by before rows)

length-scan_apps :
    (json : Json) (rows : List AppRow) (apps : List App)
    → scan_apps json rows ≡ ok apps
    → length rows ≡ length apps
unfolding scan_apps
length-scan_apps json [] apps e = ap length (ok-injective e)
length-scan_apps json (r ∷ rows) apps e =
    let (platforms, _, e1) = bind-eq-ok (decoded (json.unmarshal r.platforms)) _ e in
    let (rest, scanned, e2) = bind-eq-ok (scan_apps json rows) _ e1 in
    ap (λ n. suc n) (length-scan_apps json rows rest scanned) ∙ ap length (ok-injective e2)

length-load_apps :
    (json : Json) (rows : List AppRow) (apps : List App)
    → load_apps json rows ≡ ok apps
    → length rows ≡ length apps
unfolding load_apps
length-load_apps json rows apps e =
    sym (length-order_by (λ (r : AppRow) s. leb_ℤ r.sort_order s.sort_order) rows)
    ∙ length-scan_apps json _ apps e

-- A catalogue whose stamp and count are the table's holds what the table gives.
current-load_apps :
    (json : Json) (clock : ℕ) (rows : List AppRow) (o : Option (List App)) (stamp : ℕ)
    → Holds json clock rows o stamp
    → is_current (newest rows) (length rows) (record { apps = o; loaded_at = stamp }) ≡ true
    → ok (or_nil o) ≡ load_apps json rows
current-load_apps json clock rows none stamp h e = cc
current-load_apps json clock rows (some apps) stamp (loaded, gives, _, part) e =
    let same_stamp : newest rows ≡ stamp = ground (arith, eqb_iff (newest rows) stamp) in
    let same_count : length rows ≡ length apps =
      ground (arith, eqb_iff (length rows) (length apps)) in
    let all_old =
      select-of_All (up_to stamp) rows (All-up_to-newest rows stamp (omega (arith, same_stamp))) in
    let whole : rows ≡ loaded =
      Sub-eq (subst (λ x. Sub x loaded) all_old part)
        (same_count ∙ sym (length-load_apps json loaded apps gives)) in
    sym (ap (load_apps json) whole ∙ gives)

kept-IsCoherent :
    (json : Json) (clock : ℕ) (t : Applications) (c : Catalog) (r : Result (List App))
    → IsCoherent json (clock, t, c)
    → ((apps : List App) → r ≡ ok apps → load_apps json t.rows ≡ ok apps)
    → IsCoherent json (clock, t, (kept c (newest t.rows) r).0)
kept-IsCoherent json clock t c (err e) coherent h = coherent
kept-IsCoherent json clock t c (ok apps) (stamps, _) h = (
  stamps,
  (
    t.rows,
    h apps refl,
    newest-le clock t.rows stamps,
    subst (λ x. Sub x t.rows)
        (sym (
          select-of_All (up_to (newest t.rows)) t.rows
            (All-up_to-newest t.rows (newest t.rows) (omega arith))))
        (Sub_refl t.rows),
  ),
)

reload-IsCoherent :
    (json : Json) (stamp_fault fault : Fault) (clock : ℕ) (t : Applications) (c : Catalog)
    → IsCoherent json (clock, t, c)
    → IsCoherent json (clock, t, (reload_if_needed json stamp_fault fault t c).0)
unfolding reload_if_needed
reload-IsCoherent json (some cause) fault clock t c coherent = coherent
reload-IsCoherent json none fault clock t c coherent =
    by_check (is_current (newest t.rows) (length t.rows) c)
  where
    by_check : (b : Bool) → IsCoherent json (clock, t, (reload_unless json fault t c b).0)
    by_check true = coherent
    by_check false =
        kept-IsCoherent json clock t c
          (call "apps: query applications" fault >> load_apps json t.rows) coherent
          (λ apps e. (bind-eq-ok (call "apps: query applications" fault) _ e).2)

-- From a start with the stamps of its rows not in the future, after any steps, each write at a
-- later time than all before it: no row is newer than the last write, and the catalogue, when
-- something is loaded, is that of some rows of which the table keeps a part, where the stamps allow.
Reach-IsCoherent : (json : Json) {w : World} → Reach json w → IsCoherent json w
Reach-IsCoherent json (starts clock t h) = (h, tt)
Reach-IsCoherent json (steps r (creates {clock} {t} {c} fault now a h)) =
    written-IsCoherent json clock now t (create json fault now a t).0 c h
      (create-Writes json fault now a t) (Reach-IsCoherent json r)
Reach-IsCoherent json (steps r (updates {clock} {t} {c} fault now id a h)) =
    written-IsCoherent json clock now t (update json fault now id a t).0 c h
      (update-Writes json fault now id a t) (Reach-IsCoherent json r)
Reach-IsCoherent json (steps r (deletes {clock} {t} {c} fault now id h)) =
    written-IsCoherent json clock now t (delete fault id t).0 c h (delete-Writes fault now id t)
      (Reach-IsCoherent json r)
Reach-IsCoherent json (steps r (imports {clock} {t} {c} parse faults inserts now path file h)) =
    written-IsCoherent json clock now t
      (import_applications json parse faults inserts now path file t).0 c h
      (import_applications-Writes json parse faults inserts now path file t)
      (Reach-IsCoherent json r)
Reach-IsCoherent json (steps r (reads {clock} {t} {c} stamp_fault fault)) =
    reload-IsCoherent json stamp_fault fault clock t c (Reach-IsCoherent json r)

-- After any steps from the start, each write at a later time than all before it and with whatever
-- failures of the engine, a call for all apps for which the engine does not fail gives exactly what
-- the table's rows decode to, in their sort order, or the decoder's failure on them.
pub list_all-Reach :
    (json : Json) (clock : ℕ) (t : Applications) (c : Catalog)
    → Reach json (clock, t, c)
    → (list_all json none none t c).1 ≡ load_apps json t.rows
unfolding list_all reload_if_needed
list_all-Reach json clock t c r =
    by_check (is_current (newest t.rows) (length t.rows) c)
      (current-load_apps json clock t.rows c.apps c.loaded_at (Reach-IsCoherent json r).1)
  where
    by_load : (l : Result (List App)) → (answered ok (kept c (newest t.rows) l)).1 ≡ l
    by_load (err e) = refl
    by_load (ok apps) = refl

    by_check :
        (b : Bool)
        → (b ≡ true → ok (or_nil c.apps) ≡ load_apps json t.rows)
        → (answered ok (reload_unless json none t c b)).1 ≡ load_apps json t.rows
    by_check true h = h refl
    by_check false h = by_load (load_apps json t.rows)
