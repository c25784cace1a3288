-- ===== src/Sync/Store/Claim.antt =====
-- What `claim_batch` hands out: never a job twice, never more than the limit, the oldest due ones.
use x_ui_subpage.Prelude.{
  ℕ, suc, ◌≤◌, ◌≡◌, ◌≢◌, refl, ap, sym, subst, ◌∙◌, none, List, [], ◌∷◌, map, arith, eqb, take,
  length, length-take-le, All, Error, ok, err, Faults, commit-eq-ok, select, update_where, eqb_iff,
  All-map, All-imp, All-take, Bool-cases, inl, inr, commit-eq-err,
}
use x_ui_subpage.Sync.Store.{
  Job, Jobs, in_progress, has_id, is_due, start_row, start_copy, claim_rows, claim_tx, claim_batch,
}
use x_ui_subpage.Sync.Store.Ids.{claim_rows_inv, claim_rows-nil, claim_rows-cons, claim_tx-eq-ok}

-- Every row with the id is in progress.
abbrev pub IsStarted : ℕ → List Job → Type 0
IsStarted id = All (λ r. r.id ≡ id → r.status ≡ in_progress)

IsStarted-update :
    (id k n : ℕ) (rows : List Job)
    → IsStarted id rows
    → IsStarted id (update_where (has_id k) (start_row n) rows)
unfolding update_where
IsStarted-update id k n [] h = tt
IsStarted-update id k n (r ∷ rows) (p, h) = (λ e. ground (arith, p), IsStarted-update id k n rows h)

update-IsStarted :
    (k n : ℕ) (rows : List Job) → IsStarted k (update_where (has_id k) (start_row n) rows)
unfolding update_where
update-IsStarted k n [] = tt
update-IsStarted k n (r ∷ rows) = (λ e. ground arith, update-IsStarted k n rows)

claim_rows-IsStarted :
    (faults : Faults) (clock : ℕ → ℕ) (i : ℕ) (jobs rows : List Job) {done : List Job × List Job}
    → claim_rows faults clock i jobs rows ≡ ok done
    → All (λ j. IsStarted j.id done.0) jobs
claim_rows-IsStarted faults clock i [] rows e = tt
claim_rows-IsStarted faults clock i (j ∷ jobs) rows e =
    let (rest, later, _) = claim_rows-cons faults clock i j jobs rows e in
    (
      claim_rows_inv (IsStarted j.id) (IsStarted-update j.id) faults clock (suc i) jobs _ later
          (update-IsStarted j.id (clock i) rows),
      claim_rows-IsStarted faults clock (suc i) jobs _ later,
    )

claim_rows-copies :
    (faults : Faults) (clock : ℕ → ℕ) (i : ℕ) (jobs rows : List Job) {done : List Job × List Job}
    → claim_rows faults clock i jobs rows ≡ ok done
    → done.1 ≡ map start_copy jobs
claim_rows-copies faults clock i [] rows e = sym (claim_rows-nil faults clock i rows e).1
claim_rows-copies faults clock i (j ∷ jobs) rows e =
    let (rest, later, same) = claim_rows-cons faults clock i j jobs rows e in
    same ∙ ap (λ js. start_copy j ∷ js) (claim_rows-copies faults clock (suc i) jobs _ later)

-- When the engine does not fail, the loop ends well.
claim_rows_total :
    (faults : Faults) (clock : ℕ → ℕ) (i : ℕ) (jobs rows : List Job)
    → ((k : ℕ) → faults k ≡ none)
    → (done : List Job × List Job) × (claim_rows faults clock i jobs rows ≡ ok done)
unfolding claim_rows
claim_rows_total faults clock i [] rows h = ((rows, []), refl)
claim_rows_total faults clock i (j ∷ jobs) rows h =
    let (done, e) =
      claim_rows_total faults clock (suc i) jobs
        (update_where (has_id j.id) (start_row (clock i)) rows) h in
    ((done.0, start_copy j ∷ done.1), rw (h i, e))

select-IsStarted :
    (id now : ℕ) (rows : List Job)
    → IsStarted id rows
    → All (λ k. id ≢ k.id) (select (is_due now) rows)
unfolding select
select-IsStarted id now [] h = tt
select-IsStarted id now (r ∷ rows) (p, h) = elim (Bool-cases (is_due now r)) [
  | inl due ↦ rw due ((λ e. ground (arith, p (sym e))), select-IsStarted id now rows h)
  | inr idle ↦ rw idle (select-IsStarted id now rows h)
]

-- Two claims in a row never hand out the same job.
pub claim_batch_exclusive :
    (faults faults' : Faults) (clock clock' : ℕ → ℕ) (limit limit' : ℕ) (t t' t'' : Jobs)
    (jobs jobs' : List Job)
    → claim_batch faults clock limit t ≡ (t', ok jobs)
    → claim_batch faults' clock' limit' t' ≡ (t'', ok jobs')
    → All (λ j. All (λ k. j.id ≢ k.id) jobs') jobs
unfolding claim_batch
claim_batch_exclusive faults faults' clock clock' limit limit' t t' t'' jobs jobs' e e' =
    let (claimed, _) = claim_tx-eq-ok faults clock limit t (commit-eq-ok t _ e) in
    let (claimed', _) = claim_tx-eq-ok faults' clock' limit' t' (commit-eq-ok t' _ e') in
    let due = select (is_due (clock 0)) t.rows in
    let due' = select (is_due (clock' 0)) t'.rows in
    rw
      (
        claim_rows-copies faults clock 3 (take limit due) t.rows claimed,
        claim_rows-copies faults' clock' 3 (take limit' due') t'.rows claimed',
      )
      (All-map (λ j. All (λ k. j.id ≢ k.id) (map start_copy (take limit' due'))) start_copy
        (take limit due)
        (All-imp
          (λ j started.
            All-map (λ k. j.id ≢ k.id) start_copy (take limit' due')
              (All-take (λ k. j.id ≢ k.id) limit' due'
                (select-IsStarted j.id (clock' 0) t'.rows started)))
          (take limit due) (claim_rows-IsStarted faults clock 3 (take limit due) t.rows claimed)))

-- Row by row: the ids stand, and what the jobs do not name is as it was.
abbrev pub SameElse : List Job → List Job → List Job → Type 0
SameElse jobs [] [] = Unit
SameElse jobs (r ∷ rows) (r' ∷ rows') =
    (r'.id ≡ r.id) × (All (λ j. r.id ≢ j.id) jobs → r' ≡ r) × SameElse jobs rows rows'
SameElse jobs _ _ = ⊥

SameElse-refl : (rows : List Job) → SameElse [] rows rows
SameElse-refl [] = tt
SameElse-refl (r ∷ rows) = (refl, (λ _. refl), SameElse-refl rows)

SameElse-update :
    (j : Job) (jobs : List Job) (n : ℕ) (rows rows' : List Job)
    → SameElse jobs (update_where (has_id j.id) (start_row n) rows) rows'
    → SameElse (j ∷ jobs) rows rows'
unfolding update_where
SameElse-update j jobs n [] [] h = tt
SameElse-update j jobs n [] (r' ∷ rows') h = h
SameElse-update j jobs n (r ∷ rows) [] h = h
SameElse-update j jobs n (r ∷ rows) (r' ∷ rows') (q, p, h) =
    (ground arith, same, SameElse-update j jobs n rows rows' h)
  where
    same : All (λ k. r.id ≢ k.id) (j ∷ jobs) → r' ≡ r
    same (ne, others) = elim (Bool-cases (eqb r.id j.id)) [
      | inl hit ↦ absurd (ne ((eqb_iff r.id j.id).0 hit))
      | inr miss ↦ rw miss at p others
    ]

claim_rows-SameElse :
    (faults : Faults) (clock : ℕ → ℕ) (i : ℕ) (jobs rows : List Job) {done : List Job × List Job}
    → claim_rows faults clock i jobs rows ≡ ok done
    → SameElse jobs rows done.0
claim_rows-SameElse faults clock i [] rows e =
    subst (SameElse [] rows) (claim_rows-nil faults clock i rows e).0 (SameElse-refl rows)
claim_rows-SameElse faults clock i (j ∷ jobs) rows e =
    let (rest, later, _) = claim_rows-cons faults clock i j jobs rows e in
    SameElse-update j jobs (clock i) rows _ (claim_rows-SameElse faults clock (suc i) jobs _ later)

-- When the engine does not fail, a claim succeeds: it hands out the due pending jobs with the
-- lowest ids, at most `limit` of them, marked in progress; every row that shares no id with them
-- stays as it was, in its place.
pub claim_batch_total :
    (faults : Faults) (clock : ℕ → ℕ) (limit : ℕ) (t : Jobs)
    → ((k : ℕ) → faults k ≡ none)
    → (t' : Jobs) × (claim_batch faults clock limit t
        ≡ (t', ok (map start_copy (take limit (select (is_due (clock 0)) t.rows)))))
      × (length (take limit (select (is_due (clock 0)) t.rows)) ≤ limit)
      × All (λ j. IsStarted j.id t'.rows) (take limit (select (is_due (clock 0)) t.rows))
      × SameElse (take limit (select (is_due (clock 0)) t.rows)) t.rows t'.rows
unfolding claim_batch
claim_batch_total faults clock limit t h =
    let due = take limit (select (is_due (clock 0)) t.rows) in
    let (done, e) = claim_rows_total faults clock 3 due t.rows h in
    (
      record t { rows = done.0 },
      rw (h 0, h 1, e, h 2, claim_rows-copies faults clock 3 due t.rows e) refl,
      length-take-le limit _,
      claim_rows-IsStarted faults clock 3 due t.rows e,
      claim_rows-SameElse faults clock 3 due t.rows e,
    )

-- A claim that fails, at whichever call of the engine, leaves the table as it was.
pub claim_batch_atomic :
    (faults : Faults) (clock : ℕ → ℕ) (limit : ℕ) (t : Jobs) (e : Error)
    → (claim_batch faults clock limit t).1 ≡ err e
    → (claim_batch faults clock limit t).0 ≡ t
unfolding claim_batch
claim_batch_atomic faults clock limit t e h = commit-eq-err t (claim_tx faults clock limit t) h
