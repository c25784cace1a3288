-- ===== src/Sync/Store/Recovery.antt =====
-- How stuck and failed jobs get back into the queue, and what the audit log loses.
use x_ui_subpage.Prelude.{
  ℕ, ◌≤◌, ◌≡◌, refl, ap, true, false, none, some, not, arith, ◌⊎◌, ◌↔◌, inl, inr, eqb, eqb_iff, All,
  All₂, Bool-cases, not_found, ok, select, update_where, affected, update_where-All₂,
  update_where-All, update_where_of_unaffected, affected-eq-zero_iff, delete_where-All,
  select-delete_where,
}
use x_ui_subpage.Sync.Store.{
  Jobs, pending, is_success, is_due, is_stale, is_prunable, can_retry, retry, reap_stale, prune,
}

-- When the engine does not fail, a manual retry succeeds exactly when a failed job has the id, and
-- else reports "not found" and changes nothing. A retried job is due at every time, and keeps its attempts; other rows stay.
pub retry_lem :
    (now id : ℕ) (t : Jobs)
    → (((retry none now id t).1 ≡ some not_found) ↔ All (λ j. can_retry id j ≡ false) t.rows)
      × ((retry none now id t).1 ≡ some not_found → (retry none now id t).0 ≡ t)
      × All₂
          (λ j j'.
            ((can_retry id j ≡ true)
              × ((later : ℕ) → is_due later j' ≡ true)
              × (j'.attempts ≡ j.attempts))
            ⊎ ((can_retry id j ≡ false) × (j' ≡ j)))
          t.rows
          (retry none now id t).0.rows
unfolding retry
retry_lem now id t = (
  ground (arith, affected-eq-zero_iff (can_retry id) t.rows),
  (λ e. unchanged (elim (Bool-cases (eqb (affected (can_retry id) t.rows) 0)) [
    | inl z ↦ (eqb_iff _ 0).0 z
    | inr s ↦ cc (rw s at e)
  ])),
  update_where-All₂ _ (can_retry id) _ (λ j e. inl (e, (λ later. ground arith), refl))
      (λ j e. inr (e, refl)) t.rows,
)
  where
    unchanged :
        affected (can_retry id) t.rows ≡ 0
        → ◌≡◌ {A = Jobs}
            (record t {
              rows =
                  update_where
                    (can_retry id)
                    (λ j. record j { status = pending; next_attempt_at = 0; updated_at = now })
                    t.rows;
            })
            t
    unchanged z =
        ap (λ rows. record t { rows = rows }) (update_where_of_unaffected (can_retry id) _ t.rows z)

-- When the engine does not fail, reaping with a cutoff that is not in the future leaves no job in
-- progress from before the cutoff.
-- The reclaimed jobs are due at once, every other row stays, and the count is that of the rows
-- that were stale.
pub reap_stale_lem :
    (now cutoff : ℕ) (t : Jobs)
    → cutoff ≤ now
    → All (λ j. is_stale cutoff j ≡ false) (reap_stale none now cutoff t).0.rows
      × All₂
          (λ j j'.
            ((is_stale cutoff j ≡ true) × (is_due now j' ≡ true))
            ⊎ ((is_stale cutoff j ≡ false) × (j' ≡ j)))
          t.rows
          (reap_stale none now cutoff t).0.rows
      × ((reap_stale none now cutoff t).1 ≡ ok (affected (is_stale cutoff) t.rows))
unfolding reap_stale
reap_stale_lem now cutoff t h = (
  update_where-All (λ j. is_stale cutoff j ≡ false) (is_stale cutoff) _ (λ j e. refl) (λ j e. e)
      t.rows,
  update_where-All₂ _ (is_stale cutoff) _ (λ j e. inl (e, ground arith)) (λ j e. inr (e, refl))
      t.rows,
  refl,
)

-- When the engine does not fail, pruning keeps, in order, every job that has not succeeded and every
-- success from the cutoff on, and leaves no older success.
pub prune_lem :
    (cutoff : ℕ) (t : Jobs)
    → All (λ j. is_prunable cutoff j ≡ false) (prune none cutoff t).0.rows
      × (select (λ j. not (is_success j.status)) (prune none cutoff t).0.rows
          ≡ select (λ j. not (is_success j.status)) t.rows)
      × (select (λ j. not (is_prunable cutoff j)) (prune none cutoff t).0.rows
          ≡ select (λ j. not (is_prunable cutoff j)) t.rows)
unfolding prune
prune_lem cutoff t = (
  delete_where-All (is_prunable cutoff) t.rows,
  select-delete_where (is_prunable cutoff) (λ j. not (is_success j.status)) (λ j e. ground arith)
      t.rows,
  select-delete_where (is_prunable cutoff) (λ j. not (is_prunable cutoff j)) (λ j e. ground arith)
      t.rows,
)
