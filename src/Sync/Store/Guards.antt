-- ===== src/Sync/Store/Guards.antt =====
-- What the WHERE clauses of the statements on the table say of a job.
use x_ui_subpage.Prelude.{
  ltb, ℕ, ◌≤◌, ◌≡◌, ◌≢◌, refl, inl, inr, ◌⊎◌, Bool, true, false, ◌&&◌, arith, eqb_iff,
}
use x_ui_subpage.Sync.Store.{
  Job, Status, pending, in_progress, success, failed, has_id, is_stale, is_prunable, can_retry,
  is_in_progress, is_success, is_failed,
}

and_false : (a b : Bool) → a && b ≡ false → (a ≡ false) ⊎ (b ≡ false)
and_false true b e = inr e
and_false false b e = inl refl

pub is_success_iff :
    (s : Status) → (is_success s ≡ true → s ≡ success) × (is_success s ≡ false → s ≢ success)
is_success_iff success = ((λ _. refl), λ e. cc)
is_success_iff pending = ((λ e. cc), λ _ q. cc)
is_success_iff in_progress = ((λ e. cc), λ _ q. cc)
is_success_iff failed = ((λ e. cc), λ _ q. cc)

pub is_failed_iff :
    (s : Status) → (is_failed s ≡ true → s ≡ failed) × (is_failed s ≡ false → s ≢ failed)
is_failed_iff failed = ((λ _. refl), λ e. cc)
is_failed_iff pending = ((λ e. cc), λ _ q. cc)
is_failed_iff in_progress = ((λ e. cc), λ _ q. cc)
is_failed_iff success = ((λ e. cc), λ _ q. cc)

pub is_in_progress_iff :
    (s : Status)
    → (is_in_progress s ≡ true → s ≡ in_progress) × (is_in_progress s ≡ false → s ≢ in_progress)
is_in_progress_iff in_progress = ((λ _. refl), λ e. cc)
is_in_progress_iff pending = ((λ e. cc), λ _ q. cc)
is_in_progress_iff failed = ((λ e. cc), λ _ q. cc)
is_in_progress_iff success = ((λ e. cc), λ _ q. cc)

pub has_id-false : (id : ℕ) (j : Job) → has_id id j ≡ false → j.id ≢ id
has_id-false id j e same = ground (arith, e, same, eqb_iff j.id id)

pub can_retry-false :
    (id : ℕ) (j : Job) → can_retry id j ≡ false → (j.id ≢ id) ⊎ (j.status ≢ failed)
can_retry-false id j e = elim (and_false (has_id id j) (is_failed j.status) e) [
  | inl other ↦ inl (has_id-false id j other)
  | inr sound ↦ inr ((is_failed_iff j.status).1 sound)
]

pub is_stale-false :
    (cutoff : ℕ) (j : Job)
    → is_stale cutoff j ≡ false
    → (j.status ≢ in_progress) ⊎ (cutoff ≤ j.updated_at)
is_stale-false cutoff j e = elim (and_false (is_in_progress j.status) (ltb j.updated_at cutoff) e) [
  | inl other ↦ inl ((is_in_progress_iff j.status).1 other)
  | inr late ↦ inr (ground (arith, late))
]

pub is_prunable-false :
    (cutoff : ℕ) (j : Job)
    → is_prunable cutoff j ≡ false
    → (j.status ≢ success) ⊎ (cutoff ≤ j.updated_at)
is_prunable-false cutoff j e = elim (and_false (is_success j.status) (ltb j.updated_at cutoff) e) [
  | inl other ↦ inl ((is_success_iff j.status).1 other)
  | inr late ↦ inr (ground (arith, late))
]
