-- ===== src/Sync/Worker/Process.antt =====
-- What one processed job becomes, and how long a failed one waits.
use x_ui_subpage.Prelude.{
  ℕ, ◌+◌, ◌*◌, ◌^◌, ◌≤◌, ◌<◌, ◌≡◌, refl, ap, sym, false, none, some, List, arith, Option, Error,
  message, ◌⊎◌, inl, inr, eqb_iff, All₂, update_where, update_where-All₂, Bool-cases, leb, ltb, ◌%◌,
  ◌&&◌, if◌then◌else◌, ◌≢◌,
}
use x_ui_subpage.Sync.Store.{
  Job, pending, success, failed, has_id, is_due, mark_success, mark_retry, mark_failed_terminal,
}
use x_ui_subpage.Sync.Worker.{
  Writer, World, Reads, second, max_backoff, backoff, next_attempt, dispatch, settle, process,
}

square-le : (a b : ℕ) → a ≤ b → a * a ≤ b * b
square-le a b h = grind arith

square_below : (a : ℕ) → a ≤ 7 → a * a ≤ 49
square_below a h = square-le a 7 h

square_above : (a : ℕ) → 8 ≤ a → 64 ≤ a * a
square_above a h = square-le 8 a h

cap : ℕ → ℕ
cap s =
    let product = s * second % 2 ^ 64 in
    if ltb max_backoff product && ltb product (2 ^ 63) then max_backoff else product

cap_bounds :
    (s : ℕ)
    → 1 ≤ s
    → s ≤ 9216000000
    → (s ≤ 49 → cap s ≡ s * second)
      × (64 ≤ s → cap s ≡ max_backoff)
      × (second ≤ cap s)
      × (cap s ≤ max_backoff)
unfolding cap
cap_bounds s low high =
    let small : s * second % 2 ^ 64 ≡ s * second = omega arith in
    rw small ((λ h. ground arith), (λ h. ground arith), ground arith, ground arith)

-- For up to 96000 attempts the wait after `a` failures is a² seconds for the first seven failures
-- and one minute from the eighth on; it is never under a second or over a minute.
pub backoff_lem :
    (a : ℕ)
    → 1 ≤ a
    → a ≤ 96000
    → (a ≤ 7 → backoff a ≡ a * a * second)
      × (8 ≤ a → backoff a ≡ max_backoff)
      × (second ≤ backoff a)
      × (backoff a ≤ max_backoff)
unfolding backoff cap
backoff_lem a low high =
    let (exact, capped, least, most) =
      cap_bounds (a * a) (square-le 1 a low) (square-le a 96000 high) in
    ((λ h. exact (square_below a h)), (λ h. capped (square_above a h)), least, most)

-- What a processed job's row becomes: a success, a final failure once the attempts are used up, or
-- a pending job that is not due before its wait is over.
abbrev pub Settles : ℕ → Reads → Option Error → Job → Job → Type 0
Settles max_attempts r none j j' = (j'.status ≡ success) × (j'.attempts ≡ j.attempts)
Settles max_attempts r (some e) j j' =
    (j'.attempts ≡ j.attempts + 1)
    × (j'.last_error ≡ message e)
    × (((max_attempts ≤ j.attempts + 1) × (j'.status ≡ failed))
        ⊎ ((j.attempts + 1 < max_attempts)
            × (j'.status ≡ pending)
            × ((t : ℕ) → t < r.now + backoff (j.attempts + 1) → is_due t j' ≡ false)))

-- `j` is the claimed copy of the row.
abbrev pub SettledRow : ℕ → Reads → Option Error → Job → Job → Job → Type 0
SettledRow max_attempts r error j row row' =
    ((row.id ≡ j.id) × (row.attempts ≡ j.attempts → Settles max_attempts r error row row'))
    ⊎ ((row.id ≢ j.id) × (row' ≡ row))

SettledRow-update :
    (max_attempts : ℕ) (r : Reads) (error : Option Error) (j : Job) (f : Job → Job)
    → ((row : Job) → row.attempts ≡ j.attempts → Settles max_attempts r error row (f row))
    → (rows : List Job)
    → All₂ (SettledRow max_attempts r error j) rows (update_where (has_id j.id) f rows)
SettledRow-update max_attempts r error j f settles rows =
    update_where-All₂ (SettledRow max_attempts r error j) (has_id j.id) f
      (λ row e. inl ((eqb_iff row.id j.id).0 e, settles row))
      (λ row e. inr ((λ same. cc (e, (eqb_iff row.id j.id).1 same)), refl)) rows

not_due_before :
    (now wait t : ℕ) → now + wait < 2 ^ 64 → t < now + wait → leb (next_attempt now wait) t ≡ false
unfolding next_attempt
not_due_before now wait t small early = ground arith

module _ {P C : Type 0} (w : Writer P) (max_attempts : ℕ) (invalidate : Option (C → C)) where
  settle_rows :
      (r : Reads) (j : Job) (s : World P C) (p : P) (error : Option Error)
      → r.fault ≡ none
      → r.now + backoff (j.attempts + 1) < 2 ^ 64
      → All₂
          (SettledRow max_attempts r error j)
          s.jobs.rows
          (settle w max_attempts invalidate r j s (p, error)).jobs.rows
  unfolding settle mark_success mark_retry mark_failed_terminal
  settle_rows r j s p none quiet small =
      simp quiet (SettledRow-update max_attempts r none j _ (λ row e. (refl, refl)) s.jobs.rows)
  settle_rows r j s p (some e) quiet small = elim (Bool-cases (leb max_attempts (j.attempts + 1))) [
    | inl spent ↦ rw spent (
        simp quiet (
          SettledRow-update max_attempts r (some e) j _
            (λ row same. (ap (λ n. n + 1) (sym same), refl, inl (ground arith, refl))) s.jobs.rows))
    | inr left ↦ rw left (
        simp quiet (
          SettledRow-update max_attempts r (some e) j _
            (λ row same. (
              ap (λ n. n + 1) (sym same),
              refl,
              inr (
                ground arith,
                refl,
                (λ t early.
                    not_due_before r.now (backoff (j.attempts + 1)) t small (rw (← same) early)),
              ),
            ))
            s.jobs.rows))
  ]

  -- When its UPDATE does not fail, processing a claimed job marks its row a success if the dispatch
  -- reported no error. Else it counts the attempt and keeps the error's text: with the attempts
  -- used up the row is failed for good, and otherwise pending and not due before the wait is over.
  -- Every other row stays, in its place.
  pub process_rows :
      (r : Reads) (j : Job) (s : World P C)
      → r.fault ≡ none
      → r.now + backoff (j.attempts + 1) < 2 ^ 64
      → All₂
          (SettledRow max_attempts r (dispatch w j s.panel).1 j)
          s.jobs.rows
          (process w max_attempts invalidate r j s).jobs.rows
  unfolding process
  process_rows r j s = settle_rows r j s (dispatch w j s.panel).0 (dispatch w j s.panel).1
