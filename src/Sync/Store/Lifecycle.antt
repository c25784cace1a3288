-- ===== src/Sync/Store/Lifecycle.antt =====
-- What becomes of each job in one operation on the table.
use x_ui_subpage.Prelude.{
  In-append, In-left, All₂, commit, ℕ, ◌≤◌, ◌≡◌, refl, ap, sym, subst, ◌∙◌, inl, inr, Bool-cases,
  none, some, List, [], ◌∷◌, ◌++◌, arith, take, eqb_iff, ok, err, Result, Faults, select,
  delete_where, delete_where-In, In-delete_where, In, here, there,
}
use x_ui_subpage.Sync.Store.{
  Job, Jobs, pending, in_progress, has_id, is_due, is_stale, is_prunable, can_retry, enqueue,
  claim_tx, claim_batch, mark_success, mark_retry, mark_failed_terminal, retry, reap_stale, prune,
}
use x_ui_subpage.Sync.Store.Claims.{
  IsStartOf, StartedBy, claim_rows-StartedBy, All₂-after, All₂-before, picked-due,
}
use x_ui_subpage.Sync.Store.Ids.{
  Ascends, IsWellFormed, Step, enqueues, claims, succeeds, requeues, fails, retries, reaps, prunes,
  Reach, Reach-IsWellFormed, andthen, claim_tx-eq-ok,
}
use x_ui_subpage.Sync.Store.Accounts.{SameJob, IsNew, IsAccounted, unchanged, updated}
use x_ui_subpage.Sync.Store.Guards.{
  has_id-false, can_retry-false, is_stale-false, is_prunable-false, is_success_iff, is_failed_iff,
  is_in_progress_iff,
}

-- A job that was started was pending and due.
started :
    (limit : ℕ) (rows : List Job) (now : ℕ) (hi : ℕ) (d j k : Job)
    → Ascends 1 hi rows
    → In d (take limit (select (is_due now) rows))
    → In j rows
    → d.id ≡ j.id
    → IsStartOf j k
    → SameJob j k
      × ((j.status ≡ pending)
          × (j.next_attempt_at ≤ now)
          × (k.status ≡ in_progress)
          × (k.attempts ≡ j.attempts)
          × (k.last_error ≡ j.last_error)
          × (k.next_attempt_at ≡ j.next_attempt_at))
started limit rows now hi d j k h picked m at
      (id, user, inbound, op, payload, made, status, tries, said, next) =
    let (waits, due) = picked-due now limit 1 hi rows d j h picked m at in
    ((id, user, inbound, op, payload, made), (waits, due, status, tries, said, next))

-- A claim, or nothing where it fails.
claim_batch-Accounts :
    (faults : Faults) (clock : ℕ → ℕ) (limit : ℕ) (t u : Jobs)
    → IsWellFormed t
    → (e : (claim_batch faults clock limit t).0 ≡ u) → IsAccounted (claims faults clock limit e)
unfolding claim_batch
claim_batch-Accounts faults clock limit t u h e = by_outcome (claim_tx faults clock limit t) refl
  where
    by_outcome :
        (r : Result (Jobs × List Job))
        → claim_tx faults clock limit t ≡ r
        → IsAccounted (claims faults clock limit e)
    by_outcome (err x) q = (
      unchanged _ _ _ _ t.rows u.rows
          (ap (λ (y : Jobs). y.rows)
            (sym (ap (λ (r : Result (Jobs × List Job)). (commit t r).0) q) ∙ e))
          (λ j. tt),
      tt,
    )
    by_outcome (ok (t', jobs)) q =
        let due = take limit (select (is_due (clock 0)) t.rows) in
        let (claimed, _) = claim_tx-eq-ok faults clock limit t q in
        let same : t'.rows ≡ u.rows =
          ap (λ (y : Jobs). y.rows)
            (sym (ap (λ (r : Result (Jobs × List Job)). (commit t r).0) q) ∙ e) in
        let pairs =
          subst (All₂ (StartedBy due) t.rows) same
            (claim_rows-StartedBy faults clock 3 due t.rows claimed) in
        (
          (
            (λ j m.
                let (k, n, what) = All₂-after (StartedBy due) t.rows u.rows j pairs m in
                elim what [
                  | inl stays ↦ inl (subst (λ x. In x u.rows) stays n, tt)
                  | inr (d, picked, at, start) ↦
                      let (is, law) =
                        started limit t.rows (clock 0) t.next_id d j k h picked m at start in
                      inr (inl (k, n, is, law))
                ]),
            λ k n.
                let (j, m, what) = All₂-before (StartedBy due) t.rows u.rows k pairs n in
                elim what [
                  | inl stays ↦ inl (subst (λ x. In x t.rows) (sym stays) m)
                  | inr (d, picked, at, start) ↦
                      let (is, law) =
                        started limit t.rows (clock 0) t.next_id d j k h picked m at start in
                      inr (inl (j, m, is, law))
                ],
          ),
          tt,
        )

In-last : (j : Job) (rows : List Job) → In j (rows ++ j ∷ [])
In-last j [] = here refl
In-last j (r ∷ rows) = there (In-last j rows)

same_job : (j : Job) → SameJob j j
same_job j = (refl, refl, refl, refl, refl, refl)

Step-IsAccounted : {t u : Jobs} → IsWellFormed t → (s : Step t u) → IsAccounted s
unfolding enqueue mark_success mark_retry mark_failed_terminal retry reap_stale prune delete_where
Step-IsAccounted {t} {u} h (enqueues none now user inbound op payload e) =
    let added : Job = record {
      id = t.next_id;
      user_id = user;
      inbound_id = inbound;
      op = op;
      status = pending;
      attempts = 0;
      last_error = "";
      next_attempt_at = now;
      payload = payload;
      created_at = now;
      updated_at = now;
    } in
    let same : t.rows ++ added ∷ [] ≡ u.rows = ap (λ (x : Jobs). x.rows) e in
    (
      (
        (λ j m. inl (subst (In j) same (In-left j t.rows (added ∷ []) m), tt)),
        λ k m. elim (In-append k t.rows (added ∷ []) (subst (In k) (sym same) m)) [
          | inl old ↦ inl old
          | inr (here new) ↦ inr (
              inr (
                subst (IsNew t.next_id now user inbound op payload) (sym new)
                  (refl, refl, refl, refl, refl, refl, refl, refl, refl, refl, refl)))
          | inr (there m) ↦ elim m [ ]
        ],
      ),
      (
        added,
        subst (In added) same (In-last added t.rows),
        (refl, refl, refl, refl, refl, refl, refl, refl, refl, refl, refl),
      ),
    )
Step-IsAccounted {t} {u} h (enqueues (some c) now user inbound op payload e) =
    (unchanged _ _ _ _ t.rows u.rows (ap (λ (x : Jobs). x.rows) e) (λ j. tt), tt)
Step-IsAccounted {t} {u} h (claims faults clock limit e) =
    claim_batch-Accounts faults clock limit t u h e
Step-IsAccounted {t} {u} h (succeeds none now id e) = (
  updated (has_id id) _ _ _ _ _ t.rows u.rows (ap (λ (x : Jobs). x.rows) e)
      (λ j hit. (same_job j, ((eqb_iff j.id id).0 hit, (refl, refl, refl, refl, refl))))
      (has_id-false id),
  tt,
)
Step-IsAccounted {t} {u} h (succeeds (some c) now id e) =
    (unchanged _ _ _ _ t.rows u.rows (ap (λ (x : Jobs). x.rows) e) (λ j. tt), tt)
Step-IsAccounted {t} {u} h (requeues none now id attempts last next e) = (
  updated (has_id id) _ _ _ _ _ t.rows u.rows (ap (λ (x : Jobs). x.rows) e)
      (λ j hit. (same_job j, ((eqb_iff j.id id).0 hit, (refl, refl, refl, refl, refl))))
      (has_id-false id),
  tt,
)
Step-IsAccounted {t} {u} h (requeues (some c) now id attempts last next e) =
    (unchanged _ _ _ _ t.rows u.rows (ap (λ (x : Jobs). x.rows) e) (λ j. tt), tt)
Step-IsAccounted {t} {u} h (fails none now id attempts last e) = (
  updated (has_id id) _ _ _ _ _ t.rows u.rows (ap (λ (x : Jobs). x.rows) e)
      (λ j hit. (same_job j, ((eqb_iff j.id id).0 hit, (refl, refl, refl, refl, refl))))
      (has_id-false id),
  tt,
)
Step-IsAccounted {t} {u} h (fails (some c) now id attempts last e) =
    (unchanged _ _ _ _ t.rows u.rows (ap (λ (x : Jobs). x.rows) e) (λ j. tt), tt)
Step-IsAccounted {t} {u} h (retries none now id e) = (
  updated (can_retry id) _ _ _ _ _ t.rows u.rows (ap (λ (x : Jobs). x.rows) e)
      (λ j hit. (
        same_job j,
        (
          (eqb_iff j.id id).0 (ground (arith, hit)),
          (is_failed_iff j.status).0 (ground (arith, hit)),
          (refl, refl, refl, refl, refl),
        ),
      ))
      (can_retry-false id),
  tt,
)
Step-IsAccounted {t} {u} h (retries (some c) now id e) =
    (unchanged _ _ _ _ t.rows u.rows (ap (λ (x : Jobs). x.rows) e) (λ j. tt), tt)
Step-IsAccounted {t} {u} h (reaps none now cutoff e) = (
  updated (is_stale cutoff) _ _ _ _ _ t.rows u.rows (ap (λ (x : Jobs). x.rows) e)
      (λ j hit. (
        same_job j,
        (
          (is_in_progress_iff j.status).0 (ground (arith, hit)),
          ground (arith, hit),
          (refl, refl, refl, refl, refl),
        ),
      ))
      (is_stale-false cutoff),
  tt,
)
Step-IsAccounted {t} {u} h (reaps (some c) now cutoff e) =
    (unchanged _ _ _ _ t.rows u.rows (ap (λ (x : Jobs). x.rows) e) (λ j. tt), tt)
Step-IsAccounted {t} {u} h (prunes none cutoff e) =
    let same : delete_where (is_prunable cutoff) t.rows ≡ u.rows = ap (λ (x : Jobs). x.rows) e in
    (
      (
        (λ j m. elim (Bool-cases (is_prunable cutoff j)) [
          | inl old ↦
              inr (inr ((is_success_iff j.status).0 (ground (arith, old)), ground (arith, old)))
          | inr keep ↦ inl (
            subst (In j) same (In-delete_where (is_prunable cutoff) j t.rows m keep),
            is_prunable-false cutoff j keep,
          )
        ]),
        λ k m. inl (delete_where-In (is_prunable cutoff) k t.rows (subst (In k) (sym same) m)).0,
      ),
      tt,
    )
Step-IsAccounted {t} {u} h (prunes (some c) cutoff e) =
    (unchanged _ _ _ _ t.rows u.rows (ap (λ (x : Jobs). x.rows) e) (λ j. tt), tt)

-- In every state that operations lead to, whatever their arguments and the engine's failures: the
-- ids ascend, so that no two rows share one, and stay below the next id; and one more operation
-- accounts for every job. It changes only jobs that it is about, from the statuses that it is for,
-- and not what the job asks for: a claim starts pending jobs whose time has come, a manual retry
-- requeues a failed job at once, reaping a job that was in progress since before the cutoff, and
-- the three marks write to the job with the id how it ended, after how many attempts and with which
-- error. Only pruning removes a job, and only an old success; only enqueueing adds one, pending and
-- without attempts. Where the engine does not fail, no operation but a claim spares a job that it is
-- about, and enqueueing does add the job.
pub Reach-IsAccounted :
    {t u v : Jobs} → IsWellFormed t → Reach t u → (s : Step u v) → IsWellFormed v × IsAccounted s
Reach-IsAccounted h r s =
    (Reach-IsWellFormed h (andthen r s), Step-IsAccounted (Reach-IsWellFormed h r) s)
