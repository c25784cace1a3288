-- ===== src/Sync/Store/Ids.antt =====
-- The ids of the rows, over every sequence of operations on the table.
use x_ui_subpage.Prelude.{
  ℕ, suc, ◌≤◌, String, ◌≡◌, refl, Bool, none, some, List, [], ◌∷◌, ◌++◌, arith, take, ok, Fault,
  Faults, call, commit_inv, bind-eq-ok, ok-injective, ap, sym, ◌∙◌, subst, select, update_where,
  delete_where,
}
use x_ui_subpage.Sync.Store.{
  Op, Payload, Job, Jobs, has_id, is_due, start_row, start_copy, enqueue, claim_rows, claim_tx,
  claim_batch, mark_success, mark_retry, mark_failed_terminal, retry, reap_stale, prune,
}

-- The ids ascend strictly, from `lo` on and below `hi`.
abbrev pub Ascends : ℕ → ℕ → List Job → Type 0
Ascends lo hi [] = lo ≤ hi
Ascends lo hi (j ∷ js) = (lo ≤ j.id) × Ascends (suc j.id) hi js

-- Every id is new at its insertion, and no two rows share one.
abbrev pub IsWellFormed : Jobs → Type 0
IsWellFormed t = Ascends 1 t.next_id t.rows

abbrev KeepsId : (Job → Job) → Type 0
KeepsId f = (j : Job) → (f j).id ≡ j.id

Ascends-update :
    (p : Job → Bool) (f : Job → Job)
    → KeepsId f
    → (lo hi : ℕ) (js : List Job) → Ascends lo hi js
    → Ascends lo hi (update_where p f js)
unfolding update_where
Ascends-update p f keep lo hi [] h = h
Ascends-update p f keep lo hi (j ∷ js) (q, h) =
    ground (arith, keep j, Ascends-update p f keep (suc j.id) hi js h)

Ascends-weaken : (lo lo' hi : ℕ) (js : List Job) → lo ≤ lo' → Ascends lo' hi js → Ascends lo hi js
Ascends-weaken lo lo' hi [] p h = omega arith
Ascends-weaken lo lo' hi (j ∷ js) p h = (omega arith, h.1)

Ascends-delete :
    (p : Job → Bool) (lo hi : ℕ) (js : List Job)
    → Ascends lo hi js
    → Ascends lo hi (delete_where p js)
unfolding delete_where
Ascends-delete p lo hi [] h = h
Ascends-delete p lo hi (j ∷ js) (q, h) = ground (
  arith,
  Ascends-delete p (suc j.id) hi js h,
  Ascends-weaken lo (suc j.id) hi (delete_where p js),
)

Ascends-append :
    (lo hi : ℕ) (js : List Job) (j : Job)
    → Ascends lo hi js
    → j.id ≡ hi
    → Ascends lo (suc hi) (js ++ j ∷ [])
Ascends-append lo hi [] j h e = (omega arith, omega arith)
Ascends-append lo hi (k ∷ js) j (q, h) e = (q, Ascends-append (suc k.id) hi js j h e)

pub claim_rows-nil :
    (faults : Faults) (clock : ℕ → ℕ) (i : ℕ) (rows : List Job) {done : List Job × List Job}
    → claim_rows faults clock i [] rows ≡ ok done
    → (rows ≡ done.0) × ([] ≡ done.1)
unfolding claim_rows
claim_rows-nil faults clock i rows e =
    (ap (λ d. d.0) (ok-injective e), ap (λ d. d.1) (ok-injective e))

pub claim_rows-cons :
    (faults : Faults) (clock : ℕ → ℕ) (i : ℕ) (j : Job) (jobs rows : List Job)
    {done : List Job × List Job}
    → claim_rows faults clock i (j ∷ jobs) rows ≡ ok done
    → (rest : List Job) × (claim_rows faults clock
          (suc i)
          jobs
          (update_where (has_id j.id) (start_row (clock i)) rows)
        ≡ ok (done.0, rest))
      × (done.1 ≡ start_copy j ∷ rest)
unfolding claim_rows
claim_rows-cons faults clock i j jobs rows e =
    let (_, _, later) = bind-eq-ok (call "sync: claim update" (faults i)) _ e in
    let ((rows', rest), first, last) =
      bind-eq-ok (claim_rows faults clock (suc i) jobs _) _ later in
    let same = ok-injective last in
    (rest, first ∙ ap (λ d. ok (d.0, rest)) same, sym (ap (λ d. d.1) same))

-- What each UPDATE of a claimed row keeps, the loop keeps.
pub claim_rows_inv {ℓ} :
    (P : List Job → Type ℓ)
    → ((k n : ℕ) (rows : List Job) → P rows → P (update_where (has_id k) (start_row n) rows))
    → (faults : Faults) (clock : ℕ → ℕ) (i : ℕ) (jobs rows : List Job)
    → {done : List Job × List Job} → claim_rows faults clock i jobs rows ≡ ok done
    → P rows
    → P done.0
claim_rows_inv P step faults clock i [] rows e h =
    subst P (claim_rows-nil faults clock i rows e).0 h
claim_rows_inv P step faults clock i (j ∷ jobs) rows e h =
    let (rest, later, _) = claim_rows-cons faults clock i j jobs rows e in
    claim_rows_inv P step faults clock (suc i) jobs _ later (step j.id (clock i) rows h)

-- What a successful transaction has done.
pub claim_tx-eq-ok :
    (faults : Faults) (clock : ℕ → ℕ) (limit : ℕ) (t : Jobs) {t' : Jobs} {jobs : List Job}
    → claim_tx faults clock limit t ≡ ok (t', jobs)
    → (claim_rows faults clock 3 (take limit (select (is_due (clock 0)) t.rows)) t.rows
        ≡ ok (t'.rows, jobs))
      × (t.next_id ≡ t'.next_id)
unfolding claim_tx
claim_tx-eq-ok faults clock limit t e =
    let (_, _, e) = bind-eq-ok (call "sync: claim begin tx" (faults 0)) _ e in
    let (_, _, e) = bind-eq-ok (call "sync: claim query" (faults 1)) _ e in
    let ((rows, jobs), claimed, e) = bind-eq-ok (claim_rows faults clock 3 _ t.rows) _ e in
    let (_, _, e) = bind-eq-ok (call "sync: claim commit" (faults 2)) _ e in
    let same = ok-injective e in
    (claimed ∙ ap (λ d. ok (d.0.rows, d.1)) same, ap (λ d. d.0.next_id) same)

Ascends-claim_rows :
    (faults : Faults) (clock : ℕ → ℕ) (i lo hi : ℕ) (jobs rows : List Job)
    {done : List Job × List Job}
    → claim_rows faults clock i jobs rows ≡ ok done
    → Ascends lo hi rows
    → Ascends lo hi done.0
Ascends-claim_rows faults clock i lo hi jobs rows =
    claim_rows_inv (Ascends lo hi)
      (λ k n js h. Ascends-update (has_id k) (start_row n) (λ j. refl) lo hi js h) faults clock i
      jobs rows

-- One operation on the table, whatever its arguments and whatever the engine reports.
pub data Step (t : Jobs) : Jobs → Type 0 where
  enqueues :
      (fault : Fault) (now user_id inbound_id : ℕ) (op : Op) (payload : Payload) {t' : Jobs}
      → (enqueue fault now user_id inbound_id op payload t).0 ≡ t'
      → Step t t'
  claims :
      (faults : Faults) (clock : ℕ → ℕ) (limit : ℕ) {t' : Jobs}
      → (claim_batch faults clock limit t).0 ≡ t'
      → Step t t'
  succeeds :
      (fault : Fault) (now id : ℕ) {t' : Jobs} → (mark_success fault now id t).0 ≡ t' → Step t t'
  requeues :
      (fault : Fault) (now id attempts : ℕ) (last_error : String) (next : ℕ) {t' : Jobs}
      → (mark_retry fault now id attempts last_error next t).0 ≡ t'
      → Step t t'
  fails :
      (fault : Fault) (now id attempts : ℕ) (last_error : String) {t' : Jobs}
      → (mark_failed_terminal fault now id attempts last_error t).0 ≡ t'
      → Step t t'
  retries : (fault : Fault) (now id : ℕ) {t' : Jobs} → (retry fault now id t).0 ≡ t' → Step t t'
  reaps :
      (fault : Fault) (now cutoff : ℕ) {t' : Jobs}
      → (reap_stale fault now cutoff t).0 ≡ t'
      → Step t t'
  prunes : (fault : Fault) (cutoff : ℕ) {t' : Jobs} → (prune fault cutoff t).0 ≡ t' → Step t t'

pub data Reach (s : Jobs) : Jobs → Type 0 where
  start : Reach s s
  andthen : {t u : Jobs} → Reach s t → Step t u → Reach s u

claim_batch-IsWellFormed :
    (faults : Faults) (clock : ℕ → ℕ) (limit : ℕ) (t : Jobs)
    → IsWellFormed t
    → IsWellFormed (claim_batch faults clock limit t).0
unfolding claim_batch
claim_batch-IsWellFormed faults clock limit t h =
    commit_inv IsWellFormed t (claim_tx faults clock limit t) h λ t' jobs e.
      let (claimed, same) = claim_tx-eq-ok faults clock limit t e in
      rw (← same) (Ascends-claim_rows faults clock 3 1 t.next_id _ t.rows claimed h)

Step-IsWellFormed : {t u : Jobs} → Step t u → IsWellFormed t → IsWellFormed u
unfolding enqueue mark_success mark_retry mark_failed_terminal retry reap_stale prune
Step-IsWellFormed {t} (enqueues none now user inbound op payload e) h =
    rw (← e) (Ascends-append 1 t.next_id t.rows _ h refl)
Step-IsWellFormed {t} (enqueues (some c) now user inbound op payload e) h = rw (← e) h
Step-IsWellFormed {t} (claims faults clock limit e) h =
    rw (← e) (claim_batch-IsWellFormed faults clock limit t h)
Step-IsWellFormed {t} (succeeds none now id e) h =
    rw (← e) (Ascends-update (has_id id) _ (λ j. refl) 1 t.next_id t.rows h)
Step-IsWellFormed {t} (succeeds (some c) now id e) h = rw (← e) h
Step-IsWellFormed {t} (requeues none now id attempts last again e) h =
    rw (← e) (Ascends-update (has_id id) _ (λ j. refl) 1 t.next_id t.rows h)
Step-IsWellFormed {t} (requeues (some c) now id attempts last again e) h = rw (← e) h
Step-IsWellFormed {t} (fails none now id attempts last e) h =
    rw (← e) (Ascends-update (has_id id) _ (λ j. refl) 1 t.next_id t.rows h)
Step-IsWellFormed {t} (fails (some c) now id attempts last e) h = rw (← e) h
Step-IsWellFormed {t} (retries none now id e) h =
    rw (← e) (Ascends-update _ _ (λ j. refl) 1 t.next_id t.rows h)
Step-IsWellFormed {t} (retries (some c) now id e) h = rw (← e) h
Step-IsWellFormed {t} (reaps none now cutoff e) h =
    rw (← e) (Ascends-update _ _ (λ j. refl) 1 t.next_id t.rows h)
Step-IsWellFormed {t} (reaps (some c) now cutoff e) h = rw (← e) h
Step-IsWellFormed {t} (prunes none cutoff e) h = rw (← e) (Ascends-delete _ 1 t.next_id t.rows h)
Step-IsWellFormed {t} (prunes (some c) cutoff e) h = rw (← e) h

-- Whatever sequence of operations runs, with whatever failures of the engine, the ids of the rows
-- ascend strictly (so no two rows share one) and stay below the next id that is handed out.
pub Reach-IsWellFormed : {t u : Jobs} → IsWellFormed t → Reach t u → IsWellFormed u
Reach-IsWellFormed h start = h
Reach-IsWellFormed h (andthen r s) = Step-IsWellFormed s (Reach-IsWellFormed h r)
