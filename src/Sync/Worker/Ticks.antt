-- ===== src/Sync/Worker/Ticks.antt =====
-- A tick leaves no claimed job behind.
use x_ui_subpage.Prelude.{
  ℕ, suc, ◌+◌, ◌-◌, ◌≤◌, ◌≡◌, ◌≢◌, refl, ap, sym, ◌∙◌, false, none, some, List, [], ◌∷◌, arith,
  Option, Error, ◌⊎◌, inl, inr, eqb, eqb_iff, All, All-imp, In, here, there, update_where,
  update_where-In, All-delete_where, Bool-cases, leb, map, Result, ok, take, select,
}
use x_ui_subpage.Sync.Store.{
  Job, Jobs, in_progress, has_id, is_due, is_stale, mark_success, mark_retry, mark_failed_terminal,
  reap_stale, prune, start_copy,
}
use x_ui_subpage.Sync.Store.Claim.{SameElse, claim_batch_total}
use x_ui_subpage.Sync.Worker.{
  Writer, World, Reads, stale_in_progress_after, dispatch, settle, process, process_all,
  after_claim, tick,
}

abbrev SomeId : List Job → ℕ → Type 0
SomeId [] id = ⊥
SomeId (j ∷ js) id = (id ≡ j.id) ⊎ SomeId js id

-- A row in progress is one of the old rows, or its job has yet to be processed.
abbrev Held : List Job → List Job → List Job → Type 0
Held old jobs = All (λ r. r.status ≡ in_progress → In r old ⊎ SomeId jobs r.id)

SomeId-cases : (jobs : List Job) (id : ℕ) → SomeId jobs id ⊎ All (λ j. id ≢ j.id) jobs
SomeId-cases [] id = inr tt
SomeId-cases (j ∷ jobs) id = elim (Bool-cases (eqb id j.id)) [
  | inl e ↦ inl (inl ((eqb_iff id j.id).0 e))
  | inr ne ↦ elim (SomeId-cases jobs id) [
    | inl found ↦ inl (inr found)
    | inr rest ↦ inr ((λ same. cc (ne, (eqb_iff id j.id).1 same)), rest)
  ]
]

SomeId-map : (jobs : List Job) (id : ℕ) → SomeId jobs id → SomeId (map start_copy jobs) id
SomeId-map (j ∷ jobs) id (inl e) = inl e
SomeId-map (j ∷ jobs) id (inr m) = inr (SomeId-map jobs id m)
SomeId-map [] id m = m

-- What a claim changed, its jobs hold.
Held-SameElse :
    (old jobs rows rows' : List Job)
    → ((r : Job) → In r rows → In r old)
    → SameElse jobs rows rows'
    → Held old (map start_copy jobs) rows'
Held-SameElse old jobs [] [] sub h = tt
Held-SameElse old jobs [] (r' ∷ rows') sub h = absurd h
Held-SameElse old jobs (r ∷ rows) [] sub h = absurd h
Held-SameElse old jobs (r ∷ rows) (r' ∷ rows') sub (id, same, h) = (
  (λ _. elim (SomeId-cases jobs r.id) [
    | inl found ↦ inr (rw id (SomeId-map jobs r.id found))
    | inr free ↦ inl (sub r' (here (same free)))
  ]),
  Held-SameElse old jobs rows rows' (λ x m. sub x (there m)) h,
)

Held-update :
    (old jobs : List Job) (j : Job) (f : Job → Job)
    → ((row : Job) → (f row).status ≢ in_progress)
    → (rows : List Job) → Held old (j ∷ jobs) rows
    → Held old jobs (update_where (has_id j.id) f rows)
unfolding update_where
Held-update old jobs j f settles [] h = tt
Held-update old jobs j f settles (row ∷ rows) (p, h) = elim (Bool-cases (eqb row.id j.id)) [
  | inl hit ↦ rw hit ((λ e. absurd (settles row e)), Held-update old jobs j f settles rows h)
  | inr miss ↦ rw miss ((λ e. others miss (p e)), Held-update old jobs j f settles rows h)
]
  where
    others :
        eqb row.id j.id ≡ false
        → In row old ⊎ SomeId (j ∷ jobs) row.id
        → In row old ⊎ SomeId jobs row.id
    others miss (inl m) = inl m
    others miss (inr (inl e)) = cc (miss, (eqb_iff row.id j.id).1 e)
    others miss (inr (inr m)) = inr m

fresh_since :
    (cutoff : ℕ) (x : Job)
    → x.status ≡ in_progress
    → is_stale cutoff x ≡ false
    → cutoff ≤ x.updated_at
fresh_since cutoff x e fresh = ground arith

reaped-old :
    (stamp cutoff : ℕ) (t : Jobs) (r : Job)
    → In r (reap_stale none stamp cutoff t).0.rows
    → r.status ≡ in_progress
    → In r t.rows × (cutoff ≤ r.updated_at)
unfolding reap_stale
reaped-old stamp cutoff t r m e =
    let (x, old, what) = update_where-In (is_stale cutoff) _ r t.rows m in
    elim what [
      | inl (_, same) ↦ cc (ap (λ j. j.status) same)
      | inr (fresh, same) ↦ (
        rw same old,
        rw same (fresh_since cutoff x (ap (λ (j : Job). j.status) (sym same) ∙ e) fresh),
      )
    ]

module _ {P C : Type 0} (w : Writer P) (max_attempts : ℕ) (invalidate : Option (C → C)) where
  settle-Held :
      (old jobs : List Job) (r : Reads) (j : Job) (s : World P C) (p : P) (error : Option Error)
      → r.fault ≡ none
      → Held old (j ∷ jobs) s.jobs.rows
      → Held old jobs (settle w max_attempts invalidate r j s (p, error)).jobs.rows
  unfolding settle mark_success mark_retry mark_failed_terminal
  settle-Held old jobs r j s p none quiet h =
      simp quiet (Held-update old jobs j _ (λ row e. cc e) s.jobs.rows h)
  settle-Held old jobs r j s p (some e) quiet h =
      elim (Bool-cases (leb max_attempts (j.attempts + 1))) [
        | inl spent ↦ rw spent (simp quiet (Held-update old jobs j _ (λ row e. cc e) s.jobs.rows h))
        | inr left ↦ rw left (simp quiet (Held-update old jobs j _ (λ row e. cc e) s.jobs.rows h))
      ]

  process_all-Held :
      (old : List Job) (reads : ℕ → Reads) (i : ℕ) (jobs : List Job) (s : World P C)
      → ((k : ℕ) → (reads k).fault ≡ none)
      → Held old jobs s.jobs.rows
      → Held old [] (process_all w max_attempts invalidate reads i jobs s).jobs.rows
  unfolding process_all process
  process_all-Held old reads i [] s quiet h = h
  process_all-Held old reads i (j ∷ jobs) s quiet h =
      process_all-Held old reads (suc i) jobs _ quiet (
        settle-Held old jobs (reads i) j s (dispatch w j s.panel).0 (dispatch w j s.panel).1
          (quiet i) h)

  after_claim-Held :
      (old jobs : List Job) (reads : ℕ → Reads) (prune_now : ℕ) (s : World P C) (t : Jobs)
      (claim : Jobs × Result (List Job))
      → ((k : ℕ) → (reads k).fault ≡ none)
      → claim ≡ (t, ok jobs)
      → Held old jobs t.rows
      → Held old [] (after_claim w max_attempts invalidate reads none prune_now s claim).jobs.rows
  unfolding after_claim prune
  after_claim-Held old jobs reads prune_now s t claim quiet e h =
      rw e
        (All-delete_where _ _ _ (process_all-Held old reads 0 jobs (record s { jobs = t }) quiet h))

  -- When the engine does not fail, the only jobs that are in progress after a tick are those that
  -- were so before it and were touched in the last five minutes: no claimed job, whatever the panel
  -- answered, and no stale job is left in progress.
  pub tick-in_progress :
      (reap_now reap_stamp : ℕ) (claim_clock : ℕ → ℕ) (batch_size : ℕ) (reads : ℕ → Reads)
      (prune_now : ℕ) (s : World P C)
      → ((k : ℕ) → (reads k).fault ≡ none)
      → All
          (λ r.
            r.status ≡ in_progress
            → In r s.jobs.rows × (reap_now - stale_in_progress_after ≤ r.updated_at))
          (tick w max_attempts invalidate none reap_now reap_stamp
            (λ _. none)
            claim_clock
            batch_size
            reads
            none
            prune_now
            s).jobs.rows
  unfolding tick
  tick-in_progress reap_now reap_stamp claim_clock batch_size reads prune_now s quiet =
      let cutoff = reap_now - stale_in_progress_after in
      let reaped = (reap_stale none reap_stamp cutoff s.jobs).0 in
      let due = take batch_size (select (is_due (claim_clock 0)) reaped.rows) in
      let (t, claimed, _, _, same) =
        claim_batch_total (λ _. none) claim_clock batch_size reaped (λ _. refl) in
      All-imp
        (λ r held e. elim (held e) [
          | inl m ↦ reaped-old reap_stamp cutoff s.jobs r m e
          | inr m ↦ absurd m
        ])
        _
        (after_claim-Held reaped.rows (map start_copy due) reads prune_now s t _ quiet claimed
          (Held-SameElse reaped.rows due reaped.rows t.rows (λ r m. m) same))
