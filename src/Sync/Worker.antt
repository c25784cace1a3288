-- ===== src/Sync/Worker.antt =====
-- internal/sync/worker.go: the worker that pushes the jobs to the panel. The panel behind the
-- interface `Writer` is a state of any type, and so is what `invalidate` clears. Logging is left out.
pub mod Dispatch
pub mod Process
pub mod Ticks
use x_ui_subpage.Prelude.{
  ℕ, zero, suc, ◌+◌, ◌-◌, ◌*◌, ◌%◌, ◌^◌, String, Bool, true, false, ◌&&◌, Option, none, some, List,
  [], ◌∷◌, leb, ltb, if◌then◌else◌, Error, new, wrap, message, Result, ok, err, Fault, Faults,
}
use x_ui_subpage.Prelude.Int.{ℤ}
use x_ui_subpage.Xui.Models.{ManagedClient}
use x_ui_subpage.Sync.Store.{
  Op, assign, update, unassign, delete, reset_traffic, other, Payload, Job, Jobs, claim_batch,
  mark_success, mark_retry, mark_failed_terminal, reap_stale, prune,
}

-- The interface `Writer`: each method moves the panel on and may report an error.
pub record Writer (P : Type 0) : Type 0 where
  pub get_client : String → P → P × Result (Option ManagedClient)
  pub add_client : ManagedClient → List ℕ → P → P × Option Error
  pub attach_client : String → List ℕ → P → P × Option Error
  pub update_client : ManagedClient → P → P × Option Error
  pub detach_client : String → List ℕ → P → P × Option Error
  pub delete_client : String → P → P × Option Error
  pub reset_client_traffic : String → P → P × Option Error

-- Durations are nanoseconds.
abbrev pub second : ℕ
second = 1_000_000_000

abbrev pub default_batch_size : ℕ
default_batch_size = 20

abbrev pub default_max_attempts : ℕ
default_max_attempts = 8

abbrev pub max_backoff : ℕ
max_backoff = 60 * second

abbrev pub prune_after : ℕ
prune_after = 7 * 24 * 3600 * second

abbrev pub stale_in_progress_after : ℕ
stale_in_progress_after = 5 * 60 * second

unfoldable pub to_managed_client : Payload → ManagedClient
to_managed_client p = record {
  id = 0;
  email = p.email;
  sub_id = p.sub_id;
  uuid = p.uuid;
  password = p.password;
  flow = p.flow;
  enable = p.enable;
  total_gb = p.total_gb;
  expiry_time = p.expiry_ms;
}

-- `time.Duration(attempts*attempts) * time.Second` and its cap, as the 64 bits of an int64: a
-- product that wraps around to a negative duration is below the cap.
unfoldable pub backoff : ℕ → ℕ
backoff attempts =
    let product = attempts * attempts * second % 2 ^ 64 in
    if ltb max_backoff product && ltb product (2 ^ 63) then max_backoff else product

-- `time.Now().Add(d).UnixNano()` on those bits.
unfoldable pub next_attempt : ℕ → ℕ → ℕ
next_attempt now duration = (now + duration) % 2 ^ 64

module _ {P : Type 0} (w : Writer P) where
  -- The second half of `doAssign`, after the client was looked up.
  unfoldable pub assign_found : Job → P × Result (Option ManagedClient) → P × Option Error
  unfolding to_managed_client
  assign_found j (p, err e) = (p, some (wrap "check existing client" e))
  assign_found j (p, ok (some client)) = w.attach_client j.payload.email (j.inbound_id ∷ []) p
  assign_found j (p, ok none) = w.add_client (to_managed_client j.payload) (j.inbound_id ∷ []) p

  unfoldable pub do_assign : Job → P → P × Option Error
  unfolding assign_found
  do_assign j p = assign_found j (w.get_client j.payload.email p)

  unfoldable pub dispatch_op : Op → Job → P → P × Option Error
  unfolding do_assign to_managed_client
  dispatch_op assign j p = do_assign j p
  dispatch_op update j p = w.update_client (to_managed_client j.payload) p
  dispatch_op unassign j p = w.detach_client j.payload.email (j.inbound_id ∷ []) p
  dispatch_op delete j p = w.delete_client j.payload.email p
  dispatch_op reset_traffic j p = w.reset_client_traffic j.payload.email p
  dispatch_op (other op) j p = (p, some (new "sync: unknown op"))

  unfoldable pub dispatch : Job → P → P × Option Error
  unfolding dispatch_op
  dispatch j p = dispatch_op j.op j p

-- What the worker acts on: the table, the panel, and the cache that `invalidate` clears.
pub record World (P C : Type 0) : Type 0 where
  pub jobs : Jobs
  pub panel : P
  pub cache : C

-- What one call of `process` reads from outside: the failure of its one UPDATE, the time behind
-- `time.Now()` in the worker, and the time that the store stamps on the row.
pub record Reads : Type 0 where
  pub fault : Fault
  pub now : ℕ
  pub stamp : ℕ

module _ {P C : Type 0} (w : Writer P) (max_attempts : ℕ) (invalidate : Option (C → C)) where
  unfoldable pub invalidated : C → C
  invalidated c = elim invalidate [ none ↦ c | some f ↦ f c ]

  -- `process` after the dispatch: `p` is the panel that it left.
  unfoldable pub settle : Reads → Job → World P C → P × Option Error → World P C
  unfolding invalidated mark_success mark_retry mark_failed_terminal backoff next_attempt
  settle r j s (p, none) = record {
    jobs = (mark_success r.fault r.stamp j.id s.jobs).0;
    panel = p;
    cache = invalidated s.cache;
  }
  settle r j s (p, some e) =
      let attempts = j.attempts + 1 in
      record s {
        panel = p;
        jobs =
            if leb max_attempts attempts
            then (mark_failed_terminal r.fault r.stamp j.id attempts (message e) s.jobs).0
            else (mark_retry r.fault r.stamp j.id attempts (message e)
                (next_attempt r.now (backoff attempts)) s.jobs).0;
      }

  unfoldable pub process : Reads → Job → World P C → World P C
  unfolding settle dispatch
  process r j s = settle r j s (dispatch w j s.panel)

  -- The loop over the claimed jobs.
  unfoldable pub process_all : (ℕ → Reads) → ℕ → List Job → World P C → World P C
  unfolding process
  process_all reads i [] s = s
  process_all reads i (j ∷ jobs) s = process_all reads (suc i) jobs (process (reads i) j s)

  -- After the claim: a failure ends the tick before the pruning.
  unfoldable pub after_claim :
      (ℕ → Reads) → Fault → ℕ → World P C → Jobs × Result (List Job) → World P C
  unfolding process_all prune
  after_claim reads prune_fault prune_now s (t, err e) = record s { jobs = t }
  after_claim reads prune_fault prune_now s (t, ok jobs) =
      let done = process_all reads 0 jobs (record s { jobs = t }) in
      record done { jobs = (prune prune_fault (prune_now - prune_after) done.jobs).0 }

  -- One tick. The clock reads are the arguments; times are past the first week of the epoch.
  unfoldable pub tick :
      (reap_fault : Fault) (reap_now reap_stamp : ℕ) (claim_faults : Faults) (claim_clock : ℕ → ℕ)
      (batch_size : ℕ) (reads : ℕ → Reads) (prune_fault : Fault) (prune_now : ℕ)
      → World P C
      → World P C
  unfolding after_claim reap_stale claim_batch
  tick reap_fault reap_now reap_stamp claim_faults claim_clock batch_size reads prune_fault
        prune_now s =
      let reaped =
        (reap_stale reap_fault reap_stamp (reap_now - stale_in_progress_after) s.jobs).0 in
      after_claim reads prune_fault prune_now s
        (claim_batch claim_faults claim_clock batch_size reaped)
