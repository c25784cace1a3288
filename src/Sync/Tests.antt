-- ===== src/Sync/Tests.antt =====
-- The theorems on the outbox and its worker at concrete tables, and runs of the code.
use x_ui_subpage.Prelude.{
  ℕ, suc, ◌+◌, ◌-◌, ◌^◌, ◌≤◌, ◌<◌, String, ◌≡◌, ◌≢◌, refl, ◌==◌, eq_iff, Bool, true, false, ◌&&◌,
  none, some, List, [], ◌∷◌, map, arith, take, length, All, All₂, In, eqb, if◌then◌else◌, Error,
  new, ok, err, select, update_where, Faults,
}
use x_ui_subpage.Prelude.Int.{pos}
use x_ui_subpage.Xui.Models.{ManagedClient}
use x_ui_subpage.Sync.Store.{
  reap_stale, assign, Payload, Status, pending, in_progress, success, failed, Job, Jobs, is_due,
  start_copy, claim_batch, Rollup, rollup_status_for_user,
}
use x_ui_subpage.Sync.Store.Ids.{IsWellFormed, Step, claims, reaps, start, andthen}
use x_ui_subpage.Sync.Store.Accounts.{IsAccounted}
use x_ui_subpage.Sync.Store.Lifecycle.{Reach-IsAccounted}
use x_ui_subpage.Sync.Store.Claim.{IsStarted, SameElse, claim_batch_exclusive, claim_batch_total}
use x_ui_subpage.Sync.Store.Rollups.{Describes, rollup_status_for_user-Describes}
use x_ui_subpage.Sync.Worker.{
  Writer, World, Reads, stale_in_progress_after, backoff, dispatch, process, tick,
}
use x_ui_subpage.Sync.Worker.Dispatch.{PanelLaws, IsReliable, dispatch-attaches}
use x_ui_subpage.Sync.Worker.Process.{SettledRow, backoff_lem, process_rows}
use x_ui_subpage.Sync.Worker.Ticks.{tick-in_progress}

abbrev alice : Payload
alice = record {
  email = "alice";
  sub_id = "a1";
  uuid = "u";
  password = "p";
  method = "m";
  flow = "";
  enable = true;
  total_gb = pos 0;
  expiry_ms = pos 0;
}

abbrev job : ℕ → ℕ → Status → ℕ → Job
job id inbound_id status updated_at = record {
  id = id;
  user_id = 1;
  inbound_id = inbound_id;
  op = assign;
  status = status;
  attempts = 0;
  last_error = "";
  next_attempt_at = 5;
  payload = alice;
  created_at = 5;
  updated_at = updated_at;
}

-- Of one user: a success, two pending jobs, a stale and a failed one.
abbrev table : Jobs
table = record {
  rows =
      job 1 1 success 5
      ∷ job 2 1 pending 5
      ∷ job 3 2 pending 6
      ∷ job 4 3 in_progress 7
      ∷ job 5 4 failed 8
      ∷ [];
  next_id = 6;
}

abbrev quiet : Faults
quiet _ = none

abbrev at : ℕ → ℕ → ℕ
at now _ = now

claim_one : (claim_batch quiet (at 10) 1 table).1 ≡ ok (job 2 1 in_progress 5 ∷ [])
unfolding claim_batch select update_where
claim_one = refl

abbrev claimed_once : Jobs
claimed_once = record table {
  rows =
      job 1 1 success 5
      ∷ job 2 1 in_progress 10
      ∷ job 3 2 pending 6
      ∷ job 4 3 in_progress 7
      ∷ job 5 4 failed 8
      ∷ [];
}

abbrev claimed_twice : Jobs
claimed_twice = record table {
  rows =
      job 1 1 success 5
      ∷ job 2 1 in_progress 10
      ∷ job 3 2 in_progress 11
      ∷ job 4 3 in_progress 7
      ∷ job 5 4 failed 8
      ∷ [];
}

first_claim : claim_batch quiet (at 10) 1 table ≡ (claimed_once, ok (job 2 1 in_progress 5 ∷ []))
unfolding claim_batch select update_where
first_claim = refl

second_claim :
    claim_batch quiet (at 11) 1 claimed_once ≡ (claimed_twice, ok (job 3 2 in_progress 6 ∷ []))
unfolding claim_batch select update_where
second_claim = refl

claim_batch_exclusive_example :
    All (λ j. All (λ k. j.id ≢ k.id) (job 3 2 in_progress 6 ∷ [])) (job 2 1 in_progress 5 ∷ [])
claim_batch_exclusive_example =
    claim_batch_exclusive quiet quiet (at 10) (at 11) 1 1 table claimed_once claimed_twice
      (job 2 1 in_progress 5 ∷ []) (job 3 2 in_progress 6 ∷ []) first_claim second_claim

claim_batch_total_example :
    (t' : Jobs) × (claim_batch quiet (at 10) 1 table
      ≡ (t', ok (map start_copy (take 1 (select (is_due 10) table.rows)))))
    × (length (take 1 (select (is_due 10) table.rows)) ≤ 1)
    × All (λ j. IsStarted j.id t'.rows) (take 1 (select (is_due 10) table.rows))
    × SameElse (take 1 (select (is_due 10) table.rows)) table.rows t'.rows
claim_batch_total_example = claim_batch_total quiet (at 10) 1 table (λ k. refl)

-- The engine fails at the second update.
abbrev late_fault : Faults
late_fault k = if eqb k 4 then some "disk I/O error" else none

failed_claim :
    (claim_batch late_fault (at 10) 20 table).1
    ≡ err (Error.wrap "sync: claim update" (new "disk I/O error"))
unfolding claim_batch select update_where
failed_claim = refl

-- The claimed job of 10 is stale at a cutoff of 20.
abbrev claimed : Jobs
claimed = (claim_batch quiet (at 10) 1 table).0

abbrev reaping : Step claimed (reap_stale none 40 20 claimed).0
reaping = reaps none 40 20 refl

Reach-IsAccounted_example : IsWellFormed (reap_stale none 40 20 claimed).0 × IsAccounted reaping
Reach-IsAccounted_example =
    Reach-IsAccounted {t = table} {u = claimed} (omega arith)
      (andthen start (claims quiet (at 10) 1 refl)) reaping

rollup_status_for_user-Describes_example :
    (r : Rollup) × (rollup_status_for_user none 1 table ≡ ok r)
    × Describes (select (λ j. eqb j.user_id 1) table.rows) r
rollup_status_for_user-Describes_example = rollup_status_for_user-Describes 1 table

-- A panel that keeps its clients' emails and attachments.
abbrev Panel : Type 0
Panel = List String × List (String × ℕ)

abbrev has_client : String → List String → Bool
has_client email [] = false
has_client email (e ∷ es) = if e == email then true else has_client email es

abbrev is_attached : String → ℕ → List (String × ℕ) → Bool
is_attached email b [] = false
is_attached email b ((e, c) ∷ es) = if e == email && eqb c b then true else is_attached email b es

abbrev some_client : ManagedClient
some_client = record {
  id = 0;
  email = "";
  sub_id = "";
  uuid = "";
  password = "";
  flow = "";
  enable = true;
  total_gb = pos 0;
  expiry_time = pos 0;
}

abbrev attach_all : String → List ℕ → Panel → Panel
attach_all email [] p = p
attach_all email (b ∷ bs) p =
    let (clients, pairs) = attach_all email bs p in (clients, (email, b) ∷ pairs)

abbrev panel : Writer Panel
panel = record {
  get_client = λ email p. (p, ok (if has_client email p.0 then some some_client else none));
  add_client = λ c bs p.
      if has_client c.email p.0
      then (p, some (new "duplicate email"))
      else (attach_all c.email bs (c.email ∷ p.0, p.1), none);
  attach_client = λ email bs p.
      if has_client email p.0
      then (attach_all email bs p, none)
      else (p, some (new "record not found"));
  update_client = λ c p. (p, none);
  detach_client = λ email bs p. (p, none);
  delete_client = λ email p. (p, none);
  reset_client_traffic = λ email p. (p, none);
}

self_equal : (s : String) (n : ℕ) → (s == s && eqb n n) ≡ true
self_equal s n = ground (arith, eq_iff s s)

panel_laws : PanelLaws panel
panel_laws = record {
  exists_on = λ p email. has_client email p.0;
  attached = λ p email b. is_attached email b p.1;
  get_client_reads = λ email p. refl;
  get_client_absent = λ email p e. ground arith;
  get_client_present = λ email p c e. ground arith;
  add_client_attaches = λ c b p e. ground (arith, self_equal c.email b);
  add_client_refuses = λ c bs p e. ground arith;
  attach_client_attaches = λ email b p e. ground (arith, self_equal email b);
}

panel_IsReliable : IsReliable panel panel_laws
unfolding panel_laws
panel_IsReliable = record {
  get_client_answers = λ email p. (if has_client email p.0 then some some_client else none, refl);
  add_client_accepts = λ c b p e. ground arith;
  attach_client_accepts = λ email b p e. ground arith;
}

abbrev one_job : Job
one_job = job 2 1 in_progress 5

abbrev nobody : Panel
nobody = ([], [])

abbrev alice_there : Panel
alice_there = ("alice" ∷ [], [])

assigned : (dispatch panel one_job nobody).1 ≡ none
unfolding dispatch
assigned = refl

dispatch-attaches_example :
    ((dispatch panel one_job alice_there).1 ≡ none)
    × (is_attached "alice" 1 (dispatch panel one_job alice_there).0.1 ≡ true)
unfolding panel_laws
dispatch-attaches_example =
    dispatch-attaches panel panel_laws panel_IsReliable one_job alice_there refl

abbrev world : World Panel ℕ
world = record { jobs = table; panel = nobody; cache = 0 }

abbrev reads : Reads
reads = record { fault = none; now = 20; stamp = 21 }

process_rows_example :
    All₂
      (SettledRow 8 reads (dispatch panel one_job nobody).1 one_job)
      table.rows
      (process panel 8 (some suc) reads one_job world).jobs.rows
process_rows_example = process_rows panel 8 (some suc) reads one_job world refl small
  where
    small : 20 + backoff 1 < 2 ^ 64
    small = omega (arith, backoff_lem 1 (omega arith) (omega arith))

tick-in_progress_example :
    All
      (λ r.
        r.status ≡ in_progress
        → In r table.rows × (400_000_000_000 - stale_in_progress_after ≤ r.updated_at))
      (tick panel 8
        (some suc)
        none
        400_000_000_000
        31
        (λ _. none)
        (at 32)
        20
        (λ _. reads)
        none
        40
        world).jobs.rows
tick-in_progress_example =
    tick-in_progress panel 8 (some suc) 400_000_000_000 31 (at 32) 20 (λ _. reads) 40 world
      (λ k. refl)
