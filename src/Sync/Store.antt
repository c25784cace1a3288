-- ===== src/Sync/Store.antt =====
-- internal/sync/sync.go: the table `sync_jobs` and the operations of `Store`. The rows stand in the
-- order of their ids, which AUTOINCREMENT hands out in increasing order. The payload column holds
-- the payload itself in place of its JSON text.
pub mod Ids
pub mod Claim
pub mod Rollups
pub mod Recovery
pub mod Claims
pub mod Accounts
pub mod Guards
pub mod Lifecycle
use x_ui_subpage.Prelude.{
  ℕ, suc, String, Bool, true, false, ◌&&◌, Option, none, some, List, [], ◌∷◌, ◌++◌, reverse, leb,
  ltb, eqb, if◌then◌else◌, take, Error, not_found, Result, ok, err, ◌>>=◌, ◌>>◌, Fault, Faults,
  call, commit, select, update_where, affected, delete_where,
}
use x_ui_subpage.Prelude.Int.{ℤ}

-- `other` is an op that the constants do not name.
pub data Op : Type 0 where
  assign update unassign delete reset_traffic : Op
  other : String → Op

pub data Status : Type 0 where
  pending in_progress success failed : Status

pub record Payload : Type 0 where
  pub email : String
  pub sub_id : String
  pub uuid : String
  pub password : String
  pub method : String
  pub flow : String
  pub enable : Bool
  pub total_gb : ℤ
  pub expiry_ms : ℤ

pub record Job : Type 0 where
  pub id : ℕ
  pub user_id : ℕ
  pub inbound_id : ℕ
  pub op : Op
  pub status : Status
  pub attempts : ℕ
  pub last_error : String
  pub next_attempt_at : ℕ
  pub payload : Payload
  pub created_at : ℕ
  pub updated_at : ℕ

-- `next_id` is AUTOINCREMENT's counter.
pub record Jobs : Type 0 where
  pub rows : List Job
  pub next_id : ℕ

abbrev pub is_pending : Status → Bool
is_pending pending = true
is_pending _ = false

abbrev pub is_in_progress : Status → Bool
is_in_progress in_progress = true
is_in_progress _ = false

abbrev pub is_success : Status → Bool
is_success success = true
is_success _ = false

abbrev pub is_failed : Status → Bool
is_failed failed = true
is_failed _ = false

-- WHERE id = ?
abbrev pub has_id : ℕ → Job → Bool
has_id i j = eqb j.id i

-- WHERE status = 'pending' AND next_attempt_at <= ?
abbrev pub is_due : ℕ → Job → Bool
is_due now j = is_pending j.status && leb j.next_attempt_at now

unfoldable pub enqueue : Fault → ℕ → ℕ → ℕ → Op → Payload → Jobs → Jobs × Result ℕ
enqueue (some cause) now user_id inbound_id op payload t =
    (t, err (Error.wrap "sync: enqueue" (Error.new cause)))
enqueue none now user_id inbound_id op payload t = (
  record {
    rows =
        t.rows
        ++ record {
          id = t.next_id;
          user_id = user_id;
          inbound_id = inbound_id;
          op = op;
          status = pending;
          attempts = 0;
          last_error = "";
          next_attempt_at = now;
          payload = payload;
          created_at = now;
          updated_at = now;
        }
          ∷ [];
    next_id = suc t.next_id;
  },
  ok t.next_id,
)

-- The UPDATE of one claimed row, which leaves its in-memory copy with the old `updated_at`.
abbrev pub start_row : ℕ → Job → Job
start_row now j = record j { status = in_progress; updated_at = now }

abbrev pub start_copy : Job → Job
start_copy j = record j { status = in_progress }

-- The loop of `ClaimBatch` over the rows that the query returned, from engine call `i` on.
unfoldable pub claim_rows :
    Faults → (ℕ → ℕ) → ℕ → List Job → List Job → Result (List Job × List Job)
claim_rows faults clock i [] rows = ok (rows, [])
claim_rows faults clock i (j ∷ jobs) rows = do
  call "sync: claim update" (faults i)
  (rows', started) ←
      claim_rows faults clock (suc i) jobs (update_where (has_id j.id) (start_row (clock i)) rows)
  ok (rows', start_copy j ∷ started)

-- Engine calls: 0 begins the transaction, 1 is the query with its scan, 2 the final commit, and the
-- updates are counted from 3. `clock i` is the time read for call `i`.
unfoldable pub claim_tx : Faults → (ℕ → ℕ) → ℕ → Jobs → Result (Jobs × List Job)
unfolding claim_rows
claim_tx faults clock limit t = do
  call "sync: claim begin tx" (faults 0)
  call "sync: claim query" (faults 1)
  (rows, jobs) ← claim_rows faults clock 3 (take limit (select (is_due (clock 0)) t.rows)) t.rows
  call "sync: claim commit" (faults 2)
  ok (record t { rows = rows }, jobs)

unfoldable pub claim_batch : Faults → (ℕ → ℕ) → ℕ → Jobs → Jobs × Result (List Job)
unfolding claim_tx
claim_batch faults clock limit t = commit t (claim_tx faults clock limit t)

-- An UPDATE of the rows with an id: nothing changes when the engine fails.
abbrev update_id : String → Fault → (Job → Job) → ℕ → Jobs → Jobs × Option Error
update_id context (some cause) f id t = (t, some (Error.wrap context (Error.new cause)))
update_id context none f id t = (record t { rows = update_where (has_id id) f t.rows }, none)

unfoldable pub mark_success : Fault → ℕ → ℕ → Jobs → Jobs × Option Error
mark_success fault now =
    update_id "sync: mark success" fault
      (λ j. record j { status = success; last_error = ""; updated_at = now })

unfoldable pub mark_retry : Fault → ℕ → ℕ → ℕ → String → ℕ → Jobs → Jobs × Option Error
mark_retry fault now id attempts last_error next_attempt_at =
    update_id "sync: mark retry" fault
      (λ j. record j {
        status = pending;
        attempts = attempts;
        last_error = last_error;
        next_attempt_at = next_attempt_at;
        updated_at = now;
      })
      id

unfoldable pub mark_failed_terminal : Fault → ℕ → ℕ → ℕ → String → Jobs → Jobs × Option Error
mark_failed_terminal fault now id attempts last_error =
    update_id "sync: mark failed" fault
      (λ j. record j {
        status = failed;
        attempts = attempts;
        last_error = last_error;
        updated_at = now;
      })
      id

-- WHERE id = ? AND status = 'failed'
abbrev pub can_retry : ℕ → Job → Bool
can_retry id j = has_id id j && is_failed j.status

unfoldable pub retry : Fault → ℕ → ℕ → Jobs → Jobs × Option Error
retry (some cause) now id t = (t, some (Error.wrap "sync: retry" (Error.new cause)))
retry none now id t =
    let t' : Jobs = record t {
      rows =
          update_where (can_retry id)
            (λ j. record j { status = pending; next_attempt_at = 0; updated_at = now }) t.rows;
    } in
    (t', if eqb (affected (can_retry id) t.rows) 0 then some not_found else none)

unfoldable pub list_for_user : Fault → ℕ → ℕ → Jobs → Result (List Job)
list_for_user fault user_id limit t = do
  call "sync: list for user" fault
  ok (take limit (reverse (select (λ j. eqb j.user_id user_id) t.rows)))

unfoldable pub list_recent : Fault → ℕ → Jobs → Result (List Job)
list_recent fault limit t = do call "sync: list recent" fault; ok (take limit (reverse t.rows))

-- The rows with rn = 1 of `ROW_NUMBER() OVER (PARTITION BY inbound_id ORDER BY id DESC)`: of each
-- inbound the row with the highest id, which no later row of that inbound follows.
unfoldable pub latest_per_inbound : List Job → List Job
latest_per_inbound [] = []
latest_per_inbound (j ∷ js) =
    let rest = latest_per_inbound js in
    if eqb (affected (λ k. eqb k.inbound_id j.inbound_id) js) 0 then j ∷ rest else rest

pub data Rollup : Type 0 where
  nothing error syncing synced : Rollup

pub record Flags : Type 0 where
  pub any : Bool
  pub any_failed : Bool
  pub any_pending : Bool

-- One round of the loop over the statuses.
abbrev pub see : Flags → Status → Flags
see f failed = record f { any = true; any_failed = true }
see f pending = record f { any = true; any_pending = true }
see f in_progress = record f { any = true; any_pending = true }
see f success = record f { any = true }

unfoldable pub scan_statuses : Flags → List Job → Flags
scan_statuses f [] = f
scan_statuses f (j ∷ js) = scan_statuses (see f j.status) js

unfoldable pub rollup : Flags → Rollup
rollup f =
    if f.any
    then (if f.any_failed then error else if f.any_pending then syncing else synced)
    else nothing

unfoldable pub rollup_status_for_user : Fault → ℕ → Jobs → Result Rollup
unfolding latest_per_inbound scan_statuses rollup
rollup_status_for_user fault user_id t = do
  call "sync: rollup status" fault
  ok (
      rollup (
        scan_statuses (record { any = false; any_failed = false; any_pending = false })
          (latest_per_inbound (select (λ j. eqb j.user_id user_id) t.rows))))

-- WHERE status = 'in_progress' AND updated_at < ?
abbrev pub is_stale : ℕ → Job → Bool
is_stale cutoff j = is_in_progress j.status && ltb j.updated_at cutoff

unfoldable pub reap_stale : Fault → ℕ → ℕ → Jobs → Jobs × Result ℕ
reap_stale (some cause) now cutoff t = (t, err (Error.wrap "sync: reap stale" (Error.new cause)))
reap_stale none now cutoff t = (
  record t {
    rows =
        update_where (is_stale cutoff)
          (λ j. record j { status = pending; next_attempt_at = now; updated_at = now }) t.rows;
  },
  ok (affected (is_stale cutoff) t.rows),
)

-- WHERE status = 'success' AND updated_at < ?
abbrev pub is_prunable : ℕ → Job → Bool
is_prunable cutoff j = is_success j.status && ltb j.updated_at cutoff

unfoldable pub prune : Fault → ℕ → Jobs → Jobs × Option Error
prune (some cause) cutoff t = (t, some (Error.wrap "sync: prune" (Error.new cause)))
prune none cutoff t = (record t { rows = delete_where (is_prunable cutoff) t.rows }, none)
