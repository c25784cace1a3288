-- ===== src/Sync/Store/Accounts.antt =====
-- The account of all jobs over one operation on the table: which it changes and how, which it
-- leaves alone, which it removes and which it adds.
use x_ui_subpage.Prelude.{
  ℕ, ◌≤◌, ◌<◌, ◌≡◌, ◌≢◌, refl, sym, subst, inl, inr, ◌⊎◌, Bool, true, false, String, Bool-cases,
  none, List, [], ◌∷◌, update_where, update_where-In, In, here, there,
}
use x_ui_subpage.Sync.Store.{Op, Payload, Job, Jobs, Status, pending, in_progress, success, failed}
use x_ui_subpage.Sync.Store.Ids.{
  Step, enqueues, claims, succeeds, requeues, fails, retries, reaps, prunes,
}

-- No operation changes what a job is about.
abbrev pub SameJob : Job → Job → Type 0
SameJob j k =
    (k.id ≡ j.id)
    × (k.user_id ≡ j.user_id)
    × (k.inbound_id ≡ j.inbound_id)
    × (k.op ≡ j.op)
    × (k.payload ≡ j.payload)
    × (k.created_at ≡ j.created_at)

-- A settled or requeued job: how it stands, after how many attempts, with which error, until when
-- it waits and when it was written.
abbrev pub Becomes : Status → ℕ → String → ℕ → ℕ → Job → Type 0
Becomes status attempts last_error next now k =
    (k.status ≡ status)
    × (k.attempts ≡ attempts)
    × (k.last_error ≡ last_error)
    × (k.next_attempt_at ≡ next)
    × (k.updated_at ≡ now)

-- The jobs that an operation changes, and how.
abbrev pub Moves : {t u : Jobs} → Step t u → Job → Job → Type 0
Moves (enqueues fault now user inbound op payload e) j k = ⊥
Moves (claims faults clock limit e) j k =
    (j.status ≡ pending)
    × (j.next_attempt_at ≤ clock 0)
    × (k.status ≡ in_progress)
    × (k.attempts ≡ j.attempts)
    × (k.last_error ≡ j.last_error)
    × (k.next_attempt_at ≡ j.next_attempt_at)
Moves (succeeds fault now id e) j k =
    (j.id ≡ id) × Becomes success j.attempts "" j.next_attempt_at now k
Moves (requeues fault now id attempts last_error next e) j k =
    (j.id ≡ id) × Becomes pending attempts last_error next now k
Moves (fails fault now id attempts last_error e) j k =
    (j.id ≡ id) × Becomes failed attempts last_error j.next_attempt_at now k
Moves (retries fault now id e) j k =
    (j.id ≡ id) × (j.status ≡ failed) × Becomes pending j.attempts j.last_error 0 now k
Moves (reaps fault now cutoff e) j k =
    (j.status ≡ in_progress)
    × (j.updated_at < cutoff)
    × Becomes pending j.attempts j.last_error now now k
Moves (prunes fault cutoff e) j k = ⊥

-- The jobs that an operation leaves alone: those that it is not about, or all where the engine
-- fails.
abbrev pub Spares : {t u : Jobs} → Step t u → Job → Type 0
Spares (succeeds none now id e) j = j.id ≢ id
Spares (requeues none now id attempts last_error next e) j = j.id ≢ id
Spares (fails none now id attempts last_error e) j = j.id ≢ id
Spares (retries none now id e) j = (j.id ≢ id) ⊎ (j.status ≢ failed)
Spares (reaps none now cutoff e) j = (j.status ≢ in_progress) ⊎ (cutoff ≤ j.updated_at)
Spares (prunes none cutoff e) j = (j.status ≢ success) ⊎ (cutoff ≤ j.updated_at)
Spares _ j = Unit

-- Only pruning removes a job: an old success.
abbrev pub Removes : {t u : Jobs} → Step t u → Job → Type 0
Removes (prunes fault cutoff e) j = (j.status ≡ success) × (j.updated_at < cutoff)
Removes _ j = ⊥

-- A job as it enters the queue: due, without attempts, and for what was asked.
abbrev pub IsNew : ℕ → ℕ → ℕ → ℕ → Op → Payload → Job → Type 0
IsNew id now user inbound op payload k =
    (k.id ≡ id)
    × (k.user_id ≡ user)
    × (k.inbound_id ≡ inbound)
    × (k.op ≡ op)
    × (k.payload ≡ payload)
    × (k.status ≡ pending)
    × (k.attempts ≡ 0)
    × (k.last_error ≡ "")
    × (k.next_attempt_at ≡ now)
    × (k.created_at ≡ now)
    × (k.updated_at ≡ now)

-- Only enqueueing adds a job.
abbrev pub Adds : {t u : Jobs} → Step t u → Job → Type 0
Adds {t} (enqueues fault now user inbound op payload e) k =
    IsNew t.next_id now user inbound op payload k
Adds _ k = ⊥

-- Where the engine does not fail, enqueueing does add it.
abbrev pub Grows : {t u : Jobs} → Step t u → Type 0
Grows {t} {u} (enqueues none now user inbound op payload e) =
    (k : Job) × In k u.rows × IsNew t.next_id now user inbound op payload k
Grows _ = Unit

-- All rows before and after, by what may happen to a row.
abbrev Accounts :
    (Job → Type 0)
    → (Job → Job → Type 0)
    → (Job → Type 0)
    → (Job → Type 0)
    → List Job
    → List Job
    → Type 0
Accounts spares moves removes adds rows rows' =
    ((j : Job)
      → In j rows
      → (In j rows' × spares j) ⊎ (((k : Job) × In k rows' × SameJob j k × moves j k) ⊎ removes j))
    × ((k : Job)
        → In k rows'
        → In k rows ⊎ (((j : Job) × In j rows × SameJob j k × moves j k) ⊎ adds k))

abbrev pub IsAccounted : {t u : Jobs} → Step t u → Type 0
IsAccounted {t} {u} s = Accounts (Spares s) (Moves s) (Removes s) (Adds s) t.rows u.rows × Grows s

pub unchanged :
    (spares : Job → Type 0) (moves : Job → Job → Type 0) (removes adds : Job → Type 0)
    (rows rows' : List Job)
    → rows ≡ rows'
    → ((j : Job) → spares j)
    → Accounts spares moves removes adds rows rows'
unchanged spares moves removes adds rows rows' same all =
    ((λ j m. inl (subst (In j) same m, all j)), λ k m. inl (subst (In k) (sym same) m))

In-update_where_hit :
    (p : Job → Bool) (f : Job → Job) (j : Job) (rows : List Job)
    → In j rows
    → p j ≡ true
    → In (f j) (update_where p f rows)
unfolding update_where
In-update_where_hit p f j [] m e = elim m [ ]
In-update_where_hit p f j (r ∷ rows) (here same) e = here (rw (← same, e) refl)
In-update_where_hit p f j (r ∷ rows) (there m) e = there (In-update_where_hit p f j rows m e)

In-update_where_miss :
    (p : Job → Bool) (f : Job → Job) (j : Job) (rows : List Job)
    → In j rows
    → p j ≡ false
    → In j (update_where p f rows)
unfolding update_where
In-update_where_miss p f j [] m e = elim m [ ]
In-update_where_miss p f j (r ∷ rows) (here same) e = here (rw (← same, e) refl)
In-update_where_miss p f j (r ∷ rows) (there m) e = there (In-update_where_miss p f j rows m e)

-- An UPDATE changes the rows that its test names, and spares all others.
pub updated :
    (p : Job → Bool) (f : Job → Job) (spares : Job → Type 0) (moves : Job → Job → Type 0)
    (removes adds : Job → Type 0) (rows rows' : List Job)
    → update_where p f rows ≡ rows'
    → ((j : Job) → p j ≡ true → SameJob j (f j) × moves j (f j))
    → ((j : Job) → p j ≡ false → spares j)
    → Accounts spares moves removes adds rows rows'
updated p f spares moves removes adds rows rows' same hit miss =
    subst (Accounts spares moves removes adds rows) same (
      (λ j m. elim (Bool-cases (p j)) [
        | inl e ↦
            let (is, law) = hit j e in inr (inl (f j, In-update_where_hit p f j rows m e, is, law))
        | inr e ↦ inl (In-update_where_miss p f j rows m e, miss j e)
      ]),
      λ k m.
          let (j, old, what) = update_where-In p f k rows m in
          elim what [
            | inl (e, new) ↦
                let (is, law) = hit j e in
                inr (inl (j, old, subst (SameJob j) (sym new) is, subst (moves j) (sym new) law))
            | inr (_, new) ↦ inl (subst (λ x. In x rows) (sym new) old)
          ],
    )
