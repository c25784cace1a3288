-- ===== src/Sync/Store/Rollups.antt =====
-- The rollup of a user's jobs against a description by the latest job of each inbound.
use x_ui_subpage.Prelude.{
  ℕ, ◌≡◌, ◌≢◌, refl, sym, Bool, true, false, ◌||◌, none, some, List, [], ◌∷◌, arith, if◌then◌else◌,
  eqb, eqb_iff, Option, ok, select, affected, Bool-cases, Option-cases, inl, inr, ◌⊎◌,
}
use x_ui_subpage.Sync.Store.{
  Job, Jobs, Status, pending, in_progress, success, failed, is_failed, Rollup, nothing, error,
  syncing, synced, Flags, see, scan_statuses, rollup, latest_per_inbound, rollup_status_for_user,
}

none≢some {ℓ} : {A : Type ℓ} {a : A} → none ≢ some a
none≢some h = cc

-- The last row of an inbound, which is the one with its highest id.
pub latest_of : ℕ → List Job → Option Job
latest_of b [] = none
latest_of b (j ∷ js) = elim (latest_of b js) [
  | none ↦ if eqb j.inbound_id b then some j else none
  | some k ↦ some k
]

-- An inbound whose latest job has a status with the property.
abbrev pub SomeLatest : (Status → Type 0) → List Job → Type 0
SomeLatest P js = (b : ℕ) × (j : Job) × (latest_of b js ≡ some j) × P j.status

abbrev pub EveryLatest : (Status → Type 0) → List Job → Type 0
EveryLatest P js = (b : ℕ) (j : Job) → latest_of b js ≡ some j → P j.status

-- What each answer says of the user's rows.
abbrev pub Describes : List Job → Rollup → Type 0
Describes js nothing = (b : ℕ) → latest_of b js ≡ none
Describes js error = SomeLatest (λ s. s ≡ failed) js
Describes js syncing =
    EveryLatest (λ s. s ≢ failed) js × SomeLatest (λ s. (s ≡ pending) ⊎ (s ≡ in_progress)) js
Describes js synced = EveryLatest (λ s. s ≡ success) js × SomeLatest (λ s. s ≡ success) js

abbrev some_status : (Status → Bool) → List Job → Bool
some_status p [] = false
some_status p (j ∷ js) = p j.status || some_status p js

abbrev is_open : Status → Bool
is_open pending = true
is_open in_progress = true
is_open _ = false

scan_statuses-eq :
    (f : Flags) (js : List Job)
    → scan_statuses f js ≡ record {
      any = f.any || some_status (λ _. true) js;
      any_failed = f.any_failed || some_status is_failed js;
      any_pending = f.any_pending || some_status is_open js;
    }
unfolding scan_statuses
scan_statuses-eq f [] = ground arith
scan_statuses-eq f (j ∷ js) = ground (arith, scan_statuses-eq (see f j.status) js)

latest_of-eq-none :
    (b : ℕ) (js : List Job) → latest_of b js ≡ none → affected (λ k. eqb k.inbound_id b) js ≡ 0
unfolding latest_of affected
latest_of-eq-none b [] e = refl
latest_of-eq-none b (j ∷ js) e = ground (arith, latest_of-eq-none b js)

latest_of-of_zero :
    (b : ℕ) (js : List Job) → affected (λ k. eqb k.inbound_id b) js ≡ 0 → latest_of b js ≡ none
unfolding latest_of affected
latest_of-of_zero b [] e = refl
latest_of-of_zero b (j ∷ js) e = ground (arith, latest_of-of_zero b js)

latest_of-cons :
    (b : ℕ) (j k : Job) (js : List Job) → latest_of b js ≡ some k → latest_of b (j ∷ js) ≡ some k
unfolding latest_of
latest_of-cons b j k js e = ground arith

latest_of-head :
    (j : Job) (js : List Job)
    → affected (λ k. eqb k.inbound_id j.inbound_id) js ≡ 0
    → latest_of j.inbound_id (j ∷ js) ≡ some j
unfolding latest_of
latest_of-head j js e = ground (arith, latest_of-of_zero j.inbound_id js e)

failed_of : (s : Status) → is_failed s ≡ true → s ≡ failed
failed_of s h = ground arith

ne_failed : (s : Status) → is_failed s ≡ false → s ≢ failed
ne_failed s h = ground arith

open_of : (s : Status) → is_open s ≡ true → (s ≡ pending) ⊎ (s ≡ in_progress)
open_of s h = ground arith

success_of : (s : Status) → is_failed s ≡ false → is_open s ≡ false → s ≡ success
success_of s h k = ground arith

module _ (p : Status → Bool) where
  -- A status found among the kept rows is that of an inbound's latest job.
  SomeLatest-latest_per_inbound :
      (js : List Job)
      → some_status p (latest_per_inbound js) ≡ true
      → SomeLatest (λ s. p s ≡ true) js
  unfolding latest_per_inbound
  SomeLatest-latest_per_inbound [] e = cc
  SomeLatest-latest_per_inbound (j ∷ js) e =
      elim (Bool-cases (eqb (affected (λ k. eqb k.inbound_id j.inbound_id) js) 0)) [
        | inl last ↦ elim (Bool-cases (p j.status)) [
          | inl hit ↦ (j.inbound_id, j, latest_of-head j js ((eqb_iff _ 0).0 last), hit)
          | inr miss ↦ older (SomeLatest-latest_per_inbound js (rw (last, miss) at e))
        ]
        | inr followed ↦ older (SomeLatest-latest_per_inbound js (rw followed at e))
      ]
    where
      older : SomeLatest (λ s. p s ≡ true) js → SomeLatest (λ s. p s ≡ true) (j ∷ js)
      older (b, k, found, hit) = (b, k, latest_of-cons b j k js found, hit)

  head-kept :
      (j : Job) (js : List Job)
      → affected (λ k. eqb k.inbound_id j.inbound_id) js ≡ 0
      → p j.status ≡ true
      → some_status p (latest_per_inbound (j ∷ js)) ≡ true
  unfolding latest_per_inbound
  head-kept j js last hit = rw (last, hit)

  latest_per_inbound-SomeLatest :
      (js : List Job) (b : ℕ) (k : Job)
      → latest_of b js ≡ some k
      → p k.status ≡ true
      → some_status p (latest_per_inbound js) ≡ true
  unfolding latest_per_inbound latest_of
  latest_per_inbound-SomeLatest [] b k e h = cc
  latest_per_inbound-SomeLatest (j ∷ js) b k e h = elim (Option-cases (latest_of b js)) [
    | inl no_later ↦ elim (Bool-cases (eqb j.inbound_id b)) [
      | inl same ↦
          let inbound : b ≡ j.inbound_id = sym ((eqb_iff j.inbound_id b).0 same) in
          let job : k ≡ j = ground arith in
          let none_later = rw inbound at (latest_of-eq-none b js no_later) in
          let hit = rw job at h in head-kept j js none_later hit
      | inr differs ↦ absurd (none≢some (rw (no_later, differs) at e))
    ]
    | inr (k', later) ↦ ground (arith, later, latest_per_inbound-SomeLatest js b k)
  ]

module _ (js : List Job) where
  abbrev flags : Flags
  flags =
      scan_statuses (record { any = false; any_failed = false; any_pending = false })
        (latest_per_inbound js)

  no_status :
      (p : Status → Bool)
      → some_status p (latest_per_inbound js) ≡ false
      → (b : ℕ) (j : Job) → latest_of b js ≡ some j
      → p j.status ≡ false
  no_status p absent b j found = elim (Bool-cases (p j.status)) [
    | inl hit ↦ cc (latest_per_inbound-SomeLatest p js b j found hit)
    | inr miss ↦ miss
  ]

  rollup-Describes : Describes js (rollup flags)
  unfolding rollup
  rollup-Describes =
      rw
        (scan_statuses-eq (record { any = false; any_failed = false; any_pending = false })
          (latest_per_inbound js))
        (elim (Bool-cases (some_status (λ _. true) (latest_per_inbound js))) [
          | inr empty ↦ rw empty (λ b. elim (Option-cases (latest_of b js)) [
            | inl absent ↦ absent
            | inr (j, found) ↦ cc (no_status (λ _. true) empty b j found)
          ])
          | inl filled ↦
              rw filled (elim (Bool-cases (some_status is_failed (latest_per_inbound js))) [
                | inl bad ↦ rw bad (
                    let (b, j, found, hit) = SomeLatest-latest_per_inbound is_failed js bad in
                    (b, j, found, failed_of j.status hit))
                | inr good ↦
                    rw good (elim (Bool-cases (some_status is_open (latest_per_inbound js))) [
                      | inl open_job ↦ rw open_job (
                        (λ b j found. ne_failed j.status (no_status is_failed good b j found)),
                        (let (b, j, found, hit) =
                              SomeLatest-latest_per_inbound is_open js open_job in
                            (b, j, found, open_of j.status hit)),
                      )
                      | inr shut ↦ rw shut (
                          let every = λ (b : ℕ) (j : Job) (found : latest_of b js ≡ some j).
                            success_of j.status (no_status is_failed good b j found)
                              (no_status is_open shut b j found) in
                          (
                            every,
                            (let (b, j, found, hit) =
                                  SomeLatest-latest_per_inbound (λ _. true) js filled in
                                (b, j, found, every b j found)),
                          ))
                    ])
              ])
        ])

-- When the engine does not fail, the answer is "none" when the user has no job, "error" when some inbound's latest job failed,
-- "syncing" when none did and some inbound's latest job is pending or in progress, and "synced"
-- when there are jobs and every inbound's latest one succeeded.
pub rollup_status_for_user-Describes :
    (user_id : ℕ) (t : Jobs)
    → (r : Rollup) × (rollup_status_for_user none user_id t ≡ ok r)
      × Describes (select (λ j. eqb j.user_id user_id) t.rows) r
unfolding rollup_status_for_user
rollup_status_for_user-Describes user_id t =
    let js = select (λ (j : Job). eqb j.user_id user_id) t.rows in
    (rollup (flags js), refl, rollup-Describes js)
