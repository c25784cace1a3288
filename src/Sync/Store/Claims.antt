-- ===== src/Sync/Store/Claims.antt =====
-- What a claim changes, row by row.
use x_ui_subpage.Prelude.{
  ℕ, suc, ◌≤◌, ◌≡◌, refl, select, ap, sym, subst, ◌∙◌, inl, inr, ◌⊎◌, true, Bool-cases, List, [],
  ◌∷◌, arith, take, eqb_iff, ok, Faults, All₂, In, here, there, select-In, update_where,
}
use x_ui_subpage.Sync.Store.{
  Job, Status, pending, in_progress, has_id, is_due, is_pending, start_row, claim_rows,
}
use x_ui_subpage.Sync.Store.Ids.{Ascends, claim_rows-nil, claim_rows-cons}

-- What is left as it is when a job is started.
abbrev pub IsStartOf : Job → Job → Type 0
IsStartOf j k =
    (k.id ≡ j.id)
    × (k.user_id ≡ j.user_id)
    × (k.inbound_id ≡ j.inbound_id)
    × (k.op ≡ j.op)
    × (k.payload ≡ j.payload)
    × (k.created_at ≡ j.created_at)
    × (k.status ≡ in_progress)
    × (k.attempts ≡ j.attempts)
    × (k.last_error ≡ j.last_error)
    × (k.next_attempt_at ≡ j.next_attempt_at)

-- A row is as it was, or it was started and one of the jobs has its id.
abbrev pub StartedBy : List Job → Job → Job → Type 0
StartedBy jobs j k = (k ≡ j) ⊎ ((d : Job) × In d jobs × (d.id ≡ j.id) × IsStartOf j k)

StartedBy-refl : (jobs rows : List Job) → All₂ (StartedBy jobs) rows rows
StartedBy-refl jobs [] = tt
StartedBy-refl jobs (j ∷ rows) = (inl refl, StartedBy-refl jobs rows)

StartedBy-more :
    (d : Job) (jobs : List Job) (j k : Job) → StartedBy jobs j k → StartedBy (d ∷ jobs) j k
StartedBy-more d jobs j k (inl same) = inl same
StartedBy-more d jobs j k (inr (c, m, is, start)) = inr (c, there m, is, start)

start_row-StartedBy :
    (d : Job) (jobs : List Job) (n : ℕ) (j k : Job)
    → has_id d.id j ≡ true
    → StartedBy jobs (start_row n j) k
    → StartedBy (d ∷ jobs) j k
start_row-StartedBy d jobs n j k hit what = inr (
  d,
  here refl,
  sym ((eqb_iff j.id d.id).0 hit),
  elim what [
    | inl same ↦ rw same (refl, refl, refl, refl, refl, refl, refl, refl, refl, refl)
    | inr (c, m, is, start) ↦ start
  ],
)

update-StartedBy :
    (d : Job) (jobs : List Job) (n : ℕ) (rows rows' : List Job)
    → All₂ (StartedBy jobs) (update_where (has_id d.id) (start_row n) rows) rows'
    → All₂ (StartedBy (d ∷ jobs)) rows rows'
unfolding update_where
update-StartedBy d jobs n [] [] h = tt
update-StartedBy d jobs n [] (k ∷ rows') h = h
update-StartedBy d jobs n (j ∷ rows) [] h = h
update-StartedBy d jobs n (j ∷ rows) (k ∷ rows') (q, h) = (
  elim (Bool-cases (has_id d.id j)) [
    | inl hit ↦ start_row-StartedBy d jobs n j k hit (rw hit at q)
    | inr miss ↦ StartedBy-more d jobs j k (rw miss at q)
  ],
  update-StartedBy d jobs n rows rows' h,
)

pub claim_rows-StartedBy :
    (faults : Faults) (clock : ℕ → ℕ) (i : ℕ) (jobs rows : List Job) {done : List Job × List Job}
    → claim_rows faults clock i jobs rows ≡ ok done
    → All₂ (StartedBy jobs) rows done.0
claim_rows-StartedBy faults clock i [] rows e =
    subst (All₂ (StartedBy []) rows) (claim_rows-nil faults clock i rows e).0
      (StartedBy-refl [] rows)
claim_rows-StartedBy faults clock i (d ∷ jobs) rows e =
    let (rest, later, _) = claim_rows-cons faults clock i d jobs rows e in
    update-StartedBy d jobs (clock i) rows _
      (claim_rows-StartedBy faults clock (suc i) jobs _ later)

pub All₂-after :
    (R : Job → Job → Type 0) (rows rows' : List Job) (j : Job)
    → All₂ R rows rows'
    → In j rows
    → (k : Job) × In k rows' × R j k
All₂-after R [] rows' j h m = elim m [ ]
All₂-after R (r ∷ rows) [] j h m = absurd h
All₂-after R (r ∷ rows) (r' ∷ rows') j (q, h) (here same) =
    (r', here refl, subst (λ x. R x r') (sym same) q)
All₂-after R (r ∷ rows) (r' ∷ rows') j (q, h) (there m) =
    let (k, n, rel) = All₂-after R rows rows' j h m in (k, there n, rel)

pub All₂-before :
    (R : Job → Job → Type 0) (rows rows' : List Job) (k : Job)
    → All₂ R rows rows'
    → In k rows'
    → (j : Job) × In j rows × R j k
All₂-before R rows [] k h m = elim m [ ]
All₂-before R [] (r' ∷ rows') k h m = absurd h
All₂-before R (r ∷ rows) (r' ∷ rows') k (q, h) (here same) =
    (r, here refl, subst (λ x. R r x) (sym same) q)
All₂-before R (r ∷ rows) (r' ∷ rows') k (q, h) (there m) =
    let (j, n, rel) = All₂-before R rows rows' k h m in (j, there n, rel)

-- Ids are at least where they begin, so that no two rows share one.
Ascends-bound : (lo hi : ℕ) (rows : List Job) (j : Job) → Ascends lo hi rows → In j rows → lo ≤ j.id
Ascends-bound lo hi [] j h m = elim m [ ]
Ascends-bound lo hi (r ∷ rows) j (q, h) (here same) = rw same q
Ascends-bound lo hi (r ∷ rows) j (q, h) (there m) =
    let bound = Ascends-bound (suc r.id) hi rows j h m in omega arith

pub Ascends-unique :
    (lo hi : ℕ) (rows : List Job) (a b : Job)
    → Ascends lo hi rows
    → In a rows
    → In b rows
    → a.id ≡ b.id
    → a ≡ b
Ascends-unique lo hi [] a b h m n same = elim m [ ]
Ascends-unique lo hi (r ∷ rows) a b (q, h) (here e) (here f) same = e ∙ sym f
Ascends-unique lo hi (r ∷ rows) a b (q, h) (here e) (there n) same =
    let bound = Ascends-bound (suc r.id) hi rows b h n in
    let at : a.id ≡ r.id = ap (λ (x : Job). x.id) e in absurd (omega arith)
Ascends-unique lo hi (r ∷ rows) a b (q, h) (there m) (here f) same =
    let bound = Ascends-bound (suc r.id) hi rows a h m in
    let at : b.id ≡ r.id = ap (λ (x : Job). x.id) f in absurd (omega arith)
Ascends-unique lo hi (r ∷ rows) a b (q, h) (there m) (there n) same =
    Ascends-unique (suc r.id) hi rows a b h m n same

In-take : (n : ℕ) (rows : List Job) (j : Job) → In j (take n rows) → In j rows
In-take ℕ.zero rows j m = elim m [ ]
In-take (ℕ.suc n) [] j m = elim m [ ]
In-take (ℕ.suc n) (r ∷ rows) j (here e) = here e
In-take (ℕ.suc n) (r ∷ rows) j (there m) = there (In-take n rows j m)

is_pending-eq : (s : Status) → is_pending s ≡ true → s ≡ pending
is_pending-eq pending e = refl
is_pending-eq in_progress e = cc
is_pending-eq Status.success e = cc
is_pending-eq Status.failed e = cc

is_due-pending :
    (now : ℕ) (j : Job) → is_due now j ≡ true → (j.status ≡ pending) × (j.next_attempt_at ≤ now)
is_due-pending now j e = (is_pending-eq j.status (ground (arith, e)), ground (arith, e))

-- A row of the table with the id of a job that was picked is a pending one whose time has come.
pub picked-due :
    (now limit lo hi : ℕ) (rows : List Job) (d j : Job)
    → Ascends lo hi rows
    → In d (take limit (select (is_due now) rows))
    → In j rows
    → d.id ≡ j.id
    → (j.status ≡ pending) × (j.next_attempt_at ≤ now)
picked-due now limit lo hi rows d j h m at same =
    let (old, due) = select-In (is_due now) d rows (In-take limit (select (is_due now) rows) d m) in
    is_due-pending now j
      (subst (λ x. is_due now x ≡ true) (Ascends-unique lo hi rows d j h old at same) due)
