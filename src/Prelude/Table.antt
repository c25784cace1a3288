-- ===== src/Prelude/Table.antt =====
-- Tables as lists of rows: the meaning of the SELECT, UPDATE and DELETE statements that the stores
-- run, with their WHERE clause as a test on rows.
use Prim.Native.Nat.{ℕ, suc}
use mathlib.Core.Path.{◌≡◌, refl, sym}
use mathlib.Core.Bool.{Bool, true, false}
use mathlib.Core.Logic.{◌↔◌, ◌⊎◌, inl, inr}
use mathlib.Core.Option.{Option, none, some}
use mathlib.Core.List.{List, [], ◌∷◌, ◌++◌}
use native.Mathlib.Omega.{arith}
use x_ui_subpage.Prelude.Tests.{Bool-cases, if◌then◌else◌}
use x_ui_subpage.Prelude.Lists.{In, here, there, All, All₂}

module _ {ℓ} {A : Type ℓ} where
  -- SELECT … WHERE p
  unfoldable pub select : (A → Bool) → List A → List A
  select p [] = []
  select p (x ∷ xs) = let rest = select p xs in if p x then x ∷ rest else rest

  -- The row that `QueryRow` scans: the first one of the result.
  unfoldable pub first : (A → Bool) → List A → Option A
  first p [] = none
  first p (x ∷ xs) = let rest = first p xs in if p x then some x else rest

  -- UPDATE … SET f WHERE p
  unfoldable pub update_where : (A → Bool) → (A → A) → List A → List A
  update_where p f [] = []
  update_where p f (x ∷ xs) = (if p x then f x else x) ∷ update_where p f xs

  -- The rows that a statement with WHERE p affects.
  unfoldable pub affected : (A → Bool) → List A → ℕ
  affected p [] = 0
  affected p (x ∷ xs) = let rest = affected p xs in if p x then suc rest else rest

  -- DELETE … WHERE p
  unfoldable pub delete_where : (A → Bool) → List A → List A
  delete_where p [] = []
  delete_where p (x ∷ xs) = let rest = delete_where p xs in if p x then rest else x ∷ rest

  -- INSERT … ON CONFLICT DO UPDATE: `same` finds the row in conflict, and `f` overwrites it.
  unfoldable pub upsert : (A → Bool) → (A → A) → A → List A → List A
  upsert same f row [] = row ∷ []
  upsert same f row (x ∷ xs) =
      let rest = upsert same f row xs in if same x then f x ∷ xs else x ∷ rest

  pub select-All : (p : A → Bool) (xs : List A) → All (λ x. p x ≡ true) (select p xs)
  unfolding select
  select-All p [] = tt
  select-All p (x ∷ xs) = ground (arith, select-All p xs)

  pub select-append :
      (p : A → Bool) (xs ys : List A) → select p (xs ++ ys) ≡ select p xs ++ select p ys
  unfolding select
  select-append p [] ys = refl
  select-append p (x ∷ xs) ys = ground (arith, select-append p xs ys)

  -- An UPDATE relates each row to what it becomes.
  pub update_where-All₂ :
      (R : A → A → Type 0) (p : A → Bool) (f : A → A)
      → ((x : A) → p x ≡ true → R x (f x))
      → ((x : A) → p x ≡ false → R x x)
      → (xs : List A) → All₂ R xs (update_where p f xs)
  unfolding update_where
  update_where-All₂ R p f hit miss [] = tt
  update_where-All₂ R p f hit miss (x ∷ xs) = elim (Bool-cases (p x)) [
    | inl e ↦ rw e (hit x e, update_where-All₂ R p f hit miss xs)
    | inr e ↦ rw e (miss x e, update_where-All₂ R p f hit miss xs)
  ]

  pub update_where-All :
      (Q : A → Type 0) (p : A → Bool) (f : A → A)
      → ((x : A) → p x ≡ true → Q (f x))
      → ((x : A) → p x ≡ false → Q x)
      → (xs : List A) → All Q (update_where p f xs)
  unfolding update_where
  update_where-All Q p f hit miss [] = tt
  update_where-All Q p f hit miss (x ∷ xs) = elim (Bool-cases (p x)) [
    | inl e ↦ rw e (hit x e, update_where-All Q p f hit miss xs)
    | inr e ↦ rw e (miss x e, update_where-All Q p f hit miss xs)
  ]

  -- An UPDATE that affects no row changes nothing.
  pub update_where_of_unaffected :
      (p : A → Bool) (f : A → A) (xs : List A) → affected p xs ≡ 0 → update_where p f xs ≡ xs
  unfolding update_where affected
  update_where_of_unaffected p f [] e = refl
  update_where_of_unaffected p f (x ∷ xs) e = ground (arith, update_where_of_unaffected p f xs)

  pub affected-eq-zero_iff :
      (p : A → Bool) (xs : List A) → (affected p xs ≡ 0) ↔ All (λ x. p x ≡ false) xs
  unfolding affected
  affected-eq-zero_iff p [] = ((λ _. tt), (λ _. refl))
  affected-eq-zero_iff p (x ∷ xs) = ground (arith, affected-eq-zero_iff p xs)

  pub delete_where-All : (p : A → Bool) (xs : List A) → All (λ x. p x ≡ false) (delete_where p xs)
  unfolding delete_where
  delete_where-All p [] = tt
  delete_where-All p (x ∷ xs) = ground (arith, delete_where-All p xs)

  -- A DELETE keeps, in order, what its test does not name.
  pub select-delete_where :
      (p q : A → Bool)
      → ((x : A) → q x ≡ true → p x ≡ false)
      → (xs : List A) → select q (delete_where p xs) ≡ select q xs
  unfolding select delete_where
  select-delete_where p q apart [] = refl
  select-delete_where p q apart (x ∷ xs) = ground (arith, apart x, select-delete_where p q apart xs)

  pub All-delete_where :
      (Q : A → Type 0) (p : A → Bool) (xs : List A) → All Q xs → All Q (delete_where p xs)
  unfolding delete_where
  All-delete_where Q p [] h = tt
  All-delete_where Q p (x ∷ xs) (q, h) = ground (arith, All-delete_where Q p xs h)

  pub All-update_where :
      (Q : A → Type 0) (p : A → Bool) (f : A → A)
      → ((x : A) → Q x → Q (f x))
      → (xs : List A) → All Q xs
      → All Q (update_where p f xs)
  unfolding update_where
  All-update_where Q p f step [] h = tt
  All-update_where Q p f step (x ∷ xs) (q, h) = elim (Bool-cases (p x)) [
    | inl hit ↦ rw hit (step x q, All-update_where Q p f step xs h)
    | inr miss ↦ rw miss (q, All-update_where Q p f step xs h)
  ]

  pub update_where-In :
      (p : A → Bool) (f : A → A) (y : A) (xs : List A)
      → In y (update_where p f xs)
      → (x : A) × In x xs × (((p x ≡ true) × (y ≡ f x)) ⊎ ((p x ≡ false) × (y ≡ x)))
  unfolding update_where
  update_where-In p f y [] m = elim m [ ]
  update_where-In p f y (x ∷ xs) (here e) = elim (Bool-cases (p x)) [
    | inl hit ↦ (x, here refl, inl (hit, rw hit at e))
    | inr miss ↦ (x, here refl, inr (miss, rw miss at e))
  ]
  update_where-In p f y (x ∷ xs) (there m) =
      let (x', old, what) = update_where-In p f y xs m in (x', there old, what)

  -- What a query for a key finds after an upsert, where the rows with the key are those in conflict.
  pub first-upsert_self :
      (p : A → Bool) (f : A → A) (row : A) (xs : List A)
      → p row ≡ true
      → ((x : A) → p x ≡ true → p (f x) ≡ true)
      → (y : A) × (first p (upsert p f row xs) ≡ some y)
        × ((y ≡ row) ⊎ ((x : A) × (p x ≡ true) × (y ≡ f x)))
  unfolding first upsert
  first-upsert_self p f row [] e keep = (row, rw e refl, inl refl)
  first-upsert_self p f row (x ∷ xs) e keep = elim (Bool-cases (p x)) [
    | inl hit ↦ (f x, rw (hit, keep x hit) refl, inr (x, hit, refl))
    | inr miss ↦
        let (y, found, what) = first-upsert_self p f row xs e keep in
        (y, rw (miss, miss) found, what)
  ]

  -- A query that names neither the row in conflict nor what it becomes finds what it found.
  pub first-upsert_other :
      (p q : A → Bool) (f : A → A) (row : A) (xs : List A)
      → q row ≡ false
      → ((x : A) → p x ≡ true → (q x ≡ false) × (q (f x) ≡ false))
      → first q (upsert p f row xs) ≡ first q xs
  unfolding first upsert
  first-upsert_other p q f row [] e apart = rw e
  first-upsert_other p q f row (x ∷ xs) e apart = elim (Bool-cases (p x)) [
    | inl hit ↦ rw (hit, (apart x hit).0, (apart x hit).1)
    | inr miss ↦ rw (miss, first-upsert_other p q f row xs e apart)
  ]

  pub first-append_none :
      (p : A → Bool) (xs ys : List A) → first p xs ≡ none → first p (xs ++ ys) ≡ first p ys
  unfolding first
  first-append_none p [] ys e = refl
  first-append_none p (x ∷ xs) ys e = ground (arith, first-append_none p xs ys)

  pub first-append_other :
      (p : A → Bool) (xs : List A) (y : A) → p y ≡ false → first p (xs ++ y ∷ []) ≡ first p xs
  unfolding first
  first-append_other p [] y e = rw e
  first-append_other p (x ∷ xs) y e = ground (arith, first-append_other p xs y)

  pub first-one : (p : A → Bool) (x : A) → p x ≡ true → first p (x ∷ []) ≡ some x
  unfolding first
  first-one p x e = rw e

  pub first-append_some :
      (p : A → Bool) (xs ys : List A) (x : A) → first p xs ≡ some x → first p (xs ++ ys) ≡ some x
  unfolding first
  first-append_some p [] ys y e = cc
  first-append_some p (x ∷ xs) ys y e = ground (arith, first-append_some p xs ys y)

  pub first-eq-some :
      (p : A → Bool) (xs : List A) (x : A) → first p xs ≡ some x → In x xs × (p x ≡ true)
  unfolding first
  first-eq-some p [] x e = cc
  first-eq-some p (y ∷ xs) x e = elim (Bool-cases (p y)) [
    | inl hit ↦ let same : y ≡ x = ground arith in (here (sym same), rw (← same) hit)
    | inr miss ↦ let (at_x, holds) = first-eq-some p xs x (rw miss at e) in (there at_x, holds)
  ]

  pub select-In : (p : A → Bool) (x : A) (xs : List A) → In x (select p xs) → In x xs × (p x ≡ true)
  unfolding select
  select-In p x [] m = elim m [ ]
  select-In p x (y ∷ xs) m = elim (Bool-cases (p y)) [
    | inr miss ↦ let (old, holds) = select-In p x xs (rw miss at m) in (there old, holds)
    | inl hit ↦ elim (rw hit at m) [
      | here e ↦ (here e, rw e hit)
      | there m' ↦ let (old, holds) = select-In p x xs m' in (there old, holds)
    ]
  ]

  pub In-select : (p : A → Bool) (x : A) (xs : List A) → In x xs → p x ≡ true → In x (select p xs)
  unfolding select
  In-select p x [] m e = elim m [ ]
  In-select p x (y ∷ xs) (here same) e = rw (← same, e) (here refl)
  In-select p x (y ∷ xs) (there m) e = elim (Bool-cases (p y)) [
    | inl hit ↦ rw hit (there (In-select p x xs m e))
    | inr miss ↦ rw miss (In-select p x xs m e)
  ]

  pub delete_where-In :
      (p : A → Bool) (x : A) (xs : List A) → In x (delete_where p xs) → In x xs × (p x ≡ false)
  unfolding delete_where
  delete_where-In p x [] m = elim m [ ]
  delete_where-In p x (y ∷ xs) m = elim (Bool-cases (p y)) [
    | inl hit ↦ let (old, holds) = delete_where-In p x xs (rw hit at m) in (there old, holds)
    | inr miss ↦ elim (rw miss at m) [
      | here e ↦ (here e, rw e miss)
      | there m' ↦ let (old, holds) = delete_where-In p x xs m' in (there old, holds)
    ]
  ]

  pub In-delete_where :
      (p : A → Bool) (x : A) (xs : List A) → In x xs → p x ≡ false → In x (delete_where p xs)
  unfolding delete_where
  In-delete_where p x [] m e = elim m [ ]
  In-delete_where p x (y ∷ xs) (here same) e = rw (← same, e) (here refl)
  In-delete_where p x (y ∷ xs) (there m) e = elim (Bool-cases (p y)) [
    | inl hit ↦ rw hit (In-delete_where p x xs m e)
    | inr miss ↦ rw miss (there (In-delete_where p x xs m e))
  ]

  pub first-absent : (p : A → Bool) (xs : List A) → All (λ x. p x ≡ false) xs → first p xs ≡ none
  unfolding first
  first-absent p [] h = refl
  first-absent p (x ∷ xs) (e, h) = ground (arith, first-absent p xs h)

  -- Some row passes the test.
  pub affected-In :
      (p : A → Bool) (xs : List A) → (affected p xs ≡ 0 → ⊥) → (x : A) × In x xs × (p x ≡ true)
  unfolding affected
  affected-In p [] h = absurd (h refl)
  affected-In p (x ∷ xs) h = elim (Bool-cases (p x)) [
    | inl hit ↦ (x, here refl, hit)
    | inr miss ↦ let (y, m, e) = affected-In p xs (λ z. h (rw miss z)) in (y, there m, e)
  ]

  pub In-affected :
      (p : A → Bool) (x : A) (xs : List A) → In x xs → p x ≡ true → affected p xs ≡ 0 → ⊥
  unfolding affected
  In-affected p x [] m e z = elim m [ ]
  In-affected p x (y ∷ xs) (here same) e z =
      let hit : p y ≡ true = rw (← same) e in ground (arith, hit)
  In-affected p x (y ∷ xs) (there m) e z = ground (arith, In-affected p x xs m e)

  pub first-update_where_self :
      (p : A → Bool) (f : A → A)
      → ((x : A) → p x ≡ true → p (f x) ≡ true)
      → (xs : List A) (x : A) → first p xs ≡ some x
      → first p (update_where p f xs) ≡ some (f x)
  unfolding first update_where
  first-update_where_self p f keep [] x e = cc
  first-update_where_self p f keep (y ∷ xs) x e = elim (Bool-cases (p y)) [
    | inl hit ↦ let same : y ≡ x = ground arith in rw (hit, keep y hit, same)
    | inr miss ↦ rw (miss, miss, first-update_where_self p f keep xs x (rw miss at e))
  ]

  -- An UPDATE of other rows leaves what a query finds.
  pub first-update_where_other :
      (p q : A → Bool) (f : A → A)
      → ((x : A) → p x ≡ true → (q x ≡ false) × (q (f x) ≡ false))
      → (xs : List A) → first q (update_where p f xs) ≡ first q xs
  unfolding first update_where
  first-update_where_other p q f apart [] = refl
  first-update_where_other p q f apart (x ∷ xs) = elim (Bool-cases (p x)) [
    | inl hit ↦ rw (hit, (apart x hit).0, (apart x hit).1, first-update_where_other p q f apart xs)
    | inr miss ↦ rw (miss, first-update_where_other p q f apart xs)
  ]

  pub first-delete_where_self : (p : A → Bool) (xs : List A) → first p (delete_where p xs) ≡ none
  first-delete_where_self p xs = first-absent p (delete_where p xs) (delete_where-All p xs)

  -- A DELETE leaves what a query for other rows finds.
  pub first-delete_where_other :
      (p q : A → Bool)
      → ((x : A) → p x ≡ true → q x ≡ false)
      → (xs : List A) → first q (delete_where p xs) ≡ first q xs
  unfolding first delete_where
  first-delete_where_other p q apart [] = refl
  first-delete_where_other p q apart (x ∷ xs) = elim (Bool-cases (p x)) [
    | inl hit ↦ rw (hit, apart x hit, first-delete_where_other p q apart xs)
    | inr miss ↦ rw (miss, first-delete_where_other p q apart xs)
  ]

  -- A query within the result of another one that asks for less.
  pub first-select :
      (p q : A → Bool)
      → ((x : A) → q x ≡ true → p x ≡ true)
      → (xs : List A) → first q (select p xs) ≡ first q xs
  unfolding first select
  first-select p q within [] = refl
  first-select p q within (x ∷ xs) = ground (arith, within x, first-select p q within xs)

  pub upsert-In :
      (p : A → Bool) (f : A → A) (row y : A) (xs : List A)
      → In y (upsert p f row xs)
      → In y xs ⊎ (y ≡ row) ⊎ ((x : A) × (p x ≡ true) × (y ≡ f x))
  unfolding upsert
  upsert-In p f row y [] (here e) = inr (inl e)
  upsert-In p f row y [] (there m) = elim m [ ]
  upsert-In p f row y (x ∷ xs) m = elim (Bool-cases (p x)) [
    | inl hit ↦ elim (rw hit at m) [ here e ↦ inr (inr (x, hit, e)) | there m' ↦ inl (there m') ]
    | inr miss ↦ elim (rw miss at m) [
      | here e ↦ inl (here e)
      | there m' ↦ elim (upsert-In p f row y xs m') [
        | inl old ↦ inl (there old)
        | inr what ↦ inr what
      ]
    ]
  ]
