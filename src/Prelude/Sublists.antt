-- ===== src/Prelude/Sublists.antt =====
-- Lists that keep some members of another list, in its order.
use Prim.Native.Nat.{◌≤◌}
use mathlib.Core.Path.{◌≡◌, refl, ap}
use mathlib.Core.Bool.{Bool, true, false}
use mathlib.Core.Logic.{inl, inr}
use mathlib.Core.List.{List, [], ◌∷◌}
use native.Mathlib.Omega.{arith}
use x_ui_subpage.Prelude.Tests.{Bool-cases}
use x_ui_subpage.Prelude.Lists.{length, All}
use x_ui_subpage.Prelude.Table.{select, update_where, delete_where}

pub data Sub {ℓ} {A : Type ℓ} : List A → List A → Type ℓ where
  nothing : Sub [] []
  keep : {xs ys : List A} (x : A) → Sub xs ys → Sub (x ∷ xs) (x ∷ ys)
  skip : {xs ys : List A} (y : A) → Sub xs ys → Sub xs (y ∷ ys)

module _ {ℓ} {A : Type ℓ} where
  pub Sub_refl : (xs : List A) → Sub xs xs
  Sub_refl [] = nothing
  Sub_refl (x ∷ xs) = keep x (Sub_refl xs)

  pub Sub_empty : (xs : List A) → Sub [] xs
  Sub_empty [] = nothing
  Sub_empty (x ∷ xs) = skip x (Sub_empty xs)

  pub Sub_trans : {ys zs : List A} → Sub ys zs → {xs : List A} → Sub xs ys → Sub xs zs
  Sub_trans nothing s = s
  Sub_trans (skip z u) s = skip z (Sub_trans u s)
  Sub_trans (keep _ u) (keep x s) = keep x (Sub_trans u s)
  Sub_trans (keep _ u) (skip y s) = skip y (Sub_trans u s)

  pub Sub-length : {xs ys : List A} → Sub xs ys → length xs ≤ length ys
  Sub-length nothing = omega arith
  Sub-length (keep x s) = omega (arith, Sub-length s)
  Sub-length (skip y s) = omega (arith, Sub-length s)

  -- One that leaves nothing out.
  pub Sub-eq : {xs ys : List A} → Sub xs ys → length xs ≡ length ys → xs ≡ ys
  Sub-eq nothing e = refl
  Sub-eq (keep x s) e = ap (λ zs. x ∷ zs) (Sub-eq s (omega (arith, e)))
  Sub-eq (skip y s) e = absurd (omega (arith, e, Sub-length s))

  pub select-of_All : (p : A → Bool) (xs : List A) → All (λ x. p x ≡ true) xs → select p xs ≡ xs
  unfolding select
  select-of_All p [] h = refl
  select-of_All p (x ∷ xs) (e, h) = rw (e, select-of_All p xs h)

  pub select-none : (p : A → Bool) (xs : List A) → All (λ x. p x ≡ false) xs → select p xs ≡ []
  unfolding select
  select-none p [] h = refl
  select-none p (x ∷ xs) (e, h) = rw (e, select-none p xs h)

  -- An UPDATE that takes its rows out of a selection.
  pub Sub-update_where :
      (p q : A → Bool) (f : A → A)
      → ((x : A) → p (f x) ≡ false)
      → (xs : List A) → Sub (select p (update_where q f xs)) (select p xs)
  unfolding select update_where
  Sub-update_where p q f out [] = nothing
  Sub-update_where p q f out (x ∷ xs) = elim (Bool-cases (q x)) [
    | inl hit ↦ elim (Bool-cases (p x)) [
      | inl in_p ↦ rw (hit, out x, in_p) (skip x (Sub-update_where p q f out xs))
      | inr not_p ↦ rw (hit, out x, not_p) (Sub-update_where p q f out xs)
    ]
    | inr miss ↦ elim (Bool-cases (p x)) [
      | inl in_p ↦ rw (miss, in_p) (keep x (Sub-update_where p q f out xs))
      | inr not_p ↦ rw (miss, not_p) (Sub-update_where p q f out xs)
    ]
  ]

  pub Sub-delete_where :
      (p q : A → Bool) (xs : List A) → Sub (select p (delete_where q xs)) (select p xs)
  unfolding select delete_where
  Sub-delete_where p q [] = nothing
  Sub-delete_where p q (x ∷ xs) = elim (Bool-cases (q x)) [
    | inl hit ↦ elim (Bool-cases (p x)) [
      | inl in_p ↦ rw (hit, in_p) (skip x (Sub-delete_where p q xs))
      | inr not_p ↦ rw (hit, not_p) (Sub-delete_where p q xs)
    ]
    | inr miss ↦ elim (Bool-cases (p x)) [
      | inl in_p ↦ rw (miss, in_p) (keep x (Sub-delete_where p q xs))
      | inr not_p ↦ rw (miss, not_p) (Sub-delete_where p q xs)
    ]
  ]
