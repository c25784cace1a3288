-- ===== src/Prelude/Strings.antt =====
-- strings.Contains, by walking the text.
use Prim.Native.Char.{Char, code}
use Prim.Native.String.{String, [], ◌∷◌, ◌++◌}
use Prim.Native.String.append
use mathlib.Core.Path.{◌≡◌, sym, subst}
use mathlib.Core.Bool.{Bool, true, false, ◌&&◌, ◌||◌}
use native.Mathlib.Omega.{arith}
use x_ui_subpage.Prelude.Tests.{eqb}

abbrev pub begins : String → String → Bool
begins [] s = true
begins (c ∷ part) [] = false
begins (c ∷ part) (d ∷ s) = eqb (code c) (code d) && begins part s

unfoldable pub contains : String → String → Bool
contains [] part = begins part []
contains (c ∷ s) part = begins part (c ∷ s) || contains s part

contains_later :
    (c : Char) (s part : String) → contains s part ≡ true → contains (c ∷ s) part ≡ true
unfolding contains
contains_later c s part e = ground (arith, e)

-- What stands in the second of two texts stands in both together.
pub contains-append : (s t part : String) → contains t part ≡ true → contains (s ++ t) part ≡ true
contains-append [] t part e = subst (λ x. contains x part ≡ true) (sym (append.nil t)) e
contains-append (c ∷ s) t part e =
    subst (λ x. contains x part ≡ true) (sym (append.cons c s t))
      (contains_later c (s ++ t) part (contains-append s t part e))
