-- ===== src/Prelude/Cuts.antt =====
-- Go's strings.Cut, strings.TrimPrefix and the last place of a character, and how they take apart a
-- text that was put together.
use Prim.Native.Nat.{ℕ}
use Prim.Native.Char.{Char, code}
use Prim.Native.String.{String, [], ◌∷◌}
use mathlib.Core.Path.{◌≡◌, refl, ap}
use mathlib.Core.Bool.{Bool, true, false, not, ◌&&◌}
use mathlib.Core.Option.{Option, none, some}
use native.Mathlib.Omega.{arith}
use x_ui_subpage.Prelude.Tests.{eqb, eqb_refl, if◌then◌else◌}

-- The rest of a text behind a prefix.
abbrev pub strip_prefix : String → String → Option String
strip_prefix [] s = some s
strip_prefix (c ∷ prefix) [] = none
strip_prefix (c ∷ prefix) (d ∷ s) =
    let rest = strip_prefix prefix s in if eqb (code c) (code d) then rest else none

abbrev pub put_front : Char → Option (String × String) → Option (String × String)
put_front c none = none
put_front c (some (before, after)) = some (c ∷ before, after)

abbrev pub here_or_later : Option String → Option (String × String) → Option (String × String)
here_or_later (some after) later = some ([], after)
here_or_later none later = later

-- strings.Cut
unfoldable pub cut : String → String → Option (String × String)
cut [] sep = here_or_later (strip_prefix sep []) none
cut (c ∷ s) sep =
    let later = cut s sep in here_or_later (strip_prefix sep (c ∷ s)) (put_front c later)

-- strings.TrimPrefix
abbrev pub trim_prefix : String → String → String
trim_prefix s prefix = elim (strip_prefix prefix s) [ some rest ↦ rest | none ↦ s ]

abbrev pub later_or_here :
    Option (String × String) → Option (String × String) → Option (String × String)
later_or_here (some parts) here = some parts
later_or_here none here = here

-- The text before and behind the last place of a character, as strings.LastIndexByte finds it.
unfoldable pub cut_last : ℕ → String → Option (String × String)
cut_last n [] = none
cut_last n (c ∷ s) =
    let later = put_front c (cut_last n s) in
    later_or_here later (if eqb n (code c) then some ([], s) else none)

-- The second text behind the first one.
unfoldable pub joined : String → String → String
joined [] t = t
joined (c ∷ s) t = c ∷ joined s t

-- The text has no character with the number.
abbrev pub Lacks : ℕ → String → Type 0
Lacks n [] = Unit
Lacks n (c ∷ s) = (eqb n (code c) ≡ false) × Lacks n s

-- A text is cut at the first place of a character.
pub cut-joined :
    (c : Char) (a b : String) → Lacks (code c) a → cut (joined a (c ∷ b)) (c ∷ []) ≡ some (a, b)
unfolding cut joined
cut-joined c [] b lacks = rw (eqb_refl (code c)) refl
cut-joined c (d ∷ a) b (ne, lacks) = rw ne (ap (put_front d) (cut-joined c a b lacks))

pub cut-none : (c : Char) (a : String) → Lacks (code c) a → cut a (c ∷ []) ≡ none
unfolding cut
cut-none c [] lacks = refl
cut-none c (d ∷ a) (ne, lacks) = rw ne (ap (put_front d) (cut-none c a lacks))

cut_last-none : (n : ℕ) (a : String) → Lacks n a → cut_last n a ≡ none
unfolding cut_last
cut_last-none n [] lacks = refl
cut_last-none n (d ∷ a) (ne, lacks) = rw (ne, cut_last-none n a lacks) refl

pub cut_last-joined :
    (c : Char) (a b : String)
    → Lacks (code c) b
    → cut_last (code c) (joined a (c ∷ b)) ≡ some (a, b)
unfolding cut_last joined
cut_last-joined c [] b lacks = rw (eqb_refl (code c), cut_last-none (code c) b lacks) refl
cut_last-joined c (d ∷ a) b lacks = rw (cut_last-joined c a b lacks) refl

-- A character that neither of two texts has, their joined text has not.
pub joined-Lacks : (n : ℕ) (a b : String) → Lacks n a → Lacks n b → Lacks n (joined a b)
unfolding joined
joined-Lacks n [] b la lb = lb
joined-Lacks n (d ∷ a) b (ne, la) lb = (ne, joined-Lacks n a b la lb)

unfoldable pub lacks : ℕ → String → Bool
lacks n [] = true
lacks n (c ∷ s) = not (eqb n (code c)) && lacks n s

pub lacks-Lacks : (n : ℕ) (s : String) → lacks n s ≡ true → Lacks n s
unfolding lacks
lacks-Lacks n [] e = tt
lacks-Lacks n (c ∷ s) e = (ground (arith, e), lacks-Lacks n s (ground (arith, e)))
