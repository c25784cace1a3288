-- ===== src/Prelude.antt =====
-- The names that the other modules share: the libraries', passed on, and those of the children:
-- tests on numbers and lists, Go's errors, and the statements that the stores run on their tables.
mod Tests
mod Lists
mod Errors
mod Table
mod Strings
mod Texts
pub mod Int
mod Cuts
pub mod Sublists
pub use Tests.*
pub use Lists.*
unfoldable pub use Errors.*
unfoldable pub use Table.*
unfoldable pub use Strings.{contains}
unfoldable pub use Texts.{concat, has_suffix, trim_suffix}
unfoldable pub use Cuts.{cut, cut_last, joined, lacks}
pub use Cuts.{
  strip_prefix, trim_prefix, Lacks, cut-joined, cut-none, cut_last-joined, joined-Lacks,
  lacks-Lacks,
}
pub use Strings.{contains-append}
pub use Prim.Native.Nat.{ℕ, zero, suc, ◌+◌, ◌-◌, ◌*◌, ◌/◌, ◌%◌, ◌^◌, ◌≤◌, ◌<◌, min}
pub use Prim.Native.String.{String}
pub use mathlib.Core.Path.{◌≡◌, refl, sym, ap, subst, ◌∙◌, ◌≡⟨◌⟩◌, ◌∎}
pub use mathlib.Core.Logic.{◌≢◌, ◌↔◌, ◌⊎◌, inl, inr}
pub use mathlib.Core.Bool.{Bool, true, false, not, ◌&&◌, ◌||◌}
pub use mathlib.Core.Option.{Option, none, some}
pub use mathlib.Core.List.{List, [], ◌∷◌, ◌++◌, map, reverse}
pub use native.Mathlib.Omega.{arith}
pub use text.Mathlib.Text.{◌==◌}
pub use text.Mathlib.TextEquality.{eq_iff}
pub use text.Mathlib.TextPositions.{eq_refl}
