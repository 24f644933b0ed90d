-- ===== src/Base.antt =====
-- The names that the other modules share: the libraries', passed on, and those of the children.
mod Tests
mod Lists
mod Strings
mod Eq
mod Outcome
pub mod HashMap
pub use Tests.*
pub use Lists.*
unfoldable pub use Strings.{is_prefix, contains_text, join}
pub use Strings.{
  is_prefix_append, is_prefix-rest, Holds, contains_text_iff, OneOf, HoldsNone, any_beq-OneOf,
  any_contains-HoldsNone,
}
unfoldable pub use Eq.{list_beq}
pub use Eq.{Equality, ◌==◌, nat_eq, text_eq, text_iff, text_self, Text, codes}
pub use Outcome.*
pub use Prim.Native.Nat.{ℕ, zero, suc, ◌+◌, ◌-◌, ◌*◌, ◌/◌, ◌%◌, ◌^◌, ◌≤◌, ◌<◌}
pub use mathlib.Core.Path.{◌≡◌, refl, sym, ap, ◌∙◌}
pub use mathlib.Core.Logic.{◌≢◌, ◌↔◌, ◌⊎◌, inl, inr}
pub use mathlib.Core.Bool.{Bool, true, false, not, ◌&&◌, ◌||◌}
pub use mathlib.Core.Option.{Option, none, some}
pub use mathlib.Core.List.{List, [], ◌∷◌, ◌++◌, map}
pub use native.Mathlib.Omega.{arith}
