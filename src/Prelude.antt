-- ===== src/Prelude.antt =====
-- The names that the other modules share: the libraries', passed on, and those of the children.
mod Tests
pub mod Int
mod Lists
mod Equality
mod Strings
pub mod Map
pub use Tests.*
pub use Lists.*
pub use Strings.*
pub use Equality.{PartialEq, ◌==◌, nat_eq, list_eqb_refl, list_eqb_iff, list_eq, contains}
unfoldable pub use Equality.{list_eqb}
unfoldable pub use Strings.{bytes, upper_byte, to_ascii_uppercase, is_ascii, decimal, int_text}
pub use Prim.Native.Nat.{ℕ, zero, suc, ◌+◌, ◌-◌, ◌*◌, ◌/◌, ◌%◌, ◌^◌, ◌≤◌, ◌<◌}
pub use mathlib.Core.Path.{◌≡◌, refl, sym, ap, ap₂, subst, subst₂, ◌∙◌}
pub use mathlib.Core.Logic.{◌≢◌, ◌↔◌, ◌⊎◌, inl, inr}
pub use mathlib.Core.Bool.{Bool, true, false, not, ◌&&◌, ◌||◌}
pub use mathlib.Core.Option.{Option, none, some}
pub use mathlib.Core.List.{List, [], ◌∷◌, ◌++◌, map}
pub use native.Mathlib.Omega.{arith}
