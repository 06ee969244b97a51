-- ===== src/Prelude.antt =====
-- The names that the other modules share: the libraries', passed on, and those of the children.
-- Nothing here models code of its own: Tests has Boolean tests and case lemmas, Lists has lists
-- over the native numbers, Assoc has maps, Int has Rust's signed integers, Text has what the code
-- does with strings and Results has the outcomes of a call.
mod Tests
mod Lists
mod Int
pub mod Assoc
mod Results
pub mod Maps
pub mod Loops
pub mod Digits
mod Text
pub use Tests.*
pub use Lists.*
unfoldable pub use Int.*
pub use Assoc.{Eq, string_eq}
pub use Results.*
unfoldable pub use Text.*
pub use Prim.Native.Nat.{ℕ, zero, suc, ◌+◌, ◌-◌, ◌*◌, ◌/◌, ◌%◌, ◌^◌, ◌≤◌, ◌<◌}
pub use Prim.Native.String.{String}
pub use mathlib.Core.Path.{◌≡◌, refl, sym, ap, ◌∙◌}
pub use mathlib.Core.Logic.{◌≢◌, ◌↔◌, ◌⊎◌, inl, inr}
pub use mathlib.Core.Bool.{Bool, true, false, not, ◌&&◌, ◌||◌}
pub use mathlib.Core.Option.{Option, none, some}
pub use mathlib.Core.List.{List, [], ◌∷◌, ◌++◌, map}
pub use native.Mathlib.Omega.{arith}
pub use text.Mathlib.TextEquality.{eq_iff}
pub use text.Mathlib.TextPositions.{eq_refl}
