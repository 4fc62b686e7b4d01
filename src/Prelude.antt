-- ===== src/Prelude.antt =====
-- The names that the other modules share: those of the libraries, passed on, and those of the
-- children (tests, lists, dictionaries with text keys, orders and sorting).
mod Tests
mod Lists
mod Maps
pub mod Order
pub mod Result
pub mod Distinct
pub mod Texts
pub mod Integers
pub mod Files
pub use Tests.*
unfoldable pub use Lists.*
unfoldable pub use Maps.*
pub use Prim.Native.Nat.{ℕ, zero, suc, ◌+◌, ◌-◌, ◌*◌, ◌/◌, ◌%◌, ◌^◌, ◌≤◌, ◌<◌}
pub use Prim.Native.String.{String}
pub use mathlib.Core.Path.{◌≡◌, refl, sym, ap, subst, ◌∙◌}
pub use mathlib.Core.Logic.{◌≢◌, ◌↔◌, ◌⊎◌, inl, inr}
pub use mathlib.Core.Bool.{Bool, true, false, ◌&&◌, ◌||◌}
unfoldable pub use mathlib.Core.Bool.{not}
pub use mathlib.Core.Option.{Option, none, some}
pub use mathlib.Core.List.{List, [], ◌∷◌, ◌++◌}
unfoldable pub use mathlib.Core.List.{map}
pub use native.Mathlib.Omega.{arith}
pub use text.Mathlib.Text.{◌==◌}
pub use text.Mathlib.TextEquality.{eq_iff}
pub use text.Mathlib.TextPositions.{eq_refl}
