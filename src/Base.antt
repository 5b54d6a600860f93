-- ===== src/Base.antt =====
-- The names that the other modules share: the libraries' names passed on, Boolean tests, JavaScript
-- strings as lists of code units, dictionaries for plain objects, and decimal numerals.
mod Tests
mod Lists
pub mod Text
pub mod Dict
pub mod Decimal
pub mod Search
pub mod Options
unfoldable pub use Tests.*
unfoldable pub use Lists.*
unfoldable pub use Text.{Str, js, str_eq, is_in}
pub use Text.{str_eq_iff, str_eq_refl, str_eq-false, str_eq-eq}
pub use Prim.Native.Nat.{ℕ, zero, suc, ◌+◌, ◌-◌, ◌*◌, ◌/◌, ◌%◌, ◌^◌, ◌≤◌, ◌<◌}
pub use mathlib.Core.Path.{◌≡◌, refl, sym, ap, ◌∙◌}
pub use mathlib.Core.Logic.{◌≢◌, ◌↔◌, ◌⊎◌, inl, inr}
pub use mathlib.Core.Bool.{Bool, true, false, not, ◌&&◌, ◌||◌}
pub use mathlib.Core.Option.{Option, none, some}
pub use mathlib.Core.List.{List, [], ◌∷◌, ◌++◌}
pub use native.Mathlib.Omega.{arith}
