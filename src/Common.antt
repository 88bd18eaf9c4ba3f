-- ===== src/Common.antt =====
-- The names that every module shares: those of the libraries, passed on, tests on numbers and
-- bytes, lists measured by native numbers, and the result of Go code that may panic.
mod Tests
mod Lists
mod Panics
mod Text
mod Maps
mod Integers
pub use Tests.*
pub use Lists.*
pub use Panics.*
unfoldable pub use Maps.*
unfoldable pub use Integers.*
unfoldable pub use Text.*
pub use Prim.Native.Nat.{ℕ, zero, suc, ◌+◌, ◌-◌, ◌*◌, ◌/◌, ◌%◌, ◌^◌, ◌≤◌, ◌<◌}
pub use mathlib.Core.Path.{◌≡◌, refl, sym, ap, ◌∙◌}
pub use mathlib.Core.Logic.{◌≢◌, ◌↔◌, ◌⊎◌, inl, inr}
pub use mathlib.Core.Bool.{Bool, true, false, not, ◌&&◌, ◌||◌}
pub use mathlib.Core.Option.{Option, none, some}
pub use mathlib.Core.List.{List, [], ◌∷◌, ◌++◌, map, reverse}
pub use native.Mathlib.Omega.{arith}
