-- ===== src/Common.antt =====
-- The names that the other modules share: those of the libraries, passed on, and those of the
-- children (Boolean tests, lists over the native numbers, the outcome of fallible code, and the
-- comparisons of the C library).
mod Tests
mod Lists
mod Fallible
pub mod Memory
pub use Tests.*
pub use Lists.*
pub use Fallible.*
unfoldable pub use Memory.*
pub use Prim.Native.Nat.{ℕ, zero, suc, ◌+◌, ◌-◌, ◌*◌, ◌^◌, ◌≤◌, ◌<◌}
pub use mathlib.Core.Path.{◌≡◌, refl, sym, ap, ◌∙◌, subst}
pub use mathlib.Core.Logic.{◌≢◌, ◌↔◌, ◌⊎◌, inl, inr}
pub use mathlib.Core.Bool.{Bool, true, false, not, ◌&&◌, ◌||◌}
pub use mathlib.Core.Option.{Option, none, some}
pub use mathlib.Core.List.{List, [], ◌∷◌, ◌++◌, map}
pub use native.Mathlib.Omega.{arith}
