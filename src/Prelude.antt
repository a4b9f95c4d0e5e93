-- ===== src/Prelude.antt =====
-- The names that the other modules share: the libraries', passed on, and those of seven children;
-- Durations and Int are used by name.
mod Tests
mod Lists
mod Text
mod Search
mod Results
mod Maps
mod Sets
pub mod Int
pub mod Durations
pub use Tests.*
pub use Lists.*
pub use Search.*
pub use Results.*
pub use Sets.*
unfoldable pub use Maps.*
unfoldable pub use Text.*
pub use Prim.Native.Nat.{ℕ, zero, suc, ◌+◌, ◌-◌, ◌*◌, ◌/◌, ◌%◌, ◌^◌, ◌≤◌, ◌<◌, min, max}
pub use mathlib.Core.Path.{◌≡◌, refl, sym, ap, ◌∙◌, subst}
pub use mathlib.Core.Logic.{◌≢◌, ◌↔◌, ◌⊎◌, inl, inr}
pub use mathlib.Core.Bool.{Bool, true, false, ◌&&◌, ◌||◌, not}
pub use mathlib.Core.Option.{Option, none, some}
pub use mathlib.Core.List.{List, [], ◌∷◌, ◌++◌, map}
pub use native.Mathlib.Omega.{arith}
