-- ===== src/Base.antt =====
-- Shared by every component: the names passed on from the libraries, Boolean tests on the native
-- numbers, lists indexed by them, and the outcome of a piece of Go code that may panic or block.
pub use Prim.Native.Nat.{ℕ, zero, suc, ◌+◌, ◌-◌, ◌*◌, ◌/◌, ◌%◌, ◌^◌, ◌≤◌, ◌<◌}
pub use Prim.Native.String.{String}
pub use mathlib.Core.Path.{◌≡◌, refl, sym, ap, ◌∙◌}
pub use mathlib.Core.Logic.{◌≢◌, ◌↔◌, ◌⊎◌, inl, inr}
pub use mathlib.Core.Bool.{Bool, true, false, not, ◌&&◌, ◌||◌}
pub use mathlib.Core.Option.{Option, none, some}
pub use mathlib.Core.List.{List, [], ◌∷◌, ◌++◌, map}
pub use native.Mathlib.Omega.{arith}
mod Tests
mod Lists
mod Outcomes
pub mod Int
pub use Tests.*
pub use Lists.*
pub use Outcomes.*
