-- ===== src/Base.antt =====
-- The names that the other modules share: the libraries', passed on, and those of the children
-- `Tests`, `Lists` and `Outcomes`.
mod Tests
mod Lists
mod Outcomes
pub mod Int
pub mod Order
pub mod Text
pub mod Map
pub mod Set
pub mod Sum
pub mod Sort
pub mod Bytes
pub use Tests.*
pub use Lists.*
pub use Outcomes.*
pub use Prim.Native.Nat.{ℕ, zero, suc, ◌+◌, ◌-◌, ◌*◌, ◌/◌, ◌%◌, ◌^◌, ◌≤◌, ◌<◌}
pub use mathlib.Core.Path.{◌≡◌, refl, sym, ap, ◌∙◌}
pub use mathlib.Core.Logic.{◌≢◌, ◌↔◌, ◌⊎◌, inl, inr}
pub use mathlib.Core.Bool.{Bool, true, false, not, ◌&&◌, ◌||◌}
pub use mathlib.Core.Option.{Option, none, some}
pub use mathlib.Core.List.{List, [], ◌∷◌, ◌++◌, map}
pub use native.Mathlib.Omega.{arith}
