-- ===== src/Base.antt =====
-- The names that the other modules share: the libraries' own, passed on, Boolean tests and list
-- operations over the native numbers, the signed integers of C (`int`, `int32_t`), and the `do`
-- blocks of code that may fault.
mod Tests
mod Lists
mod Run
pub mod Int
pub use Tests.*
pub use Lists.*
pub use Run.*
pub use Prim.Native.Nat.{ℕ, zero, suc, ◌+◌, ◌-◌, ◌*◌, ◌/◌, ◌%◌, ◌^◌, ◌≤◌, ◌<◌}
pub use mathlib.Core.Path.{◌≡◌, refl, subst, sym, ap, ◌∙◌}
pub use mathlib.Core.Logic.{◌≢◌, ◌↔◌, ◌⊎◌, inl, inr}
pub use mathlib.Core.Bool.{Bool, true, false, not, ◌&&◌, ◌||◌}
pub use mathlib.Core.Option.{Option, none, some}
pub use mathlib.Core.List.{List, [], ◌∷◌, ◌++◌, map, append_assoc, append-nil}
pub use native.Mathlib.Omega.{arith}
