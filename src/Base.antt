-- ===== src/Base.antt =====
-- Names that the other modules share: the libraries', passed on, tests on numbers, machine words,
-- lists by native positions, and the outcome of a C call.
mod Tests
mod Word
mod Lists
mod Calls
mod Int
mod Steps
pub use Tests.*
pub use Word.*
pub use Lists.*
pub use Calls.*
pub use Int.*
pub use Steps.*
pub use Prim.Native.Nat.{ℕ, zero, suc, ◌+◌, ◌-◌, ◌*◌, ◌/◌, ◌%◌, ◌^◌, ◌≤◌, ◌<◌, bit_and, bit_or}
pub use mathlib.Core.Path.{◌≡◌, refl, sym, ap, ◌∙◌, subst}
pub use mathlib.Core.Logic.{◌≢◌, ◌↔◌, ◌⊎◌, inl, inr}
pub use mathlib.Core.Bool.{Bool, true, false, ◌&&◌, ◌||◌, not}
pub use mathlib.Core.Option.{Option, none, some}
pub use mathlib.Core.List.{List, [], ◌∷◌, ◌++◌}
pub use native.Mathlib.Omega.{arith}
