-- ===== src/Base.antt =====
-- Names and lemmas that every part shares: the libraries' names passed on, Boolean tests on native
-- numbers, arrays as functions, lists and options.
mod Tests
mod Arrays
pub mod Bits
pub mod Lists
pub mod Loops
pub mod Text
mod Options
mod Search
pub use Tests.*
pub use Options.*
pub use Arrays.*
pub use Search.*
pub use Prim.Native.Nat.{
  ℕ, zero, suc, ◌+◌, ◌-◌, ◌*◌, ◌/◌, ◌%◌, ◌^◌, ◌≤◌, ◌<◌, bit_and, bit_or, bit_xor,
}
pub use mathlib.Core.Path.{◌≡◌, refl, sym, ap, subst, ◌∙◌}
pub use mathlib.Core.Logic.{◌≢◌, ◌↔◌, ◌⊎◌, inl, inr}
pub use mathlib.Core.Bool.{Bool, true, false, not, ◌&&◌, ◌||◌}
pub use mathlib.Core.Option.{Option, none, some}
pub use mathlib.Core.List.{List, [], ◌∷◌, ◌++◌}
pub use native.Mathlib.Omega.{arith}
