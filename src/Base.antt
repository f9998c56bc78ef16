-- ===== src/Base.antt =====
-- The names that the modules of the development share: the libraries', passed on, and the helpers
-- on tests, lists and binary digits of the three children.
pub mod Checks
pub mod Lists
pub mod Ordered
pub mod Options
pub mod Binary
pub mod Bytes
pub mod Text
pub mod Int
pub use Checks.{ltb, leb, ◌==◌, if◌then◌else◌, Bool-cases, ==_iff}
pub use Lists.{length, get_elem?, get_or, take, drop, replicate, length-append}
pub use Prim.Native.Nat.{ℕ, zero, suc, ◌+◌, ◌-◌, ◌*◌, ◌/◌, ◌%◌, ◌^◌, ◌≤◌, ◌<◌, bit_and, bit_or}
pub use mathlib.Core.Path.{◌≡◌, refl, sym, ap, ◌∙◌}
pub use mathlib.Core.Logic.{◌≢◌, ◌↔◌, ◌⊎◌, inl, inr}
pub use mathlib.Core.Bool.{Bool, true, false, not, ◌&&◌, ◌||◌}
pub use mathlib.Core.Option.{Option, none, some}
pub use mathlib.Core.List.{List, [], ◌∷◌, ◌++◌, map}
pub use native.Mathlib.Omega.{arith}
