-- ===== src/Prelude.antt =====
-- Shared vocabulary of the development: library names passed on, Python's `if`, tests on keys,
-- lists, insertion-ordered dictionaries and the exceptions that the modelled code raises.
pub mod Tests
pub mod Lists
pub mod Sets
pub mod Dict
pub mod Text
pub mod Numerals
pub use Prim.Native.Nat.{ℕ, zero, suc, ◌+◌, ◌-◌, ◌≤◌, ◌<◌}
pub use Prim.Native.String.{String}
pub use mathlib.Core.Path.{◌≡◌, refl, sym, ap, ◌∙◌, subst}
pub use mathlib.Core.Logic.{◌≢◌, ◌↔◌, ◌⊎◌, inl, inr}
pub use mathlib.Core.Bool.{Bool, true, false, ◌&&◌, ◌||◌, not}
pub use mathlib.Core.Option.{Option, none, some}
pub use mathlib.Core.List.{List, [], ◌∷◌, ◌++◌, map}
pub use native.Mathlib.Omega.{arith}
