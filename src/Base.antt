-- ===== src/Base.antt =====
-- The names that every other module shares: the libraries', passed on, and those of the children
-- for tests, lists, options, equality, effects, tables, groups and integers.
pub mod Tests
pub mod Lists
pub mod Equality
pub mod Effects
pub mod Tables
pub mod Int
pub mod Grouping
pub mod Options
pub use Tests.*
pub use Lists.*
pub use Options.*
pub use Equality.{Eq, includes}
pub use Prim.Native.Nat.{ℕ, zero, suc, ◌+◌, ◌-◌, ◌*◌, ◌/◌, ◌%◌, ◌^◌, ◌≤◌, ◌<◌}
pub use Prim.Native.String.{String}
pub use mathlib.Core.Path.{◌≡◌, refl, sym, ap, ◌∙◌}
pub use mathlib.Core.Logic.{◌≢◌, ◌↔◌, ◌⊎◌, inl, inr}
pub use mathlib.Core.Bool.{Bool, true, false, not, ◌&&◌, ◌||◌}
pub use mathlib.Core.Option.{Option, none, some}
pub use mathlib.Core.List.{List, [], ◌∷◌, ◌++◌, map}
pub use native.Mathlib.Omega.{arith}
