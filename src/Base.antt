-- ===== src/Base.antt =====
-- The names that the components share: those of the libraries, passed on, the Boolean tests,
-- list helpers over the native numbers, the order that JavaScript gives texts, a stable sort and
-- JavaScript's Map as an association list.
pub mod Tests
pub mod Lists
pub mod Strings
pub mod Sets
pub mod Sorting
pub mod Maps
pub mod Objects
pub use Tests.*
pub use Lists.*
pub use Strings.*
pub use Sets.*
pub use Prim.Native.Nat.{ℕ, zero, suc, ◌+◌, ◌-◌, ◌*◌, ◌/◌, ◌%◌, ◌≤◌, ◌<◌}
pub use Prim.Native.String.{String}
pub use mathlib.Core.Path.{◌≡◌, refl, sym, ap, ◌∙◌}
pub use mathlib.Core.Logic.{◌≢◌, ◌↔◌, ◌⊎◌, inl, inr}
pub use mathlib.Core.Bool.{Bool, true, false, not, ◌&&◌, ◌||◌}
pub use mathlib.Core.Option.{Option, none, some}
pub use mathlib.Core.List.{List, [], ◌∷◌, ◌++◌, map}
pub use native.Mathlib.Omega.{arith}
pub use text.Mathlib.Text.{◌==◌}
pub use text.Mathlib.TextEquality.{eq_iff}
pub use text.Mathlib.TextPositions.{eq_refl}
