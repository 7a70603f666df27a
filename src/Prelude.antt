-- ===== src/Prelude.antt =====
-- Names, tests and lemmas that the other modules share: the libraries' names passed on, the
-- Boolean tests, lists over the native numbers, 64-bit integers and equality by instances.
mod Tests
mod Lists
mod Equality
mod Int
mod Sort
mod Order
mod Members
mod Ranks
pub use Tests.*
pub use Lists.*
pub use Equality.*
unfoldable pub use Sort.{insert_sorted, sort}
pub use Order.{IsStrictOrder, sort-sort}
pub use Int.*
pub use Members.*
pub use Ranks.{drop-sort, count-select}
pub use Prim.Native.Nat.{ℕ, zero, suc, ◌+◌, ◌-◌, ◌*◌, ◌/◌, ◌%◌, ◌^◌, ◌≤◌, ◌<◌, min, max}
pub use mathlib.Core.Path.{◌≡◌, refl, sym, ap, subst, ◌∙◌}
pub use mathlib.Core.Logic.{◌≢◌, ◌↔◌, ◌⊎◌, inl, inr}
pub use mathlib.Core.Bool.{Bool, true, false, not, ◌&&◌, ◌||◌}
pub use mathlib.Core.Option.{Option, none, some}
pub use mathlib.Core.List.{List, [], ◌∷◌, ◌++◌, map}
pub use native.Mathlib.Omega.{arith}
