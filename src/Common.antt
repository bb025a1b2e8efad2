-- ===== src/Common.antt =====
-- The names that the other modules share: the libraries', passed on, and those of the children.
mod Tests
mod Lists
mod Eq
mod Maps
mod Members
mod Ints
mod Options
pub use Members.*
pub use Options.*
pub use Tests.*
pub use Lists.*
pub use Eq.{EqOn, ◌==◌, ==_refl, ==_true, ==_false, Text, codes, text_eq_iff, nat_eq_on, text_eq_on}
unfoldable pub use Eq.{text_eq}
pub use Maps.{
  Map, keys, lookup-insert, lookup-delete, IsDistinct, insert-IsDistinct, delete-IsDistinct,
  not-member-lookup, lookup-none-member,
}
unfoldable pub use Maps.{lookup, insert, delete, member}
pub use Ints.{ℤ, pos, negsuc, pos_part, neg_part, ltb_ℤ, leb_ℤ, ◌<ℤ◌, ◌≤ℤ◌, eqb_ℤ, eqb_ℤ_iff}
pub use Prim.Native.Nat.{ℕ, zero, suc, ◌+◌, ◌-◌, ◌*◌, ◌/◌, ◌%◌, ◌^◌, ◌≤◌, ◌<◌}
pub use mathlib.Core.Path.{◌≡◌, refl, sym, ap, ◌∙◌, subst}
pub use mathlib.Core.Logic.{◌≢◌, ◌↔◌, ◌⊎◌, inl, inr}
pub use mathlib.Core.Bool.{Bool, true, false, not, ◌&&◌, ◌||◌}
pub use mathlib.Core.Option.{Option, none, some}
pub use mathlib.Core.List.{List, [], ◌∷◌, ◌++◌, map}
pub use native.Mathlib.Omega.{arith}
