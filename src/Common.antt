-- ===== src/Common.antt =====
-- The names that the other modules share: the libraries', passed on, and those of the children.
mod Tests
mod Lists
mod Eq
mod Bytes
mod Dict
mod Runes
pub mod Sort
pub use Tests.*
pub use Lists.*
pub use Eq.{Equality, ◌==◌, contains, contains_iff}
unfoldable pub use Bytes.{text_eq}
pub use Bytes.{Text, text, text_eq_iff, text_equality, number_equality}
pub use Dict.*
unfoldable pub use Runes.{is_rune_start, back_up}
pub use Runes.{
  take, drop, take-append-drop, length-take, length-drop, take-drop, drop-drop, byte_at, back_up-le,
  IsBoundary, back_up-IsBoundary,
}
unfoldable pub use Sort.{insert, sort}
pub use Sort.{sort-perm, All-sort, Sorted, sort-Sorted, In-sort}
pub use mathlib.Core.List.{Perm}
pub use Prim.Native.Nat.{ℕ, zero, suc, ◌+◌, ◌-◌, ◌*◌, ◌/◌, ◌%◌, ◌^◌, ◌≤◌, ◌<◌, min, max}
pub use mathlib.Core.Path.{◌≡◌, refl, sym, ap, ◌∙◌, subst}
pub use mathlib.Core.Logic.{◌≢◌, ◌↔◌, ◌⊎◌, inl, inr}
pub use mathlib.Core.Bool.{Bool, true, false, not, ◌&&◌, ◌||◌}
pub use mathlib.Core.Option.{Option, none, some}
pub use mathlib.Core.List.{List, [], ◌∷◌, ◌++◌, map}
pub use native.Mathlib.Omega.{arith}
