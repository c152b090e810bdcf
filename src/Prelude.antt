-- ===== src/Prelude.antt =====
-- The names that the other modules share: the libraries', passed on, and those of the children.
mod Tests
mod Lists
mod Int
mod Texts
mod Maps
mod Results
mod Sorting
pub use Tests.*
pub use Lists.*
pub use Int.*
pub use Texts.*
pub use Maps.*
pub use Results.*
pub use Sorting.*
unfoldable pub use Texts.{
  text_eq, text_ltb, is_space, drop_space, trim_space, is_blank, starts_with, contains,
}
unfoldable pub use Sorting.{sort_by, place}
unfoldable pub use Int.{inc64}
unfoldable pub use Maps.{lookup, insert, delete, has, keys, values, any_value}
pub use Prim.Native.Nat.{ℕ, zero, suc, ◌+◌, ◌-◌, ◌*◌, ◌/◌, ◌%◌, ◌^◌, ◌≤◌, ◌<◌}
pub use Prim.Native.String.{String}
pub use mathlib.Core.Path.{◌≡◌, refl, sym, ap, subst, ◌∙◌}
pub use mathlib.Core.Logic.{◌≢◌, ◌↔◌, ◌⊎◌, inl, inr}
pub use mathlib.Core.Bool.{Bool, true, false, not, ◌&&◌, ◌||◌}
pub use mathlib.Core.Option.{Option, none, some, get_or}
pub use mathlib.Core.List.{List, [], ◌∷◌, ◌++◌, map}
pub use native.Mathlib.Omega.{arith}
