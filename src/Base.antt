-- ===== src/Base.antt =====
-- What the other modules share: the libraries' names, passed on, and the tests, lists, words and
-- enumerations of the modules below.
mod Tests
mod Lists
pub mod Enum
pub mod Int
pub mod Float
pub use Tests.*
pub use Lists.*
pub use Enum.{
  Enumeration, index, iter, ◌==◌, ◌≟◌, update, update_self, update_ne, update_all,
  find_index-injective,
}
unfoldable pub use Enum.{find_index}
pub use Prim.Native.Nat.{ℕ, zero, suc, ◌+◌, ◌-◌, ◌*◌, ◌/◌, ◌%◌, ◌^◌, ◌≤◌, ◌<◌}
pub use mathlib.Core.Path.{◌≡◌, refl, sym, ap, ◌∙◌}
pub use mathlib.Core.Logic.{◌≢◌, ◌↔◌, ◌⊎◌, inl, inr, ite}
pub use mathlib.Core.Bool.{Bool, true, false, not, ◌&&◌, ◌||◌}
pub use mathlib.Core.Option.{Option, none, some}
pub use mathlib.Core.List.{List, [], ◌∷◌, ◌++◌, map}
pub use native.Mathlib.Omega.{arith}
