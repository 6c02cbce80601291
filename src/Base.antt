-- ===== src/Base.antt =====
-- The names that the other modules share: the libraries', passed on, and those of the children.
pub mod Tests
pub mod Lists
pub mod Results
pub mod Eq
pub mod Finite
pub mod Dict
pub mod Machine
pub mod Integers
pub mod Texts
pub use Texts.{Text, codes, lower, lower_code, starts_with, includes_text, starts_with-append}
pub use Tests.*
pub use Lists.*
pub use Results.*
pub use Eq.{
  Equality, ◌==◌, nat_equality, string_equality, list_equality, ==_refl, ==_sym, ne-==, contains,
  contains-append,
}
pub use Prim.Native.Nat.{ℕ, zero, suc, ◌+◌, ◌-◌, ◌*◌, ◌/◌, ◌%◌, ◌≤◌, ◌<◌, min, max}
pub use Prim.Native.String.{String}
pub use mathlib.Core.Path.{◌≡◌, refl, sym, ap, subst, ◌∙◌}
pub use mathlib.Core.Logic.{◌≢◌, ◌↔◌, ◌⊎◌, inl, inr}
pub use mathlib.Core.Bool.{Bool, true, false, not, ◌&&◌, ◌||◌}
pub use mathlib.Core.Option.{Option, none, some}
pub use mathlib.Core.List.{List, [], ◌∷◌, ◌++◌, map, append-nil, append_assoc}
pub use native.Mathlib.Omega.{arith}
