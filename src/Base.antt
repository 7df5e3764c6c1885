-- ===== src/Base.antt =====
-- Names that every module shares: those of the libraries, passed on, Boolean tests, equality
-- as an instance, Go's `int` where an index may be -1, lists and association lists.
mod Tests
mod Equality
mod Ints
mod Member
mod Maps
unfoldable pub use Tests.*
unfoldable pub use Equality.*
unfoldable pub use Ints.*
unfoldable pub use Member.*
unfoldable pub use Maps.*
pub use Prim.Native.Nat.{ℕ, zero, suc, ◌+◌, ◌-◌, ◌*◌, ◌/◌, ◌%◌, ◌^◌, ◌≤◌, ◌<◌}
pub use Prim.Native.String.{String}
pub use mathlib.Core.Path.{◌≡◌, refl, sym, ap, subst, ◌∙◌}
pub use mathlib.Core.Logic.{◌≢◌, ◌↔◌, ◌⊎◌, inl, inr}
pub use mathlib.Core.Bool.{Bool, true, false, not, ◌&&◌, ◌||◌}
pub use mathlib.Core.Option.{Option, none, some}
pub use mathlib.Core.List.{List, [], ◌∷◌, ◌++◌, map}
pub use native.Mathlib.Omega.{arith}
