-- ===== src/Shared.antt =====
-- The names that every component shares: those of the libraries, passed on, and the helpers of the
-- modules below (tests and instances, lists as tables, Python's text methods, sessions that raise).
mod Compare
mod Lists
mod Strings
mod Tables
mod Session
mod Sort
mod Members
unfoldable pub use Compare.*
unfoldable pub use Lists.*
unfoldable pub use Strings.*
unfoldable pub use Tables.*
unfoldable pub use Session.*
unfoldable pub use Sort.*
pub use Members.*
pub use Prim.Native.Nat.{ℕ, zero, suc, ◌+◌, ◌-◌, ◌*◌, ◌/◌, ◌%◌, ◌≤◌, ◌<◌, min, max}
pub use Prim.Native.String.{String}
pub use mathlib.Core.Path.{◌≡◌, refl, sym, ap, subst, ◌∙◌}
pub use mathlib.Core.Logic.{◌≢◌, ◌↔◌, ◌⊎◌, inl, inr}
pub use mathlib.Core.Bool.{Bool, true, false, not, ◌&&◌, ◌||◌}
pub use mathlib.Core.Option.{Option, none, some}
pub use mathlib.Core.List.{List, [], ◌∷◌, ◌++◌, map}
pub use native.Mathlib.Omega.{arith}
