-- ===== src/Base.antt =====
-- The names that the modules of the library share: the libraries', passed on, and the children's.
mod Tests
mod Lists
mod Orders
mod ListOrder
mod Sets
mod SetLaws
mod Dedupe
mod Dicts
mod Sorting
mod Strings
mod Trim
pub use Tests.*
pub use Lists.*
pub use Orders.*
pub use ListOrder.*
unfoldable pub use Sets.*
pub use SetLaws.*
unfoldable pub use Dedupe.*
unfoldable pub use Dicts.*
unfoldable pub use Sorting.*
unfoldable pub use Strings.*
unfoldable pub use Trim.*
pub use Prim.Native.Nat.{ℕ, zero, suc, ◌+◌, ◌-◌, ◌*◌, ◌/◌, ◌%◌, ◌≤◌, ◌<◌}
pub use Prim.Native.String.{String}
pub use mathlib.Core.Bool.{Bool, true, false, not, ◌&&◌, ◌||◌}
pub use mathlib.Core.List.{List, [], ◌∷◌, ◌++◌, map, append_assoc, append-nil}
pub use mathlib.Core.Logic.{◌≢◌, ◌↔◌, ◌⊎◌, inl, inr}
pub use mathlib.Core.Option.{Option, none, some}
pub use mathlib.Core.Path.{◌≡◌, refl, sym, ap, ap₂, subst, ◌∙◌}
pub use native.Mathlib.Omega.{arith}
