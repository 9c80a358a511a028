-- ===== src/Shared.antt =====
-- The names that every component shares: the libraries', passed on, Boolean tests, byte strings,
-- association lists, and the sentinel errors of the repository with its (value, error) results.
mod Tests
pub mod Strings
pub mod Maps
pub mod Segments
pub mod Errors
pub use Tests.*
unfoldable pub use Strings.*
unfoldable pub use Errors.*
unfoldable pub use Segments.*
pub use Prim.Native.Nat.{ℕ, zero, suc, ◌+◌, ◌-◌, ◌*◌, ◌/◌, ◌%◌, ◌≤◌, ◌<◌}
pub use Prim.Native.String.{String}
pub use mathlib.Core.Path.{◌≡◌, refl, sym, ap, ◌∙◌, subst}
pub use mathlib.Core.Logic.{◌≢◌, ◌↔◌, ◌⊎◌, inl, inr}
pub use mathlib.Core.Bool.{Bool, true, false, not, ◌&&◌, ◌||◌}
pub use mathlib.Core.Option.{Option, none, some}
pub use mathlib.Core.List.{List, [], ◌∷◌, ◌++◌, map, append_assoc, append-nil}
pub use native.Mathlib.Omega.{arith}
