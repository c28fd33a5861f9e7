-- ===== src/Prelude.antt =====
-- The names that the other modules share: the libraries' names passed on, and those of the
-- children. It models no code of the repository by itself.
mod Tests
mod Lists
mod Strings
mod Fallible
mod Slices
mod Keys
unfoldable pub use Tests.*
unfoldable pub use Lists.*
unfoldable pub use Strings.*
unfoldable pub use Fallible.*
pub use Slices.*
pub use Keys.*
pub use Prim.Native.Nat.{ℕ, zero, suc, ◌+◌, ◌-◌, ◌*◌, ◌/◌, ◌%◌, ◌^◌, ◌≤◌, ◌<◌, min}
pub use mathlib.Core.Path.{◌≡◌, refl, sym, ap, ◌∙◌}
pub use mathlib.Core.Logic.{◌≢◌, ◌↔◌, ◌⊎◌, inl, inr}
pub use mathlib.Core.Bool.{Bool, true, false, not, ◌&&◌, ◌||◌}
pub use mathlib.Core.Option.{Option, none, some}
pub use mathlib.Core.List.{List, [], ◌∷◌, ◌++◌, map}
pub use native.Mathlib.Omega.{arith}
