-- ===== src/Prelude.antt =====
-- The names that all modules share: the library's, passed on, and those of the children.
mod Tests
mod Lists
pub mod Int
pub mod Decimal
pub mod Parse
mod Texts
mod Tables
mod Unique
mod Keyed
pub use Tests.*
pub use Lists.*
pub use Texts.*
unfoldable pub use Tables.{find_by, find, replace, without}
unfoldable pub use Lists.{select, any, sort_by, insert_by}
unfoldable pub use Texts.{text_eq, show}
pub use Tables.*
unfoldable pub use Unique.{count}
pub use Unique.*
unfoldable pub use Keyed.{take}
pub use Keyed.*
pub use Prim.Native.Nat.{ℕ, zero, suc, ◌+◌, ◌-◌, ◌*◌, ◌/◌, ◌%◌, ◌^◌, ◌≤◌, ◌<◌, max, min}
pub use mathlib.Core.Path.{◌≡◌, refl, sym, ap, ◌∙◌}
pub use mathlib.Core.Logic.{◌≢◌, ◌↔◌, ◌⊎◌, inl, inr}
pub use mathlib.Core.Bool.{Bool, true, false, not, ◌&&◌, ◌||◌}
pub use mathlib.Core.Option.{Option, none, some}
pub use mathlib.Core.List.{List, [], ◌∷◌, ◌++◌, map}
pub use native.Mathlib.Omega.{arith}
