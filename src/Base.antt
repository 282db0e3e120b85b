-- ===== src/Base.antt =====
-- The names that the other modules share: those of the libraries and of the children below.
mod Bools
mod Lists
mod Strings
pub mod StringLaws
pub mod Dict
pub mod Utf8
pub mod Line
mod Unicode
mod Results
unfoldable pub use Bools.*
unfoldable pub use Lists.*
unfoldable pub use Strings.*
unfoldable pub use Unicode.*
unfoldable pub use Results.*
pub use Prim.Native.Nat.{ℕ, zero, suc, ◌+◌, ◌-◌, ◌*◌, ◌/◌, ◌%◌, ◌≤◌, ◌<◌}
pub use Prim.Native.String.{String}
pub use mathlib.Core.Path.{◌≡◌, refl, sym, ap, ◌∙◌, fun_ext}
pub use mathlib.Core.Logic.{◌≢◌, ◌↔◌, ◌⊎◌, inl, inr}
pub use mathlib.Core.Bool.{Bool, true, false, not, ◌&&◌, ◌||◌}
pub use mathlib.Core.Option.{Option, none, some}
pub use mathlib.Core.List.{List, [], ◌∷◌, ◌++◌, map, append-nil, append_assoc}
pub use native.Mathlib.Omega.{arith}
