-- ===== src/Base.antt =====
-- What the modules share: names of the libraries, passed on, and the children's own.
pub mod Tests
pub mod Lists
pub mod Pairs
pub mod Sorting
pub mod Int
pub mod Map
pub mod Case
pub mod Text
pub mod Effect
pub mod Frame
pub mod Guards
pub use Prim.Native.Nat.{ℕ, zero, suc, ◌+◌, ◌-◌, ◌*◌, ◌/◌, ◌%◌, ◌^◌, ◌≤◌, ◌<◌}
pub use Prim.Native.String.{String}
pub use mathlib.Core.Path.{◌≡◌, refl, sym, ap, ◌∙◌, subst, subst₂}
pub use mathlib.Core.Logic.{◌≢◌, ◌↔◌, ◌⊎◌, inl, inr}
pub use mathlib.Core.Bool.{Bool, true, false, not, ◌&&◌, ◌||◌}
pub use mathlib.Core.Option.{Option, none, some}
pub use mathlib.Core.List.{List, [], ◌∷◌, ◌++◌, map}
pub use native.Mathlib.Omega.{arith}
pub use text.Mathlib.Text.{◌==◌ as str_eq}
pub use text.Mathlib.TextEquality.{eq_iff}
pub use text.Mathlib.TextPositions.{eq_refl}
pub use Tests.*
unfoldable pub use Lists.*
unfoldable pub use Pairs.*
unfoldable pub use Sorting.*
unfoldable pub use Int.*
unfoldable pub use Map.*
unfoldable pub use Text.*
