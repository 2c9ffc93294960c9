-- ===== src/Prelude.antt =====
-- The names that every module of the library shares: those of the libraries, passed on, the tests
-- of numbers and texts, and tables as lists of rows.
mod Tests
mod Rows
mod Int
mod Texts
mod Chars
pub use Tests.*
pub use Int.*
unfoldable pub use Texts.*
pub use Chars.*
unfoldable pub use Rows.*
pub use Rows.Laws.*
pub use Rows.Order.*
pub use Rows.Exists.*
pub use Rows.Parts.*
pub use Prim.Native.Nat.{ℕ, zero, suc, ◌+◌, ◌-◌, ◌*◌, ◌/◌, ◌%◌, ◌^◌, ◌≤◌, ◌<◌}
pub use Prim.Native.String.{String}
pub use mathlib.Core.Path.{◌≡◌, refl, sym, ap, ◌∙◌, subst}
pub use mathlib.Core.Logic.{◌≢◌, ◌↔◌, ◌⊎◌, inl, inr}
pub use mathlib.Core.Bool.{Bool, true, false, not, ◌&&◌, ◌||◌}
pub use mathlib.Core.Option.{Option, none, some}
pub use mathlib.Core.List.{List, [], ◌∷◌, ◌++◌, map}
pub use native.Mathlib.Omega.{arith}
pub use text.Mathlib.Text.{◌==◌ as text_eq}
pub use text.Mathlib.TextEquality.{eq_iff}
