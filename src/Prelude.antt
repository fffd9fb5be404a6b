-- ===== src/Prelude.antt =====
-- Names that every component shares: those of the libraries, passed on, and those of the children:
-- Boolean tests, lists, signed integers, texts as code points, association lists for
-- hash maps, and the lossy decoding of UTF-8.
mod Tests
mod Lists
mod Int
mod Strings
mod Assoc
mod Utf8
pub use Tests.*
pub use Lists.*
unfoldable pub use Int.*
unfoldable pub use Strings.*
unfoldable pub use Assoc.*
unfoldable pub use Utf8.{from_utf8_lossy}
pub use Utf8.{from_utf8_lossy_ascii, is_ascii}
pub use Prim.Native.Nat.{ℕ, zero, suc, ◌+◌, ◌-◌, ◌*◌, ◌/◌, ◌%◌, ◌≤◌, ◌<◌}
pub use Prim.Native.String.{String}
pub use mathlib.Core.Path.{◌≡◌, refl, sym, ap, subst, ◌∙◌}
pub use mathlib.Core.Logic.{◌≢◌, ◌↔◌, ◌⊎◌, inl, inr}
pub use mathlib.Core.Bool.{Bool, true, false, not, ◌&&◌, ◌||◌}
pub use mathlib.Core.Option.{Option, none, some}
pub use mathlib.Core.List.{List, [], ◌∷◌, ◌++◌, map, append-nil, append_assoc}
pub use native.Mathlib.Omega.{arith}
unfoldable pub use text.Mathlib.Text.{◌==◌ as str_eq}
pub use text.Mathlib.TextEquality.{eq_iff}
