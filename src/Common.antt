-- ===== src/Common.antt =====
-- The names that the other modules share: the libraries', passed on, and those of the children.
mod Tests
mod Lists
mod Search
pub mod Sort
mod Text
mod Numeral
pub mod Chars
pub mod Paging
pub mod Cursor
pub mod Dict
pub mod Int
pub use Tests.*
pub use Lists.*
pub use Search.*
unfoldable pub use Text.{
  before, after?, ends_with, show, show_from, split_on, append_char, template, unix_lines, includes,
  last_is_empty, pop, pad4, utf16_units, utf16_length, text_length, text_take, text_drop,
}
pub use Text.{split_on-ne-nil}
unfoldable pub use Numeral.{digits, number}
pub use Numeral.{number-show}
pub use Prim.Native.Nat.{ℕ, zero, suc, ◌+◌, ◌-◌, ◌*◌, ◌/◌, ◌%◌, ◌^◌, ◌≤◌, ◌<◌, max, min}
pub use Prim.Native.String.{String}
pub use mathlib.Core.Path.{ap₂, fun_ext, ◌≡◌, refl, sym, ap, ◌∙◌, subst, ◌≡⟨◌⟩◌, ◌∎}
pub use mathlib.Core.Logic.{◌≢◌, ◌↔◌, ◌⊎◌, inl, inr}
pub use mathlib.Core.Bool.{Bool, true, false, not, ◌&&◌, ◌||◌}
pub use mathlib.Core.Option.{Option, none, some}
pub use mathlib.Core.List.{Memᴰ}
pub use mathlib.Core.List.{List, [], ◌∷◌, ◌++◌, map, append-nil, append_assoc}
pub use native.Mathlib.Omega.{arith}
pub use text.Mathlib.Text.{◌==◌}
pub use text.Mathlib.TextEquality.{eq_iff}
pub use text.Mathlib.TextPositions.{eq_refl}
