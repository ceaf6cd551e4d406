-- ===== src/Common.antt =====
-- Names that the other modules share: the libraries' names passed on, tests on numbers and
-- texts, native list functions, and the maps and sets that stand for the program's hash tables.
mod Tests
mod Lists
mod Maps
mod Texts
mod MapLaws
mod Decimal
mod Words
pub use Tests.*
pub use Lists.*
unfoldable pub use Maps.{keys, lookup, insert, remove}
pub use Maps.{lookup-insert, lookup-insert_self, lookup-remove_ne}
unfoldable pub use Texts.{
  Text, codes, Text-discrete, same, is_empty, byte_len, is_whitespace, trim_start, trim,
  to_ascii_lowercase, join,
}
pub use MapLaws.*
unfoldable pub use Words.{
  words_from, split_whitespace, split, split_from, IsSolid, IsWord, IsFree, space,
}
pub use Words.{
  same_self, split-first, trim-solid, split_whitespace-join, split-join, words-IsFree,
  split_whitespace-IsWord,
}
unfoldable pub use Decimal.{decimal, digits_from, is_digit, parse_unsigned, AreDigits}
pub use Decimal.{parse-decimal, decimal-AreDigits}
pub use Prim.Native.Nat.{ℕ, zero, suc, ◌+◌, ◌-◌, ◌*◌, ◌/◌, ◌%◌, ◌^◌, ◌≤◌, ◌<◌, min, max}
pub use mathlib.Core.Path.{◌≡◌, refl, sym, ap, ◌∙◌, subst}
pub use mathlib.Core.Logic.{◌≢◌, ◌↔◌, ◌⊎◌, inl, inr, ite, dite, if_pos, if_neg}
pub use mathlib.Core.Bool.{Bool, true, false, not, ◌&&◌, ◌||◌}
pub use mathlib.Core.Option.{Option, none, some}
pub use mathlib.Core.List.{List, [], ◌∷◌, ◌++◌, map, append_assoc, append-nil}
pub use native.Mathlib.Omega.{arith}
unfoldable pub use native.Mathlib.Decide.{dec_lt, dec_le, ℕ_discrete}
