-- ===== src/Common/Decimal.antt =====
-- The decimal digits of a number, as `format!` writes an unsigned integer, and `parse`, as
-- `from_str` of an unsigned integer reads one.
use Prim.Native.Nat.{ℕ, zero, suc, ◌+◌, ◌-◌, ◌*◌, ◌/◌, ◌%◌, ◌<◌}
use mathlib.Core.Path.{◌≡◌, refl, ap, ◌∙◌}
use mathlib.Core.Logic.{inl, inr}
use mathlib.Core.Bool.{Bool, true, false, ◌&&◌}
use mathlib.Core.Option.{Option, none, some}
use mathlib.Core.List.{[], ◌∷◌}
use native.Mathlib.Omega.{arith}
use stream_sub_translator.Common.Tests.{◌==◌, leb, ltb, Bool-cases}
use stream_sub_translator.Common.Lists.{All}
use stream_sub_translator.Common.Texts.{Text}

unfoldable pub digits_from : ℕ → ℕ → Text → Text
digits_from zero n acc = acc
digits_from (suc fuel) n acc = elim (n / 10 == 0) [
  | true ↦ (48 + n % 10) ∷ acc
  | false ↦ digits_from fuel (n / 10) ((48 + n % 10) ∷ acc)
]

-- A number has no more digits than one more than itself.
unfoldable pub decimal : ℕ → Text
unfolding digits_from
decimal n = digits_from (suc n) n []

abbrev pub is_digit : ℕ → Bool
is_digit c = leb 48 c && leb c 57

-- The digits that are left, after a number; none for another character, and for a number that is
-- not below the bound.
read_digits : ℕ → ℕ → Text → Option ℕ
read_digits bound n [] = some n
read_digits bound n (c ∷ s) = elim (is_digit c && ltb (n * 10 + (c - 48)) bound) [
  | true ↦ read_digits bound (n * 10 + (c - 48)) s
  | false ↦ none
]

read_number : ℕ → Text → Option ℕ
unfolding read_digits
read_number bound [] = none
read_number bound (c ∷ s) = read_digits bound 0 (c ∷ s)

-- With a sign `+` or without it.
unfoldable pub parse_unsigned : ℕ → Text → Option ℕ
unfolding read_number
parse_unsigned bound [] = none
parse_unsigned bound (c ∷ s) = elim (c == 43) [
  | true ↦ read_number bound s
  | false ↦ read_number bound (c ∷ s)
]

digit_test :
    (n m bound : ℕ)
    → n * 10 + m < bound
    → m < 10
    → (is_digit (48 + m) && ltb (n * 10 + (48 + m - 48)) bound) ≡ true
digit_test n m bound h d = ground arith

read_digit :
    (bound n : ℕ) (rest : Text)
    → n < bound
    → read_digits bound (n / 10) ((48 + n % 10) ∷ rest) ≡ read_digits bound n rest
unfolding read_digits
read_digit bound n rest h =
    rw (read_digits, digit_test (n / 10) (n % 10) bound (omega arith) (omega arith))
      (ap (λ m. read_digits bound m rest) (omega arith))

quotient_zero : (n : ℕ) → (n / 10 == 0) ≡ true → 0 ≡ n / 10
quotient_zero n e = ground arith

digits_read :
    (fuel n bound : ℕ) (rest : Text)
    → n < fuel
    → n < bound
    → read_digits bound 0 (digits_from fuel n rest) ≡ read_digits bound n rest
unfolding digits_from
digits_read zero n bound rest f h = absurd (omega arith)
digits_read (suc fuel) n bound rest f h = elim (Bool-cases (n / 10 == 0)) [
  | inl e ↦
      rw (digits_from, e)
        (ap (λ m. read_digits bound m ((48 + n % 10) ∷ rest)) (quotient_zero n e)
          ∙ read_digit bound n rest h)
  | inr e ↦
      rw (digits_from, e)
        (digits_read fuel (n / 10) bound ((48 + n % 10) ∷ rest) (ground arith) (omega arith)
          ∙ read_digit bound n rest h)
]

-- A text that begins with a digit, and one of digits only.
abbrev StartsWithDigit : Text → Type 0
StartsWithDigit [] = ⊥
StartsWithDigit (c ∷ s) = is_digit c ≡ true

digits_from-StartsWithDigit :
    (fuel n : ℕ) (acc : Text) → n < fuel → StartsWithDigit (digits_from fuel n acc)
unfolding digits_from
digits_from-StartsWithDigit zero n acc h = absurd (omega arith)
digits_from-StartsWithDigit (suc fuel) n acc h = elim (Bool-cases (n / 10 == 0)) [
  | inl e ↦ rw (digits_from, e) (ground arith)
  | inr e ↦
      rw (digits_from, e)
        (digits_from-StartsWithDigit fuel (n / 10) ((48 + n % 10) ∷ acc) (ground arith))
]

parse_digits :
    (bound : ℕ) (s : Text) → StartsWithDigit s → parse_unsigned bound s ≡ read_digits bound 0 s
unfolding parse_unsigned read_number
parse_digits bound [] h = absurd h
parse_digits bound (c ∷ s) h = elim (Bool-cases (c == 43)) [
  | inl e ↦ absurd (ground arith)
  | inr e ↦ rw (parse_unsigned, e) refl
]

-- A number below the bound is read as it is written.
pub parse-decimal : (bound n : ℕ) → n < bound → parse_unsigned bound (decimal n) ≡ some n
unfolding decimal read_digits
parse-decimal bound n h =
    parse_digits bound (digits_from (suc n) n [])
      (digits_from-StartsWithDigit (suc n) n [] (omega arith))
    ∙ digits_read (suc n) n bound [] (omega arith) h

-- Digits only, and none of them another character.
abbrev pub AreDigits : Text → Type 0
AreDigits s = All (λ c. is_digit c ≡ true) s

the_digit : (n : ℕ) → is_digit (48 + n % 10) ≡ true
the_digit n = ground arith

digits_from-AreDigits :
    (fuel n : ℕ) (acc : Text) → AreDigits acc → AreDigits (digits_from fuel n acc)
unfolding digits_from
digits_from-AreDigits zero n acc h = h
digits_from-AreDigits (suc fuel) n acc h =
    let d = the_digit n in
    elim (Bool-cases (n / 10 == 0)) [
      | inl e ↦ rw (digits_from, e) (d, h)
      | inr e ↦
          rw (digits_from, e) (digits_from-AreDigits fuel (n / 10) ((48 + n % 10) ∷ acc) (d, h))
    ]

pub decimal-AreDigits : (n : ℕ) → AreDigits (decimal n)
unfolding decimal
decimal-AreDigits n = digits_from-AreDigits (suc n) n [] tt
