-- ===== src/Prelude/Text/Decimal.antt =====
-- `str(n)` is made of digits, and `int` reads it back.
use Prim.Native.Char.{code}
use Prim.Native.Nat.{ℕ, zero, suc, ◌+◌, ◌-◌, ◌*◌, ◌/◌, ◌%◌, ◌<◌, ◌≤◌}
use Prim.Native.String.{String}
use mathlib.Core.Path.{◌≡◌, refl, ap}
use mathlib.Core.Logic.{inl, inr}
use mathlib.Core.Bool.{true, false, ◌&&◌}
use native.Mathlib.Omega.{arith}
use project_bourne.Prelude.Tests.{ltb, ltb→lt, nat_beq, every_below, every_below-at, Bool-cases}
use project_bourne.Prelude.Text.{
  is_digit, all_chars, digits_value, digit_char, decimal_from, decimal,
}

digits_checked :
    every_below 10 (λ d. nat_beq (code (digit_char d) - b'0') d && is_digit (code (digit_char d)))
    ≡ true
unfolding digit_char
digits_checked = refl

digit_checked :
    (d : ℕ)
    → d < 10
    → (nat_beq (code (digit_char d) - b'0') d && is_digit (code (digit_char d))) ≡ true
digit_checked d l =
    every_below-at 10
      (λ k. nat_beq (code (digit_char k) - b'0') k && is_digit (code (digit_char k))) d
      digits_checked l

value-digit_char : (d : ℕ) → d < 10 → code (digit_char d) - b'0' ≡ d
value-digit_char d l = ground (arith, digit_checked d l)

digits-decimal_from :
    (rounds n : ℕ) (out : String)
    → all_chars is_digit out ≡ true
    → all_chars is_digit (decimal_from rounds n out) ≡ true
unfolding decimal_from
digits-decimal_from zero n out h = h
digits-decimal_from (suc rounds) n out h = elim (Bool-cases (ltb n 10)) [
  | inl last ↦ ground (arith, last, h, digit_checked (n % 10) (omega arith))
  | inr more ↦ ground (
    arith,
    more,
    digits-decimal_from rounds (n / 10) (String.◌∷◌ (digit_char (n % 10)) out)
        (ground (arith, h, digit_checked (n % 10) (omega arith))),
  )
]

pub digits-decimal : (n : ℕ) → all_chars is_digit (decimal n) ≡ true
unfolding decimal
digits-decimal n = digits-decimal_from (suc n) n "" refl

value-decimal_from :
    (rounds n : ℕ) (out : String)
    → n < rounds
    → digits_value 0 (decimal_from rounds n out) ≡ digits_value n out
unfolding decimal_from
value-decimal_from zero n out l = absurd (omega (arith, l))
value-decimal_from (suc rounds) n out l = elim (Bool-cases (ltb n 10)) [
  | inl last ↦ ground (
    arith,
    last,
    ap (λ k. digits_value k out) (one (value-digit_char (n % 10) (omega arith)) (ltb→lt n 10 last)),
  )
  | inr more ↦ ground (
    arith,
    more,
    value-decimal_from rounds (n / 10) (String.◌∷◌ (digit_char (n % 10)) out)
        (omega (arith, l, tens more)),
    ap (λ k. digits_value k out) (both (value-digit_char (n % 10) (omega arith))),
  )
]
  where
    one :
        code (digit_char (n % 10)) - b'0' ≡ n % 10
        → n < 10
        → 0 * 10 + (code (digit_char (n % 10)) - b'0') ≡ n
    one v s = omega (arith, v, s)

    both :
        code (digit_char (n % 10)) - b'0' ≡ n % 10
        → n / 10 * 10 + (code (digit_char (n % 10)) - b'0') ≡ n
    both v = omega (arith, v)

    tens : ltb n 10 ≡ false → 10 ≤ n
    tens h = ground (arith, h)

pub value-decimal : (n : ℕ) → digits_value 0 (decimal n) ≡ n
unfolding decimal
value-decimal n = value-decimal_from (suc n) n "" (omega arith)
