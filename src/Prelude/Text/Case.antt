-- ===== src/Prelude/Text/Case.antt =====
-- A text that is folded stays as it is.
use Prim.Native.Char.{Char, code}
use Prim.Native.Nat.{◌-◌, ◌<◌}
use Prim.Native.String.{String}
use mathlib.Core.Path.{◌≡◌, refl}
use mathlib.Core.Logic.{inl, inr}
use mathlib.Core.Bool.{true, false, not}
use native.Mathlib.Omega.{arith}
use project_bourne.Prelude.Tests.{every_below, every_below-at, Bool-cases}
use project_bourne.Prelude.Text.{is_upper, char_at_offset, lower_char, casefold}

lower_letters :
    (c : Char)
    → every_below 26 (λ k. not (is_upper (code (char_at_offset k "abcdefghijklmnopqrstuvwxyz" c))))
      ≡ true
lower_letters c = refl

lower-lower_char : (c : Char) → lower_char (lower_char c) ≡ lower_char c
unfolding lower_char
lower-lower_char c = elim (Bool-cases (is_upper (code c))) [
  | inr h ↦ rw (h, h) refl
  | inl h ↦ rw (h, letter h) refl
]
  where
    offset : is_upper (code c) ≡ true → code c - b'A' < 26
    offset h = ground (arith, h)

    letter :
        is_upper (code c) ≡ true
        → is_upper (code (char_at_offset (code c - b'A') "abcdefghijklmnopqrstuvwxyz" c)) ≡ false
    letter h = ground (
      arith,
      every_below-at 26
          (λ k. not (is_upper (code (char_at_offset k "abcdefghijklmnopqrstuvwxyz" c))))
          (code c - b'A') (lower_letters c) (offset h),
    )

pub casefold-casefold : (s : String) → casefold (casefold s) ≡ casefold s
casefold-casefold String.[] = refl
casefold-casefold (String.◌∷◌ c s) = rw (lower-lower_char c, casefold-casefold s) refl
