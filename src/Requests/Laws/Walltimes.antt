-- ===== src/Requests/Laws/Walltimes.antt =====
-- A walltime as a batch script writes it, read as a request reads it.
use Prim.Native.String.append
use project_bourne.Prelude.{
  ℕ, ◌+◌, ◌*◌, ◌/◌, ◌%◌, ◌≤◌, ◌<◌, ◌≡◌, refl, inl, inr, String, ◌<>◌, nat_eq, true, false, none,
  some, [], ◌∷◌, ltb, Bool-cases, every_below, every_below-at, arith,
}
use project_bourne.Prelude.Text.{all_chars, is_digit, is_empty_text, digits_value, span, decimal}
use project_bourne.Prelude.Checks.{value}
use project_bourne.Prelude.Text.Decimal.{value-decimal}
use project_bourne.Json.{str}
use project_bourne.Batch.Amounts.{two_digits, clock_parts, walltime}
use project_bourne.Batch.Laws.Walltime.{digits-two_digits, value-two_digits, split-walltime}
use project_bourne.Requests.Amounts.{
  is_positive_decimal, duration, is_sixtieth, clock_seconds, walltime_text, parse_walltime,
}

two_sixtieths : every_below 60 (λ n. is_sixtieth (two_digits n)) ≡ true
unfolding two_digits decimal
two_sixtieths = refl

two_digits-sixtieth : (n : ℕ) → n < 60 → is_sixtieth (two_digits n) ≡ true
two_digits-sixtieth n l = every_below-at 60 (λ k. is_sixtieth (two_digits k)) n two_sixtieths l

-- Digits in front of a colon.
span-colon :
    (s t : String) → all_chars is_digit s ≡ true → span is_digit (s <> (":" <> t)) ≡ (s, ":" <> t)
span-colon String.[] t h = rw (append.nil, append.cons, append.nil) refl
span-colon (String.◌∷◌ c s) t h =
    rw append.cons (ground (arith, h, span-colon s t (ground (arith, h))))

not_decimal : (s t : String) → is_positive_decimal (s <> (":" <> t)) ≡ false
not_decimal String.[] t = rw (append.nil, append.cons) refl
not_decimal (String.◌∷◌ c s) t = rw append.cons (ground (arith, not_digits s))
  where
    not_digits : (u : String) → all_chars is_digit (u <> (":" <> t)) ≡ false
    not_digits String.[] = rw (append.nil, append.cons) refl
    not_digits (String.◌∷◌ d u) = rw append.cons (ground (arith, not_digits u))

no_duration :
    (digits s t : String) → is_empty_text s ≡ false → duration digits (":" <> (s <> t)) ≡ none
no_duration digits String.[] t h = absurd (ground (arith, h))
no_duration digits (String.◌∷◌ c s) t h = rw (append.cons, append.nil, append.cons) refl

two_digits-some : (n : ℕ) → is_empty_text (two_digits n) ≡ false
unfolding two_digits
two_digits-some n = elim (Bool-cases (ltb n 10)) [
  | inl small ↦ rw (small, append.cons) refl
  | inr large ↦ rw large (nonempty (decimal n) (digits-value large))
]
  where
    nonempty : (s : String) → 1 ≤ digits_value 0 s → is_empty_text s ≡ false
    nonempty String.[] l = absurd (omega (arith, l))
    nonempty (String.◌∷◌ c s) l = refl

    digits-value : ltb n 10 ≡ false → 1 ≤ digits_value 0 (decimal n)
    digits-value large = ground (arith, large, value-decimal n)

clock_value :
    (n : ℕ)
    → 1 ≤ n
    → (let (hours, minutes, rest) = clock_parts n in
        clock_seconds (two_digits hours ∷ two_digits minutes ∷ two_digits rest ∷ []))
      ≡ some n
unfolding clock_seconds clock_parts
clock_value n l = ground (
  arith,
  l,
  two_digits-some (n / 3600),
  digits-two_digits (n / 3600),
  two_digits-sixtieth (n % 3600 / 60) (omega arith),
  two_digits-sixtieth (n % 3600 % 60) (omega arith),
  sum n,
)
  where
    sum :
        (n : ℕ)
        → digits_value 0 (two_digits (n / 3600)) * 3600
            + digits_value 0 (two_digits (n % 3600 / 60)) * 60
            + digits_value 0 (two_digits (n % 3600 % 60))
          ≡ n
    sum n = omega (
      arith,
      value-two_digits (n / 3600),
      value-two_digits (n % 3600 / 60),
      value-two_digits (n % 3600 % 60),
    )

-- The minutes and seconds.
abbrev tail : ℕ → String
tail n = two_digits (n % 3600 / 60) <> (":" <> two_digits (n % 3600 % 60))

plain_of : (n : ℕ) → is_positive_decimal (walltime n) ≡ false
unfolding walltime clock_parts
plain_of n = not_decimal (two_digits (n / 3600)) (tail n)

prefix_of : (n : ℕ) → span is_digit (walltime n) ≡ (two_digits (n / 3600), ":" <> tail n)
unfolding walltime clock_parts
prefix_of n = span-colon (two_digits (n / 3600)) (tail n) (digits-two_digits (n / 3600))

-- The text of a walltime of at least one second in a batch script is read as that number of
-- seconds by the parser of requests.
pub parse_walltime-walltime :
    (seconds : ℕ) → 1 ≤ seconds → parse_walltime (str (walltime seconds)) ≡ value seconds
unfolding parse_walltime walltime_text
parse_walltime-walltime n l = rw (plain, prefix, unitless, split-walltime n, clock_value n l) refl
  where
    plain : is_positive_decimal (walltime n) ≡ false
    plain = plain_of n

    prefix : span is_digit (walltime n) ≡ (two_digits (n / 3600), ":" <> tail n)
    prefix = prefix_of n

    unitless : duration (two_digits (n / 3600)) (":" <> tail n) ≡ none
    unitless =
        no_duration (two_digits (n / 3600)) (two_digits (n % 3600 / 60))
          (":" <> two_digits (n % 3600 % 60)) (two_digits-some (n % 3600 / 60))
