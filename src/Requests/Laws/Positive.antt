-- ===== src/Requests/Laws/Positive.antt =====
-- Amounts of memory and time that are parsed are at least one.
use Prim.Native.Char.{code}
use project_bourne.Prelude.{
  ℕ, zero, suc, ◌+◌, ◌*◌, ◌-◌, ◌≤◌, ◌≡◌, inl, inr, String, nat_eq, true, Option, none, some, List,
  [], ◌∷◌, Bool-cases, if◌then◌else◌, arith,
}
use project_bourne.Prelude.Int.{pos, negsuc}
use project_bourne.Prelude.Text.{is_digit, digits_value, span, split_on}
use project_bourne.Prelude.Checks.{refused, Holds}
use project_bourne.Json.{Json, null, bool, int, float, str, arr, obj}
use project_bourne.Requests.Amounts.{
  is_positive_decimal, power_of_unit, memory_unit, memory_text, parse_memory, duration_unit,
  duration, is_colon, clock_seconds, walltime_text, parse_walltime, scaled, memory_refusal,
  scaled_duration, or_clock, clock_or_refused,
}

abbrev pub Positive : ℕ → Type 0
Positive n = 1 ≤ n

abbrev OfSome : Option ℕ → Type 0
OfSome none = Unit
OfSome (some n) = 1 ≤ n

digits_value-le : (n : ℕ) (s : String) → n ≤ digits_value n s
digits_value-le n String.[] = omega arith
digits_value-le n (String.◌∷◌ c s) = omega (arith, digits_value-le (n * 10 + (code c - b'0')) s)

value-Positive : (s : String) → is_positive_decimal s ≡ true → Positive (digits_value 0 s)
value-Positive String.[] h = absurd (ground (arith, h))
value-Positive (String.◌∷◌ c s) h = ground (arith, h, digits_value-le (0 * 10 + (code c - b'0')) s)

power-Positive : (c : ℕ) → OfSome (power_of_unit c)
power-Positive c = ground arith

memory_unit-Positive : (s : String) → OfSome (memory_unit s)
unfolding memory_unit
memory_unit-Positive String.[] = omega arith
memory_unit-Positive (String.◌∷◌ c s) = ground (arith, power-Positive (code c))

times-Positive : (m n : ℕ) → Positive m → Positive n → Positive (m * n)
times-Positive zero n p q = absurd (omega (arith, p))
times-Positive (suc m) zero p q = absurd (omega (arith, q))
times-Positive (suc m) (suc n) p q = omega arith

memory_text-Positive : (s : String) → Holds Positive (memory_text s)
unfolding memory_text
memory_text-Positive s =
    split (span is_digit s).0 (memory_unit (span is_digit s).1)
      (memory_unit-Positive (span is_digit s).1)
  where
    split :
        (digits : String) (unit : Option ℕ)
        → OfSome unit
        → Holds Positive (
            if is_positive_decimal digits
            then scaled (digits_value 0 digits) memory_refusal unit
            else refused memory_refusal)
    split digits none h = ground arith
    split digits (some n) h = elim (Bool-cases (is_positive_decimal digits)) [
      | inl p ↦ rw p (times-Positive (digits_value 0 digits) n (value-Positive digits p) h)
      | inr p ↦ rw p tt
    ]

pub parse_memory-Positive : (v : Json) → Holds Positive (parse_memory v)
unfolding parse_memory
parse_memory-Positive (int (pos n)) = ground arith
parse_memory-Positive (int (negsuc n)) = tt
parse_memory-Positive (str s) = memory_text-Positive s
parse_memory-Positive null = tt
parse_memory-Positive (bool b) = tt
parse_memory-Positive (float f) = tt
parse_memory-Positive (arr items) = tt
parse_memory-Positive (obj fields) = tt

duration_unit-Positive : (c : ℕ) → OfSome (duration_unit c)
duration_unit-Positive c = ground arith

duration-Positive : (digits s : String) → OfSome (duration digits s)
duration-Positive digits String.[] = tt
duration-Positive digits (String.◌∷◌ c String.[]) =
    split (duration_unit (code c)) (duration_unit-Positive (code c))
  where
    split : (unit : Option ℕ) → OfSome unit → OfSome (scaled_duration digits unit)
    split none h = tt
    split (some n) h = elim (Bool-cases (is_positive_decimal digits)) [
      | inl p ↦ rw p (times-Positive (digits_value 0 digits) n (value-Positive digits p) h)
      | inr p ↦ rw p tt
    ]
duration-Positive digits (String.◌∷◌ c (String.◌∷◌ d s)) = tt

clock_seconds-Positive : (parts : List String) → OfSome (clock_seconds parts)
unfolding clock_seconds
clock_seconds-Positive [] = tt
clock_seconds-Positive (h ∷ []) = tt
clock_seconds-Positive (h ∷ m ∷ []) = tt
clock_seconds-Positive (h ∷ m ∷ s ∷ []) = ground arith
clock_seconds-Positive (h ∷ m ∷ s ∷ x ∷ rest) = tt

or_clock-Positive : (s : String) (o : Option ℕ) → OfSome o → Holds Positive (or_clock s o)
or_clock-Positive s (some n) h = h
or_clock-Positive s none h =
    split (clock_seconds (split_on is_colon s)) (clock_seconds-Positive (split_on is_colon s))
  where
    split : (o : Option ℕ) → OfSome o → Holds Positive (clock_or_refused o)
    split none k = tt
    split (some n) k = k

walltime_text-Positive : (s : String) → Holds Positive (walltime_text s)
unfolding walltime_text
walltime_text-Positive s = elim (Bool-cases (is_positive_decimal s)) [
  | inl p ↦ rw p (value-Positive s p)
  | inr p ↦ rw p (
      or_clock-Positive s (duration (span is_digit s).0 (span is_digit s).1)
        (duration-Positive (span is_digit s).0 (span is_digit s).1))
]

pub parse_walltime-Positive : (v : Json) → Holds Positive (parse_walltime v)
unfolding parse_walltime
parse_walltime-Positive (int (pos n)) = ground arith
parse_walltime-Positive (int (negsuc n)) = tt
parse_walltime-Positive (str s) = walltime_text-Positive s
parse_walltime-Positive null = tt
parse_walltime-Positive (bool b) = tt
parse_walltime-Positive (float f) = tt
parse_walltime-Positive (arr items) = tt
parse_walltime-Positive (obj fields) = tt
