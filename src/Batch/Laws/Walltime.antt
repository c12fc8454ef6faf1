-- ===== src/Batch/Laws/Walltime.antt =====
-- The text of a walltime of backends.py, split at its colons.
use Prim.Native.String.append
use project_bourne.Prelude.{
  ℕ, ◌≡◌, refl, ap, ◌∙◌, inl, inr, String, ◌<>◌, true, false, [], ◌∷◌, ltb, Bool-cases, arith,
}
use project_bourne.Prelude.Text.{any_char, all_chars, is_digit, split_on, digits_value}
use project_bourne.Prelude.Text.Decimal.{digits-decimal, value-decimal}
use project_bourne.Planning.Container.{is_separator}
use project_bourne.Batch.Amounts.{two_digits, clock_parts, walltime}
use project_bourne.Batch.Laws.Mounts.{is_colon, split-colon, split_alone}

no_separator : (s : String) → all_chars is_digit s ≡ true → any_char is_separator s ≡ false
no_separator String.[] h = refl
no_separator (String.◌∷◌ c s) h = ground (arith, h, no_separator s (ground (arith, h)))

pub digits-two_digits : (n : ℕ) → all_chars is_digit (two_digits n) ≡ true
unfolding two_digits
digits-two_digits n = elim (Bool-cases (ltb n 10)) [
  | inl small ↦ rw (small, append.cons, append.nil) (digits-decimal n)
  | inr large ↦ rw large (digits-decimal n)
]

pub value-two_digits : (n : ℕ) → digits_value 0 (two_digits n) ≡ n
unfolding two_digits
value-two_digits n = elim (Bool-cases (ltb n 10)) [
  | inl small ↦ rw (small, append.cons, append.nil) (value-decimal n)
  | inr large ↦ rw large (value-decimal n)
]

pub split-walltime :
    (n : ℕ)
    → let (hours, minutes, rest) = clock_parts n in
      split_on is_colon (walltime n) ≡ two_digits hours ∷ two_digits minutes ∷ two_digits rest ∷ []
unfolding walltime
split-walltime n =
    let (hours, minutes, rest) = clock_parts n in
    split-colon (two_digits hours) (two_digits minutes <> (":" <> two_digits rest)) (clean hours)
    ∙ ap (λ parts. two_digits hours ∷ parts)
        (split-colon (two_digits minutes) (two_digits rest) (clean minutes)
          ∙ ap (λ parts. two_digits minutes ∷ parts) (split_alone (two_digits rest) (clean rest)))
  where
    clean : (k : ℕ) → any_char is_separator (two_digits k) ≡ false
    clean k = no_separator (two_digits k) (digits-two_digits k)
