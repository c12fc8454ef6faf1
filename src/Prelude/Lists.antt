-- ===== src/Prelude/Lists.antt =====
-- Lists measured by native numbers, and Python's `in`, `any`, `all`, `next` and comprehensions.
use Prim.Native.Nat.{ℕ, zero, suc, ◌+◌}
use mathlib.Core.Path.{◌≡◌, refl}
use mathlib.Core.Logic.{inl, inr}
use mathlib.Core.Bool.{Bool, true, false, ◌&&◌, ◌||◌}
use mathlib.Core.List.{List, [], ◌∷◌, ◌++◌}
use mathlib.Core.Option.{Option, none, some}
use native.Mathlib.Omega.{arith}
use project_bourne.Prelude.Tests.{nat_beq, Equality, ◌==◌, if◌then◌else◌, Bool-cases}

-- `n or 1`
abbrev pub or_one : Option ℕ → ℕ
or_one none = 1
or_one (some n) = if nat_beq n 0 then 1 else n

module _ {ℓ} {A : Type ℓ} where
  abbrev pub length : List A → ℕ
  length [] = 0
  length (x ∷ xs) = suc (length xs)

  abbrev pub get_elem? : List A → ℕ → Option A
  get_elem? [] i = none
  get_elem? (x ∷ xs) zero = some x
  get_elem? (x ∷ xs) (suc i) = get_elem? xs i

  -- `xs[:n]`
  abbrev pub take : ℕ → List A → List A
  take zero xs = []
  take (suc n) [] = []
  take (suc n) (x ∷ xs) = x ∷ take n xs

  abbrev pub is_empty : List A → Bool
  is_empty [] = true
  is_empty (x ∷ xs) = false

  -- `any(p(x) for x in xs)`
  abbrev pub any : (A → Bool) → List A → Bool
  any p [] = false
  any p (x ∷ xs) = p x || any p xs

  -- `all(p(x) for x in xs)`
  abbrev pub all : (A → Bool) → List A → Bool
  all p [] = true
  all p (x ∷ xs) = p x && all p xs

  -- `[x for x in xs if p(x)]`
  abbrev pub filter : (A → Bool) → List A → List A
  filter p [] = []
  filter p (x ∷ xs) = let rest = filter p xs in if p x then x ∷ rest else rest

  -- `next((x for x in xs if p(x)), None)`
  abbrev pub find : (A → Bool) → List A → Option A
  find p [] = none
  find p (x ∷ xs) = if p x then some x else find p xs

  -- A predicate by recursion computes to tuples.
  abbrev pub All {κ} : (A → Type κ) → List A → Type κ
  All P [] = Unit
  All P (x ∷ xs) = P x × All P xs

module _ {ℓ} {A : Type ℓ} ⦃e : Equality A⦄ where
  -- `x in xs`
  abbrev pub contains : List A → A → Bool
  contains [] a = false
  contains (x ∷ xs) a = a == x || contains xs a

-- `list(dict.fromkeys(xs))`: the first of each value, in order.
module _ {ℓ} {A : Type ℓ} ⦃e : Equality A⦄ where
  abbrev pub dedupe_from : List A → List A → List A
  dedupe_from seen [] = []
  dedupe_from seen (x ∷ xs) =
      let skipped = dedupe_from seen xs in
      let kept = x ∷ dedupe_from (x ∷ seen) xs in if contains seen x then skipped else kept

  abbrev pub dedupe : List A → List A
  dedupe xs = dedupe_from [] xs

  -- No value stands twice, nor among those seen.
  abbrev pub DistinctFrom : List A → List A → Type 0
  DistinctFrom seen [] = Unit
  DistinctFrom seen (x ∷ xs) = (contains seen x ≡ false) × DistinctFrom (x ∷ seen) xs

  abbrev pub Distinct : List A → Type 0
  Distinct xs = DistinctFrom [] xs

  dedupe_from-DistinctFrom : (seen xs : List A) → DistinctFrom seen (dedupe_from seen xs)
  dedupe_from-DistinctFrom seen [] = tt
  dedupe_from-DistinctFrom seen (x ∷ xs) = elim (Bool-cases (contains seen x)) [
    | inl h ↦ grind (arith, dedupe_from-DistinctFrom seen xs)
    | inr h ↦ grind (arith, dedupe_from-DistinctFrom (x ∷ seen) xs)
  ]

  pub dedupe-Distinct : (xs : List A) → Distinct (dedupe xs)
  dedupe-Distinct xs = dedupe_from-DistinctFrom [] xs

  seen_of :
      (seen xs : List A) (x a : A)
      → contains seen x ≡ true
      → (contains xs a || contains seen a) ≡ (contains (x ∷ xs) a || contains seen a)
  seen_of seen xs x a h = elim (Bool-cases (e.is_equal a x)) [
    | inl p ↦ ground (arith, h, (e.is_equal_iff a x).0 p)
    | inr p ↦ ground (arith, p)
  ]

  contains-dedupe_from :
      (seen xs : List A) (a : A)
      → (contains (dedupe_from seen xs) a || contains seen a) ≡ (contains xs a || contains seen a)
  contains-dedupe_from seen [] a = refl
  contains-dedupe_from seen (x ∷ xs) a = elim (Bool-cases (contains seen x)) [
    | inl h ↦ ground (arith, h, contains-dedupe_from seen xs a, seen_of seen xs x a h)
    | inr h ↦ ground (arith, h, contains-dedupe_from (x ∷ seen) xs a)
  ]

  pub contains-dedupe : (xs : List A) (a : A) → contains (dedupe xs) a ≡ contains xs a
  contains-dedupe xs a = ground (arith, contains-dedupe_from [] xs a)

module _ {ℓ} {A : Type ℓ} where
  pub length-append : (xs ys : List A) → length (xs ++ ys) ≡ length xs + length ys
  length-append [] ys = omega arith
  length-append (x ∷ xs) ys = omega (arith, length-append xs ys)

module _ {ℓ κ} {A : Type ℓ} where
  pub All-append : (P : A → Type κ) (xs ys : List A) → All P xs → All P ys → All P (xs ++ ys)
  All-append P [] ys hx hy = hy
  All-append P (x ∷ xs) ys hx hy = (hx.0, All-append P xs ys hx.1 hy)

  pub All-map : (P Q : A → Type κ) → ((a : A) → P a → Q a) → (xs : List A) → All P xs → All Q xs
  All-map P Q f [] h = tt
  All-map P Q f (x ∷ xs) h = (f x h.0, All-map P Q f xs h.1)
