-- ===== src/Tracing/Tests.antt =====
-- A circle of recorded parents, and instances of the theorems on it.
use project_bourne.Prelude.{
  ◌≡◌, ◌≢◌, refl, sym, ap, ◌∙◌, Bool, false, Option, none, String, string_eq, ◌==◌, true, some,
  List, [], ◌∷◌, contains, Distinct, if◌then◌else◌, arith,
}
use project_bourne.Tracing.{Store, running, walked, behind, walk, ancestry}
use project_bourne.Tracing.Laws.{Chain, ancestry-ends, ancestry-Chain}

-- The parent of the third is the second, of the second the first, and of the first the second.
abbrev circle : Store
circle = record {
  parent_of = λ c. if c == "second" then some "first" else some "second";
  has = λ c. true;
}

abbrev known : List String
known = "first" ∷ "second" ∷ []

abbrev is_known : Option String → Bool
is_known none = true
is_known (some p) = contains known p

known_parent : (b : Bool) → is_known (if b then some "first" else some "second") ≡ true
known_parent true = refl
known_parent false = refl

parents_known : (c p : String) → circle.parent_of c ≡ some p → contains known p ≡ true
parents_known c p h = sym (ap is_known h) ∙ known_parent (c == "second")

ancestry-ends_example : ancestry circle 3 "third" ≢ running
ancestry-ends_example = ancestry-ends circle known "third" 3 parents_known (omega arith)

circle_walked : ancestry circle 3 "third" ≡ walked ("second" ∷ "first" ∷ [])
unfolding ancestry walk behind
circle_walked = refl

ancestry-Chain_example :
    Distinct {A = String} ("third" ∷ "second" ∷ "first" ∷ [])
    × Chain circle ("third" ∷ []) "third" ("second" ∷ "first" ∷ [])
ancestry-Chain_example = ancestry-Chain circle 3 "third" ("second" ∷ "first" ∷ []) circle_walked
