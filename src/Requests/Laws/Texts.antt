-- ===== src/Requests/Laws/Texts.antt =====
-- The checks on texts accept what they accepted before, whatever the label.
use project_bourne.Prelude.{
  ℕ, ◌≡◌, refl, ap, String, Bool, true, false, List, [], ◌∷◌, leb, length, suc, arith,
}
use project_bourne.Prelude.Checks.{value}
use project_bourne.Json.{str, arr, items_length}
use project_bourne.Requests.Values.{
  bounded_text, bounded_string, bounded_texts, bounded_strings, validate_string_list, string_list,
  validate_json_bounds, validate_items,
}
use project_bourne.Requests.Document.{texts}

pub bounded_text-any :
    (l m : String) (b : Bool) (s : String)
    → bounded_text false l s ≡ value tt
    → bounded_text b m s ≡ value tt
unfolding bounded_text
bounded_text-any l m true s h = ground (arith, h)
bounded_text-any l m false s h = ground (arith, h)

pub bounded_string-again :
    (l m : String) (s : String)
    → bounded_text false l s ≡ value tt
    → bounded_string m (str s) ≡ value s
unfolding bounded_string
bounded_string-again l m s h = rw (bounded_text-any l m false s h) refl

pub bounded_texts-head :
    (l : String) (s : String) (rest : List String)
    → bounded_texts l (s ∷ rest) ≡ value tt
    → (bounded_text false l s ≡ value tt) × (bounded_texts l rest ≡ value tt)
unfolding bounded_texts
bounded_texts-head l s rest h = ground (arith, h)

pub bounded_strings-texts :
    (l m : String) (xs : List String)
    → bounded_texts l xs ≡ value tt
    → bounded_strings m (texts xs) ≡ value xs
unfolding bounded_strings
bounded_strings-texts l m [] h = refl
bounded_strings-texts l m (s ∷ rest) h =
    let (first, more) = bounded_texts-head l s rest h in
    rw (bounded_string-again l m s first, bounded_strings-texts l m rest more) refl

pub items_length-texts : (xs : List String) → items_length (texts xs) ≡ length xs
items_length-texts [] = refl
items_length-texts (s ∷ rest) = ap suc (items_length-texts rest)

pub string_list-texts :
    (l m : String) (n : ℕ) (b : Bool) (xs : List String)
    → validate_string_list l n b xs ≡ value tt
    → string_list m n b (arr (texts xs)) ≡ value xs
unfolding string_list validate_string_list
string_list-texts l m n b [] h = ground (arith, h, bounded_strings-texts l m [])
string_list-texts l m n b (s ∷ rest) h =
    ground (arith, h, items_length-texts (s ∷ rest), bounded_strings-texts l m (s ∷ rest))

pub validate_items-texts :
    (l : String) (d : ℕ) (xs : List String)
    → leb d 12 ≡ true
    → bounded_texts l xs ≡ value tt
    → validate_items d (texts xs) ≡ value tt
unfolding validate_json_bounds
validate_items-texts l d [] p h = refl
validate_items-texts l d (s ∷ rest) p h =
    let (first, more) = bounded_texts-head l s rest h in
    rw (p, bounded_text-any l "request string" true s first, validate_items-texts l d rest p more)
      refl
