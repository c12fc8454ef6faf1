-- ===== src/Requests/Laws/Sections.antt =====
-- Looking up fields that may be left out.
use project_bourne.Prelude.{
  ℕ, ◌≡◌, refl, suc, ◌≤◌, String, ◌==◌, string_eq, true, false, Option, none, some, List, contains,
  all, arith,
}
use project_bourne.Prelude.Checks.{value}
use project_bourne.Json.{Json, Fields, end, field, keys, fields_length, get, null}
use project_bourne.Requests.Values.{lookup, bounded_text, validate_json_bounds, validate_fields}
use project_bourne.Requests.Document.{optional_field}

pub lookup-other :
    (k key : String) (o : Option Json) (rest : Fields)
    → (k == key) ≡ false
    → lookup (optional_field k o rest) key ≡ lookup rest key
lookup-other k key none rest h = refl
lookup-other k key (some v) rest h = rw h refl

pub lookup-same :
    (k : String) (o : Option Json) (rest : Fields)
    → (k == k) ≡ true
    → lookup rest k ≡ none
    → lookup (optional_field k o rest) k ≡ o
lookup-same k none rest h p = p
lookup-same k (some v) rest h p = rw h refl

-- `value.get(key)` by the field.
abbrev pub or_null : Option Json → Json
or_null none = null
or_null (some v) = v

pub get-lookup : (fields : Fields) (key : String) → get fields key ≡ or_null (lookup fields key)
get-lookup end key = refl
get-lookup (field k v rest) key = ground (arith, get-lookup rest key)

pub known-optional :
    (allowed : List String) (k : String) (o : Option Json) (rest : Fields)
    → contains allowed k ≡ true
    → all (contains allowed) (keys rest) ≡ true
    → all (contains allowed) (keys (optional_field k o rest)) ≡ true
known-optional allowed k none rest h p = p
known-optional allowed k (some v) rest h p = ground (arith, h, p)

pub length-optional :
    (k : String) (o : Option Json) (rest : Fields)
    → fields_length (optional_field k o rest) ≤ suc (fields_length rest)
length-optional k none rest = omega arith
length-optional k (some v) rest = omega arith

-- What is asked of a value that is there.
abbrev pub OfSome : (Json → Type 0) → Option Json → Type 0
OfSome P none = Unit
OfSome P (some v) = P v

pub validate-optional :
    (d : ℕ) (k : String) (o : Option Json) (rest : Fields)
    → bounded_text false "request field name" k ≡ value tt
    → OfSome (λ v. validate_json_bounds d v ≡ value tt) o
    → validate_fields d rest ≡ value tt
    → validate_fields d (optional_field k o rest) ≡ value tt
unfolding validate_json_bounds
validate-optional d k none rest h p q = q
validate-optional d k (some v) rest h p q = rw (h, p, q) refl
