-- ===== src/Json.antt =====
-- What `json.loads` returns, and the two bounded-JSON checks of src/bourneprov:
-- `_bounded_json` of runtime_evidence.py (nesting depth 10) and of worker_result.py (depth 12).
-- A dict is its fields in order; the parser leaves no key twice. A float is the class that
-- `math.isfinite` tells apart, with a finite one as a mantissa and a binary exponent.
pub mod Bounds
mod Tests
use project_bourne.Prelude.{
  ◌*◌, ◌^◌, nat_eq, string_eq, ℕ, suc, String, ◌==◌, Bool, true, false, ◌&&◌, Option, none, some,
  List, [], ◌∷◌, leb, if◌then◌else◌,
}
use project_bourne.Prelude.Int.{ℤ, pos, negsuc}
use project_bourne.Prelude.Text.{text_length}

pub data Float : Type 0 where
  finite : ℤ → ℤ → Float
  infinite : Bool → Float
  not_a_number : Float

-- `math.isfinite`
abbrev pub is_finite : Float → Bool
is_finite (finite mantissa exponent) = true
is_finite (infinite negative) = false
is_finite not_a_number = false

mutual
  pub data Json : Type 0 where
    null : Json
    bool : Bool → Json
    int : ℤ → Json
    float : Float → Json
    str : String → Json
    arr : Items → Json
    obj : Fields → Json

  pub data Items : Type 0 where
    nil : Items
    cons : Json → Items → Items

  pub data Fields : Type 0 where
    end : Fields
    field : String → Json → Fields → Fields

-- `value.get(key)`, which is `None` for a key that is absent or null.
abbrev pub get : Fields → String → Json
get end key = null
get (field k v rest) key = if k == key then v else get rest key

-- `set(value)`, as the list of the keys.
abbrev pub keys : Fields → List String
keys end = []
keys (field k v rest) = k ∷ keys rest

abbrev pub items_length : Items → ℕ
items_length nil = 0
items_length (cons v rest) = suc (items_length rest)

abbrev pub fields_length : Fields → ℕ
fields_length end = 0
fields_length (field k v rest) = suc (fields_length rest)

-- The constants of one of the two checks: nesting depth, text length, array length.
pub record Limits : Type 0 where
  pub max_depth : ℕ
  pub max_text : ℕ
  pub max_items : ℕ

-- runtime_evidence.py
abbrev pub evidence_limits : Limits
evidence_limits = record { max_depth = 10; max_text = 16 * 1024; max_items = 4096 }

-- worker_result.py, with MAX_RESULT_BUNDLE_BYTES and MAX_RESULT_ARTIFACTS
abbrev pub result_limits : Limits
result_limits = record { max_depth = 12; max_text = 32 * 1024 * 1024; max_items = 4096 }

-- The two functions differ in their constants only. The test on the depth comes first in each
-- call; the calls on the parts are made one level down.
unfoldable mutual
  pub bounded_json : Limits → ℕ → Json → Bool
  bounded_json l depth null = leb depth l.max_depth
  bounded_json l depth (bool b) = leb depth l.max_depth
  bounded_json l depth (int n) = leb depth l.max_depth
  bounded_json l depth (float f) = leb depth l.max_depth && is_finite f
  bounded_json l depth (str s) = leb depth l.max_depth && leb (text_length s) l.max_text
  bounded_json l depth (arr items) =
      leb depth l.max_depth
      && leb (items_length items) l.max_items
      && bounded_items l (suc depth) items
  bounded_json l depth (obj fields) =
      leb depth l.max_depth && leb (fields_length fields) 256 && bounded_fields l (suc depth) fields

  pub bounded_items : Limits → ℕ → Items → Bool
  bounded_items l depth nil = true
  bounded_items l depth (cons v rest) = bounded_json l depth v && bounded_items l depth rest

  pub bounded_fields : Limits → ℕ → Fields → Bool
  bounded_fields l depth end = true
  bounded_fields l depth (field k v rest) =
      leb (text_length k) 256 && bounded_json l depth v && bounded_fields l depth rest

-- Python's `value == n` for a natural number: `True` is 1, and a float may be whole.
float_equals : Float → ℕ → Bool
float_equals (finite (pos m) (pos e)) n = m * 2 ^ e == n
float_equals (finite (pos m) (negsuc e)) n = m == n * 2 ^ suc e
float_equals _ n = false

unfoldable pub equals_number : Json → ℕ → Bool
unfolding float_equals
equals_number (int (pos m)) n = m == n
equals_number (bool true) n = n == 1
equals_number (bool false) n = n == 0
equals_number (float f) n = float_equals f n
equals_number _ n = false

-- Python's `value == s` for a text.
abbrev pub equals_text : Json → String → Bool
equals_text (str t) s = t == s
equals_text _ s = false
