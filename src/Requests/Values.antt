-- ===== src/Requests/Values.antt =====
-- The checks of execution_request.py on one JSON value.
use project_bourne.Prelude.{
  ℕ, suc, String, ◌==◌, ◌<>◌, nat_eq, string_eq, Bool, true, false, ◌&&◌, ◌||◌, not, Option, none,
  some, List, [], ◌∷◌, leb, length, is_empty, all, contains, if◌then◌else◌,
}
use project_bourne.Prelude.Int.{pos}
use project_bourne.Prelude.Text.{is_empty_text, text_length, any_char}
use project_bourne.Prelude.Checks.{Checked, value, refused, ◌>>=◌, ◌>>◌, guard}
use project_bourne.Json.{
  Json, null, bool, int, float, str, arr, obj, Items, nil, cons, Fields, end, field, is_finite,
  keys, items_length, fields_length,
}

-- MAX_REQUEST_STRING
abbrev pub max_request_string : ℕ
max_request_string = 16384

-- MAX_REQUEST_ARGV
abbrev pub max_request_argv : ℕ
max_request_argv = 4096

-- MAX_REQUEST_JSON_DEPTH
abbrev pub max_request_json_depth : ℕ
max_request_json_depth = 12

abbrev pub is_nul : ℕ → Bool
is_nul c = c == 0

-- `_bounded_string` on a text.
unfoldable pub bounded_text : Bool → String → String → Checked (Unit {0})
bounded_text allow_empty label s = do
  guard (allow_empty || not (is_empty_text s)) (label <> " must not be empty")
  guard (leb (text_length s) max_request_string) (label <> " exceeds the 16384-character limit")
  guard (not (any_char is_nul s)) (label <> " must not contain NUL")

-- `_bounded_string` on a value that must be a text and not empty.
unfoldable pub bounded_string : String → Json → Checked String
bounded_string label (str s) = do bounded_text false label s; value s
bounded_string label _ = refused (label <> " must be a string")

abbrev pub within_depth : ℕ → Checked (Unit {0})
within_depth depth =
    guard (leb depth max_request_json_depth) "request JSON exceeds the nesting-depth limit"

-- `_validate_json_bounds`
unfoldable mutual
  pub validate_json_bounds : ℕ → Json → Checked (Unit {0})
  validate_json_bounds depth null = within_depth depth
  validate_json_bounds depth (bool b) = within_depth depth
  validate_json_bounds depth (int n) = within_depth depth
  validate_json_bounds depth (float f) = do
    within_depth depth
    guard (is_finite f) "request JSON contains a non-finite number"
  validate_json_bounds depth (str s) = do within_depth depth; bounded_text true "request string" s
  validate_json_bounds depth (arr items) = do
    within_depth depth
    guard (leb (items_length items) max_request_argv) "request JSON array exceeds the count limit"
    validate_items (suc depth) items
  validate_json_bounds depth (obj fields) = do
    within_depth depth
    guard (leb (fields_length fields) 256) "request JSON object exceeds the field limit"
    validate_fields (suc depth) fields

  pub validate_items : ℕ → Items → Checked (Unit {0})
  validate_items depth nil = value tt
  validate_items depth (cons v rest) = do validate_json_bounds depth v; validate_items depth rest

  pub validate_fields : ℕ → Fields → Checked (Unit {0})
  validate_fields depth end = value tt
  validate_fields depth (field k v rest) = do
    bounded_text false "request field name" k
    validate_json_bounds depth v
    validate_fields depth rest

-- `value[key]` where `key in value`.
abbrev pub lookup : Fields → String → Option Json
lookup end key = none
lookup (field k v rest) key = if k == key then some v else lookup rest key

-- `_object`
unfoldable pub as_object : String → Json → Checked Fields
as_object label (obj fields) = value fields
as_object label _ = refused (label <> " must be a JSON object")

-- `_optional_object`
unfoldable pub object_or_empty : String → Option Json → Checked Fields
object_or_empty key none = value end
object_or_empty key (some v) = as_object key v

unfoldable pub optional_object : Fields → String → Checked Fields
unfolding object_or_empty
optional_object parent key = object_or_empty key (lookup parent key)

-- `_reject_unknown`
unfoldable pub reject_unknown : String → List String → Fields → Checked (Unit {0})
reject_unknown label allowed fields =
    guard (all (contains allowed) (keys fields)) ("unknown " <> (label <> " field(s)"))

-- `_bounded_string(item, label, allow_empty=False)` for every text.
unfoldable pub bounded_texts : String → List String → Checked (Unit {0})
bounded_texts label [] = value tt
bounded_texts label (s ∷ rest) = do bounded_text false label s; bounded_texts label rest

-- `_validate_string_list` on texts.
unfoldable pub validate_string_list : String → ℕ → Bool → List String → Checked (Unit {0})
validate_string_list label limit require_nonempty items = do
  guard (leb (length items) limit) (label <> " exceeds the count limit")
  guard (not (require_nonempty && is_empty items)) (label <> " must contain at least one value")
  bounded_texts label items

unfoldable pub bounded_strings : String → Items → Checked (List String)
bounded_strings label nil = value []
bounded_strings label (cons v rest) = do
  s ← bounded_string label v
  more ← bounded_strings label rest
  value (s ∷ more)

-- The test on an empty list that must not be one.
abbrev pub lacks_items : Bool → Items → Bool
lacks_items require_nonempty nil = require_nonempty
lacks_items require_nonempty (cons v rest) = false

-- `_string_list`
unfoldable pub string_list : String → ℕ → Bool → Json → Checked (List String)
string_list label limit require_nonempty (arr items) = do
  guard (leb (items_length items) limit) (label <> " exceeds the count limit")
  guard (not (lacks_items require_nonempty items)) (label <> " must contain at least one value")
  bounded_strings label items
string_list label limit require_nonempty _ = refused (label <> " must be an array of strings")

abbrev pub at_least : String → ℕ → ℕ → Checked (Option ℕ)
at_least key minimum n =
    if leb minimum n then value (some n) else refused ("resources." <> (key <> " is too small"))

unfoldable pub integer_item : String → ℕ → Option Json → Checked (Option ℕ)
integer_item key minimum none = value none
integer_item key minimum (some (int (pos n))) = at_least key minimum n
integer_item key minimum (some _) = refused ("resources." <> (key <> " must be an integer"))

-- `_resource_integer`
unfoldable pub resource_integer : String → ℕ → Fields → Checked (Option ℕ)
resource_integer key minimum fields = integer_item key minimum (lookup fields key)

-- `_unique_object` on the pairs of an object that `json.loads` reads.
abbrev unique_from : List String → List (String × Json) → Checked Fields
unique_from seen [] = value end
unique_from seen ((key, item) ∷ rest) = do
  let more = unique_from (key ∷ seen) rest
  guard (not (contains seen key)) "duplicate request field"
  fields ← more
  value (field key item fields)

unfoldable pub unique_object : List (String × Json) → Checked Fields
unique_object pairs = unique_from [] pairs
