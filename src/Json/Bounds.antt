-- ===== src/Json/Bounds.antt =====
-- What the bounded-JSON checks accept.
use project_bourne.Prelude.{ℕ, suc, ◌+◌, ◌≤◌, max, ◌≡◌, refl, true, arith}
use project_bourne.Json.{
  Json, null, bool, int, float, str, arr, obj, Items, nil, cons, Fields, end, field, Limits,
  evidence_limits, result_limits, bounded_json, bounded_items, bounded_fields,
}

-- Levels of nesting: a scalar has none.
unfoldable mutual
  pub height : Json → ℕ
  height null = 0
  height (bool b) = 0
  height (int n) = 0
  height (float f) = 0
  height (str s) = 0
  height (arr items) = height_items items
  height (obj fields) = height_fields fields

  pub height_items : Items → ℕ
  height_items nil = 0
  height_items (cons v rest) = max (suc (height v)) (height_items rest)

  pub height_fields : Fields → ℕ
  height_fields end = 0
  height_fields (field k v rest) = max (suc (height v)) (height_fields rest)

mutual
  unfolding bounded_json height

  height-le :
      (l : Limits) (d : ℕ) (v : Json) → bounded_json l d v ≡ true → d + height v ≤ l.max_depth
  height-le l d null h = ground arith
  height-le l d (bool b) h = ground arith
  height-le l d (int n) h = ground arith
  height-le l d (float f) h = ground arith
  height-le l d (str s) h = ground arith
  height-le l d (arr items) h = ground (arith, height_items-le l d items)
  height-le l d (obj fields) h = ground (arith, height_fields-le l d fields)

  height_items-le :
      (l : Limits) (d : ℕ) (v : Items)
      → d ≤ l.max_depth
      → bounded_items l (suc d) v ≡ true
      → d + height_items v ≤ l.max_depth
  height_items-le l d nil p h = omega arith
  height_items-le l d (cons v rest) p h =
      ground (arith, height-le l (suc d) v, height_items-le l d rest)

  height_fields-le :
      (l : Limits) (d : ℕ) (v : Fields)
      → d ≤ l.max_depth
      → bounded_fields l (suc d) v ≡ true
      → d + height_fields v ≤ l.max_depth
  height_fields-le l d end p h = omega arith
  height_fields-le l d (field k v rest) p h =
      ground (arith, height-le l (suc d) v, height_fields-le l d rest)

-- Looser limits accept whatever tighter ones accept, also nearer to the root.
module _ (l m : Limits) (texts : l.max_text ≤ m.max_text) (arrays : l.max_items ≤ m.max_items) where
  mutual
    unfolding bounded_json

    bounded_json_mono :
        (d e : ℕ) (v : Json)
        → e + l.max_depth ≤ d + m.max_depth
        → bounded_json l d v ≡ true
        → bounded_json m e v ≡ true
    bounded_json_mono d e null p h = ground arith
    bounded_json_mono d e (bool b) p h = ground arith
    bounded_json_mono d e (int n) p h = ground arith
    bounded_json_mono d e (float f) p h = ground arith
    bounded_json_mono d e (str s) p h = ground arith
    bounded_json_mono d e (arr items) p h = ground (arith, bounded_items_mono (suc d) (suc e) items)
    bounded_json_mono d e (obj fields) p h =
        ground (arith, bounded_fields_mono (suc d) (suc e) fields)

    bounded_items_mono :
        (d e : ℕ) (v : Items)
        → e + l.max_depth ≤ d + m.max_depth
        → bounded_items l d v ≡ true
        → bounded_items m e v ≡ true
    bounded_items_mono d e nil p h = refl
    bounded_items_mono d e (cons v rest) p h =
        ground (arith, bounded_json_mono d e v, bounded_items_mono d e rest)

    bounded_fields_mono :
        (d e : ℕ) (v : Fields)
        → e + l.max_depth ≤ d + m.max_depth
        → bounded_fields l d v ≡ true
        → bounded_fields m e v ≡ true
    bounded_fields_mono d e end p h = refl
    bounded_fields_mono d e (field k v rest) p h =
        ground (arith, bounded_json_mono d e v, bounded_fields_mono d e rest)

-- A value that the check accepts at a depth is nested at most as many levels deep as the limit
-- leaves above that depth.
pub bounded_json-height :
    (l : Limits) (d : ℕ) (v : Json) → bounded_json l d v ≡ true → d + height v ≤ l.max_depth
bounded_json-height = height-le

-- What runtime_evidence.py accepts as metrics, worker_result.py accepts too, at the root of its
-- check and up to two levels below it.
pub evidence-bounded_result :
    (v : Json) (e : ℕ)
    → e ≤ 2
    → bounded_json evidence_limits 0 v ≡ true
    → bounded_json result_limits e v ≡ true
evidence-bounded_result v e p h =
    bounded_json_mono evidence_limits result_limits (omega arith) (omega arith) 0 e v (omega arith)
      h
