-- ===== src/Json/Tests.antt =====
-- Instances of the theorems on bounded JSON values.
use project_bourne.Prelude.{◌≤◌, ◌+◌, ◌≡◌, refl, true, arith}
use project_bourne.Prelude.Int.{pos}
use project_bourne.Json.{
  Json, int, arr, obj, cons, nil, field, end, evidence_limits, result_limits, bounded_json,
}
use project_bourne.Json.Bounds.{height, bounded_json-height, evidence-bounded_result}

abbrev metrics : Json
metrics = obj (field "loss" (arr (cons (int (pos 3)) nil)) end)

metrics_are_bounded : bounded_json evidence_limits 0 metrics ≡ true
unfolding bounded_json
metrics_are_bounded = refl

bounded_json-height_example : 0 + height metrics ≤ evidence_limits.max_depth
bounded_json-height_example = bounded_json-height evidence_limits 0 metrics metrics_are_bounded

evidence-bounded_result_example : bounded_json result_limits 2 metrics ≡ true
evidence-bounded_result_example =
    evidence-bounded_result metrics 2 (omega arith) metrics_are_bounded
