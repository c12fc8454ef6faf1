-- ===== src/Outcomes/Persisted.antt =====
-- `to_dict` and `from_dict` of VerificationCheckResult and VerificationRun.
use project_bourne.Prelude.{ℕ, String, List, [], ◌∷◌}
use project_bourne.Prelude.Int.{pos}
use project_bourne.Prelude.Checks.{Checked, value, refused, ◌>>=◌}
use project_bourne.Json.{Json, int, str, arr, obj, Items, nil, cons, Fields, end, field, get}
use project_bourne.Requests.Parse.{get_or}
use project_bourne.Outcomes.Models.{
  VerificationCheckResult, check_result, VerificationRun, check_run,
}

unfoldable pub result_fields : VerificationCheckResult → Fields
result_fields r = field "id" (str r.id) (
    field "verification_run_id" (str r.verification_run_id) (
      field "ordinal" (int (pos r.ordinal)) (
        field "check_type" (str r.check_type) (
          field "output_path" (str r.output_path)
            (field "state" (str r.state) (field "evidence" (obj r.evidence) end))))))

-- `VerificationCheckResult.to_dict`
unfoldable pub result_to_dict : VerificationCheckResult → Json
result_to_dict r = obj (result_fields r)

abbrev pub text_at : String → Json → Checked String
text_at message (str s) = value s
text_at message _ = refused message

abbrev pub ordinal_at : String → Json → Checked ℕ
ordinal_at message (int (pos n)) = value n
ordinal_at message _ = refused message

abbrev pub object_at : String → Json → Checked Fields
object_at message (obj fields) = value fields
object_at message _ = refused message

abbrev pub invalid_check : String
invalid_check = "verification check structure is invalid"

-- `VerificationCheckResult.from_dict`. An ordinal below zero is refused later in the source.
unfoldable pub result_from_dict : Json → Checked VerificationCheckResult
result_from_dict (obj fields) = do
  id ← text_at invalid_check (get fields "id")
  run_id ← text_at invalid_check (get fields "verification_run_id")
  check_type ← text_at invalid_check (get fields "check_type")
  output_path ← text_at invalid_check (get fields "output_path")
  state ← text_at invalid_check (get fields "state")
  ordinal ← ordinal_at invalid_check (get fields "ordinal")
  evidence ← object_at invalid_check (get fields "evidence")
  check_result (record {
    id = id;
    verification_run_id = run_id;
    ordinal = ordinal;
    check_type = check_type;
    output_path = output_path;
    state = state;
    evidence = evidence;
  })
result_from_dict _ = refused invalid_check

abbrev pub result_items : List VerificationCheckResult → Items
result_items [] = nil
result_items (r ∷ rest) = cons (result_to_dict r) (result_items rest)

-- `VerificationRun.to_dict`
unfoldable pub run_to_dict : VerificationRun → Json
run_to_dict r = obj (
    field "id" (str r.id) (
      field "request_id" (str r.request_id) (
        field "execution_id" (str r.execution_id) (
          field "experiment_id" (str r.experiment_id) (
            field "aggregate_state" (str r.aggregate_state) (
              field "evaluated_at" (str r.evaluated_at) (
                field "source" (str r.source)
                  (field "checks" (arr (result_items r.checks)) end))))))))

abbrev pub invalid_run : String
invalid_run = "verification run structure is invalid"

unfoldable pub results_from : Items → Checked (List VerificationCheckResult)
results_from nil = value []
results_from (cons v rest) = do r ← result_from_dict v; more ← results_from rest; value (r ∷ more)

abbrev pub items_at : String → Json → Checked Items
items_at message (arr items) = value items
items_at message _ = refused message

-- `VerificationRun.from_dict`
unfoldable pub run_from_dict : Json → Checked VerificationRun
run_from_dict (obj fields) = do
  id ← text_at invalid_run (get fields "id")
  request_id ← text_at invalid_run (get fields "request_id")
  execution_id ← text_at invalid_run (get fields "execution_id")
  experiment_id ← text_at invalid_run (get fields "experiment_id")
  aggregate_state ← text_at invalid_run (get fields "aggregate_state")
  evaluated_at ← text_at invalid_run (get fields "evaluated_at")
  source ← text_at invalid_run (get fields "source")
  items ← items_at invalid_run (get_or fields "checks" (arr nil))
  checks ← results_from items
  check_run (record {
    id = id;
    request_id = request_id;
    execution_id = execution_id;
    experiment_id = experiment_id;
    aggregate_state = aggregate_state;
    evaluated_at = evaluated_at;
    source = source;
    checks = checks;
  })
run_from_dict _ = refused invalid_run
