-- ===== src/Outcomes/Verification.antt =====
-- `_check_state`, `_evaluate_check` and `evaluate_verification` of execution_outcomes.py. The
-- identities that `new_ulid` makes are a sequence: the run's is the first.
use project_bourne.Prelude.{
  ℕ, suc, String, ◌==◌, string_eq, Bool, true, false, ◌&&◌, Option, none, some, List, [], ◌∷◌, leb,
  find, any, is_empty, if◌then◌else◌,
}
use project_bourne.Prelude.Int.{pos}
use project_bourne.Prelude.Text.{casefold}
use project_bourne.Prelude.Checks.{Checked, value, ◌>>=◌}
use project_bourne.Json.{Json, null, int, str, Fields, end, field}
use project_bourne.Requests.Models.{VerificationCheckSpec, ExecutionRequest}
use project_bourne.Outcomes.Models.{
  ExistenceState, present, missing, unsettled, CaptureStatus, complete, unreadable, unsupported,
  changed, Artifact, Experiment, VerificationCheckResult, check_result, VerificationRun, check_run,
}

-- A state, and what `_check_state` adds to the evidence.
abbrev pub Judgement : Type 0
Judgement = String × Fields

-- `"passed" if holds else "failed"`
abbrev pub verdict : Bool → String
verdict holds = if holds then "passed" else "failed"

abbrev pub reason : String → Fields
reason s = field "reason" (str s) end

abbrev pub nullable_number : Option ℕ → Json
nullable_number none = null
nullable_number (some n) = int (pos n)

abbrev pub nullable_text : Option String → Json
nullable_text none = null
nullable_text (some s) = str s

unfoldable pub exists_state : ExistenceState → Judgement
exists_state present = ("passed", end)
exists_state missing = ("failed", end)
exists_state unsettled = ("unknown", reason "artifact existence was not established")

-- The size against the smallest that is asked for. A check of this type has one; without it Python
-- raises TypeError, and here the state is one that `check_result` refuses.
unfoldable pub size_state : Option ℕ → Option ℕ → Judgement
size_state least none = (
  "unknown",
  field "expected_min_bytes" (nullable_number least) (reason "artifact size is unavailable"),
)
size_state none (some size) = ("TypeError", field "expected_min_bytes" null end)
size_state (some least) (some size) =
    (verdict (leb least size), field "expected_min_bytes" (int (pos least)) end)

unfoldable pub digest_state : Option String → Option String → Judgement
digest_state expected none = (
  "unknown",
  field "expected_sha256" (nullable_text expected) (reason "artifact SHA-256 is unavailable"),
)
digest_state none (some found) = ("failed", field "expected_sha256" null end)
digest_state (some expected) (some found) =
    (verdict (casefold found == expected), field "expected_sha256" (str expected) end)

-- The checks of the content, by their type.
unfoldable pub content_state : VerificationCheckSpec → Artifact → Judgement
content_state check artifact =
    if check.type == "output_min_bytes"
    then size_state check.min_bytes artifact.size_bytes
    else digest_state check.sha256 artifact.sha256

abbrev pub incomplete : Judgement
incomplete = ("unknown", reason "artifact capture is not complete")

unfoldable pub captured_state :
    ExistenceState → CaptureStatus → VerificationCheckSpec → Artifact → Judgement
captured_state missing status check artifact = ("failed", end)
captured_state present complete check artifact = content_state check artifact
captured_state present unreadable check artifact = incomplete
captured_state present unsupported check artifact = incomplete
captured_state present changed check artifact = incomplete
captured_state unsettled status check artifact = incomplete

-- `_check_state`
unfoldable pub check_state : VerificationCheckSpec → Artifact → Judgement
check_state check artifact =
    if check.type == "output_exists"
    then exists_state artifact.existence_state
    else captured_state artifact.existence_state artifact.capture_status check artifact

abbrev pub existence_name : ExistenceState → String
existence_name present = "present"
existence_name missing = "missing"
existence_name unsettled = "unknown"

abbrev pub capture_name : CaptureStatus → String
capture_name complete = "complete"
capture_name unreadable = "unreadable"
capture_name unsupported = "unsupported"
capture_name changed = "changed"

unfoldable pub artifact_evidence : Artifact → Fields → Fields
artifact_evidence a more = field "artifact_id" (str a.id) (
    field "existence_state" (str (existence_name a.existence_state)) (
      field "capture_status" (str (capture_name a.capture_status)) (
        field "size_bytes" (nullable_number a.size_bytes)
          (field "sha256" (nullable_text a.sha256) more))))

unfoldable pub judge : VerificationCheckSpec → Option Artifact → Judgement
judge check none = ("unknown", reason "captured output artifact record is unavailable")
judge check (some artifact) =
    let (state, more) = check_state check artifact in (state, artifact_evidence artifact more)

-- `_evaluate_check`
unfoldable pub evaluate_check :
    String → String → ℕ → VerificationCheckSpec → Option Artifact → Checked VerificationCheckResult
evaluate_check id run_id ordinal check artifact =
    let (state, more) = judge check artifact in
    check_result (record {
      id = id;
      verification_run_id = run_id;
      ordinal = ordinal;
      check_type = check.type;
      output_path = check.path;
      state = state;
      evidence =
          field "evidence_source" (str "captured_output_artifact_record")
            (field "declared_output_path" (str check.path) more);
    })

-- `outputs.get(path)`, where the first output of a path stays.
unfoldable pub output_of : List Artifact → String → Option Artifact
output_of artifacts path = find (λ a. a.role == "output" && a.original_path == path) artifacts

unfoldable pub evaluate_checks :
    (ℕ → String)
    → String
    → ℕ
    → List Artifact
    → List VerificationCheckSpec
    → Checked (List VerificationCheckResult)
evaluate_checks ids run_id ordinal artifacts [] = value []
evaluate_checks ids run_id ordinal artifacts (check ∷ rest) = do
  result ← evaluate_check (ids (suc ordinal)) run_id ordinal check (output_of artifacts check.path)
  more ← evaluate_checks ids run_id (suc ordinal) artifacts rest
  value (result ∷ more)

unfoldable pub has_state : String → List VerificationCheckResult → Bool
has_state state results = any (λ r. r.state == state) results

-- By whether there is no result, a failed one, and an unknown one.
abbrev pub aggregate_of : Bool → Bool → Bool → String
aggregate_of true failed undecided = "not_requested"
aggregate_of false true undecided = "failed"
aggregate_of false false true = "unknown"
aggregate_of false false false = "passed"

unfoldable pub aggregate : List VerificationCheckResult → String
aggregate results =
    aggregate_of (is_empty results) (has_state "failed" results) (has_state "unknown" results)

-- `evaluate_verification`
unfoldable pub evaluate_verification :
    (ℕ → String) → ExecutionRequest → String → Experiment → List Artifact → Checked VerificationRun
evaluate_verification ids request execution_id experiment artifacts = do
  results ← evaluate_checks ids (ids 0) 0 artifacts request.verification_checks
  check_run (record {
    id = ids 0;
    request_id = request.id;
    execution_id = execution_id;
    experiment_id = experiment.id;
    aggregate_state = aggregate results;
    evaluated_at = experiment.ended_at;
    source = "captured_output_artifact_records";
    checks = results;
  })
