-- ===== src/Outcomes/Models.antt =====
-- Artifact and Experiment of models.py, the fields that execution_outcomes.py reads, and its own
-- records with the checks of their `__post_init__`. Durations are floats.
use project_bourne.Prelude.{
  ℕ, String, ◌==◌, string_eq, Bool, true, false, ◌||◌, not, Option, none, some, List, [], ◌∷◌, all,
  contains,
}
use project_bourne.Prelude.Int.{pos, negsuc}
use project_bourne.Prelude.Text.{is_empty_text}
use project_bourne.Prelude.Checks.{Checked, value, ◌>>◌, guard}
use project_bourne.Json.{Float, finite, infinite, not_a_number, Fields}
use project_bourne.Resolver.Models.{ResourceRequirements}

-- ArtifactExistenceState
pub data ExistenceState : Type 0 where
  present missing unsettled : ExistenceState

-- ArtifactCaptureStatus
pub data CaptureStatus : Type 0 where
  complete unreadable unsupported changed : CaptureStatus

pub record Artifact : Type 0 where
  pub id : String
  pub role : String
  pub original_path : String
  pub existence_state : ExistenceState
  pub capture_status : CaptureStatus
  pub sha256 : Option String
  pub size_bytes : Option ℕ

pub record Experiment : Type 0 where
  pub id : String
  pub ended_at : String
  pub duration_seconds : Float
  pub stdout : String
  pub stderr : String

pub record AllocationObservation : Type 0 where
  pub id : String
  pub execution_id : String
  pub observed_at : String
  pub resources : Fields
  pub hosts : List String

pub record ExecutionTelemetrySummary : Type 0 where
  pub id : String
  pub request_id : String
  pub execution_id : String
  pub experiment_id : String
  pub created_at : String
  pub state : String
  pub sources : List String
  pub coverage : List String
  pub wall_seconds : Option Float
  pub stdout_bytes : Option ℕ
  pub stderr_bytes : Option ℕ
  pub known_input_artifact_bytes : Option ℕ
  pub known_output_artifact_bytes : Option ℕ
  pub scheduler_wait_seconds : Option Float
  pub requested_resources : ResourceRequirements
  pub allocated_resources : Option Fields
  pub unavailable : List String

-- `value < 0`
abbrev pub is_negative : Float → Bool
is_negative (finite (pos m) e) = false
is_negative (finite (negsuc m) e) = true
is_negative (infinite negative) = negative
is_negative not_a_number = false

abbrev pub not_negative : Option Float → Bool
not_negative none = true
not_negative (some x) = not (is_negative x)

-- `ExecutionTelemetrySummary.__post_init__`
unfoldable pub check_summary : ExecutionTelemetrySummary → Checked ExecutionTelemetrySummary
check_summary s = do
  guard (contains ("complete" ∷ "partial" ∷ "unavailable" ∷ []) s.state)
      "unsupported telemetry state"
  guard (not_negative s.wall_seconds) "telemetry wall_seconds must not be negative"
  guard (not_negative s.scheduler_wait_seconds)
      "telemetry scheduler_wait_seconds must not be negative"
  value s

pub record VerificationCheckResult : Type 0 where
  pub id : String
  pub verification_run_id : String
  pub ordinal : ℕ
  pub check_type : String
  pub output_path : String
  pub state : String
  pub evidence : Fields

unfoldable pub result_checks : VerificationCheckResult → Checked (Unit {0})
result_checks r = do
  guard (contains ("passed" ∷ "failed" ∷ "unknown" ∷ []) r.state)
      "unsupported verification check state"
  guard (contains ("output_exists" ∷ "output_min_bytes" ∷ "output_sha256" ∷ []) r.check_type)
      "unsupported verification check"
  guard
      (not
        (is_empty_text r.id || is_empty_text r.verification_run_id || is_empty_text r.output_path))
      "verification check identity and output path are required"

-- `VerificationCheckResult.__post_init__`
unfoldable pub check_result : VerificationCheckResult → Checked VerificationCheckResult
check_result r = do result_checks r; value r

pub record VerificationRun : Type 0 where
  pub id : String
  pub request_id : String
  pub execution_id : String
  pub experiment_id : String
  pub aggregate_state : String
  pub evaluated_at : String
  pub source : String
  pub checks : List VerificationCheckResult

unfoldable pub run_checks : VerificationRun → Checked (Unit {0})
run_checks r = do
  guard (contains ("passed" ∷ "failed" ∷ "unknown" ∷ "not_requested" ∷ []) r.aggregate_state)
      "unsupported verification aggregate state"
  guard (all (λ c. c.verification_run_id == r.id) r.checks)
      "verification checks must belong to their run"

-- `VerificationRun.__post_init__`
unfoldable pub check_run : VerificationRun → Checked VerificationRun
check_run r = do run_checks r; value r
