-- ===== src/Outcomes/Telemetry.antt =====
-- `_artifact_total`, `build_telemetry_summary` and `add_scheduler_wait` of execution_outcomes.py.
-- The identity that `new_ulid` makes and the seconds between two times are arguments.
use Prim.Native.Char.{code}
use project_bourne.Prelude.{
  ℕ, ◌+◌, String, ◌==◌, string_eq, Bool, true, false, ◌&&◌, not, Option, none, some, List, [], ◌∷◌,
  ◌++◌, ltb, filter, is_empty, dedupe, if◌then◌else◌,
}
use project_bourne.Prelude.Checks.{Checked, value, ◌>>=◌}
use project_bourne.Json.{Float, Fields}
use project_bourne.Resolver.Models.{Backend, direct, slurm, pbs, lsf, ExecutionPlan}
use project_bourne.Requests.Models.{ExecutionRequest}
use project_bourne.Outcomes.Models.{
  ExistenceState, present, missing, unsettled, CaptureStatus, complete, unreadable, unsupported,
  changed, Artifact, Experiment, AllocationObservation, ExecutionTelemetrySummary, check_summary,
  is_negative,
}

abbrev pub is_complete : ExistenceState → CaptureStatus → Bool
is_complete present complete = true
is_complete present unreadable = false
is_complete present unsupported = false
is_complete present changed = false
is_complete missing status = false
is_complete unsettled status = false

abbrev add_sizes : Bool → Option ℕ → Option ℕ → Option ℕ
add_sizes true (some n) (some m) = some (n + m)
add_sizes _ _ _ = none

unfoldable pub sum_sizes : List Artifact → Option ℕ
sum_sizes [] = some 0
sum_sizes (a ∷ rest) =
    add_sizes (is_complete a.existence_state a.capture_status) a.size_bytes (sum_sizes rest)

-- `_artifact_total`
unfoldable pub artifact_total : List Artifact → Option ℕ
artifact_total [] = none
artifact_total (a ∷ rest) = sum_sizes (a ∷ rest)

-- The bytes of a character in UTF-8.
abbrev character_bytes : ℕ → ℕ
character_bytes c =
    if ltb c 0x80 then 1 else if ltb c 0x800 then 2 else if ltb c 0x10000 then 3 else 4

-- `len(s.encode("utf-8"))`
unfoldable pub utf8_length : String → ℕ
utf8_length String.[] = 0
utf8_length (String.◌∷◌ c s) = character_bytes (code c) + utf8_length s

abbrev pub is_known {ℓ} : {A : Type ℓ} → Option A → Bool
is_known none = false
is_known (some a) = true

-- `if condition: values.append(value)`
abbrev pub listed : Bool → String → List String
listed true s = s ∷ []
listed false s = []

abbrev pub has_queue : Backend → Bool
has_queue direct = false
has_queue slurm = true
has_queue pbs = true
has_queue lsf = true

abbrev pub role_total : String → List Artifact → Option ℕ
role_total role artifacts = artifact_total (filter (λ a. a.role == role) artifacts)

unfoldable pub unavailable_facts :
    ExecutionRequest
    → Backend
    → List Artifact
    → Option AllocationObservation
    → Option Float
    → List String
unavailable_facts request backend artifacts allocation wait =
    listed
      (not (is_empty request.artifacts.inputs) && not (is_known (role_total "input" artifacts)))
      "known_input_artifact_bytes"
    ++ listed
        (not (is_empty request.artifacts.outputs) && not (is_known (role_total "output" artifacts)))
        "known_output_artifact_bytes"
    ++ listed (has_queue backend && not (is_known wait)) "scheduler_wait_seconds"
    ++ listed (not (is_known allocation)) "allocated_resources"

unfoldable pub summary_sources :
    List Artifact → Option AllocationObservation → Option Float → List String
summary_sources artifacts allocation wait =
    ("bourne_experiment_record" ∷ [])
    ++ listed (not (is_empty artifacts)) "bourne_artifact_records"
    ++ listed (is_known allocation) "bourne_compute_allocation_observation"
    ++ listed (is_known wait) "bourne_scheduler_lifecycle_events"

unfoldable pub summary_coverage :
    List Artifact → Option AllocationObservation → Option Float → List String
summary_coverage artifacts allocation wait =
    ("execution_wall_time" ∷ "captured_process_output" ∷ [])
    ++ listed (not (is_empty artifacts)) "declared_artifact_capture"
    ++ listed (is_known allocation) "allocated_resource_summary"
    ++ listed (is_known wait) "scheduler_queue_interval"

abbrev pub allocated_of : Option AllocationObservation → Option Fields
allocated_of none = none
allocated_of (some a) = some a.resources

-- `"partial" if unavailable else "complete"`
abbrev pub summary_state : List String → String
summary_state unavailable = if is_empty unavailable then "complete" else "partial"

unfoldable pub summary_of :
    String
    → ExecutionRequest
    → ExecutionPlan
    → String
    → Experiment
    → List Artifact
    → Option AllocationObservation
    → Option Float
    → ExecutionTelemetrySummary
summary_of id request plan execution_id experiment artifacts allocation wait =
    let unavailable = unavailable_facts request plan.backend artifacts allocation wait in
    record {
      id = id;
      request_id = request.id;
      execution_id = execution_id;
      experiment_id = experiment.id;
      created_at = experiment.ended_at;
      state = summary_state unavailable;
      sources = summary_sources artifacts allocation wait;
      coverage = summary_coverage artifacts allocation wait;
      wall_seconds = some experiment.duration_seconds;
      stdout_bytes = some (utf8_length experiment.stdout);
      stderr_bytes = some (utf8_length experiment.stderr);
      known_input_artifact_bytes = role_total "input" artifacts;
      known_output_artifact_bytes = role_total "output" artifacts;
      scheduler_wait_seconds = wait;
      requested_resources = plan.requested_resources;
      allocated_resources = allocated_of allocation;
      unavailable = unavailable;
    }

-- `build_telemetry_summary`
unfoldable pub build_telemetry_summary :
    String
    → ExecutionRequest
    → ExecutionPlan
    → String
    → Experiment
    → List Artifact
    → Option AllocationObservation
    → Option Float
    → Checked (Option ExecutionTelemetrySummary)
build_telemetry_summary id request plan execution_id experiment artifacts allocation wait =
    let built =
      check_summary (summary_of id request plan execution_id experiment artifacts allocation wait)
      >>= λ summary. value (some summary) in
    if request.telemetry_mode == "off" then value none else built

unfoldable pub with_wait : ExecutionTelemetrySummary → Float → Checked ExecutionTelemetrySummary
with_wait summary seconds =
    let unavailable = filter (λ s. not (s == "scheduler_wait_seconds")) summary.unavailable in
    check_summary (record summary {
      scheduler_wait_seconds = some seconds;
      sources = dedupe (summary.sources ++ ("bourne_scheduler_lifecycle_events" ∷ []));
      coverage = dedupe (summary.coverage ++ ("scheduler_queue_interval" ∷ []));
      unavailable = unavailable;
      state = summary_state unavailable;
    })

-- `add_scheduler_wait`, on the seconds from the submission to the start where both times are read.
unfoldable pub add_scheduler_wait :
    ExecutionTelemetrySummary → Option Float → Checked ExecutionTelemetrySummary
add_scheduler_wait summary none = value summary
add_scheduler_wait summary (some seconds) =
    let added = with_wait summary seconds in if is_negative seconds then value summary else added
