-- ===== src/Outcomes/Tests.antt =====
-- A verification of one output, and instances of the theorems on outcomes.
use project_bourne.Prelude.{
  ℕ, ◌≡◌, refl, String, ◌==◌, string_eq, ◌&&◌, not, none, some, [], ◌∷◌, any, all, is_empty,
}
use project_bourne.Prelude.Int.{pos}
use project_bourne.Prelude.Checks.{value}
use project_bourne.Json.{null, int, str, end, field, Float, finite}
use project_bourne.Resolver.Models.{slurm, only, partially, ResourceRequirements, ExecutionPlan}
use project_bourne.Requests.Models.{ExecutionRequest}
use project_bourne.Outcomes.Models.{
  present, complete, Artifact, Experiment, result_checks, check_result, VerificationRun, run_checks,
  check_run, check_summary,
}
use project_bourne.Outcomes.Verification.{
  check_state, captured_state, content_state, size_state, artifact_evidence, judge, evaluate_check,
  output_of, evaluate_checks, has_state, aggregate, evaluate_verification,
}
use project_bourne.Outcomes.Telemetry.{summary_of, add_scheduler_wait}
use project_bourne.Outcomes.Persisted.{run_to_dict, run_from_dict}
use project_bourne.Outcomes.Laws.Verdicts.{meets, refutes}
use project_bourne.Outcomes.Laws.Runs.{evaluate_verification-aggregate}
use project_bourne.Outcomes.Laws.Records.{run_from_dict-evaluated}
use project_bourne.Outcomes.Laws.Waits.{add_scheduler_wait-summary_of}

abbrev resources : ResourceRequirements
resources = record {
  cpus = none;
  gpus = none;
  nodes = none;
  mpi_ranks = none;
  memory_bytes = none;
  walltime_seconds = none;
}

abbrev request : ExecutionRequest
request = record {
  id = "r1";
  created_at = "2026-01-01T00:00:00+00:00";
  command = "run" ∷ [];
  base_directory = "/work";
  working_directory = ".";
  resolved_working_directory = "/work";
  artifacts = record { inputs = []; outputs = "out.csv" ∷ [] };
  resources = resources;
  execution = record { backend = only slurm; target = none; context = none };
  requested_parent_experiment = none;
  resolved_parent_experiment_id = none;
  telemetry_mode = "summary";
  verification_checks =
      record { type = "output_min_bytes"; path = "out.csv"; min_bytes = some 2; sha256 = none }
      ∷ [];
  source = record { kind = "cli"; metadata = [] };
  kind = "bourne.execution-request";
  request_schema_version = 2;
}

abbrev output : Artifact
output = record {
  id = "a1";
  role = "output";
  original_path = "out.csv";
  existence_state = present;
  capture_status = complete;
  sha256 = none;
  size_bytes = some 3;
}

abbrev experiment : Experiment
experiment = record {
  id = "x1";
  ended_at = "2026-01-01T00:01:00+00:00";
  duration_seconds = finite (pos 1) (pos 0);
  stdout = "";
  stderr = "";
}

abbrev plan : ExecutionPlan
plan = record {
  id = "p1";
  workload_id = "w1";
  inventory_snapshot_id = "i1";
  backend = slurm;
  access_target_id = "t1";
  execution_target_id = none;
  execution_context_id = none;
  scheduler_id = some "s1";
  requested_resources = resources;
  executable = "run";
  arguments = [];
  working_directory = "/work";
  inputs = [];
  outputs = "out.csv" ∷ [];
  compatibility_state = partially;
  unresolved_conditions = [];
  decision_evidence = [];
  created_at = "2026-01-01T00:00:00+00:00";
  resource_shape = none;
  container = none;
}

-- The identities of a run and its checks.
abbrev ids : ℕ → String
ids n = "id"

abbrev run : VerificationRun
run = record {
  id = "id";
  request_id = "r1";
  execution_id = "e1";
  experiment_id = "x1";
  aggregate_state = "passed";
  evaluated_at = "2026-01-01T00:01:00+00:00";
  source = "captured_output_artifact_records";
  checks =
      record {
        id = "id";
        verification_run_id = "id";
        ordinal = 0;
        check_type = "output_min_bytes";
        output_path = "out.csv";
        state = "passed";
        evidence = field "evidence_source" (str "captured_output_artifact_record") (
            field "declared_output_path" (str "out.csv") (
              field "artifact_id" (str "a1") (
                field "existence_state" (str "present") (
                  field "capture_status" (str "complete") (
                    field "size_bytes" (int (pos 3))
                      (field "sha256" null (field "expected_min_bytes" (int (pos 2)) end)))))));
      }
      ∷ [];
}

evaluated : evaluate_verification ids request "e1" experiment (output ∷ []) ≡ value run
unfolding evaluate_verification evaluate_checks evaluate_check judge check_state captured_state
    content_state size_state artifact_evidence output_of has_state aggregate result_checks
    check_result run_checks check_run
evaluated = refl

evaluate_verification-aggregate_example :
    ((run.aggregate_state == "passed") ≡ (
      not (is_empty request.verification_checks)
      && all (λ c. meets c (output_of (output ∷ []) c.path)) request.verification_checks))
    × ((run.aggregate_state == "failed")
        ≡ any (λ c. refutes c (output_of (output ∷ []) c.path)) request.verification_checks)
evaluate_verification-aggregate_example =
    evaluate_verification-aggregate ids request "e1" experiment (output ∷ []) run evaluated

run_from_dict-evaluated_example : run_from_dict (run_to_dict run) ≡ value run
run_from_dict-evaluated_example =
    run_from_dict-evaluated ids request "e1" experiment (output ∷ []) run evaluated

abbrev seconds : Float
seconds = finite (pos 5) (pos 0)

add_scheduler_wait-summary_of_example :
    add_scheduler_wait
      (summary_of "s1" request plan "e1" experiment (output ∷ []) none none)
      (some seconds)
    ≡ check_summary (summary_of "s1" request plan "e1" experiment (output ∷ []) none (some seconds))
add_scheduler_wait-summary_of_example =
    add_scheduler_wait-summary_of (output ∷ []) none seconds "s1" request plan "e1" experiment refl
