-- ===== src/Requests/Tests.antt =====
-- A request of a document, and instances of the theorems on requests.
use project_bourne.Prelude.{◌≡◌, refl, none, some, [], ◌∷◌, arith}
use project_bourne.Prelude.Int.{pos}
use project_bourne.Prelude.Checks.{value}
use project_bourne.Json.{Json, int, str, arr, obj, nil, cons, end, field}
use project_bourne.Resolver.Models.{slurm, only}
use project_bourne.Requests.Values.{
  bounded_text, bounded_string, as_object, object_or_empty, optional_object, reject_unknown,
  bounded_texts, validate_string_list, bounded_strings, string_list, integer_item, resource_integer,
  validate_json_bounds,
}
use project_bourne.Requests.Amounts.{
  memory_unit, memory_text, parse_memory, clock_seconds, walltime_text, parse_walltime,
}
use project_bourne.Requests.Models.{
  RequestSource, ExecutionRequest, check_source, min_bytes_spec, check_spec, check_optional_text,
  check_resolved, request_checks, check_request,
}
use project_bourne.Requests.Parse.{
  Host, supported_version, parse_version, artifacts_of, parse_artifacts, optional_amount,
  resources_of, parse_resources, backend_choice, optional_string, execution_of, parse_execution,
  parent_of, parse_parent, telemetry_of, parse_telemetry, parse_check, parse_items, check_list,
  checks_of, parse_checks, bounded_document, parse_intent, request_of, parse_execution_request,
}
use project_bourne.Requests.Document.{to_document, execution_request_from_cli}
use project_bourne.Requests.Laws.WellFormed.{IsWellFormed, parse_execution_request-IsWellFormed}
use project_bourne.Requests.Laws.RoundTrip.{parse-to_document}
use project_bourne.Requests.Laws.CommandLine.{execution_request_from_cli-parsed}
use project_bourne.Requests.Laws.Walltimes.{parse_walltime-walltime}
use project_bourne.Batch.Amounts.{walltime}

abbrev host : Host
host = record {
  document_size = λ v. value 400;
  base = "/work";
  resolve = λ s. "/work";
  id = "01ARZ3NDEKTSV4RRFFQ69G5FAV";
  created_at = "2026-01-01T00:00:00+00:00";
}

abbrev source : RequestSource
source = record { kind = "cli"; metadata = [] }

abbrev given : Json
given = obj (
    field "kind" (str "bourne.execution-request") (
      field "version" (int (pos 2)) (
        field "command" (arr (cons (str "run") nil)) (
          field "artifacts" (obj (field "outputs" (arr (cons (str "out.csv") nil)) end)) (
            field "resources"
              (obj (field "memory" (str "4GiB") (field "walltime" (str "01:30:00") end)))
              (field "execution" (obj (field "backend" (str "slurm") end)) (
                field "verification"
                  (obj (
                    field "checks"
                      (arr (
                        cons
                          (obj (
                            field "type" (str "output_min_bytes")
                              (field "path" (str "out.csv") (field "min_bytes" (int (pos 1)) end))))
                          nil))
                      end))
                  end)))))))

abbrev made : ExecutionRequest
made = record {
  id = "01ARZ3NDEKTSV4RRFFQ69G5FAV";
  created_at = "2026-01-01T00:00:00+00:00";
  command = "run" ∷ [];
  base_directory = "/work";
  working_directory = ".";
  resolved_working_directory = "/work";
  artifacts = record { inputs = []; outputs = "out.csv" ∷ [] };
  resources = record {
    cpus = none;
    gpus = none;
    nodes = none;
    mpi_ranks = none;
    memory_bytes = some 4294967296;
    walltime_seconds = some 5400;
  };
  execution = record { backend = only slurm; target = none; context = none };
  requested_parent_experiment = none;
  resolved_parent_experiment_id = none;
  telemetry_mode = "summary";
  verification_checks =
      record { type = "output_min_bytes"; path = "out.csv"; min_bytes = some 1; sha256 = none }
      ∷ [];
  source = source;
  kind = "bourne.execution-request";
  request_schema_version = 2;
}

parsed : parse_execution_request host source given ≡ value made
unfolding parse_execution_request bounded_document validate_json_bounds bounded_text as_object
    parse_intent reject_unknown parse_version supported_version string_list bounded_strings
    bounded_string parse_artifacts optional_object object_or_empty artifacts_of parse_resources
    resources_of resource_integer integer_item optional_amount parse_memory memory_text memory_unit
    parse_walltime walltime_text clock_seconds parse_execution execution_of optional_string
    backend_choice parse_parent parent_of parse_telemetry telemetry_of parse_checks checks_of
    check_list parse_items parse_check check_spec min_bytes_spec check_request request_checks
    request_of validate_string_list bounded_texts check_optional_text check_resolved
parsed = refl

source_checked : check_source source ≡ value source
unfolding check_source
source_checked = refl

parse_execution_request-IsWellFormed_example : IsWellFormed made
parse_execution_request-IsWellFormed_example =
    parse_execution_request-IsWellFormed host source given made parsed

parse-to_document_example : parse_execution_request host source (to_document made) ≡ value made
parse-to_document_example = parse-to_document host source given made 400 parsed refl refl

execution_request_from_cli-parsed_example :
    execution_request_from_cli host made.command made.artifacts made.resources made.execution
      made.requested_parent_experiment made.telemetry_mode made.verification_checks "cli"
    ≡ value made
execution_request_from_cli-parsed_example =
    execution_request_from_cli-parsed host "cli" source given made 400 source_checked parsed refl
      refl refl refl

parse_walltime-walltime_example : parse_walltime (str (walltime 5400)) ≡ value 5400
parse_walltime-walltime_example = parse_walltime-walltime 5400 (omega arith)
