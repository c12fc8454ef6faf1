-- ===== src/Requests/Parse.antt =====
-- `parse_execution_request` of execution_request.py. The size of the document as text, the resolved
-- paths, the identity and the time are the host's.
mod Sections
unfoldable pub use Sections.*
use project_bourne.Prelude.{
  ℕ, String, ◌==◌, nat_eq, string_eq, Bool, true, false, ◌&&◌, ◌||◌, not, Option, none, some, List,
  [], ◌∷◌, leb, if◌then◌else◌,
}
use project_bourne.Prelude.Int.{pos, negsuc}
use project_bourne.Prelude.Text.{casefold}
use project_bourne.Prelude.Checks.{Checked, value, refused, ◌>>=◌, ◌>>◌, guard}
use project_bourne.Json.{
  Json, null, int, str, arr, Items, nil, cons, Fields, get, items_length, equals_text,
}
use project_bourne.Resolver.Models.{
  direct, slurm, pbs, lsf, BackendChoice, auto, only, ResourceRequirements, ExecutionConstraints,
}
use project_bourne.Requests.Values.{
  bounded_string, validate_json_bounds, lookup, as_object, optional_object, reject_unknown,
  string_list, resource_integer, max_request_argv,
}
use project_bourne.Requests.Amounts.{parse_memory, parse_walltime}
use project_bourne.Requests.Models.{
  RequestArtifacts, RequestSource, VerificationCheckSpec, ExecutionRequest, request_kind,
  check_spec, check_request,
}

-- `len(json.dumps(...).encode("utf-8"))` with its refusals, `base_directory.resolve()`, the
-- resolved path of a working directory, `new_ulid()` and `utc_now()`.
pub record Host : Type 0 where
  pub document_size : Json → Checked ℕ
  pub base : String
  pub resolve : String → String
  pub id : String
  pub created_at : String

-- MAX_REQUEST_BYTES
abbrev pub max_request_bytes : ℕ
max_request_bytes = 1048576

abbrev pub root_fields : List String
root_fields =
    "kind" ∷ "version" ∷ "command" ∷ "working_directory" ∷ "artifacts" ∷ "resources" ∷ "execution"
    ∷ "provenance" ∷ "telemetry" ∷ "verification" ∷ []

-- The bounds on the document as a whole.
unfoldable pub bounded_document : Host → Json → Checked (Unit {0})
bounded_document host v = do
  validate_json_bounds 0 v
  size ← host.document_size v
  guard (leb size max_request_bytes) "request document exceeds 1048576 bytes"

-- What a document says, before its request is made.
pub record Intent : Type 0 where
  pub version : ℕ
  pub command : List String
  pub working_directory : String
  pub artifacts : RequestArtifacts
  pub resources : ResourceRequirements
  pub execution : ExecutionConstraints
  pub parent : Option String
  pub telemetry_mode : String
  pub checks : List VerificationCheckSpec

unfoldable pub parse_intent : Fields → Checked Intent
parse_intent root = do
  reject_unknown "execution request" root_fields root
  version ← parse_version root
  command ← string_list "command" max_request_argv true (get root "command")
  working_directory ← bounded_string "working directory" (get_or root "working_directory" (str "."))
  artifacts ← parse_artifacts root
  resources ← parse_resources root
  execution ← parse_execution version root
  parent ← parse_parent root
  telemetry_mode ← parse_telemetry root
  checks ← parse_checks root
  value (record {
    version = version;
    command = command;
    working_directory = working_directory;
    artifacts = artifacts;
    resources = resources;
    execution = execution;
    parent = parent;
    telemetry_mode = telemetry_mode;
    checks = checks;
  })

unfoldable pub request_of : Host → RequestSource → Intent → ExecutionRequest
request_of host source i = record {
  id = host.id;
  created_at = host.created_at;
  command = i.command;
  base_directory = host.base;
  working_directory = i.working_directory;
  resolved_working_directory = host.resolve i.working_directory;
  artifacts = i.artifacts;
  resources = i.resources;
  execution = i.execution;
  requested_parent_experiment = i.parent;
  resolved_parent_experiment_id = none;
  telemetry_mode = i.telemetry_mode;
  verification_checks = i.checks;
  source = source;
  kind = request_kind;
  request_schema_version = i.version;
}

-- `parse_execution_request`
unfoldable pub parse_execution_request : Host → RequestSource → Json → Checked ExecutionRequest
parse_execution_request host source v = do
  bounded_document host v
  root ← as_object "execution request" v
  intent ← parse_intent root
  check_request (request_of host source intent)
