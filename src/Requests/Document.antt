-- ===== src/Requests/Document.antt =====
-- `to_document` and `execution_request_from_cli` of execution_request.py: the documents that the
-- program itself makes. Both put the same fields in the same order.
use project_bourne.Prelude.{
  ℕ, String, ◌==◌, nat_eq, string_eq, Bool, true, false, ◌&&◌, Option, none, some, List, [], ◌∷◌,
  is_empty, if◌then◌else◌,
}
use project_bourne.Prelude.Int.{pos}
use project_bourne.Prelude.Checks.{Checked, ◌>>=◌}
use project_bourne.Json.{Json, int, str, arr, obj, Items, nil, cons, Fields, end, field}
use project_bourne.Resolver.Models.{
  direct, slurm, pbs, lsf, BackendChoice, auto, only, ResourceRequirements, ExecutionConstraints,
}
use project_bourne.Requests.Models.{
  RequestArtifacts, VerificationCheckSpec, ExecutionRequest, request_kind, check_source,
}
use project_bourne.Requests.Parse.{Host, parse_execution_request}

-- A field that is left out where its value is `None`.
abbrev pub optional_field : String → Option Json → Fields → Fields
optional_field key none rest = rest
optional_field key (some v) rest = field key v rest

abbrev pub texts : List String → Items
texts [] = nil
texts (s ∷ rest) = cons (str s) (texts rest)

abbrev pub number : Option ℕ → Option Json
number none = none
number (some n) = some (int (pos n))

abbrev pub text : Option String → Option Json
text none = none
text (some s) = some (str s)

abbrev pub artifact_fields : RequestArtifacts → Fields
artifact_fields a =
    field "inputs" (arr (texts a.inputs)) (field "outputs" (arr (texts a.outputs)) end)

unfoldable pub resource_fields : ResourceRequirements → Fields
resource_fields r = optional_field "cpus" (number r.cpus) (
    optional_field "gpus" (number r.gpus) (
      optional_field "nodes" (number r.nodes) (
        optional_field "mpi_ranks" (number r.mpi_ranks) (
          optional_field "memory" (number r.memory_bytes)
            (optional_field "walltime" (number r.walltime_seconds) end)))))

abbrev pub backend_name : BackendChoice → String
backend_name auto = "auto"
backend_name (only direct) = "direct"
backend_name (only slurm) = "slurm"
backend_name (only pbs) = "pbs"
backend_name (only lsf) = "lsf"

unfoldable pub execution_fields : ExecutionConstraints → Fields
execution_fields e =
    field "backend" (str (backend_name e.backend))
      (optional_field "target" (text e.target) (optional_field "context" (text e.context) end))

-- `VerificationCheckSpec.to_dict`
unfoldable pub check_fields : VerificationCheckSpec → Fields
check_fields c = field "type" (str c.type) (
    field "path" (str c.path) (
      optional_field "min_bytes" (number c.min_bytes)
        (optional_field "sha256" (text c.sha256) end)))

abbrev pub check_items : List VerificationCheckSpec → Items
check_items [] = nil
check_items (c ∷ rest) = cons (obj (check_fields c)) (check_items rest)

abbrev pub verification_fields : List VerificationCheckSpec → Fields
verification_fields checks = field "checks" (arr (check_items checks)) end

-- The parts of a document that may be left out.
pub record Sections : Type 0 where
  pub artifacts : Option Json
  pub resources : Option Json
  pub execution : Option Json
  pub provenance : Option Json
  pub telemetry : Option Json
  pub verification : Option Json

unfoldable pub document : ℕ → List String → String → Sections → Fields
document version command working_directory s = field "kind" (str request_kind) (
    field "version" (int (pos version)) (
      field "command" (arr (texts command)) (
        field "working_directory" (str working_directory) (
          optional_field "artifacts" s.artifacts (
            optional_field "resources" s.resources (
              optional_field "execution" s.execution (
                optional_field "provenance" s.provenance (
                  optional_field "telemetry" s.telemetry
                    (optional_field "verification" s.verification end)))))))))

abbrev pub unless_empty : Fields → Option Json
unless_empty end = none
unless_empty (field key v rest) = some (obj (field key v rest))

abbrev pub is_absent_text : Option String → Bool
is_absent_text none = true
is_absent_text (some s) = false

-- `{"backend": "auto", "target": None, "context": None}`
abbrev pub is_default : ExecutionConstraints → Bool
is_default e =
    backend_name e.backend == "auto" && is_absent_text e.target && is_absent_text e.context

abbrev pub parent_section : Option String → Option Json
parent_section none = none
parent_section (some s) = some (obj (field "parent_experiment" (str s) end))

abbrev pub telemetry_section : String → Option Json
telemetry_section mode =
    if mode == "summary" then none else some (obj (field "mode" (str mode) end))

unfoldable pub request_sections : ExecutionRequest → Sections
request_sections r = record {
  artifacts =
      if is_empty r.artifacts.inputs && is_empty r.artifacts.outputs
      then none
      else some (obj (artifact_fields r.artifacts));
  resources = unless_empty (resource_fields r.resources);
  execution = if is_default r.execution then none else some (obj (execution_fields r.execution));
  provenance = parent_section r.requested_parent_experiment;
  telemetry = telemetry_section r.telemetry_mode;
  verification =
      if is_empty r.verification_checks
      then none
      else some (obj (verification_fields r.verification_checks));
}

-- `to_document`
unfoldable pub to_document : ExecutionRequest → Json
to_document r =
    obj (document r.request_schema_version r.command r.working_directory (request_sections r))

unfoldable pub cli_sections :
    RequestArtifacts
    → ResourceRequirements
    → ExecutionConstraints
    → Option String
    → String
    → List VerificationCheckSpec
    → Sections
cli_sections artifacts resources execution parent telemetry_mode checks = record {
  artifacts = some (obj (artifact_fields artifacts));
  resources = some (obj (resource_fields resources));
  execution = some (obj (execution_fields execution));
  provenance = parent_section parent;
  telemetry = some (obj (field "mode" (str telemetry_mode) end));
  verification = some (obj (verification_fields checks));
}

-- `execution_request_from_cli`
unfoldable pub execution_request_from_cli :
    Host
    → List String
    → RequestArtifacts
    → ResourceRequirements
    → ExecutionConstraints
    → Option String
    → String
    → List VerificationCheckSpec
    → String
    → Checked ExecutionRequest
execution_request_from_cli host argv artifacts resources execution parent mode checks kind = do
  source ← check_source (record { kind = kind; metadata = [] })
  parse_execution_request host source
      (obj (document 2 argv "." (cli_sections artifacts resources execution parent mode checks)))
