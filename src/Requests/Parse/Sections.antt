-- ===== src/Requests/Parse/Sections.antt =====
-- The sections of a document in `parse_execution_request`, and `_parse_check`.
use project_bourne.Prelude.{
  ℕ, String, ◌==◌, nat_eq, string_eq, Bool, true, false, ◌&&◌, ◌||◌, not, Option, none, some, List,
  [], ◌∷◌, leb, if◌then◌else◌,
}
use project_bourne.Prelude.Int.{pos, negsuc}
use project_bourne.Prelude.Text.{casefold}
use project_bourne.Prelude.Checks.{Checked, value, refused, ◌>>=◌, ◌>>◌, guard}
use project_bourne.Json.{
  Json, null, int, str, arr, Items, nil, cons, Fields, get, items_length, equals_text,
}
use project_bourne.Resolver.Models.{
  direct, slurm, pbs, lsf, BackendChoice, auto, only, ResourceRequirements, ExecutionConstraints,
}
use project_bourne.Requests.Values.{
  bounded_string, lookup, as_object, optional_object, reject_unknown, string_list, resource_integer,
}
use project_bourne.Requests.Amounts.{parse_memory, parse_walltime}
use project_bourne.Requests.Models.{
  RequestArtifacts, VerificationCheckSpec, request_kind, check_spec,
}

abbrev pub or_default : Json → Option Json → Json
or_default default none = default
or_default default (some v) = v

-- `value.get(key, default)`
abbrev pub get_or : Fields → String → Json → Json
get_or fields key default = or_default default (lookup fields key)

unfoldable pub supported_version : Json → Checked ℕ
supported_version (int (pos n)) =
    if n == 1 || n == 2 then value n else refused "unsupported execution request version"
supported_version (int (negsuc n)) = refused "unsupported execution request version"
supported_version _ = refused "request version must be an integer"

unfoldable pub parse_version : Fields → Checked ℕ
parse_version root = do
  guard (equals_text (get root "kind") request_kind) "request kind is wrong"
  supported_version (get root "version")

unfoldable pub artifacts_of : Fields → Checked RequestArtifacts
artifacts_of fields = do
  reject_unknown "artifacts" ("inputs" ∷ "outputs" ∷ []) fields
  inputs ← string_list "input artifacts" 2048 false (get_or fields "inputs" (arr nil))
  outputs ← string_list "output artifacts" 2048 false (get_or fields "outputs" (arr nil))
  value (record { inputs = inputs; outputs = outputs })

unfoldable pub parse_artifacts : Fields → Checked RequestArtifacts
parse_artifacts root = do fields ← optional_object root "artifacts"; artifacts_of fields

unfoldable pub optional_amount : (Json → Checked ℕ) → Option Json → Checked (Option ℕ)
optional_amount parse none = value none
optional_amount parse (some v) = do n ← parse v; value (some n)

unfoldable pub resources_of : Fields → Checked ResourceRequirements
resources_of fields = do
  reject_unknown "resources" ("cpus" ∷ "gpus" ∷ "nodes" ∷ "mpi_ranks" ∷ "memory" ∷ "walltime" ∷ [])
      fields
  cpus ← resource_integer "cpus" 1 fields
  gpus ← resource_integer "gpus" 0 fields
  nodes ← resource_integer "nodes" 1 fields
  mpi_ranks ← resource_integer "mpi_ranks" 1 fields
  memory ← optional_amount parse_memory (lookup fields "memory")
  walltime ← optional_amount parse_walltime (lookup fields "walltime")
  value (record {
    cpus = cpus;
    gpus = gpus;
    nodes = nodes;
    mpi_ranks = mpi_ranks;
    memory_bytes = memory;
    walltime_seconds = walltime;
  })

unfoldable pub parse_resources : Fields → Checked ResourceRequirements
parse_resources root = do fields ← optional_object root "resources"; resources_of fields

-- `ExecutionConstraints.__post_init__`
unfoldable pub backend_choice : String → Checked BackendChoice
backend_choice s =
    if s == "auto"
    then value auto
    else if s == "direct"
    then value (only direct)
    else if s == "slurm"
    then value (only slurm)
    else if s == "pbs"
    then value (only pbs)
    else if s == "lsf"
    then value (only lsf)
    else refused "unsupported backend"

-- A text that is not empty, where the value is not `None`.
unfoldable pub optional_string : String → Json → Checked (Option String)
optional_string label null = value none
optional_string label v = do s ← bounded_string label v; value (some s)

abbrev pub is_lsf : BackendChoice → Bool
is_lsf (only lsf) = true
is_lsf _ = false

unfoldable pub execution_of : ℕ → Fields → Checked ExecutionConstraints
execution_of version fields = do
  reject_unknown "execution" ("backend" ∷ "target" ∷ "context" ∷ []) fields
  backend ← bounded_string "execution backend" (get_or fields "backend" (str "auto"))
  target ← optional_string "execution target" (get fields "target")
  context ← optional_string "execution context" (get fields "context")
  choice ← backend_choice backend
  guard (not (version == 1 && is_lsf choice)) "LSF backend requires execution request version 2"
  value (record { backend = choice; target = target; context = context })

unfoldable pub parse_execution : ℕ → Fields → Checked ExecutionConstraints
parse_execution version root = do
  fields ← optional_object root "execution"
  execution_of version fields

unfoldable pub parent_of : Fields → Checked (Option String)
parent_of fields = do
  reject_unknown "provenance" ("parent_experiment" ∷ []) fields
  optional_string "parent experiment" (get fields "parent_experiment")

unfoldable pub parse_parent : Fields → Checked (Option String)
parse_parent root = do fields ← optional_object root "provenance"; parent_of fields

unfoldable pub telemetry_of : Fields → Checked String
telemetry_of fields = do
  reject_unknown "telemetry" ("mode" ∷ []) fields
  bounded_string "telemetry mode" (get_or fields "mode" (str "summary"))

unfoldable pub parse_telemetry : Fields → Checked String
parse_telemetry root = do fields ← optional_object root "telemetry"; telemetry_of fields

-- `sha.casefold()` for a text.
abbrev pub folded : Json → Json
folded (str s) = str (casefold s)
folded v = v

-- `_parse_check`
unfoldable pub parse_check : Json → Checked VerificationCheckSpec
parse_check v = do
  fields ← as_object "verification check" v
  reject_unknown "verification check" ("type" ∷ "path" ∷ "min_bytes" ∷ "sha256" ∷ []) fields
  type ← bounded_string "verification check type" (get fields "type")
  path ← bounded_string "verification path" (get fields "path")
  check_spec type path (get fields "min_bytes") (folded (get fields "sha256"))

unfoldable pub parse_items : Items → Checked (List VerificationCheckSpec)
parse_items nil = value []
parse_items (cons v rest) = do check ← parse_check v; more ← parse_items rest; value (check ∷ more)

unfoldable pub check_list : Json → Checked (List VerificationCheckSpec)
check_list (arr items) = do
  guard (leb (items_length items) 2048) "verification checks must be a bounded array"
  parse_items items
check_list _ = refused "verification checks must be a bounded array"

unfoldable pub checks_of : Fields → Checked (List VerificationCheckSpec)
checks_of fields = do
  reject_unknown "verification" ("checks" ∷ []) fields
  check_list (get_or fields "checks" (arr nil))

unfoldable pub parse_checks : Fields → Checked (List VerificationCheckSpec)
parse_checks root = do fields ← optional_object root "verification"; checks_of fields
