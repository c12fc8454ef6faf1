-- ===== src/Requests/Models.antt =====
-- The records of execution_request.py with the checks of their `__post_init__`.
use project_bourne.Prelude.{
  ℕ, String, ◌==◌, nat_eq, string_eq, Bool, true, false, ◌&&◌, ◌||◌, not, Option, none, some, List,
  [], ◌∷◌, leb, length, contains, if◌then◌else◌,
}
use project_bourne.Prelude.Int.{pos}
use project_bourne.Prelude.Text.{is_empty_text, is_digit, text_length, all_chars}
use project_bourne.Prelude.Checks.{Checked, value, refused, ◌>>◌, guard}
use project_bourne.Json.{Json, null, int, str}
use project_bourne.Resolver.Models.{ResourceRequirements, ExecutionConstraints}
use project_bourne.Requests.Values.{bounded_text, validate_string_list, max_request_argv}

pub record RequestArtifacts : Type 0 where
  pub inputs : List String
  pub outputs : List String

pub record RequestSource : Type 0 where
  pub kind : String
  pub metadata : List (String × String)

pub record VerificationCheckSpec : Type 0 where
  pub type : String
  pub path : String
  pub min_bytes : Option ℕ
  pub sha256 : Option String

pub record ExecutionRequest : Type 0 where
  pub id : String
  pub created_at : String
  pub command : List String
  pub base_directory : String
  pub working_directory : String
  pub resolved_working_directory : String
  pub artifacts : RequestArtifacts
  pub resources : ResourceRequirements
  pub execution : ExecutionConstraints
  pub requested_parent_experiment : Option String
  pub resolved_parent_experiment_id : Option String
  pub telemetry_mode : String
  pub verification_checks : List VerificationCheckSpec
  pub source : RequestSource
  pub kind : String
  pub request_schema_version : ℕ

-- REQUEST_KIND
abbrev pub request_kind : String
request_kind = "bourne.execution-request"

-- `len(set(xs)) == len(xs)`
abbrev pub all_distinct : List String → Bool
all_distinct [] = true
all_distinct (x ∷ xs) = not (contains xs x) && all_distinct xs

abbrev bounded_pairs : List (String × String) → Checked (Unit {0})
bounded_pairs [] = value tt
bounded_pairs ((key, item) ∷ rest) = do
  bounded_text false "request source metadata key" key
  bounded_text true "request source metadata value" item
  bounded_pairs rest

abbrev pair_keys : List (String × String) → List String
pair_keys [] = []
pair_keys ((key, item) ∷ rest) = key ∷ pair_keys rest

-- `RequestSource.__post_init__`
unfoldable pub check_source : RequestSource → Checked RequestSource
check_source source = do
  guard (contains ("cli" ∷ "file" ∷ "sdk" ∷ []) source.kind) "unsupported request source kind"
  guard (leb (length source.metadata) 32) "request source metadata exceeds the field limit"
  guard (all_distinct (pair_keys source.metadata)) "request source metadata keys must be unique"
  bounded_pairs source.metadata
  value source

-- `[0-9a-fA-F]`
abbrev pub is_any_hex : ℕ → Bool
is_any_hex c = is_digit c || (leb b'a' c && leb c b'f' || leb b'A' c && leb c b'F')

-- _SHA256
abbrev pub is_sha256 : String → Bool
is_sha256 s = text_length s == 64 && all_chars is_any_hex s

abbrev pub is_null : Json → Bool
is_null null = true
is_null _ = false

abbrev pub natural_of : Json → Option ℕ
natural_of (int (pos n)) = some n
natural_of _ = none

abbrev pub text_of : Json → Option String
text_of (str s) = some s
text_of _ = none

-- The branches of `VerificationCheckSpec.__post_init__`, on what `min_bytes` and `sha256` are.
unfoldable pub exists_spec : String → Bool → Checked VerificationCheckSpec
exists_spec path true =
    value (record { type = "output_exists"; path = path; min_bytes = none; sha256 = none })
exists_spec path false = refused "output_exists accepts only type and path"

unfoldable pub min_bytes_spec : String → Option ℕ → Bool → Checked VerificationCheckSpec
min_bytes_spec path (some n) true =
    value (record { type = "output_min_bytes"; path = path; min_bytes = some n; sha256 = none })
min_bytes_spec path (some n) false =
    refused "output_min_bytes requires a non-negative min_bytes value"
min_bytes_spec path none no_sha = refused "output_min_bytes requires a non-negative min_bytes value"

unfoldable pub sha256_spec : String → Bool → Option String → Checked VerificationCheckSpec
sha256_spec path true (some s) =
    if is_sha256 s
    then value (record { type = "output_sha256"; path = path; min_bytes = none; sha256 = some s })
    else refused "output_sha256 requires a 64-digit SHA-256 value"
sha256_spec path true none = refused "output_sha256 requires a 64-digit SHA-256 value"
sha256_spec path false sha = refused "output_sha256 requires a 64-digit SHA-256 value"

unfoldable pub check_spec : String → String → Json → Json → Checked VerificationCheckSpec
check_spec type path min_bytes sha256 = do
  guard (contains ("output_exists" ∷ "output_min_bytes" ∷ "output_sha256" ∷ []) type)
      "unsupported verification check"
  bounded_text false "verification path" path
  if type == "output_exists"
      then exists_spec path (is_null min_bytes && is_null sha256)
      else if type == "output_min_bytes"
      then min_bytes_spec path (natural_of min_bytes) (is_null sha256)
      else sha256_spec path (is_null min_bytes) (text_of sha256)

unfoldable pub check_optional_text : String → Option String → Checked (Unit {0})
check_optional_text label none = value tt
check_optional_text label (some s) = bounded_text false label s

unfoldable pub check_resolved : Option String → Option String → Checked (Unit {0})
check_resolved requested none = value tt
check_resolved none (some s) = refused "a resolved parent experiment requires a requested reference"
check_resolved (some requested) (some s) = bounded_text false "resolved parent experiment ID" s

-- Every check is of a declared output.
abbrev pub declared : List String → List VerificationCheckSpec → Bool
declared outputs [] = true
declared outputs (c ∷ rest) = contains outputs c.path && declared outputs rest

unfoldable pub request_checks : ExecutionRequest → Checked (Unit {0})
request_checks r = do
  guard (r.kind == request_kind) "unsupported request kind"
  guard (r.request_schema_version == 1 || r.request_schema_version == 2)
      "unsupported execution request version"
  guard (not (is_empty_text r.id) && not (is_empty_text r.created_at))
      "request ID and creation time are required"
  validate_string_list "command" max_request_argv true r.command
  bounded_text false "request base directory" r.base_directory
  bounded_text false "working directory" r.working_directory
  bounded_text false "resolved working directory" r.resolved_working_directory
  validate_string_list "input artifacts" 2048 false r.artifacts.inputs
  validate_string_list "output artifacts" 2048 false r.artifacts.outputs
  guard (all_distinct r.artifacts.inputs) "input artifact paths must be unique"
  guard (all_distinct r.artifacts.outputs) "output artifact paths must be unique"
  guard (contains ("off" ∷ "summary" ∷ []) r.telemetry_mode) "unsupported telemetry mode"
  guard (leb (length r.verification_checks) 2048) "verification checks exceed the count limit"
  guard (declared r.artifacts.outputs r.verification_checks)
      "verification path is not a declared output"
  check_optional_text "requested parent experiment" r.requested_parent_experiment
  check_resolved r.requested_parent_experiment r.resolved_parent_experiment_id

-- `ExecutionRequest.__post_init__`
unfoldable pub check_request : ExecutionRequest → Checked ExecutionRequest
check_request r = do request_checks r; value r

-- `with_resolved_parent_experiment`
unfoldable pub with_resolved_parent_experiment :
    ExecutionRequest → String → Checked ExecutionRequest
with_resolved_parent_experiment r id = elim r.requested_parent_experiment [
  | none ↦ refused "cannot resolve a parent experiment that was not requested"
  | some _ ↦ check_request (record r { resolved_parent_experiment_id = some id })
]
