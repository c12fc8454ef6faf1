-- ===== src/Requests/Laws/Accepted.antt =====
-- What holds of every request that is made from a document.
use project_bourne.Prelude.{
  ◌≡◌, ◌==◌, nat_eq, string_eq, true, false, ◌||◌, [], ◌∷◌, leb, length, contains, arith,
}
use project_bourne.Prelude.Checks.{value}
use project_bourne.Requests.Values.{bounded_text, validate_string_list, max_request_argv}
use project_bourne.Requests.Models.{ExecutionRequest, check_optional_text, request_checks}

-- What `check_request` asks for that its documents are about.
pub record Sound (r : ExecutionRequest) : Type 0 where
  pub version : (r.request_schema_version == 1 || r.request_schema_version == 2) ≡ true
  pub command : validate_string_list "command" max_request_argv true r.command ≡ value tt
  pub working : bounded_text false "working directory" r.working_directory ≡ value tt
  pub inputs : validate_string_list "input artifacts" 2048 false r.artifacts.inputs ≡ value tt
  pub outputs : validate_string_list "output artifacts" 2048 false r.artifacts.outputs ≡ value tt
  pub mode : contains ("off" ∷ "summary" ∷ []) r.telemetry_mode ≡ true
  pub count : leb (length r.verification_checks) 2048 ≡ true
  pub parent :
      check_optional_text "requested parent experiment" r.requested_parent_experiment ≡ value tt

pub request_checks-Sound : (r : ExecutionRequest) → request_checks r ≡ value tt → Sound r
unfolding request_checks
request_checks-Sound r h = record {
  version = ground (arith, h);
  command = ground (arith, h);
  working = ground (arith, h);
  inputs = ground (arith, h);
  outputs = ground (arith, h);
  mode = ground (arith, h);
  count = ground (arith, h);
  parent = ground (arith, h);
}
