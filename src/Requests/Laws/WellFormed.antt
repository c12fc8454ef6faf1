-- ===== src/Requests/Laws/WellFormed.antt =====
-- What holds of every request that a document is made into.
use mathlib.Core.Path.{subst}
use project_bourne.Prelude.{
  ◌≡◌, refl, String, ◌==◌, nat_eq, string_eq, true, false, not, ◌&&◌, ◌||◌, List, [], ◌∷◌, is_empty,
  arith,
}
use project_bourne.Prelude.Checks.{value, Holds-at}
use project_bourne.Json.{Json}
use project_bourne.Requests.Values.{max_request_argv, validate_string_list}
use project_bourne.Requests.Models.{ExecutionRequest}
use project_bourne.Requests.Laws.Resources.{Amounts}
use project_bourne.Requests.Parse.{Host, Intent, is_lsf, request_of, parse_execution_request}
use project_bourne.Requests.Models.{all_distinct, declared, request_checks}
use project_bourne.Requests.Models.{RequestSource}
use project_bourne.Requests.Laws.RoundTrip.{sound, Accepted, Made, parse-Made}

pub record IsWellFormed (r : ExecutionRequest) : Type 0 where
  pub version : (r.request_schema_version == 1 || r.request_schema_version == 2) ≡ true
  pub family : not (r.request_schema_version == 1 && is_lsf r.execution.backend) ≡ true
  pub command : is_empty r.command ≡ false
  pub inputs : all_distinct r.artifacts.inputs ≡ true
  pub outputs : all_distinct r.artifacts.outputs ≡ true
  pub checks : declared r.artifacts.outputs r.verification_checks ≡ true
  pub amounts : Amounts r.resources

not_empty :
    (l : String) (xs : List String)
    → validate_string_list l max_request_argv true xs ≡ value tt
    → is_empty xs ≡ false
unfolding validate_string_list
not_empty l [] h = ground (arith, h)
not_empty l (x ∷ xs) h = refl

made-IsWellFormed :
    (host : Host) (source : RequestSource) (i : Intent)
    → Accepted host source i
    → IsWellFormed (request_of host source i)
unfolding request_of request_checks
made-IsWellFormed host source i a = record {
  version = (sound host source i a).version;
  family = a.meant.constrained.family;
  command = not_empty "command" i.command (sound host source i a).command;
  inputs = ground (arith, a.sound);
  outputs = ground (arith, a.sound);
  checks = ground (arith, a.sound);
  amounts = a.meant.amounts;
}

-- Every request that a document is made into has version 1 or 2, asks for LSF only with version
-- 2, has a command that is not empty, no input or output twice, only checks of declared
-- outputs, and no amount of zero but of GPUs.
pub parse_execution_request-IsWellFormed :
    (host : Host) (source : RequestSource) (v : Json) (r : ExecutionRequest)
    → parse_execution_request host source v ≡ value r
    → IsWellFormed r
unfolding Made
parse_execution_request-IsWellFormed host source v r h =
    let (i, same, a) =
      Holds-at (Made host source) (parse_execution_request host source v) r h
        (parse-Made host source v) in
    subst IsWellFormed same (made-IsWellFormed host source i a)
