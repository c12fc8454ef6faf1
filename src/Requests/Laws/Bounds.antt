-- ===== src/Requests/Laws/Bounds.antt =====
-- The document of an accepted request is within the bounds on a request's JSON.
use project_bourne.Prelude.{
  ℕ, ◌≤◌, ◌≡◌, refl, suc, String, nat_eq, string_eq, Bool, true, false, Option, none, some, List,
  leb, length, arith,
}
use project_bourne.Prelude.Checks.{value}
use project_bourne.Json.{Json, str, arr, obj, Fields, end, fields_length}
use project_bourne.Resolver.Models.{
  direct, slurm, pbs, lsf, BackendChoice, auto, only, ResourceRequirements, ExecutionConstraints,
}
use project_bourne.Requests.Values.{
  bounded_text, bounded_texts, validate_string_list, validate_json_bounds, validate_fields,
}
use project_bourne.Requests.Models.{RequestArtifacts, check_optional_text}
use project_bourne.Requests.Document.{
  optional_field, texts, number, text, artifact_fields, resource_fields, backend_name,
  execution_fields,
}
use project_bourne.Requests.Laws.Texts.{bounded_text-any, items_length-texts, validate_items-texts}
use project_bourne.Requests.Laws.Sections.{OfSome, length-optional, validate-optional}

abbrev pub Bounded : ℕ → Json → Type 0
Bounded d v = validate_json_bounds d v ≡ value tt

counted :
    (l : String) (n : ℕ) (b : Bool) (xs : List String)
    → validate_string_list l n b xs ≡ value tt
    → (leb (length xs) n ≡ true) × (bounded_texts l xs ≡ value tt)
unfolding validate_string_list
counted l n b xs h = (ground (arith, h), ground (arith, h))

pub texts-Bounded :
    (d : ℕ) (l : String) (n : ℕ) (b : Bool) (xs : List String)
    → leb d 11 ≡ true
    → n ≤ 4096
    → validate_string_list l n b xs ≡ value tt
    → Bounded d (arr (texts xs))
unfolding validate_json_bounds
texts-Bounded d l n b xs p q h =
    let (few, each) = counted l n b xs h in
    ground (
      arith,
      p,
      q,
      few,
      items_length-texts xs,
      validate_items-texts l (suc d) xs (ground (arith, p)) each,
    )

pub artifacts-Bounded :
    (a : RequestArtifacts)
    → validate_string_list "input artifacts" 2048 false a.inputs ≡ value tt
    → validate_string_list "output artifacts" 2048 false a.outputs ≡ value tt
    → Bounded 1 (obj (artifact_fields a))
unfolding validate_json_bounds bounded_text
artifacts-Bounded a hi ho = ground (
  arith,
  texts-Bounded 2 "input artifacts" 2048 false a.inputs refl (omega arith) hi,
  texts-Bounded 2 "output artifacts" 2048 false a.outputs refl (omega arith) ho,
)

number-Bounded : (n : Option ℕ) → OfSome (Bounded 2) (number n)
unfolding validate_json_bounds
number-Bounded none = tt
number-Bounded (some n) = refl

text-Bounded :
    (l : String) (t : Option String)
    → check_optional_text l t ≡ value tt
    → OfSome (Bounded 2) (text t)
unfolding validate_json_bounds check_optional_text
text-Bounded l none h = tt
text-Bounded l (some s) h = bounded_text-any l "request string" true s h

-- An object with few fields, each of them bounded one level down.
pub obj-Bounded :
    (d : ℕ) (f : Fields)
    → leb d 12 ≡ true
    → fields_length f ≤ 256
    → validate_fields (suc d) f ≡ value tt
    → Bounded d (obj f)
unfolding validate_json_bounds
obj-Bounded d f p q h = ground (arith, p, q, h)

pub resources-Bounded : (r : ResourceRequirements) → Bounded 1 (obj (resource_fields r))
unfolding resource_fields validate_json_bounds bounded_text
resources-Bounded r = obj-Bounded 1 (resource_fields r) refl few each
  where
    few : fields_length (resource_fields r) ≤ 256
    few = omega (
      arith,
      length-optional "cpus" (number r.cpus) _,
      length-optional "gpus" (number r.gpus) _,
      length-optional "nodes" (number r.nodes) _,
      length-optional "mpi_ranks" (number r.mpi_ranks) _,
      length-optional "memory" (number r.memory_bytes) _,
      length-optional "walltime" (number r.walltime_seconds) end,
    )

    each : validate_fields 2 (resource_fields r) ≡ value tt
    each = validate-optional 2 "cpus" (number r.cpus) _ refl (number-Bounded r.cpus) (
        validate-optional 2 "gpus" (number r.gpus) _ refl (number-Bounded r.gpus) (
          validate-optional 2 "nodes" (number r.nodes) _ refl (number-Bounded r.nodes) (
            validate-optional 2 "mpi_ranks" (number r.mpi_ranks) _ refl (number-Bounded r.mpi_ranks)
              (validate-optional 2 "memory" (number r.memory_bytes) _ refl
                (number-Bounded r.memory_bytes)
                (validate-optional 2 "walltime" (number r.walltime_seconds) end refl
                  (number-Bounded r.walltime_seconds) refl)))))

pub execution-Bounded :
    (e : ExecutionConstraints)
    → check_optional_text "execution target" e.target ≡ value tt
    → check_optional_text "execution context" e.context ≡ value tt
    → Bounded 1 (obj (execution_fields e))
unfolding execution_fields validate_json_bounds bounded_text
execution-Bounded e ht hc = obj-Bounded 1 (execution_fields e) refl few each
  where
    few : fields_length (execution_fields e) ≤ 256
    few = omega (
      arith,
      length-optional "target" (text e.target) _,
      length-optional "context" (text e.context) end,
    )

    named : (b : BackendChoice) → validate_json_bounds 2 (str (backend_name b)) ≡ value tt
    named auto = refl
    named (only direct) = refl
    named (only slurm) = refl
    named (only pbs) = refl
    named (only lsf) = refl

    each : validate_fields 2 (execution_fields e) ≡ value tt
    each = ground (
      arith,
      named e.backend,
      validate-optional 2 "target" (text e.target) (optional_field "context" (text e.context) end)
          refl (text-Bounded _ e.target ht)
          (validate-optional 2 "context" (text e.context) end refl (text-Bounded _ e.context hc)
            refl),
    )
