-- ===== src/Resolver/Selection.antt =====
-- `resolve_execution` and `_make_plan` of resolver.py.
use project_bourne.Prelude.{
  String, Bool, true, false, ◌&&◌, ◌||◌, not, Option, none, some, List, [], ◌∷◌, filter,
  if◌then◌else◌,
}
use project_bourne.Resolver.Models.{
  direct, auto, only, compatible, incompatible, ExecutionConstraints, WorkloadSpec,
  InventorySnapshot, PlanCandidate, ExecutionPlan, ResolutionResult, Host,
}
use project_bourne.Resolver.Candidates.{backend_beq, candidates}

-- `selected_candidate` and `reason`, which are both `None` at first.
pub record Choice : Type 0 where
  pub selected_candidate : Option PlanCandidate
  pub reason : Option String

-- `selected_candidate = candidate`
abbrev pub chosen : PlanCandidate → Choice
chosen candidate = record { selected_candidate = some candidate; reason = none }

-- `reason = why`
abbrev pub refused : String → Choice
refused why = record { selected_candidate = none; reason = some why }

abbrev pub is_viable : PlanCandidate → Bool
is_viable c = elim c.compatibility_state [ incompatible ↦ false | _ ↦ true ]

abbrev pub is_compatible : PlanCandidate → Bool
is_compatible c = elim c.compatibility_state [ compatible ↦ true | _ ↦ false ]

abbrev pub is_direct : PlanCandidate → Bool
is_direct c = backend_beq c.backend direct

abbrev pub is_compatible_direct : PlanCandidate → Bool
is_compatible_direct c = is_direct c && is_compatible c

abbrev pub is_some {ℓ} : {A : Type ℓ} → Option A → Bool
is_some none = false
is_some (some a) = true

-- `explicit_choice`
abbrev pub is_explicit : ExecutionConstraints → Bool
is_explicit constraints =
    elim constraints.backend [ auto ↦ false | only b ↦ true ]
    || is_some constraints.target
    || is_some constraints.context

unfoldable pub choose_explicit : List PlanCandidate → Choice
choose_explicit [] = refused "the explicit constraints have no viable candidate"
choose_explicit (c ∷ []) = chosen c
choose_explicit (_ ∷ _ ∷ _) = refused "the explicit constraints still match multiple candidates"

-- With no direct candidate to take: the viable candidates, and the scheduled ones among them.
unfoldable pub choose_scheduled : List PlanCandidate → List PlanCandidate → Choice
choose_scheduled viable (c ∷ []) = chosen c
choose_scheduled viable (_ ∷ _ ∷ _) =
    refused "multiple scheduler candidates remain; select a target explicitly"
choose_scheduled (_ ∷ _) [] =
    refused "direct requirements are not all known satisfied; select a backend explicitly"
choose_scheduled [] [] = refused "no viable execution candidate was discovered"

-- The direct candidate, if exactly one is compatible.
unfoldable pub choose_direct : List PlanCandidate → List PlanCandidate → Choice
choose_direct (c ∷ []) viable = chosen c
choose_direct [] viable = choose_scheduled viable (filter (λ c. not (is_direct c)) viable)
choose_direct (_ ∷ _ ∷ _) viable = choose_scheduled viable (filter (λ c. not (is_direct c)) viable)

unfoldable pub choose_automatic : List PlanCandidate → Choice
choose_automatic viable = choose_direct (filter is_compatible_direct viable) viable

-- The choice among the candidates.
unfoldable pub choose : ExecutionConstraints → List PlanCandidate → Choice
unfolding choose_explicit choose_automatic
choose constraints found =
    let viable = filter is_viable found in
    if is_explicit constraints then choose_explicit viable else choose_automatic viable

-- `_make_plan`
unfoldable pub make_plan : Host → WorkloadSpec → InventorySnapshot → PlanCandidate → ExecutionPlan
make_plan host workload inventory candidate = record {
  id = host.new_ulid;
  workload_id = workload.id;
  inventory_snapshot_id = inventory.id;
  backend = candidate.backend;
  access_target_id = candidate.access_target_id;
  execution_target_id = candidate.execution_target_id;
  execution_context_id = candidate.execution_context_id;
  scheduler_id = candidate.scheduler_id;
  requested_resources = workload.resources;
  executable = workload.executable;
  arguments = workload.arguments;
  working_directory = workload.working_directory;
  inputs = workload.inputs;
  outputs = workload.outputs;
  compatibility_state = candidate.compatibility_state;
  unresolved_conditions = candidate.unresolved_conditions;
  decision_evidence = candidate.decision_evidence;
  created_at = host.now;
  resource_shape = none;
  container = none;
}

-- `selected`
abbrev pub plan_of :
    Host → WorkloadSpec → InventorySnapshot → Option PlanCandidate → Option ExecutionPlan
plan_of host workload inventory none = none
plan_of host workload inventory (some candidate) =
    some (make_plan host workload inventory candidate)

unfoldable pub resolution :
    Host → WorkloadSpec → InventorySnapshot → List PlanCandidate → Choice → ResolutionResult
resolution host workload inventory found choice = record {
  candidates = found;
  selected = plan_of host workload inventory choice.selected_candidate;
  reason = choice.reason;
}

-- `resolve_execution`
unfoldable pub resolve_execution : Host → WorkloadSpec → InventorySnapshot → ResolutionResult
unfolding resolution
resolve_execution host workload inventory =
    let found = candidates host workload inventory in
    resolution host workload inventory found (choose workload.constraints found)
