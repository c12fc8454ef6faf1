-- ===== src/Resolver/Candidates.antt =====
-- `_matches_target`, `_matches_context` and `_candidates` of resolver.py.
use project_bourne.Prelude.{
  String, ◌==◌, nat_eq, string_eq, option_eq, Bool, true, false, ◌&&◌, ◌||◌, Option, none, some,
  List, [], ◌∷◌, ◌++◌, map, contains, filter, find, if◌then◌else◌,
}
use project_bourne.Resolver.Models.{
  Backend, direct, slurm, pbs, lsf, BackendChoice, auto, only, WorkloadSpec, DiscoveredTarget,
  SchedulerResource, DiscoveredExecutionContext, InventorySnapshot, current_target, PlanCandidate,
  Host,
}
use project_bourne.Resolver.Direct.{direct_findings, direct_state}
use project_bourne.Resolver.Scheduled.{scheduled_findings, scheduled_state, scheduled_conditions}

-- `_matches_target`
unfoldable pub matches_target : Option String → Option DiscoveredTarget → Bool
matches_target none target = true
matches_target (some reference) none = false
matches_target (some reference) (some target) =
    reference == target.id || reference == target.name || some reference == target.locator

-- `_matches_context`
unfoldable pub matches_context : Option String → Option DiscoveredExecutionContext → Bool
matches_context none context = true
matches_context (some reference) none = false
matches_context (some reference) (some context) =
    reference == context.id
    || reference == context.context_key
    || reference == context.name
    || some reference == context.locator

-- A scheduler family that the resolver plans for.
unfoldable pub family_backend : String → Option Backend
family_backend family =
    if family == "slurm"
    then some slurm
    else if family == "pbs"
    then some pbs
    else if family == "lsf"
    then some lsf
    else none

abbrev pub backend_beq : Backend → Backend → Bool
backend_beq direct direct = true
backend_beq slurm slurm = true
backend_beq pbs pbs = true
backend_beq lsf lsf = true
backend_beq a b = false

-- `workload.constraints.backend in {"auto", backend}`
unfoldable pub admits : BackendChoice → Backend → Bool
admits auto b = true
admits (only a) b = backend_beq a b

abbrev pub target_id_of : Option DiscoveredTarget → Option String
target_id_of none = none
target_id_of (some target) = some target.id

abbrev pub context_id_of : Option DiscoveredExecutionContext → Option String
context_id_of none = none
context_id_of (some context) = some context.id

unfoldable pub direct_candidate :
    Host
    → WorkloadSpec
    → InventorySnapshot
    → DiscoveredTarget
    → Option DiscoveredExecutionContext
    → PlanCandidate
direct_candidate host workload inventory access context =
    let found = direct_findings host workload inventory access context in
    record {
      backend = direct;
      access_target_id = access.id;
      execution_target_id = some access.id;
      execution_context_id = context_id_of context;
      scheduler_id = none;
      compatibility_state = direct_state found;
      unresolved_conditions = found.unresolved;
      decision_evidence = found.evidence;
    }

unfoldable pub current_context : InventorySnapshot → Option DiscoveredExecutionContext
current_context inventory = find (λ c. c.context_key == "current") inventory.execution_contexts

-- The first branch of `_candidates`.
unfoldable pub direct_candidates :
    Host → WorkloadSpec → InventorySnapshot → DiscoveredTarget → List PlanCandidate
unfolding current_context
direct_candidates host workload inventory access =
    let context = current_context inventory in
    if admits workload.constraints.backend direct
      && (matches_target workload.constraints.target (some access)
          && matches_context workload.constraints.context context)
    then direct_candidate host workload inventory access context ∷ []
    else []

unfoldable pub contexts_of :
    Option DiscoveredTarget → List DiscoveredExecutionContext → List DiscoveredExecutionContext
contexts_of none contexts = []
contexts_of (some target) contexts = filter (λ c. c.target_id == some target.id) contexts

-- The only context, if there is one.
abbrev single : List DiscoveredExecutionContext → Option DiscoveredExecutionContext
single [] = none
single (context ∷ []) = some context
single (context ∷ _ ∷ _) = none

-- `target_contexts` and `context`, `none` for a target that is skipped.
unfoldable pub compute_context :
    Option String → List DiscoveredExecutionContext → Option (Option DiscoveredExecutionContext)
compute_context none contexts = some (single contexts)
compute_context (some reference) contexts =
    elim (filter (λ c. matches_context (some reference) (some c)) contexts) [
      | [] ↦ none
      | c ∷ cs ↦ some (single (c ∷ cs))
    ]

unfoldable pub scheduled_candidate :
    Host
    → WorkloadSpec
    → DiscoveredTarget
    → SchedulerResource
    → Backend
    → Option DiscoveredTarget
    → Option DiscoveredExecutionContext
    → PlanCandidate
scheduled_candidate host workload access scheduler backend target context =
    let found = scheduled_findings host workload scheduler target context in
    record {
      backend = backend;
      access_target_id = access.id;
      execution_target_id = target_id_of target;
      execution_context_id = context_id_of context;
      scheduler_id = some scheduler.id;
      compatibility_state = scheduled_state found;
      unresolved_conditions = scheduled_conditions found;
      decision_evidence = found.evidence;
    }

-- The body of the loop over `scheduler_targets`.
unfoldable pub target_candidates :
    Host
    → WorkloadSpec
    → InventorySnapshot
    → DiscoveredTarget
    → SchedulerResource
    → Backend
    → Option DiscoveredTarget
    → List PlanCandidate
unfolding contexts_of
target_candidates host workload inventory access scheduler backend target =
    if matches_target workload.constraints.target target
    then elim (compute_context workload.constraints.context
        (contexts_of target inventory.execution_contexts)) [
          | none ↦ []
          | some context ↦
              scheduled_candidate host workload access scheduler backend target context ∷ []
        ]
    else []

abbrev pub append_all {ℓ} : {A : Type ℓ} → List (List A) → List A
append_all [] = []
append_all (xs ∷ rest) = xs ++ append_all rest

-- `scheduler_targets`, where no visible target stands for one of an unknown class.
unfoldable pub scheduler_targets :
    SchedulerResource → List DiscoveredTarget → List (Option DiscoveredTarget)
scheduler_targets scheduler targets =
    elim (filter (λ t. contains scheduler.execution_target_ids t.id) targets) [
      | [] ↦ none ∷ []
      | t ∷ ts ↦ some t ∷ map some ts
    ]

-- The body of the loop over the schedulers, its two guards included.
unfoldable pub scheduler_candidates :
    Host
    → WorkloadSpec
    → InventorySnapshot
    → DiscoveredTarget
    → SchedulerResource
    → List PlanCandidate
unfolding scheduler_targets
scheduler_candidates host workload inventory access scheduler =
    elim (family_backend scheduler.family) [
      | none ↦ []
      | some backend ↦
          if admits workload.constraints.backend backend
          then append_all (
              map (target_candidates host workload inventory access scheduler backend)
                (scheduler_targets scheduler inventory.targets))
          else []
    ]

-- `_candidates`
unfoldable pub candidates : Host → WorkloadSpec → InventorySnapshot → List PlanCandidate
candidates host workload inventory = elim (current_target inventory) [
  | none ↦ []
  | some access ↦
      direct_candidates host workload inventory access
      ++ append_all (map (scheduler_candidates host workload inventory access) inventory.schedulers)
]
