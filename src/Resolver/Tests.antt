-- ===== src/Resolver/Tests.antt =====
-- Runs of the resolver on a small inventory, and instances of its theorems.
use project_bourne.Prelude.{
  String, ◌≡◌, refl, ◌↔◌, true, not, ◌||◌, inl, none, some, [], ◌∷◌, contains, Distinct, All,
  if◌then◌else◌, string_eq, nat_eq, arith,
}
use project_bourne.Prelude.Int.{pos}
use project_bourne.Prelude.Text.{is_space}
use project_bourne.Json.{end, field, str, int, obj, arr, nil, cons}
use project_bourne.Resolver.Models.{
  slurm, BackendChoice, auto, only, compatible, partially, incompatible, ResourceRequirements,
  WorkloadSpec, DiscoveredTarget, SchedulerResource, DiscoveredExecutionContext, InventorySnapshot,
  PlanCandidate, Host,
}
use project_bourne.Resolver.Numbers.{leading_int, slurm_gpu_count, direct_gpu_count}
use project_bourne.Resolver.Direct.{
  direct_findings, direct_state, executable_state, check_executable, check_gpus, check_nodes,
  check_cpus, check_memory, check_ranks,
}
use project_bourne.Resolver.Scheduled.{
  scheduled_findings, scheduled_state, scheduled_conditions, check_target, check_resources,
  check_context,
}
use project_bourne.Resolver.Candidates.{
  candidates, scheduler_candidates, scheduler_targets, target_candidates, contexts_of,
  compute_context, family_backend, scheduled_candidate, direct_candidate, direct_candidates,
  current_context, matches_target, matches_context, admits,
}
use project_bourne.Resolver.Selection.{
  is_some, is_viable, is_compatible_direct, make_plan, resolve_execution,
}
use project_bourne.Resolver.Laws.Direct.{
  fits, is_missing, gpus_exceed, is_one, direct_state-compatible, direct_state-incompatible,
}
use project_bourne.Resolver.Laws.Scheduled.{is_open, scheduled_state-findings}
use project_bourne.Resolver.Laws.Conditions.{is_left_open, scheduled_conditions-open}
use project_bourne.Resolver.Laws.Offers.{IsOffer, candidates-IsOffer}
use project_bourne.Resolver.Laws.Choices.{In, resolve_execution-selected}
use project_bourne.Resolver.Laws.Sole.{
  IsConstrained, Incompatible, IsSole, IsReady, resolve_execution-explicit,
  resolve_execution-settled,
}
use project_bourne.Resolver.Laws.Preference.{resolve_execution-direct}

abbrev host : Host
host = record {
  is_executable = λ directory path. some true;
  float_text = λ f. "1.0";
  container_text = λ value. "[]";
  new_ulid = "01ARZ3NDEKTSV4RRFFQ69G5FAV";
  now = "2026-01-01T00:00:00Z";
}

abbrev login : DiscoveredTarget
login = record {
  id = "t1";
  role = "access_target";
  name = "login";
  locator = none;
  visible = some true;
  authorization = "authorized";
  metadata = field "system" (obj (field "gpus" (arr (cons (str "a100") nil)) end)) end;
}

abbrev partition : DiscoveredTarget
partition = record {
  id = "t2";
  role = "execution_target";
  name = "gpu";
  locator = some "gpu";
  visible = some true;
  authorization = "unknown";
  metadata = field "visible_nodes" (str "4+") (
      field "cpus_per_node" (int (pos 64))
        (field "generic_resources" (str "gpu:a100:4(S:0-1),gpu:2,shard:8") end));
}

abbrev scheduler : SchedulerResource
scheduler = record { id = "s1"; family = "slurm"; execution_target_ids = "t2" ∷ [] }

abbrev shell : DiscoveredExecutionContext
shell = record {
  id = "c1";
  target_id = some "t1";
  context_key = "current";
  name = "shell";
  locator = none;
}

abbrev inventory : InventorySnapshot
inventory = record {
  id = "i1";
  targets = login ∷ partition ∷ [];
  schedulers = scheduler ∷ [];
  execution_contexts = shell ∷ [];
  capabilities =
      record {
        context_id = "c1";
        kind = "executable";
        name = "python3";
        observation_state = "observed";
      }
      ∷ [];
}

abbrev workload : BackendChoice → ResourceRequirements → WorkloadSpec
workload backend resources = record {
  id = "w1";
  working_directory = "/work";
  executable = "./run.sh";
  arguments = [];
  inputs = [];
  outputs = [];
  resources = resources;
  launcher_requirement = none;
  constraints = record { backend = backend; target = none; context = none };
}

abbrev nothing : ResourceRequirements
nothing = record {
  cpus = none;
  gpus = none;
  nodes = none;
  mpi_ranks = none;
  memory_bytes = none;
  walltime_seconds = none;
}

abbrev large : ResourceRequirements
large = record nothing { nodes = some 5; gpus = some 2 }

slurm_gpu_count_run : slurm_gpu_count host (str "gpu:a100:4(S:0-1),gpu:2,shard:8") ≡ some 6
unfolding slurm_gpu_count is_space
slurm_gpu_count_run = refl

direct_state-compatible_example :
    (direct_state (direct_findings host (workload auto nothing) inventory login (some shell))
      ≡ compatible)
    ↔ (fits host (workload auto nothing) inventory login (some shell) ≡ true)
direct_state-compatible_example =
    direct_state-compatible host (workload auto nothing) inventory login (some shell)

direct_state-incompatible_example :
    (direct_state (direct_findings host (workload auto large) inventory login (some shell))
      ≡ incompatible)
    ↔ ((is_missing (executable_state host (workload auto large) inventory.capabilities (some shell))
          || gpus_exceed (some 2) (direct_gpu_count login)
          || not (is_one (some 5)))
        ≡ true)
direct_state-incompatible_example =
    direct_state-incompatible host (workload auto large) inventory login (some shell)

scheduled_state-findings_example :
    scheduled_state (scheduled_findings host (workload auto large) scheduler (some partition) none)
    ≡ (if is_open host (workload auto large) scheduler (some partition)
        then partially
        else incompatible)
scheduled_state-findings_example =
    scheduled_state-findings host (workload auto large) scheduler (some partition) none

scheduled_conditions-open_example :
    let conditions =
      scheduled_conditions
        (scheduled_findings host (workload auto large) scheduler (some partition) none) in
    Distinct conditions
    × ((c : String)
        → contains conditions c
          ≡ is_left_open host (workload auto large) scheduler (some partition) none c)
scheduled_conditions-open_example =
    scheduled_conditions-open host (workload auto large) scheduler (some partition) none

candidates-IsOffer_example :
    All (IsOffer (workload auto large) login) (candidates host (workload auto large) inventory)
candidates-IsOffer_example = candidates-IsOffer host (workload auto large) inventory login refl

abbrev simple : WorkloadSpec
simple = workload auto nothing

direct_is_offered :
    In
      (direct_candidate host simple inventory login (some shell))
      (candidates host simple inventory)
unfolding candidates direct_candidates current_context matches_target matches_context admits
direct_is_offered = inl refl

direct_is_compatible :
    is_compatible_direct (direct_candidate host simple inventory login (some shell)) ≡ true
unfolding direct_candidate direct_state direct_findings executable_state check_executable check_gpus
    check_nodes check_cpus check_memory check_ranks
direct_is_compatible = refl

resolve_execution-direct_example :
    (resolve_execution host simple inventory).selected
    ≡ some (
        make_plan host simple inventory (direct_candidate host simple inventory login (some shell)))
resolve_execution-direct_example =
    resolve_execution-direct host simple inventory
      (direct_candidate host simple inventory login (some shell)) refl direct_is_offered
      direct_is_compatible

abbrev partition_candidate : PlanCandidate
partition_candidate =
    scheduled_candidate host (workload (only slurm) nothing) login scheduler slurm (some partition)
      none

-- One partition that is large enough: the only candidate for Slurm.
slurm_only : IsConstrained (workload (only slurm) nothing).constraints
slurm_only = ground arith

partition_open : ¬ Incompatible partition_candidate
unfolding scheduled_candidate scheduled_state scheduled_findings check_target check_resources
    check_context check_ranks slurm_gpu_count leading_int
partition_open = ground arith

partition-IsSole :
    IsSole partition_candidate (candidates host (workload (only slurm) nothing) inventory)
unfolding candidates direct_candidates scheduler_candidates scheduler_targets target_candidates
    contexts_of family_backend matches_target admits compute_context
partition-IsSole = record {
  before = [];
  after = [];
  is_split = refl;
  all_before = tt;
  not_incompatible = partition_open;
  all_after = tt;
}

resolve_execution-explicit_example :
    let chosen_workload = workload (only slurm) nothing in
    ((resolve_execution host chosen_workload inventory).selected
      ≡ some (make_plan host chosen_workload inventory partition_candidate))
    ↔ ((c : PlanCandidate) × IsSole c (candidates host chosen_workload inventory)
        × (make_plan host chosen_workload inventory partition_candidate
            ≡ make_plan host chosen_workload inventory c))
resolve_execution-explicit_example =
    resolve_execution-explicit host (workload (only slurm) nothing) inventory slurm_only
      (make_plan host (workload (only slurm) nothing) inventory partition_candidate)

resolve_execution-settled_example :
    (is_some (resolve_execution host simple inventory).selected
      ≡ not (is_some (resolve_execution host simple inventory).reason))
    × ((c : PlanCandidate)
        → IsSole c (candidates host simple inventory)
        → IsReady c
        → (resolve_execution host simple inventory).selected
          ≡ some (make_plan host simple inventory c))
resolve_execution-settled_example = resolve_execution-settled host simple inventory

resolve_execution-selected_example :
    let plan =
      make_plan host simple inventory (direct_candidate host simple inventory login (some shell)) in
    (c : PlanCandidate) × In c (candidates host simple inventory)
    × (is_viable c ≡ true)
    × (plan ≡ make_plan host simple inventory c)
resolve_execution-selected_example =
    resolve_execution-selected host simple inventory
      (make_plan host simple inventory (direct_candidate host simple inventory login (some shell)))
      resolve_execution-direct_example
