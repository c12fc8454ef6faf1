-- ===== src/Resolver/Scheduled.antt =====
-- `_evaluate_scheduler` and `_evaluate_scheduler_resources` of resolver.py.
use project_bourne.Prelude.{
  or_one, ℕ, ◌*◌, String, ◌<>◌, ◌==◌, nat_eq, string_eq, Bool, false, not, Option, none, some, List,
  [], ◌∷◌, ltb, dedupe, if◌then◌else◌,
}
use project_bourne.Prelude.Text.{decimal}
use project_bourne.Json.{Json, null, Fields, get}
use project_bourne.Resolver.Models.{
  CompatibilityState, partially, incompatible, WorkloadSpec, DiscoveredTarget, SchedulerResource,
  DiscoveredExecutionContext, Host,
}
use project_bourne.Resolver.Numbers.{leading_int, slurm_gpu_count}
use project_bourne.Resolver.Direct.{Findings, leave_open, note, reject, observation, check_ranks}

-- `target reports N UNIT, requested M`
abbrev capacity_message : ℕ → String → ℕ → String
capacity_message available unit wanted =
    "target reports " <> (decimal available <> (unit <> decimal wanted))

-- One resource: unknown capacity leaves a condition open, too little is a conflict.
abbrev pub check_capacity :
    String → String → String → String → ℕ → ℕ → Option ℕ → Findings → Findings
check_capacity unknown subject unit target_id wanted factor none f = leave_open unknown f
check_capacity unknown subject unit target_id wanted factor (some available) f =
    if ltb (available * factor) wanted
    then reject
        (note (observation subject (capacity_message available unit wanted) (some target_id)) f)
    else f

unfoldable pub check_nodes : Option ℕ → Option ℕ → String → Findings → Findings
check_nodes none available target_id f = f
check_nodes (some wanted) available target_id f =
    check_capacity "scheduler node capacity is unknown" "resources.nodes"
      " visible node(s), requested " target_id wanted 1 available f

unfoldable pub check_cpus : Option ℕ → ℕ → Option ℕ → String → Findings → Findings
check_cpus none nodes available target_id f = f
check_cpus (some wanted) nodes available target_id f =
    check_capacity "scheduler CPU capacity is unknown" "resources.cpus"
      " CPU(s) per unit, requested " target_id wanted nodes available f

unfoldable pub check_gpus : Option ℕ → ℕ → Option ℕ → String → Findings → Findings
check_gpus none nodes available target_id f = f
check_gpus (some wanted) nodes available target_id f =
    if ltb 0 wanted
    then check_capacity "scheduler GPU capacity is unknown" "resources.gpus"
        " GPU(s) per node, requested " target_id wanted nodes available f
    else f

-- `cpu_key` looked up in the metadata.
unfoldable pub cpu_capacity : String → Fields → Json
cpu_capacity family metadata =
    if family == "slurm"
    then get metadata "cpus_per_node"
    else if family == "pbs"
    then get metadata "resources_max.ncpus"
    else null

-- `_evaluate_scheduler_resources`
unfoldable pub check_resources :
    Host → WorkloadSpec → SchedulerResource → DiscoveredTarget → Findings → Findings
unfolding check_nodes check_cpus check_gpus cpu_capacity
check_resources host workload scheduler target f =
    let requested = workload.resources in
    let metadata = target.metadata in
    let factor = or_one requested.nodes in
    let gpus : Option ℕ =
      if scheduler.family == "slurm"
      then slurm_gpu_count host (get metadata "generic_resources")
      else none in
    let with_nodes =
      check_nodes requested.nodes (leading_int host (get metadata "visible_nodes")) target.id f in
    let with_cpus =
      check_cpus requested.cpus factor (leading_int host (cpu_capacity scheduler.family metadata))
        target.id with_nodes in
    check_gpus requested.gpus factor gpus target.id with_cpus

abbrev pub is_false : Option Bool → Bool
is_false none = false
is_false (some b) = not b

unfoldable pub check_target :
    Host → WorkloadSpec → SchedulerResource → Option DiscoveredTarget → Findings → Findings
check_target host workload scheduler none f =
    leave_open "scheduler execution target class is unknown" f
check_target host workload scheduler (some target) f =
    let seen =
      note
        (observation "target" ("scheduler target '" <> (target.name <> "' is visible"))
          (some target.id))
        f in
    let authorized =
      if target.authorization == "unknown"
      then leave_open "scheduler authorization is unknown" seen
      else seen in
    check_resources host workload scheduler target
      (if is_false target.visible then reject authorized else authorized)

unfoldable pub check_context : Option DiscoveredExecutionContext → Findings → Findings
check_context none f = leave_open "compute execution context is unknown before allocation" f
check_context (some context) f = f

-- `_evaluate_scheduler` up to its last test.
unfoldable pub scheduled_findings :
    Host
    → WorkloadSpec
    → SchedulerResource
    → Option DiscoveredTarget
    → Option DiscoveredExecutionContext
    → Findings
unfolding check_target check_context
scheduled_findings host workload scheduler target context =
    let start : Findings = record {
      conflict = false;
      unresolved =
          "compute-node executable availability is unknown"
          ∷ "staging visibility from the compute allocation is unknown" ∷ [];
      evidence =
          observation "scheduler" (scheduler.family <> " scheduler was observed")
            (some scheduler.id)
          ∷ [];
    } in
    let placed = check_target host workload scheduler target start in
    let ranked = check_ranks workload.resources.mpi_ranks workload.launcher_requirement placed in
    check_context context ranked

-- `_evaluate_scheduler`'s state: never "compatible".
unfoldable pub scheduled_state : Findings → CompatibilityState
scheduled_state f = if f.conflict then incompatible else partially

-- `_deduplicate`
unfoldable pub scheduled_conditions : Findings → List String
scheduled_conditions f = dedupe f.unresolved
