-- ===== src/Resolver/Laws/Scheduled.antt =====
-- When `_evaluate_scheduler` of resolver.py rejects a scheduler's target, and what it leaves open.
use project_bourne.Prelude.{
  or_one, ℕ, ltb, ◌*◌, ◌≡◌, Bool, true, false, ◌&&◌, ◌||◌, not, Option, none, some, String, ◌==◌,
  nat_eq, string_eq, if◌then◌else◌, arith,
}
use project_bourne.Json.{Fields, get}
use project_bourne.Resolver.Models.{
  partially, incompatible, WorkloadSpec, DiscoveredTarget, SchedulerResource,
  DiscoveredExecutionContext, Host,
}
use project_bourne.Resolver.Numbers.{leading_int, slurm_gpu_count}
use project_bourne.Resolver.Direct.{Findings}
use project_bourne.Resolver.Scheduled.{
  check_nodes, check_cpus, check_gpus, cpu_capacity, check_resources, is_false, check_target,
  check_context, scheduled_findings, scheduled_state,
}
use project_bourne.Resolver.Laws.Direct.{check_ranks-conflict}

-- What is wanted is known to be more than `factor` times what there is.
unfoldable pub exceeds : Option ℕ → ℕ → Option ℕ → Bool
exceeds none factor available = false
exceeds (some wanted) factor none = false
exceeds (some wanted) factor (some available) = ltb (available * factor) wanted

-- The GPUs of a Slurm target, which are not known for the other families.
abbrev pub gpu_capacity : Host → String → Fields → Option ℕ
gpu_capacity host family metadata =
    if family == "slurm" then slurm_gpu_count host (get metadata "generic_resources") else none

-- The target is known to lack the nodes, CPUs or GPUs that are asked for.
unfoldable pub is_short : Host → WorkloadSpec → SchedulerResource → DiscoveredTarget → Bool
is_short host workload scheduler target =
    let requested = workload.resources in
    let factor = or_one requested.nodes in
    exceeds requested.nodes 1 (leading_int host (get target.metadata "visible_nodes"))
    || exceeds requested.cpus factor
        (leading_int host (cpu_capacity scheduler.family target.metadata))
    || exceeds requested.gpus factor (gpu_capacity host scheduler.family target.metadata)

-- The target is unknown, or it is visible and not known to be short of anything.
unfoldable pub is_open : Host → WorkloadSpec → SchedulerResource → Option DiscoveredTarget → Bool
is_open host workload scheduler none = true
is_open host workload scheduler (some target) =
    not (is_false target.visible) && not (is_short host workload scheduler target)

module _ (f : Findings) (t : String) where
  check_nodes-conflict :
      (wanted available : Option ℕ)
      → (check_nodes wanted available t f).conflict ≡ (f.conflict || exceeds wanted 1 available)
  unfolding check_nodes exceeds
  check_nodes-conflict wanted available = ground arith

  check_cpus-conflict :
      (wanted : Option ℕ) (n : ℕ) (available : Option ℕ)
      → (check_cpus wanted n available t f).conflict ≡ (f.conflict || exceeds wanted n available)
  unfolding check_cpus exceeds
  check_cpus-conflict wanted n available = ground arith

  check_gpus-conflict :
      (wanted : Option ℕ) (n : ℕ) (available : Option ℕ)
      → (check_gpus wanted n available t f).conflict ≡ (f.conflict || exceeds wanted n available)
  unfolding check_gpus exceeds
  check_gpus-conflict wanted n available = ground arith

short-split :
    (a b c : Bool) (f : Findings) → (f.conflict || a || b || c) ≡ (f.conflict || (a || b || c))
short-split a b c f = ground arith

module _ (host : Host) (workload : WorkloadSpec) (scheduler : SchedulerResource) where
  check_resources-conflict :
      (target : DiscoveredTarget) (f : Findings)
      → (check_resources host workload scheduler target f).conflict
        ≡ (f.conflict || is_short host workload scheduler target)
  unfolding check_resources is_short
  check_resources-conflict target f =
      simp (check_gpus-conflict, check_cpus-conflict, check_nodes-conflict) (short-split _ _ _ f)

  check_target-conflict :
      (target : Option DiscoveredTarget) (f : Findings)
      → f.conflict ≡ false
      → (check_target host workload scheduler target f).conflict
        ≡ not (is_open host workload scheduler target)
  unfolding check_target is_open
  check_target-conflict none f h = ground arith
  check_target-conflict (some target) f h = grind (arith, check_resources-conflict)

  -- A scheduled candidate is partial if its target is unknown, or is not hidden and not known
  -- to lack the nodes, CPUs or GPUs that are asked for; otherwise it is incompatible.
  pub scheduled_state-findings :
      (target : Option DiscoveredTarget) (context : Option DiscoveredExecutionContext)
      → scheduled_state (scheduled_findings host workload scheduler target context)
        ≡ (if is_open host workload scheduler target then partially else incompatible)
  unfolding scheduled_state scheduled_findings check_context
  scheduled_state-findings target none = grind (arith, check_target-conflict, check_ranks-conflict)
  scheduled_state-findings target (some c) =
      grind (arith, check_target-conflict, check_ranks-conflict)
