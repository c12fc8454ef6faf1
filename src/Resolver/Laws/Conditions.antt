-- ===== src/Resolver/Laws/Conditions.antt =====
-- What `_evaluate_scheduler` of resolver.py leaves open.
use project_bourne.Prelude.{
  ℕ, ltb, ◌≡◌, ◌∙◌, Bool, true, false, ◌&&◌, ◌||◌, Option, none, some, String, List, [], ◌∷◌, ◌++◌,
  ◌==◌, nat_eq, string_eq, Distinct, dedupe-Distinct, contains-dedupe, contains, arith,
}
use project_bourne.Json.{get}
use project_bourne.Resolver.Models.{
  LauncherRequirement, WorkloadSpec, DiscoveredTarget, SchedulerResource,
  DiscoveredExecutionContext, Host,
}
use project_bourne.Resolver.Numbers.{leading_int}
use project_bourne.Resolver.Direct.{Findings, check_ranks}
use project_bourne.Resolver.Scheduled.{
  check_nodes, check_cpus, check_gpus, cpu_capacity, check_resources, check_target, check_context,
  scheduled_findings, scheduled_conditions,
}
use project_bourne.Resolver.Laws.Scheduled.{gpu_capacity}

-- An amount is asked for and it is not known how much there is.
abbrev pub is_unknown : Option ℕ → Option ℕ → Bool
is_unknown none available = false
is_unknown (some wanted) none = true
is_unknown (some wanted) (some available) = false

-- The same for GPUs, where zero asks for none.
abbrev pub gpus_unknown : Option ℕ → Option ℕ → Bool
gpus_unknown none available = false
gpus_unknown (some wanted) none = ltb 0 wanted
gpus_unknown (some wanted) (some available) = false

-- More than one MPI rank and no launcher that has a name.
abbrev pub ranks_open : Option ℕ → Option LauncherRequirement → Bool
ranks_open none launcher = false
ranks_open (some ranks) none = ltb 1 ranks
ranks_open (some ranks) (some launcher) = elim launcher.name [
  | none ↦ ltb 1 ranks
  | some name ↦ false
]

-- What is not known of the target leaves the condition `c` open.
unfoldable pub target_opens :
    Host → WorkloadSpec → SchedulerResource → Option DiscoveredTarget → String → Bool
target_opens host workload scheduler none c = c == "scheduler execution target class is unknown"
target_opens host workload scheduler (some target) c =
    let requested = workload.resources in
    let metadata = target.metadata in
    target.authorization == "unknown" && c == "scheduler authorization is unknown"
    || is_unknown requested.nodes (leading_int host (get metadata "visible_nodes"))
      && c == "scheduler node capacity is unknown"
    || is_unknown requested.cpus (leading_int host (cpu_capacity scheduler.family metadata))
      && c == "scheduler CPU capacity is unknown"
    || gpus_unknown requested.gpus (gpu_capacity host scheduler.family metadata)
      && c == "scheduler GPU capacity is unknown"

-- The condition `c` is open for a scheduled candidate.
unfoldable pub is_left_open :
    Host
    → WorkloadSpec
    → SchedulerResource
    → Option DiscoveredTarget
    → Option DiscoveredExecutionContext
    → String
    → Bool
is_left_open host workload scheduler target context c =
    c == "compute-node executable availability is unknown"
    || c == "staging visibility from the compute allocation is unknown"
    || target_opens host workload scheduler target c
    || ranks_open workload.resources.mpi_ranks workload.launcher_requirement
      && c == "MPI rank count has no explicit launcher"
    || elim context [ none ↦ true | some known ↦ false ]
      && c == "compute execution context is unknown before allocation"

contains-last :
    (xs : List String) (x c : String) → contains (xs ++ (x ∷ [])) c ≡ (contains xs c || c == x)
contains-last [] x c = ground arith
contains-last (y ∷ xs) x c = ground (arith, contains-last xs x c)

module _ (f : Findings) (c : String) where
  opened :
      (condition : String)
      → contains (f.unresolved ++ (condition ∷ [])) c ≡ (contains f.unresolved c || c == condition)
  opened condition = contains-last f.unresolved condition c

  check_nodes-open :
      (wanted available : Option ℕ) (t : String)
      → contains (check_nodes wanted available t f).unresolved c ≡ (
          contains f.unresolved c
          || is_unknown wanted available && c == "scheduler node capacity is unknown")
  unfolding check_nodes
  check_nodes-open wanted available t = ground (arith, opened "scheduler node capacity is unknown")

  check_cpus-open :
      (wanted : Option ℕ) (n : ℕ) (available : Option ℕ) (t : String)
      → contains (check_cpus wanted n available t f).unresolved c ≡ (
          contains f.unresolved c
          || is_unknown wanted available && c == "scheduler CPU capacity is unknown")
  unfolding check_cpus
  check_cpus-open wanted n available t = ground (arith, opened "scheduler CPU capacity is unknown")

  check_gpus-open :
      (wanted : Option ℕ) (n : ℕ) (available : Option ℕ) (t : String)
      → contains (check_gpus wanted n available t f).unresolved c ≡ (
          contains f.unresolved c
          || gpus_unknown wanted available && c == "scheduler GPU capacity is unknown")
  unfolding check_gpus
  check_gpus-open wanted n available t = ground (arith, opened "scheduler GPU capacity is unknown")

  check_ranks-open :
      (ranks : Option ℕ) (launcher : Option LauncherRequirement)
      → contains (check_ranks ranks launcher f).unresolved c ≡ (
          contains f.unresolved c
          || ranks_open ranks launcher && c == "MPI rank count has no explicit launcher")
  unfolding check_ranks
  check_ranks-open ranks launcher = ground (arith, opened "MPI rank count has no explicit launcher")

  check_context-open :
      (context : Option DiscoveredExecutionContext)
      → contains (check_context context f).unresolved c ≡ (
          contains f.unresolved c
          || elim context [ none ↦ true | some known ↦ false ]
            && c == "compute execution context is unknown before allocation")
  unfolding check_context
  check_context-open context =
      ground (arith, opened "compute execution context is unknown before allocation")

or_assoc : (a b c : Bool) → (a || b || c) ≡ (a || (b || c))
or_assoc a b c = ground arith

-- What the resources of a target leave open.
abbrev resources_open : Host → WorkloadSpec → SchedulerResource → DiscoveredTarget → String → Bool
resources_open host workload scheduler target c =
    let requested = workload.resources in
    let metadata = target.metadata in
    is_unknown requested.nodes (leading_int host (get metadata "visible_nodes"))
      && c == "scheduler node capacity is unknown"
    || is_unknown requested.cpus (leading_int host (cpu_capacity scheduler.family metadata))
      && c == "scheduler CPU capacity is unknown"
    || gpus_unknown requested.gpus (gpu_capacity host scheduler.family metadata)
      && c == "scheduler GPU capacity is unknown"

module _ (host : Host) (workload : WorkloadSpec) (scheduler : SchedulerResource) where
  check_resources-open :
      (target : DiscoveredTarget) (f : Findings) (c : String)
      → contains (check_resources host workload scheduler target f).unresolved c
        ≡ (contains f.unresolved c || resources_open host workload scheduler target c)
  unfolding check_resources
  check_resources-open target f c =
      simp (check_gpus-open, check_cpus-open, check_nodes-open, or_assoc)

  -- The authorization and what hides a target, before its resources.
  seen_target-open :
      (target : DiscoveredTarget) (f g : Findings) (c : String)
      → contains g.unresolved c ≡ (
          contains f.unresolved c
          || target.authorization == "unknown" && c == "scheduler authorization is unknown")
      → contains (check_resources host workload scheduler target g).unresolved c
        ≡ (contains f.unresolved c || target_opens host workload scheduler (some target) c)
  unfolding target_opens
  seen_target-open target f g c h = simp (check_resources-open, h, or_assoc)

  check_target-open :
      (target : Option DiscoveredTarget) (f : Findings) (c : String)
      → contains (check_target host workload scheduler target f).unresolved c
        ≡ (contains f.unresolved c || target_opens host workload scheduler target c)
  unfolding check_target check_resources target_opens
  check_target-open none f c = opened f c "scheduler execution target class is unknown"
  check_target-open (some target) f c =
      seen_target-open target f _ c
        (ground (arith, opened f c "scheduler authorization is unknown"))

  -- A condition stands among those that a scheduled candidate leaves open, each of which stands
  -- there once, exactly if it is one of these: the executable and the staging always; the class
  -- of a target that is unknown; of a known one the authorization, if that is unknown, and the
  -- nodes, CPUs or GPUs, if they are asked for and their number is not known; the launcher, if
  -- more than one MPI rank is asked for without a named one; and the context, if there is none.
  pub scheduled_conditions-open :
      (target : Option DiscoveredTarget) (context : Option DiscoveredExecutionContext)
      → let conditions =
          scheduled_conditions (scheduled_findings host workload scheduler target context) in
        Distinct conditions
        × ((c : String)
            → contains conditions c ≡ is_left_open host workload scheduler target context c)
  unfolding scheduled_conditions scheduled_findings is_left_open
  scheduled_conditions-open target context =
      (dedupe-Distinct _, λ c. (contains-dedupe _ c ∙ gathered c))
    where
      gathered :
          (c : String)
          → contains (scheduled_findings host workload scheduler target context).unresolved c
            ≡ is_left_open host workload scheduler target context c
      gathered c = simp (check_context-open, check_ranks-open, check_target-open, or_assoc)
