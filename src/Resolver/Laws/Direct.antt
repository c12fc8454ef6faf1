-- ===== src/Resolver/Laws/Direct.antt =====
-- When `_evaluate_direct` of resolver.py finds the current host compatible, and when incompatible.
use project_bourne.Prelude.{
  ℕ, ltb, ◌≡◌, ◌↔◌, Bool, true, false, ◌&&◌, ◌||◌, not, Option, none, some, List, [], ◌∷◌, ◌++◌,
  is_empty, String, ◌==◌, nat_eq, arith,
}
use project_bourne.Resolver.Models.{
  compatible, incompatible, LauncherRequirement, WorkloadSpec, DiscoveredTarget,
  DiscoveredExecutionContext, InventorySnapshot, Host,
}
use project_bourne.Resolver.Numbers.{direct_gpu_count}
use project_bourne.Resolver.Direct.{
  ExecutableState, seen, missing, unestablished, only_historical, executable_state, Findings,
  check_executable, check_gpus, compare_gpus, check_nodes, check_cpus, check_memory, has_launcher,
  check_ranks, direct_findings, direct_state,
}

-- No conflict and nothing open.
abbrev settled : Findings → Bool
settled f = not f.conflict && is_empty f.unresolved

-- The requested number of GPUs is zero, or the host has as many.
unfoldable pub gpus_fit : Option ℕ → Option ℕ → Bool
gpus_fit none available = true
gpus_fit (some wanted) none = not (ltb 0 wanted)
gpus_fit (some wanted) (some available) = not (ltb 0 wanted) || not (ltb available wanted)

-- The requested number of GPUs is known to be more than the host has.
unfoldable pub gpus_exceed : Option ℕ → Option ℕ → Bool
gpus_exceed none available = false
gpus_exceed (some wanted) none = false
gpus_exceed (some wanted) (some available) = ltb 0 wanted && ltb available wanted

unfoldable pub is_one : Option ℕ → Bool
is_one none = true
is_one (some n) = n == 1

unfoldable pub at_most_one : Option ℕ → Bool
at_most_one none = true
at_most_one (some n) = not (ltb 1 n)

unfoldable pub is_seen : ExecutableState → Bool
is_seen seen = true
is_seen s = false

unfoldable pub is_missing : ExecutableState → Bool
is_missing missing = true
is_missing s = false

is_empty-snoc : (xs : List String) (x : String) → is_empty (xs ++ (x ∷ [])) ≡ false
is_empty-snoc [] x = ground arith
is_empty-snoc (y ∷ ys) x = ground arith

module _ (f : Findings) where
  check_executable-settled :
      (s : ExecutableState) → settled (check_executable s f) ≡ (settled f && is_seen s)
  unfolding check_executable is_seen
  check_executable-settled seen = ground arith
  check_executable-settled missing = ground arith
  check_executable-settled unestablished =
      ground (arith, is_empty-snoc f.unresolved "current executable availability is unknown")
  check_executable-settled only_historical =
      ground (arith, is_empty-snoc f.unresolved "current executable availability is unknown")

  check_gpus-settled :
      (wanted available : Option ℕ)
      → settled (check_gpus wanted available f) ≡ (settled f && gpus_fit wanted available)
  unfolding check_gpus compare_gpus gpus_fit
  check_gpus-settled none available = ground arith
  check_gpus-settled (some w) none =
      ground (arith, is_empty-snoc f.unresolved "current GPU count is unknown")
  check_gpus-settled (some w) (some a) = ground arith

  check_nodes-settled : (n : Option ℕ) → settled (check_nodes n f) ≡ (settled f && is_one n)
  unfolding check_nodes is_one
  check_nodes-settled none = ground arith
  check_nodes-settled (some n) = ground arith

  check_cpus-settled : (n : Option ℕ) → settled (check_cpus n f) ≡ (settled f && at_most_one n)
  unfolding check_cpus at_most_one
  check_cpus-settled none = ground arith
  check_cpus-settled (some n) =
      ground (arith, is_empty-snoc f.unresolved "available direct CPU count was not recorded")

  check_memory-settled :
      (n : Option ℕ)
      → settled (check_memory n f) ≡ (settled f && elim n [ none ↦ true | some _ ↦ false ])
  unfolding check_memory
  check_memory-settled none = ground arith
  check_memory-settled (some n) =
      ground (arith, is_empty-snoc f.unresolved "available direct memory was not recorded")

  check_ranks-settled :
      (n : Option ℕ) (launcher : Option LauncherRequirement)
      → settled (check_ranks n launcher f) ≡ (settled f && (at_most_one n || has_launcher launcher))
  unfolding check_ranks at_most_one
  check_ranks-settled none launcher = ground arith
  check_ranks-settled (some n) launcher =
      ground (arith, is_empty-snoc f.unresolved "MPI rank count has no explicit launcher")

module _ (f : Findings) where
  check_executable-conflict :
      (s : ExecutableState) → (check_executable s f).conflict ≡ (f.conflict || is_missing s)
  unfolding check_executable is_missing
  check_executable-conflict s = ground arith

  check_gpus-conflict :
      (wanted available : Option ℕ)
      → (check_gpus wanted available f).conflict ≡ (f.conflict || gpus_exceed wanted available)
  unfolding check_gpus compare_gpus gpus_exceed
  check_gpus-conflict wanted available = ground arith

  check_nodes-conflict :
      (n : Option ℕ) → (check_nodes n f).conflict ≡ (f.conflict || not (is_one n))
  unfolding check_nodes is_one
  check_nodes-conflict n = ground arith

  check_cpus-conflict : (n : Option ℕ) → (check_cpus n f).conflict ≡ f.conflict
  unfolding check_cpus
  check_cpus-conflict n = ground arith

  check_memory-conflict : (n : Option ℕ) → (check_memory n f).conflict ≡ f.conflict
  unfolding check_memory
  check_memory-conflict n = ground arith

  pub check_ranks-conflict :
      (n : Option ℕ) (launcher : Option LauncherRequirement)
      → (check_ranks n launcher f).conflict ≡ f.conflict
  unfolding check_ranks
  check_ranks-conflict n launcher = ground arith

-- All that a workload asks of the current host is known to be there.
unfoldable pub fits :
    Host
    → WorkloadSpec
    → InventorySnapshot
    → DiscoveredTarget
    → Option DiscoveredExecutionContext
    → Bool
fits host workload inventory target context =
    let requested = workload.resources in
    is_seen (executable_state host workload inventory.capabilities context)
    && gpus_fit requested.gpus (direct_gpu_count target)
    && is_one requested.nodes
    && at_most_one requested.cpus
    && elim requested.memory_bytes [ none ↦ true | some _ ↦ false ]
    && (at_most_one requested.mpi_ranks || has_launcher workload.launcher_requirement)

direct_state-settled : (f : Findings) → (direct_state f ≡ compatible) ↔ (settled f ≡ true)
unfolding direct_state
direct_state-settled f = ground arith

module _ (host : Host) (workload : WorkloadSpec) (inventory : InventorySnapshot)
    (target : DiscoveredTarget) (context : Option DiscoveredExecutionContext) where
  direct_findings-settled :
      settled (direct_findings host workload inventory target context)
      ≡ fits host workload inventory target context
  unfolding direct_findings fits
  direct_findings-settled = simp (
    check_ranks-settled, check_memory-settled, check_cpus-settled, check_nodes-settled,
    check_gpus-settled, check_executable-settled,
  )

  -- The direct candidate is compatible exactly if the executable is seen, the GPUs are zero or
  -- no more than the host has, at most one node and one CPU and no memory is asked for, and
  -- more than one MPI rank only with a named launcher.
  pub direct_state-compatible :
      (direct_state (direct_findings host workload inventory target context) ≡ compatible)
      ↔ (fits host workload inventory target context ≡ true)
  direct_state-compatible = ground (
    arith,
    direct_findings-settled,
    direct_state-settled (direct_findings host workload inventory target context),
  )

  direct_findings-conflict : (direct_findings host workload inventory target context).conflict ≡ (
      is_missing (executable_state host workload inventory.capabilities context)
      || gpus_exceed workload.resources.gpus (direct_gpu_count target)
      || not (is_one workload.resources.nodes))
  unfolding direct_findings
  direct_findings-conflict = simp (
    check_ranks-conflict, check_memory-conflict, check_cpus-conflict, check_nodes-conflict,
    check_gpus-conflict, check_executable-conflict,
  )

  -- The direct candidate is incompatible exactly if the executable is seen to be missing, more
  -- GPUs are asked for than the host is known to have, or a number of nodes other than one.
  pub direct_state-incompatible :
      (direct_state (direct_findings host workload inventory target context) ≡ incompatible) ↔ (
        (is_missing (executable_state host workload inventory.capabilities context)
          || gpus_exceed workload.resources.gpus (direct_gpu_count target)
          || not (is_one workload.resources.nodes))
        ≡ true)
  unfolding direct_state
  direct_state-incompatible = ground (arith, direct_findings-conflict)
