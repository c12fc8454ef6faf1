-- ===== src/Resolver/Direct.antt =====
-- `_executable_state` and `_evaluate_direct` of resolver.py.
use project_bourne.Prelude.{
  ℕ, String, ◌<>◌, ◌==◌, nat_eq, string_eq, Bool, true, false, ◌&&◌, ◌||◌, not, Option, none, some,
  List, [], ◌∷◌, ◌++◌, ltb, any, filter, is_empty, if◌then◌else◌,
}
use project_bourne.Prelude.Text.{is_empty_text, any_char, split_on, decimal}
use project_bourne.Resolver.Models.{
  EvidenceState, observed, CompatibilityState, compatible, partially, incompatible,
  LauncherRequirement, WorkloadSpec, DiscoveredTarget, DiscoveredExecutionContext, Capability,
  InventorySnapshot, DecisionEvidence, Host,
}
use project_bourne.Resolver.Numbers.{direct_gpu_count}

-- The result of `_executable_state`.
pub data ExecutableState : Type 0 where
  seen missing unestablished only_historical : ExecutableState

-- `Path(requested).name`
last_part : List String → String → String
last_part [] found = found
last_part (part ∷ rest) found =
    last_part rest (if is_empty_text part || part == "." then found else part)

abbrev path_name : String → String
path_name s = last_part (split_on (λ c. c == b'/') s) ""

file_state : Option Bool → ExecutableState
file_state none = unestablished
file_state (some true) = seen
file_state (some false) = missing

abbrev matching : DiscoveredExecutionContext → String → List Capability → List Capability
matching context name =
    filter (λ item. item.context_id == context.id && item.kind == "executable" && item.name == name)

listed_state : List Capability → ExecutableState
listed_state found =
    if any (λ item. not (item.observation_state == "historical")) found
    then seen
    else if is_empty found
    then missing
    else only_historical

context_state : WorkloadSpec → List Capability → Option DiscoveredExecutionContext → ExecutableState
unfolding last_part listed_state
context_state workload capabilities none = unestablished
context_state workload capabilities (some context) =
    listed_state (matching context (path_name workload.executable) capabilities)

-- `_executable_state`, where "/" is the only path separator.
unfoldable pub executable_state :
    Host → WorkloadSpec → List Capability → Option DiscoveredExecutionContext → ExecutableState
unfolding file_state context_state
executable_state host workload capabilities context =
    if any_char (λ c. c == b'/') workload.executable
    then file_state (host.is_executable workload.working_directory workload.executable)
    else context_state workload capabilities context

-- What an evaluation has gathered: `incompatible`, `unresolved`, `evidence`.
pub record Findings : Type 0 where
  pub conflict : Bool
  pub unresolved : List String
  pub evidence : List DecisionEvidence

abbrev pub leave_open : String → Findings → Findings
leave_open condition f = record f { unresolved = f.unresolved ++ (condition ∷ []) }

abbrev pub note : DecisionEvidence → Findings → Findings
note e f = record f { evidence = f.evidence ++ (e ∷ []) }

abbrev pub reject : Findings → Findings
reject f = record f { conflict = true }

abbrev pub observation : String → String → Option String → DecisionEvidence
observation subject message subject_id = record {
  state = observed;
  subject = subject;
  message = message;
  subject_id = subject_id;
}

unfoldable pub check_executable : ExecutableState → Findings → Findings
check_executable seen f =
    note (observation "executable" "requested executable is available in the current context" none)
      f
check_executable missing f = reject (
    note
      (observation "executable" "requested executable is not available in the current context" none)
      f)
check_executable unestablished f = leave_open "current executable availability is unknown" (
    note
      (record {
        state = EvidenceState.unknown;
        subject = "executable";
        message = "current executable availability is not established";
        subject_id = none;
      })
      f)
check_executable only_historical f = leave_open "current executable availability is unknown" (
    note
      (record {
        state = EvidenceState.historical;
        subject = "executable";
        message = "current executable availability is not established";
        subject_id = none;
      })
      f)

gpu_evidence : ℕ → ℕ → DecisionEvidence
gpu_evidence available wanted =
    observation "resources.gpus"
      ("observed " <> (decimal available <> (" GPU(s), requested " <> decimal wanted))) none

unfoldable pub compare_gpus : ℕ → Option ℕ → Findings → Findings
unfolding gpu_evidence
compare_gpus wanted none f = leave_open "current GPU count is unknown" f
compare_gpus wanted (some available) f =
    if ltb available wanted
    then reject (note (gpu_evidence available wanted) f)
    else note (gpu_evidence available wanted) f

unfoldable pub check_gpus : Option ℕ → Option ℕ → Findings → Findings
unfolding compare_gpus
check_gpus none available f = f
check_gpus (some wanted) available f = if ltb 0 wanted then compare_gpus wanted available f else f

unfoldable pub check_nodes : Option ℕ → Findings → Findings
check_nodes none f = f
check_nodes (some n) f =
    if n == 1
    then f
    else reject (
        note (observation "resources.nodes" "direct execution represents one observed host" none) f)

unfoldable pub check_cpus : Option ℕ → Findings → Findings
check_cpus none f = f
check_cpus (some n) f =
    if ltb 1 n then leave_open "available direct CPU count was not recorded" f else f

unfoldable pub check_memory : Option ℕ → Findings → Findings
check_memory none f = f
check_memory (some n) f = leave_open "available direct memory was not recorded" f

-- The workload names a launcher.
abbrev pub has_launcher : Option LauncherRequirement → Bool
has_launcher none = false
has_launcher (some l) = elim l.name [ none ↦ false | some _ ↦ true ]

unfoldable pub check_ranks : Option ℕ → Option LauncherRequirement → Findings → Findings
check_ranks none launcher f = f
check_ranks (some n) launcher f =
    if ltb 1 n && not (has_launcher launcher)
    then leave_open "MPI rank count has no explicit launcher" f
    else f

-- `_evaluate_direct` up to its last test.
unfoldable pub direct_findings :
    Host
    → WorkloadSpec
    → InventorySnapshot
    → DiscoveredTarget
    → Option DiscoveredExecutionContext
    → Findings
unfolding check_executable check_gpus check_nodes check_cpus check_memory check_ranks
direct_findings host workload inventory target context =
    let requested = workload.resources in
    let start : Findings = record {
      conflict = false;
      unresolved = [];
      evidence =
          observation "target" "current Bourne host is directly accessible" (some target.id) ∷ [];
    } in
    let runnable =
      check_executable (executable_state host workload inventory.capabilities context) start in
    let gpus = check_gpus requested.gpus (direct_gpu_count target) runnable in
    let nodes = check_nodes requested.nodes gpus in
    let cpus = check_cpus requested.cpus nodes in
    let memory = check_memory requested.memory_bytes cpus in
    check_ranks requested.mpi_ranks workload.launcher_requirement memory

-- `_evaluate_direct`'s state.
unfoldable pub direct_state : Findings → CompatibilityState
direct_state f =
    if f.conflict then incompatible else if is_empty f.unresolved then compatible else partially
