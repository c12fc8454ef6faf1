-- ===== src/Resolver/Models.antt =====
-- The records of workload_models.py and inventory_models.py that resolver.py reads and writes, and
-- the facts of the host that it asks for. Fields that it never reads are left out.
use project_bourne.Prelude.{ℕ, String, ◌==◌, string_eq, Bool, Option, List, find}
use project_bourne.Planning.Shape.{ResourceShape}
use project_bourne.Planning.Container.{ContainerExecution}
use project_bourne.Json.{Json, Float, Fields}

-- BackendName
pub data Backend : Type 0 where
  direct slurm pbs lsf : Backend

-- ExecutionConstraints.backend
pub data BackendChoice : Type 0 where
  auto : BackendChoice
  only : Backend → BackendChoice

-- EvidenceState
pub data EvidenceState : Type 0 where
  explicit observed inferred historical unknown : EvidenceState

-- CompatibilityState
pub data CompatibilityState : Type 0 where
  compatible partially incompatible undetermined : CompatibilityState

pub record ResourceRequirements : Type 0 where
  pub cpus : Option ℕ
  pub gpus : Option ℕ
  pub nodes : Option ℕ
  pub mpi_ranks : Option ℕ
  pub memory_bytes : Option ℕ
  pub walltime_seconds : Option ℕ

pub record LauncherRequirement : Type 0 where
  pub name : Option String
  pub mpi_ranks : ℕ
  pub evidence_state : EvidenceState

pub record ExecutionConstraints : Type 0 where
  pub backend : BackendChoice
  pub target : Option String
  pub context : Option String

pub record WorkloadSpec : Type 0 where
  pub id : String
  pub working_directory : String
  pub executable : String
  pub arguments : List String
  pub inputs : List String
  pub outputs : List String
  pub resources : ResourceRequirements
  pub launcher_requirement : Option LauncherRequirement
  pub constraints : ExecutionConstraints

pub record DiscoveredTarget : Type 0 where
  pub id : String
  pub role : String
  pub name : String
  pub locator : Option String
  pub visible : Option Bool
  pub authorization : String
  pub metadata : Fields

pub record SchedulerResource : Type 0 where
  pub id : String
  pub family : String
  pub execution_target_ids : List String

pub record DiscoveredExecutionContext : Type 0 where
  pub id : String
  pub target_id : Option String
  pub context_key : String
  pub name : String
  pub locator : Option String

pub record Capability : Type 0 where
  pub context_id : String
  pub kind : String
  pub name : String
  pub observation_state : String

pub record InventorySnapshot : Type 0 where
  pub id : String
  pub targets : List DiscoveredTarget
  pub schedulers : List SchedulerResource
  pub execution_contexts : List DiscoveredExecutionContext
  pub capabilities : List Capability

-- InventorySnapshot.current_target
abbrev pub current_target : InventorySnapshot → Option DiscoveredTarget
current_target inventory = find (λ t. t.role == "access_target") inventory.targets

pub record DecisionEvidence : Type 0 where
  pub state : EvidenceState
  pub subject : String
  pub message : String
  pub subject_id : Option String

pub record PlanCandidate : Type 0 where
  pub backend : Backend
  pub access_target_id : String
  pub execution_target_id : Option String
  pub execution_context_id : Option String
  pub scheduler_id : Option String
  pub compatibility_state : CompatibilityState
  pub unresolved_conditions : List String
  pub decision_evidence : List DecisionEvidence

pub record ExecutionPlan : Type 0 where
  pub id : String
  pub workload_id : String
  pub inventory_snapshot_id : String
  pub backend : Backend
  pub access_target_id : String
  pub execution_target_id : Option String
  pub execution_context_id : Option String
  pub scheduler_id : Option String
  pub requested_resources : ResourceRequirements
  pub executable : String
  pub arguments : List String
  pub working_directory : String
  pub inputs : List String
  pub outputs : List String
  pub compatibility_state : CompatibilityState
  pub unresolved_conditions : List String
  pub decision_evidence : List DecisionEvidence
  pub created_at : String
  pub resource_shape : Option ResourceShape
  pub container : Option ContainerExecution

pub record ResolutionResult : Type 0 where
  pub candidates : List PlanCandidate
  pub selected : Option ExecutionPlan
  pub reason : Option String

-- What the process sees of its host: whether a path, made absolute at a directory, is an
-- executable file (`none` for an OSError), `str` of a float and of a list or a dict, a fresh
-- identity and the time.
pub record Host : Type 0 where
  pub is_executable : String → String → Option Bool
  pub float_text : Float → String
  pub container_text : Json → String
  pub new_ulid : String
  pub now : String
