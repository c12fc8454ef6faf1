-- ===== src/Batch/Slurm.antt =====
-- `_slurm_directives` of backends.py.
use project_bourne.Prelude.{
  ℕ, String, ◌<>◌, ◌==◌, nat_eq, Bool, true, Option, none, some, List, [], ◌∷◌, ◌++◌, if◌then◌else◌,
}
use project_bourne.Prelude.Text.{decimal, is_empty_text}
use project_bourne.Prelude.Checks.{Checked, value, refused, ◌>>=◌}
use project_bourne.Planning.Shape.{ResourceShape}
use project_bourne.Resolver.Models.{ResourceRequirements, ExecutionPlan}
use project_bourne.Batch.Amounts.{walltime, mebibytes, shape_threads_per_rank, shape_per_node}

-- `if target_name: values.append(prefix + target_name)`
abbrev pub named_line : String → Option String → List String
named_line prefix none = []
named_line prefix (some name) = if is_empty_text name then [] else (prefix <> name) ∷ []

-- `if n is not None: values.append(...)`
abbrev pub line_of : (ℕ → String) → Option ℕ → List String
line_of text none = []
line_of text (some n) = text n ∷ []

abbrev pub option_line : String → Option ℕ → List String
option_line name n = line_of (λ k. "#SBATCH --" <> (name <> ("=" <> decimal k))) n

abbrev pub slurm_memory : Option ℕ → List String
slurm_memory n = line_of (λ k. "#SBATCH --mem=" <> (decimal (mebibytes k) <> "M")) n

abbrev pub slurm_time : Option ℕ → List String
slurm_time n = line_of (λ k. "#SBATCH --time=" <> walltime k) n

-- `shape.nodes in {None, 1}`
abbrev pub single_node : Option ℕ → Bool
single_node none = true
single_node (some n) = n == 1

unfoldable pub whole_cpus : ResourceShape → Option ℕ → Checked (List String)
whole_cpus shape none = value []
whole_cpus shape (some total) =
    if single_node shape.nodes
    then value (option_line "cpus-per-task" (some total))
    else refused "multi-node Slurm shape requires CPUs per node or MPI layout"

-- With neither threads per rank nor ranks: the CPUs of a node as one task.
unfoldable pub unplaced_cpus : ResourceShape → Option ℕ → Checked (List String)
unfolding whole_cpus
unplaced_cpus shape (some each) =
    value (option_line "ntasks-per-node" (some 1) ++ option_line "cpus-per-task" (some each))
unplaced_cpus shape none = whole_cpus shape shape.total_cpus

-- By the threads per rank, then by the ranks.
unfoldable pub slurm_cpus : ResourceShape → Option ℕ → Option ℕ → Checked (List String)
unfolding unplaced_cpus
slurm_cpus shape (some threads) ranks = value (option_line "cpus-per-task" (some threads))
slurm_cpus shape none (some ranks) = value []
slurm_cpus shape none none = unplaced_cpus shape shape.cpus_per_node

unfoldable pub slurm_gpus : ResourceShape → List String
slurm_gpus shape = elim shape.gpus_per_node [
  | some each ↦ option_line "gpus-per-node" (some each)
  | none ↦ option_line "gpus" shape.gpus
]

-- The branch on a plan with a resource shape.
unfoldable pub slurm_shape : ResourceShape → Checked (List String)
unfolding slurm_cpus slurm_gpus
slurm_shape shape = do
  threads ← shape_threads_per_rank shape
  cpus ← slurm_cpus shape threads shape.mpi_ranks
  memory ← shape_per_node shape.memory_bytes shape.memory_per_node_bytes shape.nodes "memory"
  value (
      option_line "nodes" shape.nodes
      ++ option_line "ntasks" shape.mpi_ranks
      ++ option_line "ntasks-per-node" shape.ranks_per_node
      ++ cpus
      ++ slurm_gpus shape
      ++ slurm_memory memory
      ++ slurm_time shape.walltime_seconds)

-- The branch on a plan without one.
unfoldable pub slurm_requested : ResourceRequirements → List String
slurm_requested resources =
    option_line "nodes" resources.nodes
    ++ option_line "cpus-per-task" resources.cpus
    ++ option_line "gpus" resources.gpus
    ++ option_line "ntasks" resources.mpi_ranks
    ++ slurm_memory resources.memory_bytes
    ++ slurm_time resources.walltime_seconds

unfoldable pub slurm_lines : ExecutionPlan → Option ResourceShape → Checked (List String)
slurm_lines plan (some shape) = slurm_shape shape
slurm_lines plan none = value (slurm_requested plan.requested_resources)

-- `_slurm_directives`
unfoldable pub slurm_directives : ExecutionPlan → Option String → Checked (List String)
unfolding slurm_lines
slurm_directives plan target_name = do
  lines ← slurm_lines plan plan.resource_shape
  value (("#SBATCH --job-name=bourne" ∷ named_line "#SBATCH --partition=" target_name) ++ lines)
