-- ===== src/Batch/Pbs.antt =====
-- `_pbs_directives` of backends.py.
use project_bourne.Prelude.{ℕ, String, ◌<>◌, Option, none, some, List, [], ◌∷◌, ◌++◌, or_one}
use project_bourne.Prelude.Text.{decimal}
use project_bourne.Prelude.Checks.{Checked, value, ◌>>=◌}
use project_bourne.Planning.Shape.{ResourceShape}
use project_bourne.Resolver.Models.{ResourceRequirements, ExecutionPlan}
use project_bourne.Batch.Amounts.{walltime, mebibytes, shape_per_node}
use project_bourne.Batch.Slurm.{named_line, line_of}

-- `":".join(chunks)`
abbrev pub join : String → List String → String
join separator [] = ""
join separator (x ∷ []) = x
join separator (x ∷ y ∷ rest) = x <> (separator <> join separator (y ∷ rest))

abbrev pub chunk : String → Option ℕ → List String
chunk name n = line_of (λ k. name <> ("=" <> decimal k)) n

abbrev pub memory_chunk : Option ℕ → List String
memory_chunk n = line_of (λ k. "mem=" <> (decimal (mebibytes k) <> "mb")) n

abbrev pub pbs_time : Option ℕ → List String
pbs_time n = line_of (λ k. "#PBS -l walltime=" <> walltime k) n

abbrev pub select_line : List String → String
select_line chunks = "#PBS -l " <> join ":" chunks

unfoldable pub shape_chunks :
    ResourceShape → Option ℕ → Option ℕ → Option ℕ → Option ℕ → List String
shape_chunks shape cpus gpus memory ranks =
    chunk "select" (some (or_one shape.nodes))
    ++ chunk "ncpus" cpus
    ++ chunk "ngpus" gpus
    ++ memory_chunk memory
    ++ chunk "mpiprocs" ranks
    ++ chunk "ompthreads" shape.threads_per_rank

unfoldable pub requested_chunks : ResourceRequirements → List String
requested_chunks resources =
    chunk "select" (some (or_one resources.nodes))
    ++ chunk "ncpus" resources.cpus
    ++ chunk "ngpus" resources.gpus
    ++ memory_chunk resources.memory_bytes

-- The branch on a plan with a resource shape.
unfoldable pub pbs_shape : ResourceShape → Checked (List String)
unfolding shape_chunks
pbs_shape shape = do
  cpus ← shape_per_node shape.total_cpus shape.cpus_per_node shape.nodes "CPUs"
  gpus ← shape_per_node shape.gpus shape.gpus_per_node shape.nodes "GPUs"
  memory ← shape_per_node shape.memory_bytes shape.memory_per_node_bytes shape.nodes "memory"
  ranks ← shape_per_node shape.mpi_ranks shape.ranks_per_node shape.nodes "MPI ranks"
  value (select_line (shape_chunks shape cpus gpus memory ranks) ∷ pbs_time shape.walltime_seconds)

-- The branch on a plan without one.
unfoldable pub pbs_requested : ResourceRequirements → List String
unfolding requested_chunks
pbs_requested resources =
    select_line (requested_chunks resources) ∷ pbs_time resources.walltime_seconds

unfoldable pub pbs_lines : ExecutionPlan → Option ResourceShape → Checked (List String)
pbs_lines plan (some shape) = pbs_shape shape
pbs_lines plan none = value (pbs_requested plan.requested_resources)

-- `_pbs_directives`
unfoldable pub pbs_directives : ExecutionPlan → Option String → Checked (List String)
unfolding pbs_lines
pbs_directives plan target_name = do
  lines ← pbs_lines plan plan.resource_shape
  value (("#PBS -N bourne" ∷ named_line "#PBS -q " target_name) ++ lines)
