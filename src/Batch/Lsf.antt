-- ===== src/Batch/Lsf.antt =====
-- `_lsf_directives` of backends.py.
use project_bourne.Prelude.{
  ℕ, ◌*◌, String, ◌<>◌, ◌==◌, nat_eq, Bool, true, false, Option, none, some, List, [], ◌∷◌, ◌++◌,
  if◌then◌else◌,
}
use project_bourne.Prelude.Text.{decimal}
use project_bourne.Prelude.Checks.{Checked, value, refused, ◌>>=◌, ◌>>◌, guard}
use project_bourne.Planning.Shape.{ResourceShape}
use project_bourne.Resolver.Models.{ResourceRequirements, ExecutionPlan}
use project_bourne.Batch.Amounts.{whole_minutes}
use project_bourne.Batch.Slurm.{named_line, line_of}

-- What is read from the shape, or from the request where there is no shape.
pub record LsfRequest : Type 0 where
  pub nodes : Option ℕ
  pub ranks : Option ℕ
  pub cpus : Option ℕ
  pub gpus : Option ℕ
  pub memory : Option ℕ
  pub walltime : Option ℕ
  pub per_host : Option ℕ

-- `shape.ranks_per_node if ranks is not None else shape.cpus_per_node`
abbrev host_share : ResourceShape → Option ℕ → Option ℕ
host_share shape (some ranks) = shape.ranks_per_node
host_share shape none = shape.cpus_per_node

unfoldable pub lsf_request : ResourceRequirements → Option ResourceShape → LsfRequest
lsf_request resources (some shape) = record {
  nodes = shape.nodes;
  ranks = shape.mpi_ranks;
  cpus = shape.total_cpus;
  gpus = shape.gpus;
  memory = shape.memory_bytes;
  walltime = shape.walltime_seconds;
  per_host = host_share shape shape.mpi_ranks;
}
lsf_request resources none = record {
  nodes = resources.nodes;
  ranks = resources.mpi_ranks;
  cpus = resources.cpus;
  gpus = resources.gpus;
  memory = resources.memory_bytes;
  walltime = resources.walltime_seconds;
  per_host = none;
}

-- `ranks or cpus`
abbrev pub or_else : Option ℕ → Option ℕ → Option ℕ
or_else none b = b
or_else (some n) b = if n == 0 then b else some n

abbrev pub ptile : ℕ → List String
ptile each = ("#BSUB -R \"span[ptile=" <> (decimal each <> "]\"")) ∷ []

unfoldable pub unshared : ℕ → Checked (List String)
unshared nodes =
    if nodes == 1
    then value ("#BSUB -R \"span[hosts=1]\"" ∷ [])
    else refused "LSF multi-node shape requires a divisible per-host CPU or MPI layout"

-- The branch on a known number of nodes.
unfoldable pub lsf_nodes : ℕ → Option ℕ → Option ℕ → Checked (List String)
unfolding unshared
lsf_nodes nodes none per_host =
    refused "LSF node count requires total CPUs or MPI ranks for a portable mapping"
lsf_nodes nodes (some slots) none = unshared nodes
lsf_nodes nodes (some slots) (some each) =
    if slots == nodes * each then value (ptile each) else unshared nodes

abbrev pub lsf_span : Option ℕ → Option ℕ → Option ℕ → Checked (List String)
lsf_span (some nodes) slots per_host = lsf_nodes nodes slots per_host
lsf_span none slots none = value []
lsf_span none slots (some each) = value (ptile each)

-- `n in {None, 0}`
abbrev pub none_or_zero : Option ℕ → Bool
none_or_zero none = true
none_or_zero (some n) = n == 0

abbrev pub is_absent : Option ℕ → Bool
is_absent none = true
is_absent (some n) = false

unfoldable pub lsf_lines : LsfRequest → Checked (List String)
lsf_lines r = do
  let slots = or_else r.ranks r.cpus
  span ← lsf_span r.nodes slots r.per_host
  guard (none_or_zero r.gpus)
      "LSF GPU mapping is unresolved; Bourne will not invent site-specific -gpu semantics"
  guard (is_absent r.memory)
      "LSF memory mapping is unresolved; Bourne will not invent site-specific -M units"
  value (
      line_of (λ k. "#BSUB -n " <> decimal k) slots
      ++ span
      ++ line_of (λ k. "#BSUB -W " <> decimal (whole_minutes k)) r.walltime)

-- `_lsf_directives`
unfoldable pub lsf_directives : ExecutionPlan → Option String → Checked (List String)
lsf_directives plan target_name = do
  lines ← lsf_lines (lsf_request plan.requested_resources plan.resource_shape)
  value (("#BSUB -J bourne" ∷ named_line "#BSUB -q " target_name) ++ lines)
