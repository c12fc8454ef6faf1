-- ===== src/Planning/Shape.antt =====
-- ResourceShape of planning_models.py. The fields `placement` and `evidence` are left out: no code
-- that is modelled reads them. A field of another type than `int` is not represented.
use project_bourne.Prelude.{ℕ, ◌*◌, String, ◌==◌, nat_eq, Bool, true, not, Option, none, some, ltb}
use project_bourne.Prelude.Checks.{Checked, value, ◌>>◌, guard}

pub record ResourceShape : Type 0 where
  pub nodes : Option ℕ
  pub cpus_per_node : Option ℕ
  pub total_cpus : Option ℕ
  pub mpi_ranks : Option ℕ
  pub ranks_per_node : Option ℕ
  pub threads_per_rank : Option ℕ
  pub gpus : Option ℕ
  pub gpus_per_node : Option ℕ
  pub memory_bytes : Option ℕ
  pub memory_per_node_bytes : Option ℕ
  pub architecture : Option String
  pub node_class : Option String
  pub walltime_seconds : Option ℕ
  pub scheduler_class : Option String

-- `value is None or value >= 1`
abbrev pub at_least_one : Option ℕ → Bool
at_least_one none = true
at_least_one (some n) = not (ltb n 1)

-- Where all three are known, the first two multiply to the third.
abbrev pub multiplies : Option ℕ → Option ℕ → Option ℕ → Bool
multiplies (some count) (some each) (some total) = count * each == total
multiplies _ _ _ = true

counts_positive : ResourceShape → Checked (Unit {0})
counts_positive s = do
  guard (at_least_one s.nodes) "resource shape nodes must be at least 1"
  guard (at_least_one s.cpus_per_node) "resource shape cpus_per_node must be at least 1"
  guard (at_least_one s.total_cpus) "resource shape total_cpus must be at least 1"
  guard (at_least_one s.mpi_ranks) "resource shape mpi_ranks must be at least 1"
  guard (at_least_one s.ranks_per_node) "resource shape ranks_per_node must be at least 1"
  guard (at_least_one s.threads_per_rank) "resource shape threads_per_rank must be at least 1"
  guard (at_least_one s.memory_bytes) "resource shape memory_bytes must be at least 1"
  guard (at_least_one s.memory_per_node_bytes)
      "resource shape memory_per_node_bytes must be at least 1"
  guard (at_least_one s.walltime_seconds) "resource shape walltime_seconds must be at least 1"

-- `__post_init__`: the shape, or the ValueError.
unfoldable pub check_shape : ResourceShape → Checked ResourceShape
unfolding counts_positive
check_shape s = do
  counts_positive s
  guard (multiplies s.nodes s.cpus_per_node s.total_cpus)
      "total CPUs must equal nodes times CPUs per node"
  guard (multiplies s.nodes s.ranks_per_node s.mpi_ranks)
      "MPI ranks must equal nodes times ranks per node"
  guard (multiplies s.nodes s.gpus_per_node s.gpus) "GPUs must equal nodes times GPUs per node"
  guard (multiplies s.nodes s.memory_per_node_bytes s.memory_bytes)
      "memory must equal nodes times memory per node"
  guard (multiplies s.mpi_ranks s.threads_per_rank s.total_cpus)
      "total CPUs must equal MPI ranks times threads per rank"
  value s
