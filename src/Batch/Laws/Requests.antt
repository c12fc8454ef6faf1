-- ===== src/Batch/Laws/Requests.antt =====
-- What `_lsf_directives` of backends.py asks LSF for.
use project_bourne.Prelude.{
  ℕ, zero, suc, ◌*◌, ◌≡◌, String, ◌==◌, nat_eq, Bool, true, false, ◌||◌, ◌&&◌, Option, none, some,
  arith,
}
use project_bourne.Prelude.Checks.{Checked, value, refused}
use project_bourne.Planning.Shape.{ResourceShape}
use project_bourne.Resolver.Models.{ResourceRequirements, ExecutionPlan}
use project_bourne.Batch.Lsf.{
  LsfRequest, lsf_request, or_else, lsf_nodes, unshared, lsf_span, none_or_zero, is_absent,
  lsf_lines, lsf_directives,
}

-- The MPI ranks, or the CPUs where the ranks are unknown or zero.
unfoldable pub asked_slots : Option ℕ → Option ℕ → Option ℕ
asked_slots none cpus = cpus
asked_slots (some zero) cpus = cpus
asked_slots (some (suc n)) cpus = some (suc n)

-- The number of hosts is not fixed, or it is one, or the slots of one host times it are the slots.
unfoldable pub spread_evenly : Option ℕ → Option ℕ → Option ℕ → Bool
spread_evenly none slots per_host = true
spread_evenly (some hosts) none per_host = false
spread_evenly (some hosts) (some slots) none = hosts == 1
spread_evenly (some hosts) (some slots) (some each) = slots == hosts * each || hosts == 1

-- No amount, or zero.
unfoldable pub asks_nothing : Option ℕ → Bool
asks_nothing none = true
asks_nothing (some zero) = true
asks_nothing (some (suc n)) = false

unfoldable pub is_unstated : Option ℕ → Bool
is_unstated none = true
is_unstated (some n) = false

-- The slots that a shape gives each host, of ranks if these are known.
unfoldable pub shape_share : ResourceShape → Option ℕ
shape_share shape = elim shape.mpi_ranks [
  | none ↦ shape.cpus_per_node
  | some n ↦ shape.ranks_per_node
]

unfoldable pub shape_portable : ResourceShape → Bool
shape_portable shape =
    spread_evenly shape.nodes (asked_slots shape.mpi_ranks shape.total_cpus) (shape_share shape)
    && asks_nothing shape.gpus
    && is_unstated shape.memory_bytes

unfoldable pub request_portable : ResourceRequirements → Bool
request_portable r =
    spread_evenly r.nodes (asked_slots r.mpi_ranks r.cpus) none
    && asks_nothing r.gpus
    && is_unstated r.memory_bytes

-- What is asked for by the shape, or by the request where there is no shape, can be put to LSF.
unfoldable pub is_portable : ExecutionPlan → Bool
is_portable plan = elim plan.resource_shape [
  | none ↦ request_portable plan.requested_resources
  | some shape ↦ shape_portable shape
]

abbrev pub is_value {ℓ} : {A : Type ℓ} → Checked A → Bool
is_value (value a) = true
is_value (refused message) = false

lsf_span-spread :
    (nodes slots per_host : Option ℕ)
    → is_value (lsf_span nodes slots per_host) ≡ spread_evenly nodes slots per_host
unfolding lsf_nodes unshared spread_evenly
lsf_span-spread nodes slots per_host = ground arith

or_else-slots : (ranks cpus : Option ℕ) → or_else ranks cpus ≡ asked_slots ranks cpus
unfolding asked_slots
or_else-slots ranks cpus = ground arith

none_or_zero-nothing : (n : Option ℕ) → none_or_zero n ≡ asks_nothing n
unfolding asks_nothing
none_or_zero-nothing n = ground arith

is_absent-unstated : (n : Option ℕ) → is_absent n ≡ is_unstated n
unfolding is_unstated
is_absent-unstated n = ground arith

lsf_lines-portable :
    (r : LsfRequest)
    → is_value (lsf_lines r) ≡ (
        spread_evenly r.nodes (asked_slots r.ranks r.cpus) r.per_host
        && asks_nothing r.gpus
        && is_unstated r.memory)
unfolding lsf_lines
lsf_lines-portable r = ground (
  arith,
  lsf_span-spread r.nodes (or_else r.ranks r.cpus) r.per_host,
  or_else-slots r.ranks r.cpus,
  none_or_zero-nothing r.gpus,
  is_absent-unstated r.memory,
)

request-portable :
    (resources : ResourceRequirements) (shape : Option ResourceShape)
    → is_value (lsf_lines (lsf_request resources shape))
      ≡ elim shape [ none ↦ request_portable resources | some s ↦ shape_portable s ]
unfolding request_portable shape_portable shape_share lsf_request
request-portable resources none = lsf_lines-portable (lsf_request resources none)
request-portable resources (some shape) = lsf_lines-portable (lsf_request resources (some shape))

-- LSF directives are made exactly if these amounts, of the shape if the plan has one and of the
-- request otherwise, allow it: the total of GPUs is unknown or zero, the total of memory is
-- unknown, and the number of nodes is unknown, or one with the MPI ranks or the CPUs known, or
-- one that times the shape's ranks per node (its CPUs per node if the ranks are unknown) is the
-- ranks, or the CPUs where the ranks are unknown or zero. The GPUs and the memory per node of a
-- shape do not matter.
pub lsf_directives-portable :
    (plan : ExecutionPlan) (target_name : Option String)
    → is_value (lsf_directives plan target_name) ≡ is_portable plan
unfolding lsf_directives is_portable
lsf_directives-portable plan target_name =
    ground (arith, request-portable plan.requested_resources plan.resource_shape)
