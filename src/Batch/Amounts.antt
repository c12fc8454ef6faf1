-- ===== src/Batch/Amounts.antt =====
-- `_walltime`, `_mebibytes`, `_shape_threads_per_rank` and `_shape_per_node` of backends.py.
use project_bourne.Prelude.{
  ℕ, ◌+◌, ◌-◌, ◌*◌, ◌/◌, ◌%◌, max, String, ◌<>◌, ◌==◌, nat_eq, Option, none, some, ltb, or_one,
  if◌then◌else◌,
}
use project_bourne.Prelude.Text.{decimal}
use project_bourne.Prelude.Checks.{Checked, value, refused}
use project_bourne.Planning.Shape.{ResourceShape}

-- `{n:02d}`
unfoldable pub two_digits : ℕ → String
two_digits n = if ltb n 10 then "0" <> decimal n else decimal n

-- The hours, minutes and seconds of `_walltime`.
unfoldable pub clock_parts : ℕ → ℕ × ℕ × ℕ
clock_parts seconds = (seconds / 3600, seconds % 3600 / 60, seconds % 3600 % 60)

-- `_walltime`
unfoldable pub walltime : ℕ → String
unfolding clock_parts
walltime seconds =
    let (hours, minutes, rest) = clock_parts seconds in
    two_digits hours <> (":" <> (two_digits minutes <> (":" <> two_digits rest)))

-- `_mebibytes`
unfoldable pub mebibytes : ℕ → ℕ
mebibytes amount = max 1 ((amount + 1024 * 1024 - 1) / (1024 * 1024))

-- `max(1, (walltime + 59) // 60)`
unfoldable pub whole_minutes : ℕ → ℕ
whole_minutes seconds = max 1 ((seconds + 59) / 60)

-- `if total % parts: raise ...`, `total // parts`
unfoldable pub divide : ℕ → ℕ → String → Checked (Option ℕ)
divide total parts message =
    if total % parts == 0 then value (some (total / parts)) else refused message

threads_from : Option ℕ → Option ℕ → Checked (Option ℕ)
threads_from (some cpus) (some ranks) =
    divide cpus ranks "resource-shape CPUs are not divisible across MPI ranks"
threads_from _ _ = value none

-- `_shape_threads_per_rank`
unfoldable pub shape_threads_per_rank : ResourceShape → Checked (Option ℕ)
unfolding threads_from
shape_threads_per_rank shape = elim shape.threads_per_rank [
  | some threads ↦ value (some threads)
  | none ↦ threads_from shape.total_cpus shape.mpi_ranks
]

-- `_shape_per_node`
unfoldable pub shape_per_node : Option ℕ → Option ℕ → Option ℕ → String → Checked (Option ℕ)
shape_per_node total (some each) nodes label = value (some each)
shape_per_node none none nodes label = value none
shape_per_node (some total) none nodes label =
    divide total (or_one nodes) ("resource-shape " <> (label <> " are not divisible across nodes"))
