-- ===== src/Batch/Laws/Directives.antt =====
-- No directive of `_slurm_directives` of backends.py goes over its line.
use project_bourne.Prelude.{
  ℕ, ◌≡◌, refl, String, true, false, Option, none, some, List, ◌∷◌, ◌++◌, nat_eq, Bool-cases,
  Option-cases, inl, inr,
}
use project_bourne.Prelude.Text.{any_char}
use project_bourne.Prelude.Checks.{Checked, ◌>>=◌, Holds, Holds-bind, Holds-any}
use project_bourne.Planning.Container.{breaks_line}
use project_bourne.Planning.Shape.{ResourceShape}
use project_bourne.Resolver.Models.{ResourceRequirements, ExecutionPlan}
use project_bourne.Batch.Amounts.{mebibytes, shape_threads_per_rank, shape_per_node}
use project_bourne.Batch.Slurm.{
  named_line, option_line, slurm_memory, slurm_time, slurm_cpus, unplaced_cpus, whole_cpus,
  slurm_gpus, slurm_shape, slurm_requested, slurm_lines, slurm_directives, single_node,
}
use project_bourne.Batch.Script.{safe_target}
use project_bourne.Batch.Laws.Lines.{
  OneLine-literal, OneLine-behind, OneLine-walltime, OneLine-around, OneLine-equals, OneLines,
  OneLines-append, OneLines-cons, OneLines-nil, OneLines-line_of, OneLines-named,
}

abbrev pub Lines : Checked (List String) → Type 0
Lines = Holds OneLines

-- A step whose result only supplies numbers.
pub any_step :
    (m : Checked (Option ℕ)) (f : Option ℕ → Checked (List String))
    → ((n : Option ℕ) → Lines (f n))
    → Lines (m >>= f)
any_step m f h = Holds-bind (λ _. Unit {0}) OneLines m f (Holds-any m) (λ n u. h n)

-- Options of Slurm: a literal name.
option_lines :
    (name : String) (n : Option ℕ)
    → any_char breaks_line name ≡ false
    → OneLines (option_line name n)
option_lines name n h = OneLines-line_of _ n λ k. OneLine-equals "#SBATCH --" name k refl h

memory_lines : (n : Option ℕ) → OneLines (slurm_memory n)
memory_lines n =
    OneLines-line_of _ n λ k. OneLine-around "#SBATCH --mem=" "M" (mebibytes k) refl refl

time_lines : (n : Option ℕ) → OneLines (slurm_time n)
time_lines n =
    OneLines-line_of _ n λ k. OneLine-behind "#SBATCH --time=" _ refl (OneLine-walltime k)

module _ (shape : ResourceShape) where
  whole-Lines : (total : Option ℕ) → Lines (whole_cpus shape total)
  unfolding whole_cpus
  whole-Lines none = OneLines-nil
  whole-Lines (some t) = elim (Bool-cases (single_node shape.nodes)) [
    | inl one ↦ rw one (option_lines "cpus-per-task" (some t) refl)
    | inr many ↦ rw many tt
  ]

  unplaced-Lines : (each : Option ℕ) → Lines (unplaced_cpus shape each)
  unfolding unplaced_cpus
  unplaced-Lines none = whole-Lines shape.total_cpus
  unplaced-Lines (some n) =
      OneLines-append _ _ (option_lines "ntasks-per-node" (some 1) refl)
        (option_lines "cpus-per-task" (some n) refl)

  cpus-Lines : (threads ranks : Option ℕ) → Lines (slurm_cpus shape threads ranks)
  unfolding slurm_cpus
  cpus-Lines (some t) ranks = option_lines "cpus-per-task" (some t) refl
  cpus-Lines none (some n) = OneLines-nil
  cpus-Lines none none = unplaced-Lines shape.cpus_per_node

  gpus_lines : OneLines (slurm_gpus shape)
  unfolding slurm_gpus
  gpus_lines = elim (Option-cases shape.gpus_per_node) [
    | inl h ↦ rw h (option_lines "gpus" shape.gpus refl)
    | inr (n, h) ↦ rw h (option_lines "gpus-per-node" (some n) refl)
  ]

  slurm_shape-Lines : Lines (slurm_shape shape)
  unfolding slurm_shape
  slurm_shape-Lines = any_step (shape_threads_per_rank shape) _ λ threads.
      Holds-bind OneLines OneLines (slurm_cpus shape threads shape.mpi_ranks) _
        (cpus-Lines threads shape.mpi_ranks)
        λ cpus h.
          any_step
            (shape_per_node shape.memory_bytes shape.memory_per_node_bytes shape.nodes "memory") _
            (λ memory. rest cpus memory h)
    where
      rest :
          (cpus : List String) (memory : Option ℕ)
          → OneLines cpus
          → OneLines (
              option_line "nodes" shape.nodes
              ++ option_line "ntasks" shape.mpi_ranks
              ++ option_line "ntasks-per-node" shape.ranks_per_node
              ++ cpus
              ++ slurm_gpus shape
              ++ slurm_memory memory
              ++ slurm_time shape.walltime_seconds)
      rest cpus memory h =
          search
            (
              OneLines-append,
              gpus_lines,
              memory_lines,
              time_lines,
              option_lines "nodes" shape.nodes refl,
              option_lines "ntasks" shape.mpi_ranks refl,
              option_lines "ntasks-per-node" shape.ranks_per_node refl,
            )
            depth 9

slurm_requested_lines : (resources : ResourceRequirements) → OneLines (slurm_requested resources)
unfolding slurm_requested
slurm_requested_lines resources =
    search
      (
        OneLines-append,
        memory_lines,
        time_lines,
        option_lines "nodes" resources.nodes refl,
        option_lines "cpus-per-task" resources.cpus refl,
        option_lines "gpus" resources.gpus refl,
        option_lines "ntasks" resources.mpi_ranks refl,
      )
      depth 9

slurm_lines-Lines :
    (plan : ExecutionPlan) (shape : Option ResourceShape) → Lines (slurm_lines plan shape)
unfolding slurm_lines
slurm_lines-Lines plan none = slurm_requested_lines plan.requested_resources
slurm_lines-Lines plan (some shape) = slurm_shape-Lines shape

-- The first line and the named one in front of the others.
pub headed :
    (head before : String) (target : Option String) (rest : List String)
    → any_char breaks_line head ≡ false
    → any_char breaks_line before ≡ false
    → safe_target target ≡ true
    → OneLines rest
    → OneLines ((head ∷ named_line before target) ++ rest)
headed head before target rest hh hb t h =
    OneLines-append _ _
      (OneLines-cons head _ (OneLine-literal head hh) (OneLines-named before target hb t)) h

pub slurm_directives-Lines :
    (plan : ExecutionPlan) (target : Option String)
    → safe_target target ≡ true
    → Lines (slurm_directives plan target)
unfolding slurm_directives
slurm_directives-Lines plan target t =
    Holds-bind OneLines OneLines (slurm_lines plan plan.resource_shape) _
      (slurm_lines-Lines plan plan.resource_shape)
      λ lines h.
        headed "#SBATCH --job-name=bourne" "#SBATCH --partition=" target lines refl refl t h
