-- ===== src/Batch/Laws/Markers.antt =====
-- Every directive of `_slurm_directives`, `_pbs_directives` and `_lsf_directives` of backends.py
-- begins with the marker that its scheduler reads.
use project_bourne.Prelude.{
  ℕ, refl, String, ◌<>◌, Option, none, some, List, [], ◌∷◌, nat_eq, ◌==◌, ◌*◌, Bool-cases,
  Option-cases, inl, inr,
}
use project_bourne.Prelude.Text.{decimal}
use project_bourne.Prelude.Checks.{guard, Holds, Holds-bind, Holds-any}
use project_bourne.Planning.Shape.{ResourceShape}
use project_bourne.Resolver.Models.{
  Backend, direct, slurm, pbs, lsf, ResourceRequirements, ExecutionPlan,
}
use project_bourne.Batch.Amounts.{shape_threads_per_rank, shape_per_node}
use project_bourne.Batch.Slurm.{
  option_line, slurm_memory, slurm_time, slurm_cpus, unplaced_cpus, whole_cpus, slurm_gpus,
  slurm_shape, slurm_requested, slurm_lines, slurm_directives, single_node,
}
use project_bourne.Batch.Pbs.{
  join, shape_chunks, requested_chunks, pbs_time, select_line, pbs_shape, pbs_requested, pbs_lines,
  pbs_directives,
}
use project_bourne.Batch.Lsf.{
  LsfRequest, lsf_request, or_else, ptile, none_or_zero, is_absent, unshared, lsf_nodes, lsf_span,
  lsf_lines, lsf_directives,
}
use project_bourne.Batch.Script.{directives}
use project_bourne.Batch.Laws.Marks.{
  Marks, Marks-nil, Marks-one, Marks-append, Marks-line_of, marked_step, marked_head,
}

-- What the scheduler reads as an option in a comment of the script.
unfoldable pub marker_of : Backend → String
marker_of direct = ""
marker_of slurm = "#SBATCH --"
marker_of pbs = "#PBS -"
marker_of lsf = "#BSUB -"

abbrev Sbatch : List String → Type 0
Sbatch = Marks "#SBATCH --"

option_marks : (name : String) (n : Option ℕ) → Sbatch (option_line name n)
option_marks name n = Marks-line_of "#SBATCH --" "#SBATCH --" _ n refl

memory_marks : (n : Option ℕ) → Sbatch (slurm_memory n)
memory_marks n = Marks-line_of "#SBATCH --" "#SBATCH --mem=" _ n refl

time_marks : (n : Option ℕ) → Sbatch (slurm_time n)
time_marks n = Marks-line_of "#SBATCH --" "#SBATCH --time=" _ n refl

module _ (shape : ResourceShape) where
  whole_marks : (total : Option ℕ) → Holds Sbatch (whole_cpus shape total)
  unfolding whole_cpus
  whole_marks none = Marks-nil _
  whole_marks (some t) = elim (Bool-cases (single_node shape.nodes)) [
    | inl one ↦ rw one (option_marks "cpus-per-task" (some t))
    | inr many ↦ rw many tt
  ]

  unplaced_marks : (each : Option ℕ) → Holds Sbatch (unplaced_cpus shape each)
  unfolding unplaced_cpus
  unplaced_marks none = whole_marks shape.total_cpus
  unplaced_marks (some n) =
      Marks-append _ _ _ (option_marks "ntasks-per-node" (some 1))
        (option_marks "cpus-per-task" (some n))

  cpus_marks : (threads ranks : Option ℕ) → Holds Sbatch (slurm_cpus shape threads ranks)
  unfolding slurm_cpus
  cpus_marks (some t) ranks = option_marks "cpus-per-task" (some t)
  cpus_marks none (some n) = Marks-nil _
  cpus_marks none none = unplaced_marks shape.cpus_per_node

  gpus_marks : Sbatch (slurm_gpus shape)
  unfolding slurm_gpus
  gpus_marks = elim (Option-cases shape.gpus_per_node) [
    | inl h ↦ rw h (option_marks "gpus" shape.gpus)
    | inr (n, h) ↦ rw h (option_marks "gpus-per-node" (some n))
  ]

  slurm_shape_marks : Holds Sbatch (slurm_shape shape)
  unfolding slurm_shape
  slurm_shape_marks = marked_step _ (shape_threads_per_rank shape) _ λ threads.
      Holds-bind Sbatch Sbatch (slurm_cpus shape threads shape.mpi_ranks) _
        (cpus_marks threads shape.mpi_ranks)
        λ cpus h.
          marked_step _
            (shape_per_node shape.memory_bytes shape.memory_per_node_bytes shape.nodes "memory") _
            λ memory.
              search (Marks-append, gpus_marks, memory_marks, time_marks, option_marks) depth 9

slurm_requested_marks : (resources : ResourceRequirements) → Sbatch (slurm_requested resources)
unfolding slurm_requested
slurm_requested_marks resources =
    search (Marks-append, memory_marks, time_marks, option_marks) depth 9

slurm_marks :
    (plan : ExecutionPlan) (shape : Option ResourceShape) → Holds Sbatch (slurm_lines plan shape)
unfolding slurm_lines
slurm_marks plan none = slurm_requested_marks plan.requested_resources
slurm_marks plan (some shape) = slurm_shape_marks shape

abbrev PbsMarked : List String → Type 0
PbsMarked = Marks "#PBS -"

select_marks :
    (chunks : List String) (time : Option ℕ) → PbsMarked (select_line chunks ∷ pbs_time time)
select_marks chunks time =
    Marks-append _ (select_line chunks ∷ []) (pbs_time time)
      (Marks-line_of "#PBS -" "#PBS -l " (λ k. join ":" chunks) (some 1) refl)
      (Marks-line_of "#PBS -" "#PBS -l walltime=" _ time refl)

pbs_marks :
    (plan : ExecutionPlan) (shape : Option ResourceShape) → Holds PbsMarked (pbs_lines plan shape)
unfolding pbs_lines pbs_requested pbs_shape
pbs_marks plan none =
    select_marks (requested_chunks plan.requested_resources)
      plan.requested_resources.walltime_seconds
pbs_marks plan (some shape) =
    marked_step _ (shape_per_node shape.total_cpus shape.cpus_per_node shape.nodes "CPUs") _ λ cpus.
      marked_step _ (shape_per_node shape.gpus shape.gpus_per_node shape.nodes "GPUs") _ λ gpus.
        marked_step _
          (shape_per_node shape.memory_bytes shape.memory_per_node_bytes shape.nodes "memory") _
          λ memory.
            marked_step _
              (shape_per_node shape.mpi_ranks shape.ranks_per_node shape.nodes "MPI ranks") _
              λ ranks.
                select_marks (shape_chunks shape cpus gpus memory ranks) shape.walltime_seconds

abbrev Bsub : List String → Type 0
Bsub = Marks "#BSUB -"

unshared_marks : (nodes : ℕ) → Holds Bsub (unshared nodes)
unfolding unshared
unshared_marks nodes = elim (Bool-cases (nodes == 1)) [
  | inl one ↦ rw one (Marks-one "#BSUB -" "#BSUB -R \"span[hosts=1]\"" refl)
  | inr many ↦ rw many tt
]

ptile_marks : (each : ℕ) → Bsub (ptile each)
ptile_marks each =
    Marks-line_of "#BSUB -" "#BSUB -R \"span[ptile=" (λ k. decimal k <> "]\"") (some each) refl

span_marks : (nodes slots per_host : Option ℕ) → Holds Bsub (lsf_span nodes slots per_host)
unfolding lsf_nodes
span_marks none slots none = Marks-nil _
span_marks none slots (some each) = ptile_marks each
span_marks (some nodes) none per_host = tt
span_marks (some nodes) (some slots) none = unshared_marks nodes
span_marks (some nodes) (some slots) (some each) = elim (Bool-cases (slots == nodes * each)) [
  | inl even ↦ rw even (ptile_marks each)
  | inr odd ↦ rw odd (unshared_marks nodes)
]

lsf_marks : (r : LsfRequest) → Holds Bsub (lsf_lines r)
unfolding lsf_lines
lsf_marks r =
    let slots = or_else r.ranks r.cpus in
    Holds-bind Bsub Bsub (lsf_span r.nodes slots r.per_host) _ (span_marks r.nodes slots r.per_host)
      λ span h.
        Holds-bind (λ _. Unit {0}) Bsub (guard (none_or_zero r.gpus) _) _ (Holds-any _)
          λ _ u.
            Holds-bind (λ _. Unit {0}) Bsub (guard (is_absent r.memory) _) _ (Holds-any _)
              λ _ v.
                Marks-append _ _ _
                  (Marks-append _ _ _ (Marks-line_of "#BSUB -" "#BSUB -n " _ slots refl) h)
                  (Marks-line_of "#BSUB -" "#BSUB -W " _ r.walltime refl)

pub directives-Marks :
    (family : Backend) (plan : ExecutionPlan) (target : Option String)
    → Holds (Marks (marker_of family)) (directives family plan target)
unfolding directives slurm_directives pbs_directives lsf_directives marker_of
directives-Marks direct plan target = tt
directives-Marks slurm plan target =
    Holds-bind Sbatch Sbatch (slurm_lines plan plan.resource_shape) _
      (slurm_marks plan plan.resource_shape)
      λ lines h.
        marked_head _ "#SBATCH --job-name=bourne" "#SBATCH --partition=" target lines refl refl h
directives-Marks pbs plan target =
    Holds-bind PbsMarked PbsMarked (pbs_lines plan plan.resource_shape) _
      (pbs_marks plan plan.resource_shape)
      λ lines h. marked_head _ "#PBS -N bourne" "#PBS -q " target lines refl refl h
directives-Marks lsf plan target =
    let r = lsf_request plan.requested_resources plan.resource_shape in
    Holds-bind Bsub Bsub (lsf_lines r) _ (lsf_marks r)
      λ lines h. marked_head _ "#BSUB -J bourne" "#BSUB -q " target lines refl refl h
