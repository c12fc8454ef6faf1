-- ===== src/Batch/Laws/Scripts.antt =====
-- No directive of a batch script of backends.py goes over its line.
use project_bourne.Prelude.{
  ℕ, ◌≡◌, refl, String, ◌<>◌, true, false, Option, none, some, List, [], ◌∷◌, nat_eq, ◌==◌, ◌*◌,
  Bool-cases, inl, inr, or_one,
}
use project_bourne.Prelude.Text.{decimal, any_char}
use project_bourne.Prelude.Checks.{guard, Holds-bind, Holds-any}
use project_bourne.Planning.Container.{breaks_line}
use project_bourne.Planning.Shape.{ResourceShape}
use project_bourne.Resolver.Models.{
  Backend, direct, slurm, pbs, lsf, ResourceRequirements, ExecutionPlan,
}
use project_bourne.Batch.Amounts.{mebibytes, whole_minutes, shape_per_node}
use project_bourne.Batch.Slurm.{line_of}
use project_bourne.Batch.Pbs.{
  join, chunk, memory_chunk, pbs_time, select_line, shape_chunks, requested_chunks, pbs_shape,
  pbs_requested, pbs_lines, pbs_directives,
}
use project_bourne.Batch.Lsf.{
  LsfRequest, lsf_request, or_else, ptile, none_or_zero, is_absent, unshared, lsf_nodes, lsf_span,
  lsf_lines, lsf_directives,
}
use project_bourne.Batch.Script.{safe_target, directives}
use project_bourne.Batch.Laws.Lines.{
  OneLine, OneLine-literal, OneLine-append, OneLine-behind, OneLine-walltime, OneLine-around,
  OneLine-number, OneLines, OneLines-append, OneLines-cons, OneLines-nil, OneLines-line_of,
}
use project_bourne.Batch.Laws.Directives.{Lines, any_step, headed, slurm_directives-Lines}

OneLine-join :
    (separator : String) (xs : List String)
    → any_char breaks_line separator ≡ false
    → OneLines xs
    → OneLine (join separator xs)
unfolding OneLines
OneLine-join separator [] h hx = OneLine-literal "" refl
OneLine-join separator (x ∷ []) h hx = hx.0
OneLine-join separator (x ∷ y ∷ rest) h hx =
    OneLine-append x _ hx.0
      (OneLine-behind separator _ h (OneLine-join separator (y ∷ rest) h hx.1))

chunk_lines :
    (name : String) (n : Option ℕ) → any_char breaks_line name ≡ false → OneLines (chunk name n)
chunk_lines name n h = OneLines-line_of _ n λ k. OneLine-behind name _ h (OneLine-number "=" k refl)

memory_lines : (n : Option ℕ) → OneLines (memory_chunk n)
memory_lines n = OneLines-line_of _ n λ k. OneLine-around "mem=" "mb" (mebibytes k) refl refl

pbs_time_lines : (n : Option ℕ) → OneLines (pbs_time n)
pbs_time_lines n =
    OneLines-line_of _ n λ k. OneLine-behind "#PBS -l walltime=" _ refl (OneLine-walltime k)

select_lines :
    (chunks : List String) (time : Option ℕ)
    → OneLines chunks
    → OneLines (select_line chunks ∷ pbs_time time)
select_lines chunks time h =
    OneLines-cons _ _ (OneLine-behind "#PBS -l " _ refl (OneLine-join ":" chunks refl h))
      (pbs_time_lines time)

shape_chunk_lines :
    (shape : ResourceShape) (cpus gpus memory ranks : Option ℕ)
    → OneLines (shape_chunks shape cpus gpus memory ranks)
unfolding shape_chunks
shape_chunk_lines shape cpus gpus memory ranks =
    search
      (
        OneLines-append,
        memory_lines,
        chunk_lines "select" (some (or_one shape.nodes)) refl,
        chunk_lines "ncpus" cpus refl,
        chunk_lines "ngpus" gpus refl,
        chunk_lines "mpiprocs" ranks refl,
        chunk_lines "ompthreads" shape.threads_per_rank refl,
      )
      depth 9

requested_chunk_lines : (resources : ResourceRequirements) → OneLines (requested_chunks resources)
unfolding requested_chunks
requested_chunk_lines resources =
    search
      (
        OneLines-append,
        memory_lines,
        chunk_lines "select" (some (or_one resources.nodes)) refl,
        chunk_lines "ncpus" resources.cpus refl,
        chunk_lines "ngpus" resources.gpus refl,
      )
      depth 9

pbs_shape-Lines : (shape : ResourceShape) → Lines (pbs_shape shape)
unfolding pbs_shape
pbs_shape-Lines shape =
    any_step (shape_per_node shape.total_cpus shape.cpus_per_node shape.nodes "CPUs") _ λ cpus.
      any_step (shape_per_node shape.gpus shape.gpus_per_node shape.nodes "GPUs") _ λ gpus.
        any_step
          (shape_per_node shape.memory_bytes shape.memory_per_node_bytes shape.nodes "memory") _
          λ memory.
            any_step (shape_per_node shape.mpi_ranks shape.ranks_per_node shape.nodes "MPI ranks") _
              λ ranks.
                select_lines (shape_chunks shape cpus gpus memory ranks) shape.walltime_seconds
                  (shape_chunk_lines shape cpus gpus memory ranks)

pbs_lines-Lines :
    (plan : ExecutionPlan) (shape : Option ResourceShape) → Lines (pbs_lines plan shape)
unfolding pbs_lines pbs_requested
pbs_lines-Lines plan (some shape) = pbs_shape-Lines shape
pbs_lines-Lines plan none =
    let resources = plan.requested_resources in
    select_lines (requested_chunks resources) resources.walltime_seconds
      (requested_chunk_lines resources)

pbs_directives-Lines :
    (plan : ExecutionPlan) (target : Option String)
    → safe_target target ≡ true
    → Lines (pbs_directives plan target)
unfolding pbs_directives
pbs_directives-Lines plan target t =
    Holds-bind OneLines OneLines (pbs_lines plan plan.resource_shape) _
      (pbs_lines-Lines plan plan.resource_shape)
      λ lines h. headed "#PBS -N bourne" "#PBS -q " target lines refl refl t h

ptile_lines : (each : ℕ) → OneLines (ptile each)
ptile_lines each =
    OneLines-cons _ _ (OneLine-around "#BSUB -R \"span[ptile=" "]\"" each refl refl) OneLines-nil

unshared-Lines : (nodes : ℕ) → Lines (unshared nodes)
unfolding unshared
unshared-Lines nodes = elim (Bool-cases (nodes == 1)) [
  | inl one ↦ rw one (OneLines-cons _ _ (OneLine-literal _ refl) OneLines-nil)
  | inr many ↦ rw many tt
]

span-Lines : (nodes slots per_host : Option ℕ) → Lines (lsf_span nodes slots per_host)
unfolding lsf_nodes
span-Lines none slots none = OneLines-nil
span-Lines none slots (some each) = ptile_lines each
span-Lines (some nodes) none per_host = tt
span-Lines (some nodes) (some slots) none = unshared-Lines nodes
span-Lines (some nodes) (some slots) (some each) = elim (Bool-cases (slots == nodes * each)) [
  | inl even ↦ rw even (ptile_lines each)
  | inr odd ↦ rw odd (unshared-Lines nodes)
]

number_lines :
    (before : String) (f : ℕ → ℕ) (n : Option ℕ)
    → any_char breaks_line before ≡ false
    → OneLines (line_of (λ k. before <> decimal (f k)) n)
number_lines before f n h = OneLines-line_of _ n λ k. OneLine-number before (f k) h

lsf_lines-Lines : (r : LsfRequest) → Lines (lsf_lines r)
unfolding lsf_lines
lsf_lines-Lines r =
    let slots = or_else r.ranks r.cpus in
    Holds-bind OneLines OneLines (lsf_span r.nodes slots r.per_host) _
      (span-Lines r.nodes slots r.per_host)
      λ span h.
        Holds-bind (λ _. Unit {0}) OneLines (guard (none_or_zero r.gpus) _) _ (Holds-any _)
          λ _ u.
            Holds-bind (λ _. Unit {0}) OneLines (guard (is_absent r.memory) _) _ (Holds-any _)
              λ _ v.
                OneLines-append _ _
                  (OneLines-append _ _ (number_lines "#BSUB -n " (λ k. k) slots refl) h)
                  (number_lines "#BSUB -W " whole_minutes r.walltime refl)

lsf_directives-Lines :
    (plan : ExecutionPlan) (target : Option String)
    → safe_target target ≡ true
    → Lines (lsf_directives plan target)
unfolding lsf_directives
lsf_directives-Lines plan target t =
    let r = lsf_request plan.requested_resources plan.resource_shape in
    Holds-bind OneLines OneLines (lsf_lines r) _ (lsf_lines-Lines r)
      λ lines h. headed "#BSUB -J bourne" "#BSUB -q " target lines refl refl t h

pub directives-Lines :
    (family : Backend) (plan : ExecutionPlan) (target : Option String)
    → safe_target target ≡ true
    → Lines (directives family plan target)
unfolding directives
directives-Lines direct plan target t = tt
directives-Lines slurm plan target t = slurm_directives-Lines plan target t
directives-Lines pbs plan target t = pbs_directives-Lines plan target t
directives-Lines lsf plan target t = lsf_directives-Lines plan target t
