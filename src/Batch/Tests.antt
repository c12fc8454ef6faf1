-- ===== src/Batch/Tests.antt =====
-- A batch script, and instances of the theorems on scripts.
use project_bourne.Prelude.{ℕ, ◌*◌, ◌≤◌, ◌≡◌, refl, true, none, some, [], ◌∷◌, or_one}
use project_bourne.Prelude.Text.{split_on, decimal}
use project_bourne.Prelude.Checks.{value, Holds}
use project_bourne.Planning.Container.{ContainerMount, check_mount}
use project_bourne.Planning.Shape.{ResourceShape}
use project_bourne.Resolver.Models.{slurm, lsf, partially, ExecutionPlan}
use project_bourne.Batch.Amounts.{
  mebibytes, whole_minutes, walltime, divide, shape_per_node, two_digits, clock_parts,
}
use project_bourne.Batch.Lsf.{lsf_request, lsf_directives, lsf_lines, lsf_nodes}
use project_bourne.Batch.Script.{ScriptPaths, mount_specification, batch_lines}
use project_bourne.Batch.Laws.Amounts.{mebibytes-least, whole_minutes-least, shape_per_node-times}
use project_bourne.Batch.Laws.Requests.{is_value, is_portable, lsf_directives-portable}
use project_bourne.Batch.Laws.Mounts.{is_colon, check_mount-split}
use project_bourne.Batch.Laws.Rendered.{IsScript, batch_lines-IsScript}

abbrev shape : ResourceShape
shape = record {
  nodes = some 2;
  cpus_per_node = none;
  total_cpus = some 128;
  mpi_ranks = some 16;
  ranks_per_node = some 8;
  threads_per_rank = none;
  gpus = none;
  gpus_per_node = none;
  memory_bytes = none;
  memory_per_node_bytes = none;
  architecture = none;
  node_class = none;
  walltime_seconds = some 3661;
  scheduler_class = none;
}

abbrev plan : ExecutionPlan
plan = record {
  id = "p1";
  workload_id = "w1";
  inventory_snapshot_id = "i1";
  backend = lsf;
  access_target_id = "t1";
  execution_target_id = none;
  execution_context_id = none;
  scheduler_id = some "s1";
  requested_resources = record {
    cpus = none;
    gpus = none;
    nodes = none;
    mpi_ranks = none;
    memory_bytes = none;
    walltime_seconds = none;
  };
  executable = "run";
  arguments = [];
  working_directory = "/work";
  inputs = [];
  outputs = [];
  compatibility_state = partially;
  unresolved_conditions = [];
  decision_evidence = [];
  created_at = "2026-01-01T00:00:00Z";
  resource_shape = some shape;
  container = none;
}

walltime_run : walltime 3661 ≡ "01:01:01"
unfolding walltime two_digits clock_parts decimal
walltime_run = refl

lsf_run :
    lsf_directives plan (some "normal")
    ≡ value (
        "#BSUB -J bourne" ∷ "#BSUB -q normal" ∷ "#BSUB -n 16" ∷ "#BSUB -R \"span[ptile=8]\""
        ∷ "#BSUB -W 62" ∷ [])
unfolding lsf_directives lsf_lines lsf_request lsf_nodes whole_minutes decimal
lsf_run = refl

mebibytes-least_example :
    (1048577 ≤ mebibytes 1048577 * 1048576)
    × ((m : ℕ) → 1 ≤ m → 1048577 ≤ m * 1048576 → mebibytes 1048577 ≤ m)
mebibytes-least_example = mebibytes-least 1048577

whole_minutes-least_example :
    (3661 ≤ whole_minutes 3661 * 60) × ((m : ℕ) → 1 ≤ m → 3661 ≤ m * 60 → whole_minutes 3661 ≤ m)
whole_minutes-least_example = whole_minutes-least 3661

per_node_run : shape_per_node (some 128) none (some 2) "CPUs" ≡ value (some 64)
unfolding shape_per_node divide
per_node_run = refl

shape_per_node-times_example : 64 * or_one (some 2) ≡ 128
shape_per_node-times_example = shape_per_node-times 128 (some 2) "CPUs" 64 per_node_run

lsf_directives-portable_example : is_value (lsf_directives plan none) ≡ is_portable plan
lsf_directives-portable_example = lsf_directives-portable plan none

abbrev mount : ContainerMount
mount = record { source = "/data"; destination = "/mnt/data"; read_only = true }

mount_checked : check_mount mount ≡ value mount
unfolding check_mount
mount_checked = refl

check_mount-split_example :
    split_on is_colon (mount_specification mount) ≡ "/data" ∷ "/mnt/data" ∷ "ro" ∷ []
check_mount-split_example = check_mount-split mount mount_checked

abbrev paths : ScriptPaths
paths = record { worker = "/w/worker.pyz"; plan = "/w/plan.json"; result = "/w/result.json" }

batch_lines-IsScript_example :
    Holds
      (IsScript (λ s. s) slurm paths "e1")
      (batch_lines (λ s. s) slurm plan paths "e1" (some "gpu"))
batch_lines-IsScript_example = batch_lines-IsScript (λ s. s) slurm plan paths "e1" (some "gpu")
