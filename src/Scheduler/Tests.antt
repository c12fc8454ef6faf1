-- ===== src/Scheduler/Tests.antt =====
-- A finished PBS job, a submission to Slurm, and instances of the theorems on both.
use project_bourne.Prelude.{
  ◌≡◌, refl, ◌==◌, string_eq, true, false, ◌&&◌, not, none, some, [], contains,
}
use project_bourne.Prelude.Int.{pos}
use project_bourne.Prelude.Text.{is_space, upper_char}
use project_bourne.Prelude.Checks.{value}
use project_bourne.Resolver.Models.{slurm, partially, ExecutionPlan, InventorySnapshot}
use project_bourne.RemoteWorker.Effects.{CommandResult}
use project_bourne.RemoteWorker.State.{Family}
use project_bourne.RemoteWorker.Observation.{pbs_job_state}
use project_bourne.Scheduler.Observation.{SchedulerObservation, uncertain_states, execution_state}
use project_bourne.Scheduler.Families.{
  Machine, SchedulerJob, run, pbs_status, pbs_answer, observe_pbs, pbs_terminal_states,
}
use project_bourne.Scheduler.LsfJob.{observe}
use project_bourne.Scheduler.Submission.{execute}
use project_bourne.Batch.Script.{ScriptPaths}
use project_bourne.Scheduler.Laws.Observations.{execution_state-observe}
use project_bourne.Scheduler.Cancellation.{known_job, on_cancel_answer, cancel}
use project_bourne.Scheduler.Laws.Cancellations.{is_cancelled, IsAuthorised, cancel-IsAuthorised}
use project_bourne.Scheduler.Laws.Submissions.{planned, Reaches, execute-Reaches}

abbrev answer : CommandResult
answer = record {
  returncode = some (pos 0);
  stdout = "Job Id: 7\n    job_state = F\n";
  stderr = "";
  timed_out = false;
}

abbrev machine : Machine
machine = record { answers = λ argv. some answer; which = λ name. some "/usr/bin/tool" }

abbrev job : SchedulerJob
job = record {
  execution_id = "e1";
  family = Family.pbs;
  job_id = "7";
  submitting_identity = "ada";
  submitted_at = "2026-01-01T00:00:00+00:00";
  state = "submitted";
  last_observed_at = "2026-01-01T00:00:00+00:00";
}

abbrev finished : SchedulerObservation
finished = record {
  state = "finished";
  source = "active";
  observable = true;
  terminal = true;
  diagnostic = none;
  raw_state = none;
}

observed : observe machine job ≡ value finished
unfolding observe run observe_pbs pbs_answer pbs_status pbs_job_state is_space upper_char
observed = refl

execution_state-observe_example : (execution_state finished == "scheduler_terminal") ≡ (
    true && (contains pbs_terminal_states "finished" && not (contains uncertain_states "finished")))
execution_state-observe_example = execution_state-observe machine job finished observed

abbrev plan : ExecutionPlan
plan = record {
  id = "p1";
  workload_id = "w1";
  inventory_snapshot_id = "i1";
  backend = slurm;
  access_target_id = "t1";
  execution_target_id = none;
  execution_context_id = none;
  scheduler_id = some "s1";
  requested_resources = record {
    cpus = some 4;
    gpus = none;
    nodes = none;
    mpi_ranks = none;
    memory_bytes = none;
    walltime_seconds = none;
  };
  executable = "run";
  arguments = [];
  working_directory = "/work";
  inputs = [];
  outputs = [];
  compatibility_state = partially;
  unresolved_conditions = [];
  decision_evidence = [];
  created_at = "2026-01-01T00:00:00Z";
  resource_shape = none;
  container = none;
}

abbrev inventory : InventorySnapshot
inventory = record {
  id = "i1";
  targets = [];
  schedulers = [];
  execution_contexts = [];
  capabilities = [];
}

abbrev paths : ScriptPaths
paths = record { worker = "/w/worker.pyz"; plan = "/w/plan.json"; result = "/w/result.json" }

execute-Reaches_example : Reaches planned (
    execute
      (λ argv input. some answer)
      (λ name. some "/usr/bin/tool")
      (λ s. s)
      Family.slurm
      plan
      inventory
      paths
      "/w/job.slurm"
      "e1")
execute-Reaches_example =
    execute-Reaches (λ argv input. some answer) (λ name. some "/usr/bin/tool") (λ s. s) Family.slurm
      plan inventory paths "/w/job.slurm" "e1"

cancelled : is_cancelled (cancel machine Family.pbs "pbs" "pbs" (some job) "ada").0 ≡ true
unfolding cancel known_job on_cancel_answer
cancelled = refl

cancel-IsAuthorised_example : IsAuthorised machine Family.pbs "pbs" "pbs" (some job) "ada"
cancel-IsAuthorised_example =
    cancel-IsAuthorised machine Family.pbs "pbs" "pbs" (some job) "ada" cancelled
