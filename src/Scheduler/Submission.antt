-- ===== src/Scheduler/Submission.antt =====
-- `SchedulerBackend.execute` of backends.py: what it writes to the store, in order, and how it ends.
-- The answer to the submit command, where executables are found and `shlex.quote` are arguments. The
-- staging directory and its files are not modelled.
use project_bourne.Prelude.{String, ◌<>◌, Option, none, some, List, [], ◌∷◌, if◌then◌else◌}
use project_bourne.Prelude.Checks.{Checked, value, refused, ◌>>=◌}
use project_bourne.Resolver.Models.{Backend, InventorySnapshot, ExecutionPlan}
use project_bourne.Batch.Script.{ScriptPaths, render_batch_script, target_name_of}
use project_bourne.RemoteWorker.Effects.{CommandResult}
use project_bourne.RemoteWorker.State.{Family, slurm, pbs, lsf}
use project_bourne.RemoteWorker.Observation.{failed_exit, job_id_of}
use project_bourne.Scheduler.Observation.{failure_detail}

-- `set_staging_directory`, `update_execution_state` with its error, and `save_scheduler_job`.
pub data Write : Type 0 where
  staging_set : Write
  state_set : String → Option String → Write
  job_saved : String → Write

-- The Submission, a BackendError or ValueError, or an AmbiguousSubmission.
pub data Ending : Type 0 where
  accepted_as : String → Ending
  given_up : String → Ending
  in_doubt : String → Ending

abbrev pub Execution : Type 0
Execution = List Write × Ending

abbrev pub also : Write → Execution → Execution
also w (writes, ending) = (w ∷ writes, ending)

-- What `_parse_submission` returns or raises.
pub data ParsedJob : Type 0 where
  exact : String → ParsedJob
  invalid : String → ParsedJob
  not_unique : String → ParsedJob

abbrev pub refusal : Family → ParsedJob
refusal slurm = invalid "Slurm returned an invalid job ID"
refusal pbs = invalid "PBS returned an invalid job ID"
refusal lsf = not_unique "LSF returned no unique exact job identity"

abbrev pub parsed_as : Family → Option String → ParsedJob
parsed_as family none = refusal family
parsed_as family (some job_id) = exact job_id

-- `_parse_submission`
unfoldable pub parse_submission : Family → String → ParsedJob
parse_submission family stdout = parsed_as family (job_id_of family stdout)

abbrev pub record_failure : String → String → Execution
record_failure detail message = (state_set "failed" (some detail) ∷ [], given_up message)

abbrev pub record_doubt : String → Execution
record_doubt detail = (state_set "submission_ambiguous" (some detail) ∷ [], in_doubt detail)

unfoldable pub record_job : ParsedJob → Execution
record_job (exact job_id) = (job_saved job_id ∷ state_set "submitted" none ∷ [], accepted_as job_id)
record_job (invalid message) = record_failure message message
record_job (not_unique message) = record_doubt message

abbrev pub family_name : Family → String
family_name slurm = "slurm"
family_name pbs = "pbs"
family_name lsf = "lsf"

-- What follows the answer of the submit command.
unfoldable pub answered : Family → CommandResult → Execution
answered family r =
    let job = record_job (parse_submission family r.stdout) in
    if r.timed_out
    then record_doubt "scheduler submission timed out; acceptance is unknown"
    else if failed_exit r
    then record_failure (failure_detail r)
        (family_name family <> (" submission failed: " <> failure_detail r))
    else job

-- `_run`, where an OSError is a BackendError and nothing is written.
abbrev pub run_answer : Family → Option CommandResult → Execution
run_answer family none = ([], given_up "could not run scheduler command")
run_answer family (some r) = answered family r

-- submit_command
abbrev pub submit_command : Family → String
submit_command slurm = "sbatch"
submit_command pbs = "qsub"
submit_command lsf = "bsub"

-- `_submit_arguments`
abbrev pub submit_arguments : Family → String → List String
submit_arguments slurm path = "--parsable" ∷ path ∷ []
submit_arguments pbs path = path ∷ []
submit_arguments lsf path = []

-- `_submission_input`, the script's text
abbrev pub submission_input : Family → String → Option String
submission_input slurm script = none
submission_input pbs script = none
submission_input lsf script = some script

module _ (answers : List String → Option String → Option CommandResult)
    (which : String → Option String) (quote : String → String) (family : Family) where
  abbrev pub launched : String → String → Option String → Execution
  launched path script none =
      record_failure (submit_command family <> " executable is unavailable")
        (submit_command family <> " executable is unavailable")
  launched path script (some executable) =
      run_answer family
        (answers (executable ∷ submit_arguments family path) (submission_input family script))

  abbrev pub backend_of : Family → Backend
  backend_of slurm = Backend.slurm
  backend_of pbs = Backend.pbs
  backend_of lsf = Backend.lsf

  -- The script of the plan for the named target.
  unfoldable pub script_of :
      ExecutionPlan → InventorySnapshot → ScriptPaths → String → Checked String
  script_of plan inventory paths execution_id = do
    target_name ← target_name_of plan inventory
    render_batch_script quote (backend_of family) plan paths execution_id target_name

  abbrev pub staged : String → Checked String → Execution
  staged path (refused message) = ([], given_up message)
  staged path (value script) =
      also staging_set
        (also (state_set "prepared" none) (launched path script (which (submit_command family))))

  -- `execute`
  unfoldable pub execute :
      ExecutionPlan → InventorySnapshot → ScriptPaths → String → String → Execution
  execute plan inventory paths path execution_id =
      staged path (script_of plan inventory paths execution_id)
