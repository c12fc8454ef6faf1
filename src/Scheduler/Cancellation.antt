-- ===== src/Scheduler/Cancellation.antt =====
-- `_known_job` and `SchedulerBackend.cancel` of backends.py, with what it writes in order.
use project_bourne.Prelude.{
  String, ◌<>◌, ◌==◌, string_eq, Option, none, some, List, [], ◌∷◌, if◌then◌else◌,
}
use project_bourne.Prelude.Checks.{Checked, value, refused, ◌>>=◌, ◌>>◌, guard}
use project_bourne.RemoteWorker.Effects.{CommandResult}
use project_bourne.RemoteWorker.State.{Family, slurm, pbs, lsf}
use project_bourne.Scheduler.Observation.{failure_detail}
use project_bourne.Scheduler.Families.{Machine, SchedulerJob, failed}

-- `record_execution_event`, `update_scheduler_job` and `update_execution_state`.
pub data CancelWrite : Type 0 where
  event_recorded : String → CancelWrite
  job_state_set : String → CancelWrite
  execution_state_set : String → CancelWrite

abbrev pub job_of : Option SchedulerJob → Checked SchedulerJob
job_of none = refused "execution has no Bourne-managed scheduler job"
job_of (some job) = value job

-- `_known_job`, on the backend of the execution, the name of this one, the stored job and the user.
unfoldable pub known_job : String → String → Option SchedulerJob → String → Checked SchedulerJob
known_job backend name stored user = do
  guard (backend == name) "execution backend does not match scheduler"
  job ← job_of stored
  guard (job.submitting_identity == user) "current identity did not submit this Bourne job"
  value job

abbrev pub Cancelling : Type 0
Cancelling = List CancelWrite × Checked (Unit {0})

abbrev pub cancel_failed : String → Cancelling
cancel_failed message = (event_recorded "cancellation_failed" ∷ [], refused message)

-- On the answer of the cancel command; an OSError is a BackendError and nothing is written.
unfoldable pub on_cancel_answer : Option CommandResult → Cancelling
on_cancel_answer none = ([], refused "could not run scheduler command")
on_cancel_answer (some r) =
    if failed r
    then cancel_failed ("scheduler cancellation failed: " <> failure_detail r)
    else (job_state_set "cancelled" ∷ execution_state_set "cancelled" ∷ [], value tt)

-- `_cancel_arguments`
abbrev pub cancel_arguments : Family → SchedulerJob → List String
cancel_arguments slurm job = "--user" ∷ job.submitting_identity ∷ job.job_id ∷ []
cancel_arguments pbs job = job.job_id ∷ []
cancel_arguments lsf job = job.job_id ∷ []

-- cancel_command
abbrev pub cancel_command : Family → String
cancel_command slurm = "scancel"
cancel_command pbs = "qdel"
cancel_command lsf = "bkill"

abbrev pub cancel_with : Machine → Family → SchedulerJob → Option String → Cancelling
cancel_with m family job none =
    cancel_failed (cancel_command family <> " executable is unavailable")
cancel_with m family job (some executable) =
    on_cancel_answer (m.answers (executable ∷ cancel_arguments family job))

abbrev pub cancel_known : Machine → Family → Checked SchedulerJob → Cancelling
cancel_known m family (refused message) =
    (event_recorded "cancellation_rejected" ∷ [], refused message)
cancel_known m family (value job) = cancel_with m family job (m.which (cancel_command family))

abbrev also_cancel : CancelWrite → Cancelling → Cancelling
also_cancel w (writes, ending) = (w ∷ writes, ending)

-- `cancel`
unfoldable pub cancel :
    Machine → Family → String → String → Option SchedulerJob → String → Cancelling
cancel m family backend name stored user =
    also_cancel (event_recorded "cancellation_requested")
      (cancel_known m family (known_job backend name stored user))
