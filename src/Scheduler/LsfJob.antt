-- ===== src/Scheduler/LsfJob.antt =====
-- LSFBackend._observe_job of backends.py, and `_observe_job` by the family. A ValueError of the
-- arguments is an exception like the others.
use project_bourne.Prelude.{
  String, ◌<>◌, nat_eq, string_eq, ◌&&◌, ◌||◌, not, Option, none, some, List, ◌∷◌, if◌then◌else◌,
}
use project_bourne.Prelude.Text.{is_empty_text, strip}
use project_bourne.Prelude.Checks.{Checked, value, refused, ◌>>=◌, ◌>>◌, guard}
use project_bourne.Lsf.{
  lsf_terminal_states, active_job_arguments, recent_job_arguments, historical_job_arguments,
  parse_bjobs_job, parse_bhist_job, normalize_lsf_state, lsf_job_is_unobservable,
}
use project_bourne.RemoteWorker.Effects.{CommandResult}
use project_bourne.RemoteWorker.State.{Family, slurm, pbs, lsf}
use project_bourne.RemoteWorker.Observation.{failed_exit}
use project_bourne.Scheduler.Observation.{SchedulerObservation, unseen, seen, failure_detail}
use project_bourne.Scheduler.Families.{
  Machine, SchedulerJob, run, failed, observe_slurm, observe_pbs,
}

abbrev pub arguments_of : Option (List String) → Checked (List String)
arguments_of none = refused "invalid LSF job or identity"
arguments_of (some arguments) = value arguments

abbrev pub observed_as : String → Option (String × String) → Option SchedulerObservation
observed_as source none = none
observed_as source (some (job, raw)) =
    some (seen lsf_terminal_states source (normalize_lsf_state raw) (some raw))

-- What one answer says of the job, where it has one exact record of it.
abbrev pub recorded :
    String → (String → Option (String × String)) → CommandResult → Option SchedulerObservation
recorded source parse r = if failed r then none else observed_as source (parse r.stdout)

-- The tests on an answer of `bjobs` that has no exact record.
unfoldable pub unseen_active : CommandResult → Checked (Unit {0})
unseen_active r = do
  guard (not r.timed_out) ("LSF active status timed out: " <> failure_detail r)
  guard (not (failed_exit r && not (lsf_job_is_unobservable r.stderr r.stdout)))
      ("LSF active status failed: " <> failure_detail r)
  guard (failed_exit r || is_empty_text (strip r.stdout))
      "LSF active status did not contain one unique exact job record"

unfoldable pub history_diagnostic : CommandResult → String
history_diagnostic r =
    if r.timed_out
    then "exact-job bhist query timed out"
    else if failed_exit r
    then "exact-job bhist query failed: " <> failure_detail r
    else if not (is_empty_text (strip r.stdout))
    then "bhist output did not contain one unique exact job record"
    else "known job was absent from active, recent, and historical LSF views"

abbrev pub or_unseen : String → String → Option SchedulerObservation → SchedulerObservation
or_unseen source diagnostic none = unseen source diagnostic
or_unseen source diagnostic (some o) = o

unfoldable pub lsf_history : Machine → SchedulerJob → Option String → Checked SchedulerObservation
lsf_history m job none = value (
    unseen "historical_accounting_unavailable"
      "known job was absent from active and recent-finished LSF views; bhist is unavailable")
lsf_history m job (some executable) = do
  arguments ← arguments_of (historical_job_arguments job.job_id job.submitting_identity)
  r ← run m (executable ∷ arguments)
  value (
      or_unseen "historical_accounting" (history_diagnostic r)
        (recorded "historical_accounting" (λ s. parse_bhist_job s job.job_id) r))

abbrev pub or_else_ask :
    Option SchedulerObservation → Checked SchedulerObservation → Checked SchedulerObservation
or_else_ask none later = later
or_else_ask (some o) later = value o

unfoldable pub lsf_recent : Machine → SchedulerJob → String → Checked SchedulerObservation
lsf_recent m job executable = do
  arguments ← arguments_of (recent_job_arguments job.job_id job.submitting_identity)
  r ← run m (executable ∷ arguments)
  or_else_ask (recorded "recent_finished" (λ s. parse_bjobs_job s job.job_id) r)
      (lsf_history m job (m.which "bhist"))

-- LSFBackend._observe_job
unfoldable pub observe_lsf : Machine → SchedulerJob → String → Checked SchedulerObservation
observe_lsf m job executable = do
  arguments ← arguments_of (active_job_arguments job.job_id job.submitting_identity)
  r ← run m (executable ∷ arguments)
  or_else_ask (recorded "active" (λ s. parse_bjobs_job s job.job_id) r)
      (unseen_active r >> lsf_recent m job executable)

-- status_command
abbrev pub status_command : Family → String
status_command slurm = "squeue"
status_command pbs = "qstat"
status_command lsf = "bjobs"

abbrev pub observe_with : Machine → SchedulerJob → Family → String → Checked SchedulerObservation
observe_with m job slurm executable = observe_slurm m job executable
observe_with m job pbs executable = observe_pbs m job executable
observe_with m job lsf executable = observe_lsf m job executable

abbrev pub located : Option String → String → Checked String
located none command = refused (command <> " executable is unavailable")
located (some executable) command = value executable

-- `_observe_and_record`, without what it writes.
unfoldable pub observe : Machine → SchedulerJob → Checked SchedulerObservation
observe m job = do
  executable ← located (m.which (status_command job.family)) (status_command job.family)
  observe_with m job job.family executable
