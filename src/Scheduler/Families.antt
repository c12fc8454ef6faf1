-- ===== src/Scheduler/Families.antt =====
-- `_observe_job` of the three backends of backends.py, and what a recorded observation makes of the
-- execution. The machine is one snapshot: the answers of commands, and where executables are found.
use project_bourne.Prelude.{
  String, ◌<>◌, ◌==◌, nat_eq, string_eq, Bool, ◌||◌, Option, none, some, List, [], ◌∷◌,
  if◌then◌else◌,
}
use project_bourne.Prelude.Text.{is_empty_text, strip, casefold, upper, first_line}
use project_bourne.Prelude.Checks.{Checked, value, refused, ◌>>=◌}
use project_bourne.Lsf.Match.{search, unknown_job, job_absent}
use project_bourne.RemoteWorker.Effects.{CommandResult}
use project_bourne.RemoteWorker.State.{Family}
use project_bourne.RemoteWorker.Observation.{failed_exit, pbs_job_state}
use project_bourne.Scheduler.Observation.{
  SchedulerObservation, unseen, seen, failure_detail, normalize_slurm_state,
  parse_slurm_accounting_state,
}

pub record Machine : Type 0 where
  pub answers : List String → Option CommandResult
  pub which : String → Option String

pub record SchedulerJob : Type 0 where
  pub execution_id : String
  pub family : Family
  pub job_id : String
  pub submitting_identity : String
  pub submitted_at : String
  pub state : String
  pub last_observed_at : String

-- `_run`, where an OSError is a BackendError.
unfoldable pub run : Machine → List String → Checked CommandResult
run m argv = elim (m.answers argv) [
  | none ↦ refused "could not run scheduler command"
  | some r ↦ value r
]

-- A command that failed or was not answered in time.
abbrev pub failed : CommandResult → Bool
failed r = failed_exit r || r.timed_out

-- SlurmBackend.terminal_states
abbrev pub slurm_terminal_states : List String
slurm_terminal_states =
    "completed" ∷ "failed" ∷ "cancelled" ∷ "timeout" ∷ "node_fail" ∷ "out_of_memory" ∷ "preempted"
    ∷ "boot_fail" ∷ "deadline" ∷ []

-- PBSBackend.terminal_states
abbrev pub pbs_terminal_states : List String
pbs_terminal_states = "completed" ∷ "failed" ∷ "cancelled" ∷ "finished" ∷ "expired" ∷ []

-- SlurmBackend._parse_status
unfoldable pub slurm_status : CommandResult → Checked String
slurm_status r =
    if failed r
    then refused ("Slurm status failed: " <> failure_detail r)
    else if is_empty_text (first_line r.stdout)
    then value "unobservable"
    else value (normalize_slurm_state (first_line r.stdout))

abbrev pub accounted : Option String → SchedulerObservation
accounted none =
    unseen "terminal_accounting" "known job was absent from squeue and had no exact sacct record"
accounted (some state) = seen slurm_terminal_states "terminal_accounting" state none

abbrev pub accounting : SchedulerJob → CommandResult → SchedulerObservation
accounting job r =
    if failed r
    then unseen "accounting_error"
        ("known job was absent from squeue and Slurm accounting failed: " <> failure_detail r)
    else accounted (parse_slurm_accounting_state r.stdout job.job_id)

unfoldable pub slurm_accounting :
    Machine → SchedulerJob → Option String → Checked SchedulerObservation
slurm_accounting m job none = value (
    unseen "accounting_unavailable"
      "known job was absent from squeue and Slurm accounting was unavailable")
slurm_accounting m job (some executable) = do
  r ← run m (
      executable ∷ "--noheader" ∷ "--parsable2" ∷ "--jobs" ∷ job.job_id ∷ "--user"
      ∷ job.submitting_identity ∷ "--format=JobIDRaw,State" ∷ [])
  value (accounting job r)

-- SlurmBackend._observe_job
unfoldable pub observe_slurm : Machine → SchedulerJob → String → Checked SchedulerObservation
observe_slurm m job executable = do
  active ← run m (
      executable ∷ "--noheader" ∷ "--jobs" ∷ job.job_id ∷ "--user" ∷ job.submitting_identity
      ∷ "--format=%T" ∷ [])
  state ← slurm_status active
  let queried = slurm_accounting m job (m.which "sacct")
  if state == "unobservable"
      then queried
      else value (seen slurm_terminal_states "active" state none)

-- The dictionary of PBSBackend._parse_status.
abbrev pub pbs_letter : String → String
pbs_letter letter =
    if letter == "Q"
    then "queued"
    else if letter == "H"
    then "held"
    else if letter == "R"
    then "running"
    else if letter == "E"
    then "exiting"
    else if letter == "F"
    then "finished"
    else if letter == "C"
    then "completed"
    else if letter == "S"
    then "suspended"
    else "unknown"

abbrev pbs_named : Option String → String
pbs_named none = "unknown"
pbs_named (some letter) = pbs_letter (upper letter)

-- PBSBackend._parse_status, on an answer.
unfoldable pub pbs_status : CommandResult → String
pbs_status r = pbs_named (pbs_job_state r.stdout)

-- `_pbs_job_is_unobservable`
unfoldable pub pbs_job_is_unobservable : CommandResult → Bool
pbs_job_is_unobservable r =
    let diagnostic = casefold (r.stderr <> ("\n" <> r.stdout)) in
    search unknown_job diagnostic || search job_absent diagnostic

unfoldable pub pbs_answer : CommandResult → Checked SchedulerObservation
pbs_answer r =
    let state = pbs_status r in
    if r.timed_out
    then refused ("PBS status failed: " <> failure_detail r)
    else if failed_exit r
    then (if pbs_job_is_unobservable r
        then value (unseen "active" "known job was no longer observable through exact-job qstat")
        else refused ("PBS status failed: " <> failure_detail r))
    else if is_empty_text (strip r.stdout)
    then value (unseen "active" "exact-job qstat returned no observable job")
    else if state == "unknown"
    then refused "PBS status did not contain a recognized job_state"
    else value (seen pbs_terminal_states "active" state none)

-- PBSBackend._observe_job
unfoldable pub observe_pbs : Machine → SchedulerJob → String → Checked SchedulerObservation
observe_pbs m job executable = do r ← run m (executable ∷ "-f" ∷ job.job_id ∷ []); pbs_answer r
