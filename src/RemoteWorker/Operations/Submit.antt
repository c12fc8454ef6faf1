-- ===== src/RemoteWorker/Operations/Submit.antt =====
-- `_submit` of remote_worker.py: the state file says "submitting" before the scheduler's command
-- runs, and the outcome replaces it.
use project_bourne.Prelude.{
  String, ◌<>◌, ◌==◌, string_eq, Bool, not, Option, none, some, List, [], ◌∷◌, if◌then◌else◌,
}
use project_bourne.Prelude.Text.{text_take}
use project_bourne.Json.{Fields}
use project_bourne.RemoteWorker.Paths.{FilePath, parse_path, render}
use project_bourne.RemoteWorker.State.{
  Family, slurm, pbs, lsf, Phase, prepared, submitting, ambiguous, submission_failed, submitted,
  cancelled, ExpectedFiles, Variant, SubmissionState, Status, ok, failed, unavailable,
}
use project_bourne.RemoteWorker.Effects.{
  File, CommandResult, submission, World, Outcome, Exec, ◌>>=◌, pure, require, other_exception,
  utc_now, which, file_at, run_command,
}
use project_bourne.RemoteWorker.Observation.{failed_exit, job_id_of}
use project_bourne.RemoteWorker.Operations.{
  Reply, reply, reply_with, mark, state_of, save, save_and_reply,
}

-- `path.is_file() and sha256(path) == digest`
abbrev holds_digest : Option File → String → Bool
holds_digest none digest = Bool.false
holds_digest (some file) digest = file.sha256 == digest

-- The first staged file that is absent or changed; the names are in the order of the state file.
unfoldable pub changed_file : FilePath → ExpectedFiles → World → Option String
changed_file staging expected w =
    if not (holds_digest (w.files ("job.sh" ∷ staging)) expected.job)
    then some "job.sh is absent or changed"
    else if not (holds_digest (w.files ("plan.json" ∷ staging)) expected.plan)
    then some "plan.json is absent or changed"
    else if not (holds_digest (w.files ("worker.pyz" ∷ staging)) expected.worker)
    then some "worker.pyz is absent or changed"
    else none

unfoldable pub changed_variant : Option Variant → World → Option String
changed_variant none w = none
changed_variant (some variant) w =
    if holds_digest (w.files (parse_path variant.remote_path)) variant.sha256
    then none
    else some "workload variant is absent or changed"

abbrev pub first_of_two : Option String → Option String → Option String
first_of_two none b = b
first_of_two (some a) b = some a

-- The first staged content that is not what was prepared.
unfoldable pub staged_problem : SubmissionState → Exec (Option String)
unfolding changed_file changed_variant
staged_problem s e w = (
  Outcome.returned (
      first_of_two (changed_file s.staging_directory s.expected_files w)
        (changed_variant s.expected_variant w)),
  w,
)

abbrev submit_command : Family → String
submit_command slurm = "sbatch"
submit_command pbs = "qsub"
submit_command lsf = "bsub"

submit_argv : Family → String → FilePath → List String
submit_argv slurm executable staging = executable ∷ "--parsable" ∷ render ("job.sh" ∷ staging) ∷ []
submit_argv pbs executable staging = executable ∷ render ("job.sh" ∷ staging) ∷ []
submit_argv lsf executable staging = executable ∷ []

abbrev text_of : Option File → Option String
text_of none = none
text_of (some file) = some file.text

-- LSF reads the script from its standard input; a script that is gone is an OSError.
unfoldable pub submission_input : Family → FilePath → Exec (Option String)
submission_input slurm staging = pure none
submission_input pbs staging = pure none
submission_input lsf staging = do
  file ← file_at ("job.sh" ∷ staging)
  text ← require (other_exception "FileNotFoundError") (text_of file)
  pure (some text)

unfoldable pub accepted_job : FilePath → SubmissionState → Option String → Exec Reply
accepted_job staging s none =
    save_and_reply staging Status.ambiguous
      (mark s ambiguous "scheduler returned no valid job identity")
accepted_job staging s (some job_id) = do
  now ← utc_now
  save_and_reply staging ok
      (record s { phase = submitted; job_id = some job_id; submitted_at = some now })

-- What the scheduler's command answered.
unfoldable pub record_outcome : FilePath → SubmissionState → CommandResult → Exec Reply
unfolding accepted_job
record_outcome staging s result =
    if result.timed_out
    then save_and_reply staging Status.ambiguous (mark s ambiguous "scheduler submission timed out")
    else if failed_exit result
    then save_and_reply staging failed (mark s submission_failed (text_take 4096 result.stderr))
    else accepted_job staging s (job_id_of s.scheduler_family result.stdout)

-- From the write of "submitting" on.
unfoldable pub launch : FilePath → SubmissionState → String → Exec Reply
unfolding submit_argv submission_input record_outcome
launch staging s executable = do
  s' ← save staging (record s { phase = submitting })
  input ← submission_input s'.scheduler_family s'.staging_directory
  result ←
      run_command staging submission
        (submit_argv s'.scheduler_family executable s'.staging_directory) input
  record_outcome staging s' result

unfoldable pub launch_with : FilePath → SubmissionState → Option String → Exec Reply
unfolding launch
launch_with staging s none =
    save_and_reply staging unavailable
      (mark s submission_failed (submit_command s.scheduler_family <> " unavailable"))
launch_with staging s (some executable) = launch staging s executable

unfoldable pub submit_checked : FilePath → SubmissionState → Option String → Exec Reply
unfolding launch_with
submit_checked staging s (some problem) = pure (reply_with failed s problem)
submit_checked staging s none = which (submit_command s.scheduler_family) >>= launch_with staging s

-- The branch on the phase that the state file says.
unfoldable pub submit_from : FilePath → SubmissionState → Phase → Exec Reply
unfolding submit_checked
submit_from staging s submitted = pure (reply ok s)
submit_from staging s submitting =
    save_and_reply staging Status.ambiguous (record s { phase = ambiguous })
submit_from staging s ambiguous =
    save_and_reply staging Status.ambiguous (record s { phase = ambiguous })
submit_from staging s prepared = staged_problem s >>= submit_checked staging s
submit_from staging s submission_failed = pure (reply failed s)
submit_from staging s cancelled = pure (reply failed s)

-- `_submit`
unfoldable pub submit : Fields → Exec Reply
unfolding submit_from
submit payload = state_of payload >>= λ (staging, s). submit_from staging s s.phase
