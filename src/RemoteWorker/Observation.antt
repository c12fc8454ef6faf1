-- ===== src/RemoteWorker/Observation.antt =====
-- `_scheduler_observation`, `_lsf_observation`, `_lsf_history_observation` and `_job_id` of
-- remote_worker.py.
mod Answers
unfoldable pub use Answers.*
use Prim.Native.Char.{code}
use project_bourne.Prelude.{
  ℕ, String, ◌==◌, nat_eq, string_eq, option_eq, Bool, true, false, ◌&&◌, ◌||◌, not, Option, none,
  some, List, [], ◌∷◌, contains, if◌then◌else◌,
}
use project_bourne.Prelude.Int.{pos, int_eq}
use project_bourne.Prelude.Text.{
  is_digit, is_letter, is_space, is_empty_text, all_chars, text_take, strip, strip_left, upper,
  casefold, span, after_prefix, split_words, first_line,
}
use project_bourne.Lsf.{
  safe_lsf_job, lsf_terminal_states, active_job_arguments, recent_job_arguments,
  historical_job_arguments, parse_bjobs_job, parse_bhist_job, normalize_lsf_state,
  lsf_job_is_unobservable,
}
use project_bourne.Lsf.Match.{tags}
use project_bourne.RemoteWorker.Paths.{FilePath}
use project_bourne.RemoteWorker.State.{Family, slurm, pbs, lsf, SubmissionState}
use project_bourne.RemoteWorker.Effects.{
  CommandResult, query, Exec, ◌>>=◌, pure, require, other_exception, which, run_command,
}

abbrev value_error : String
value_error = "ValueError"

-- The tests on the first LSF answer that end the observation.
unfoldable pub lsf_answer_is_final : CommandResult → String → Bool
lsf_answer_is_final result job_id =
    let active = lsf_observation result job_id "active" in
    active.observable
    || (result.timed_out
        || failed_exit result && not (lsf_job_is_unobservable result.stderr result.stdout))
    || not (failed_exit result) && not (is_empty_text (strip result.stdout))

unfoldable pub history : FilePath → String → String → Option String → Exec Observation
history staging job_id identity none = pure (
    unobservable "historical_accounting_unavailable" (some false)
      (some "known job was absent from active and recent-finished LSF views; bhist is unavailable"))
history staging job_id identity (some executable) = do
  arguments ← require (other_exception value_error) (historical_job_arguments job_id identity)
  historical ← run_command staging query (executable ∷ arguments) none
  pure (lsf_history_observation historical job_id)

unfoldable pub earlier_queries : FilePath → String → String → String → Exec Observation
unfolding history
earlier_queries staging executable job_id identity = do
  earlier ← require (other_exception value_error) (recent_job_arguments job_id identity)
  recent ← run_command staging query (executable ∷ earlier) none
  let seen = lsf_observation recent job_id "recent_finished"
  if seen.observable then pure seen else which "bhist" >>= history staging job_id identity

unfoldable pub lsf_queries : FilePath → String → String → String → Exec Observation
unfolding earlier_queries
lsf_queries staging executable job_id identity = do
  arguments ← require (other_exception value_error) (active_job_arguments job_id identity)
  result ← run_command staging query (executable ∷ arguments) none
  if lsf_answer_is_final result job_id
      then pure (lsf_observation result job_id "active")
      else earlier_queries staging executable job_id identity

unfoldable pub queries : SubmissionState → String → Family → String → Exec Observation
unfolding lsf_queries
queries s job_id slurm executable = do
  result ←
      run_command s.staging_directory query
        (executable ∷ "--noheader" ∷ "--jobs" ∷ job_id ∷ "--user" ∷ s.submitting_identity
          ∷ "--format=%T" ∷ [])
        none
  pure (active_observation slurm result)
queries s job_id pbs executable = do
  result ← run_command s.staging_directory query (executable ∷ "-f" ∷ job_id ∷ []) none
  pure (active_observation pbs result)
queries s job_id lsf executable =
    lsf_queries s.staging_directory executable job_id s.submitting_identity

unfoldable pub with_executable : SubmissionState → String → Option String → Exec Observation
unfolding queries
with_executable s job_id none = pure (unobservable "unavailable" none none)
with_executable s job_id (some executable) = queries s job_id s.scheduler_family executable

abbrev status_command : Family → String
status_command slurm = "squeue"
status_command pbs = "qstat"
status_command lsf = "bjobs"

-- `_scheduler_observation`
unfoldable pub scheduler_observation : SubmissionState → String → Exec Observation
unfolding with_executable
scheduler_observation s job_id =
    which (status_command s.scheduler_family) >>= with_executable s job_id

-- `[0-9]+(?:_[0-9]+)?`
slurm_job_rest : String → Bool
slurm_job_rest String.[] = true
slurm_job_rest (String.◌∷◌ c s) = code c == b'_' && (not (is_empty_text s) && all_chars is_digit s)

safe_slurm_job : String → Bool
unfolding slurm_job_rest
safe_slurm_job s =
    let (number, rest) = span is_digit s in not (is_empty_text number) && slurm_job_rest rest

abbrev is_alphanumeric : ℕ → Bool
is_alphanumeric c = is_letter c || is_digit c

-- `[A-Za-z0-9][A-Za-z0-9_.-]*`
safe_pbs_job : String → Bool
safe_pbs_job String.[] = false
safe_pbs_job (String.◌∷◌ c s) =
    is_alphanumeric (code c)
    && all_chars (λ d. is_alphanumeric d || (d == b'_' || (d == b'.' || d == b'-'))) s

abbrev first_word : List String → String
first_word [] = ""
first_word (w ∷ rest) = w

abbrev accepted_if : (String → Bool) → String → Option String
accepted_if p s = if p s then some s else none

only_job : List (String × String) → Option String
only_job ((job, rest) ∷ []) = accepted_if safe_lsf_job job
only_job _ = none

-- `_job_id`
unfoldable pub job_id_of : Family → String → Option String
unfolding safe_slurm_job safe_pbs_job only_job
job_id_of slurm stdout = accepted_if safe_slurm_job (span (λ c. not (c == b';')) (strip stdout)).0
job_id_of pbs stdout = accepted_if safe_pbs_job (first_word (split_words stdout))
job_id_of lsf stdout = only_job (tags "Job" is_digit stdout)
