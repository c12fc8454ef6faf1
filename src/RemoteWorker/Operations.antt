-- ===== src/RemoteWorker/Operations.antt =====
-- `_prepare`, `_submit`, `_reconcile` (also `collect`) and `_cancel` of remote_worker.py.
pub mod Submit
use project_bourne.Prelude.{
  ℕ, ◌*◌, String, ◌<>◌, ◌==◌, string_eq, Bool, true, false, ◌&&◌, ◌||◌, not, Option, none, some,
  List, [], ◌∷◌, ltb, if◌then◌else◌,
}
use project_bourne.Prelude.Text.{text_take, is_empty_text}
use project_bourne.Json.{Json, Fields}
use project_bourne.RemoteWorker.Paths.{FilePath, parent}
use project_bourne.RemoteWorker.State.{
  Family, slurm, pbs, lsf, family_beq, Phase, prepared, submitting, ambiguous, submission_failed,
  submitted, cancelled, ExpectedFiles, expected_beq, Variant, variant_beq, SubmissionState,
  PublicState, public_state, Stored, valid, unreadable, Status, ok, failed, unavailable, unknown,
}
use project_bourne.RemoteWorker.Effects.{
  File, CommandResult, submission, cancellation, World, Exec, ◌>>=◌, ◌>>◌, pure, raise, lift,
  require, Error, remote_worker_error, other_exception, Outcome, utc_now, get_user, which, file_at,
  state_at, make_directories, make_new_directory, write_state, run_command,
}
use project_bourne.RemoteWorker.Requests.{PrepareRequest, prepare_request, staging_request}
use project_bourne.RemoteWorker.Observation.{
  Observation, failed_exit, scheduler_observation, job_id_of,
}

-- What an operation returns: the status and the fields of its data. A "diagnostic" of the
-- response stands over that of the state.
pub data ResultView : Type 0 where
  not_read invalid absent : ResultView
  available : Json → ResultView

pub record Reply : Type 0 where
  pub status : Status
  pub state : PublicState
  pub scheduler : Option Observation
  pub result : ResultView

unfoldable pub reply : Status → SubmissionState → Reply
unfolding public_state
reply status s = record {
  status = status;
  state = public_state s;
  scheduler = none;
  result = not_read;
}

unfoldable pub reply_with : Status → SubmissionState → String → Reply
unfolding reply
reply_with status s diagnostic = reply status (record s { diagnostic = some diagnostic })

abbrev pub state_file : FilePath → FilePath
state_file staging = "submission-state.json" ∷ staging

unfoldable pub checked : String → Option Stored → Outcome SubmissionState
checked execution_id (some (valid s)) =
    if s.execution_id == execution_id
    then Outcome.returned s
    else Outcome.raised (remote_worker_error "remote submission state does not match execution")
checked execution_id _ =
    Outcome.raised (remote_worker_error "remote submission state is unavailable")

-- `_read_state`
unfoldable pub read_state : FilePath → String → Exec SubmissionState
unfolding checked
read_state path execution_id = state_at path >>= λ found. lift (checked execution_id found)

-- `_state`
unfoldable pub state_of : Fields → Exec (FilePath × SubmissionState)
state_of payload = do
  (execution_id, staging) ← lift (staging_request payload)
  s ← read_state (state_file staging) execution_id
  pure (staging, s)

-- `state.update(state=..., updated_at=utc_now(), ...)` and `_write_state`, then the answer.
unfoldable pub save : FilePath → SubmissionState → Exec SubmissionState
save staging s = do
  now ← utc_now
  let s' = record s { updated_at = now }
  write_state (state_file staging) s'
  pure s'

unfoldable pub save_and_reply : FilePath → Status → SubmissionState → Exec Reply
save_and_reply staging status s = save staging s >>= λ s'. pure (reply status s')

abbrev pub mark : SubmissionState → Phase → String → SubmissionState
mark s phase diagnostic = record s { phase = phase; diagnostic = some diagnostic }

unfoldable pub make_variant_directory : Option (Variant × FilePath) → Exec (Unit {0})
make_variant_directory none = pure tt
make_variant_directory (some (variant, path)) = make_directories (parent path)

abbrev pub variant_part : Option (Variant × FilePath) → Option Variant
variant_part none = none
variant_part (some (variant, path)) = some variant

abbrev pub staging_of : PrepareRequest → FilePath
staging_of r = r.execution_id ∷ "executions" ∷ ".bourne" ∷ r.staging_root

-- Whether a second preparation asks for what the first one did.
abbrev pub same_request : PrepareRequest → SubmissionState → Bool
same_request r s =
    family_beq s.scheduler_family r.scheduler_family
    && expected_beq s.expected_files r.expected
    && variant_beq s.expected_variant (variant_part r.variant)

unfoldable pub prepare_again : PrepareRequest → SubmissionState → Exec Reply
prepare_again r s =
    if same_request r s
    then pure (reply ok s)
    else raise (remote_worker_error "retry content conflicts with immutable remote execution state")

-- The dictionary that the first preparation writes.
unfoldable pub initial_state : PrepareRequest → String → String → String → SubmissionState
initial_state r user created updated = record {
  execution_id = r.execution_id;
  phase = prepared;
  scheduler_family = r.scheduler_family;
  submitting_identity = user;
  staging_directory = staging_of r;
  expected_files = r.expected;
  expected_variant = variant_part r.variant;
  created_at = created;
  updated_at = updated;
  diagnostic = none;
  job_id = none;
  submitted_at = none;
}

unfoldable pub prepare_new : PrepareRequest → Exec Reply
unfolding initial_state
prepare_new r = do
  make_new_directory (staging_of r)
  user ← get_user
  created ← utc_now
  updated ← utc_now
  write_state (state_file (staging_of r)) (initial_state r user created updated)
  pure (reply ok (initial_state r user created updated))

unfoldable pub prepare_found : PrepareRequest → Option Stored → Exec Reply
unfolding prepare_again prepare_new
prepare_found r none = prepare_new r
prepare_found r (some found) =
    read_state (state_file (staging_of r)) r.execution_id >>= prepare_again r

-- `_prepare`
unfoldable pub prepare : Fields → Exec Reply
unfolding make_variant_directory prepare_found
prepare payload = do
  r ← lift (prepare_request payload)
  make_variant_directory r.variant
  found ← state_at (state_file (staging_of r))
  prepare_found r found

abbrev cancel_command : Family → String
cancel_command slurm = "scancel"
cancel_command pbs = "qdel"
cancel_command lsf = "bkill"

unfoldable pub cancel_result : FilePath → SubmissionState → CommandResult → Exec Reply
cancel_result staging s result =
    if failed_exit result || result.timed_out
    then pure (reply_with failed s (text_take 4096 result.stderr))
    else save_and_reply staging ok (record s { phase = cancelled })

unfoldable pub cancel_job : FilePath → SubmissionState → String → Option String → Exec Reply
unfolding cancel_result
cancel_job staging s job_id none =
    pure (reply_with unavailable s (cancel_command s.scheduler_family <> " unavailable"))
cancel_job staging s job_id (some executable) =
    run_command staging cancellation (executable ∷ job_id ∷ []) none >>= cancel_result staging s

unfoldable pub cancel_known : FilePath → SubmissionState → Option String → Exec Reply
unfolding cancel_job
cancel_known staging s none = pure (reply unknown s)
cancel_known staging s (some job_id) =
    which (cancel_command s.scheduler_family) >>= cancel_job staging s job_id

-- `_cancel`
unfoldable pub cancel : Fields → Exec Reply
unfolding cancel_known
cancel payload = state_of payload >>= λ (staging, s). cancel_known staging s s.job_id

-- MAX_RESULT_RETURN_BYTES
abbrev max_result_bytes : ℕ
max_result_bytes = 32 * 1024 * 1024

with_result : Status → ResultView → SubmissionState → Observation → Reply
with_result status view s observation = record (reply status s) {
  scheduler = some observation;
  result = view;
}

read_result : SubmissionState → Observation → File → Option Json → Reply
unfolding with_result
read_result s observation file none =
    with_result failed invalid (record s { diagnostic = some "result bundle is invalid" })
      observation
read_result s observation file (some value) = with_result ok (available value) s observation

unfoldable pub reconcile_result : SubmissionState → Observation → Option File → Reply
unfolding read_result
reconcile_result s observation (some file) =
    if ltb max_result_bytes file.size
    then with_result unavailable invalid
        (record s { diagnostic = some "result bundle exceeds remote return bound" }) observation
    else read_result s observation file file.parsed
reconcile_result s observation none =
    let uncertain = observation.state == "unknown" || observation.state == "scheduler_uncertain" in
    with_result (if not observation.observable || uncertain then unknown else ok) absent s
      observation

-- The branch on the phase of a state with no job identity.
unfoldable pub reconcile_unsubmitted : FilePath → SubmissionState → Phase → Exec Reply
reconcile_unsubmitted staging s submitting =
    save_and_reply staging Status.ambiguous (record s { phase = ambiguous })
reconcile_unsubmitted staging s ambiguous =
    save_and_reply staging Status.ambiguous (record s { phase = ambiguous })
reconcile_unsubmitted staging s _ = pure (reply unknown s)

unfoldable pub reconcile_job : FilePath → SubmissionState → Option String → Exec Reply
unfolding reconcile_unsubmitted reconcile_result
reconcile_job staging s none = reconcile_unsubmitted staging s s.phase
reconcile_job staging s (some job_id) = do
  observation ← scheduler_observation s job_id
  file ← file_at ("result.json" ∷ s.staging_directory)
  pure (reconcile_result s observation file)

-- `_reconcile`, which `collect` calls too. A job identity is never the empty text.
unfoldable pub reconcile : Fields → Exec Reply
unfolding reconcile_job
reconcile payload = state_of payload >>= λ (staging, s). reconcile_job staging s s.job_id
