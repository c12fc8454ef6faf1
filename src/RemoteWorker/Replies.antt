-- ===== src/RemoteWorker/Replies.antt =====
-- Single submissions of remote_worker.py: what a reply tells of the state file, and what has been
-- verified before the scheduler's command is launched.
use project_bourne.Prelude.{◌≡◌, refl, String, Option, none, some, arith, list_beq_iff, string_eq}
use project_bourne.Json.{Fields}
use project_bourne.RemoteWorker.Paths.{FilePath}
use project_bourne.RemoteWorker.State.{
  Phase, prepared, submitting, ambiguous, submission_failed, submitted, cancelled, SubmissionState,
  PublicState, public_state, Stored, valid, unreadable, Status, ok,
}
use project_bourne.RemoteWorker.Effects.{
  CommandResult, World, Env, returned, pure, utc_now, write_state, submission, run_command, lift,
  state_at,
}
use project_bourne.RemoteWorker.Effects.Triple.{
  Ends, Triple, Triple-bind, Triple-before, Triple-if, Ends-map, Anything, anything, lifted,
}
use project_bourne.RemoteWorker.Observation.{failed_exit, job_id_of}
use project_bourne.RemoteWorker.Operations.{
  Reply, reply, reply_with, state_file, save, save_and_reply, state_of, read_state, checked,
}
use project_bourne.RemoteWorker.Operations.Submit.{
  staged_problem, submission_input, accepted_job, record_outcome, launch, launch_with,
  submit_checked, submit_from, submit,
}
use project_bourne.RemoteWorker.Requests.{staging_request}
use project_bourne.RemoteWorker.AtMostOnce.Writes.{temporary_name}

-- The phase, the job and the time of submission of a reply are those of the state file.
unfoldable pub Tells : Option Stored → PublicState → Type 0
Tells none r = ⊥
Tells (some unreadable) r = ⊥
Tells (some (valid s)) r =
    (r.phase ≡ s.phase) × (r.job_id ≡ s.job_id) × (r.submitted_at ≡ s.submitted_at)

abbrev pub Told : FilePath → Reply → World → Type 0
Told q r w = Tells (w.states (state_file q)) r.state

abbrev Keeps : FilePath → SubmissionState → World → Type 0
Keeps q s w = w.states (state_file q) ≡ some (valid s)

module _ (q : FilePath) where
  tells_saved :
      (st : Status) (s : SubmissionState)
      → Triple Anything (save_and_reply q st s) (Told q) Anything
  unfolding save_and_reply save write_state utc_now pure reply public_state Tells
  tells_saved st s = record {
    at = λ e w h. ground (arith, temporary_name e.pid, (list_beq_iff q q).1 refl);
  }

  tells_pure :
      (st : Status) (s : SubmissionState) → Triple (Keeps q s) (pure (reply st s)) (Told q) Anything
  unfolding pure reply public_state Tells
  tells_pure st s = record { at = λ e w h. ground (arith, h) }

  tells_pure_with :
      (st : Status) (s : SubmissionState) (d : String)
      → Triple (Keeps q s) (pure (reply_with st s d)) (Told q) Anything
  unfolding pure reply_with reply public_state Tells
  tells_pure_with st s d = record { at = λ e w h. ground (arith, h) }

  tells_accepted :
      (s : SubmissionState) (job : Option String)
      → Triple Anything (accepted_job q s job) (Told q) Anything
  unfolding accepted_job
  tells_accepted s none = tells_saved Status.ambiguous _
  tells_accepted s (some job_id) =
      Triple-bind (λ _. Anything) utc_now _ (anything utc_now) λ now. tells_saved ok _

  tells_outcome :
      (s : SubmissionState) (result : CommandResult)
      → Triple Anything (record_outcome q s result) (Told q) Anything
  unfolding record_outcome
  tells_outcome s result =
      Triple-if result.timed_out _ _ (λ _. tells_saved Status.ambiguous _)
        λ _.
          Triple-if (failed_exit result) _ _ (λ _. tells_saved Status.failed _)
            λ _. tells_accepted s (job_id_of s.scheduler_family result.stdout)

  tells_launch :
      (s : SubmissionState) (executable : String)
      → Triple Anything (launch q s executable) (Told q) Anything
  unfolding launch
  tells_launch s executable =
      Triple-bind (λ _. Anything) (save q (record s { phase = submitting })) _ (anything _)
        λ s'.
          Triple-bind (λ _. Anything) (submission_input s'.scheduler_family s'.staging_directory) _
            (anything _)
            λ input.
              Triple-bind (λ _. Anything) (run_command q submission _ input) _ (anything _)
                λ result. tells_outcome s' result

  tells_launch_with :
      (s : SubmissionState) (found : Option String)
      → Triple Anything (launch_with q s found) (Told q) Anything
  unfolding launch_with
  tells_launch_with s none = tells_saved Status.unavailable _
  tells_launch_with s (some executable) = tells_launch s executable

  tells_checked :
      (s : SubmissionState) (problem : Option String)
      → Triple (Keeps q s) (submit_checked q s problem) (Told q) Anything
  unfolding submit_checked
  tells_checked s (some problem) = tells_pure_with Status.failed s problem
  tells_checked s none =
      Triple-bind (λ _. Anything) _ _ (Triple-before (λ w h. tt) (anything _)) (tells_launch_with s)

  tells_staged :
      (s : SubmissionState) → Triple (Keeps q s) (staged_problem s) (λ _. Keeps q s) Anything
  unfolding staged_problem
  tells_staged s = record { at = λ e w h. h }

  tells_submit_from :
      (s : SubmissionState) (f : Phase) → Triple (Keeps q s) (submit_from q s f) (Told q) Anything
  unfolding submit_from
  tells_submit_from s submitted = tells_pure ok s
  tells_submit_from s submitting = Triple-before (λ w h. tt) (tells_saved Status.ambiguous _)
  tells_submit_from s ambiguous = Triple-before (λ w h. tt) (tells_saved Status.ambiguous _)
  tells_submit_from s submission_failed = tells_pure Status.failed s
  tells_submit_from s cancelled = tells_pure Status.failed s
  tells_submit_from s prepared = Triple-bind (λ _. Keeps q s) _ _ (tells_staged s) (tells_checked s)

reads :
    (q : FilePath) (execution_id : String)
    → Triple Anything (read_state (state_file q) execution_id) (Keeps q) Anything
unfolding read_state checked state_at lift
reads q execution_id = record { at = λ e w h. ground arith }

module _ (payload : Fields) where
  -- The directory that the payload names, and what is told of its state file.
  abbrev pub Reported : Reply → World → Type 0
  Reported r w =
      (execution_id : String) × (q : FilePath) × (staging_request payload
        ≡ returned (execution_id, q))
      × Told q r w

  -- The state that was read, of the directory that the payload names.
  Read : FilePath × SubmissionState → World → Type 0
  Read (q, s) w =
      (execution_id : String) × (staging_request payload ≡ returned (execution_id, q)) × Keeps q s w

  reads_state : Triple Anything (state_of payload) Read Anything
  unfolding state_of pure Read
  reads_state =
      Triple-bind (λ (i, q) _. staging_request payload ≡ returned (i, q))
        (lift (staging_request payload)) _ (lifted (staging_request payload))
        λ (execution_id, q). record {
          at = λ e w h.
              (Triple-bind (Keeps q) (read_state (state_file q) execution_id) _
                  (reads q execution_id) λ s. record { at = λ e w k. (execution_id, h, k) }).at
                e w tt;
        }

  -- If a submission returns a reply, its phase, job and time of submission are those that stand
  -- in the state file of the directory that the payload names.
  pub submit-Reported :
      (e : Env) (w : World)
      → Ends Reported (λ _. Unit) (submit payload e w).0 (submit payload e w).1
  unfolding submit Read
  submit-Reported e w =
      (Triple-bind Read (state_of payload) _ reads_state λ (q, s). record {
        at = λ e w (execution_id, h, k).
            Ends-map (Told q) Reported Anything Anything _ _ (λ r t. (execution_id, q, h, t))
              (λ u. u) ((tells_submit_from q s s.phase).at e w k);
      }).at
        e w tt
