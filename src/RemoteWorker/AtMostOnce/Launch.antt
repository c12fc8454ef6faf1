-- ===== src/RemoteWorker/AtMostOnce/Launch.antt =====
-- The invariant along `_submit`.
use project_bourne.Prelude.{ℕ, ◌≡◌, ap, ◌∙◌, refl, true, false, String, Option, none, some, arith}
use project_bourne.Json.{Fields}
use project_bourne.RemoteWorker.Paths.{FilePath}
use project_bourne.RemoteWorker.State.{
  Family, slurm, pbs, lsf, Phase, prepared, submitting, ambiguous, submission_failed, submitted,
  cancelled, SubmissionState, Stored, Status, ok,
}
use project_bourne.RemoteWorker.Effects.{CommandResult, World, utc_now}
use project_bourne.RemoteWorker.Effects.Triple.{Triple-bind, Triple-before, Triple-if}
use project_bourne.RemoteWorker.Observation.{failed_exit, job_id_of}
use project_bourne.RemoteWorker.Operations.{
  reply, reply_with, state_file, save, save_and_reply, state_of,
}
use project_bourne.RemoteWorker.Operations.Submit.{
  submission_input, accepted_job, launch, launch_with, submit_checked, record_outcome, submit_from,
  submit,
}
use project_bourne.RemoteWorker.AtMostOnce.Actions.{
  safe_id, Known, Triple-state_of, Moves-save, Moves-save_and_reply,
}
use project_bourne.RemoteWorker.AtMostOnce.Rules.{
  Moves-file_at, Moves-require, is_prepared, may_launch, View, Safe, Holds, Moves, Moves-pure,
  Moves-utc_now, Moves-which, Moves-submit, Moves-staged_problem,
}

-- Nothing is launched yet while the phase is "prepared" ...
abbrev Start : FilePath → FilePath → View
Start p q o n = Safe o n × (p ≡ q → n ≡ 0)

-- ... nor when the state file says "submitting".
abbrev Marked : FilePath → FilePath → View
Marked p q o n = Safe o n × (p ≡ q → (may_launch o ≡ false) × (n ≡ 0))

module _ (p q : FilePath) where
  start_safe : (o : Option Stored) (n : ℕ) → Start p q o n → Safe o n
  start_safe o n h = h.0

  marked_safe : (o : Option Stored) (n : ℕ) → Marked p q o n → Safe o n
  marked_safe o n h = h.0

  Moves-record_outcome :
      (s : SubmissionState) (result : CommandResult) → Moves p Safe (record_outcome q s result) Safe
  unfolding record_outcome
  Moves-record_outcome s result =
      Triple-if result.timed_out _ _ (λ _. Moves-save_and_reply p q Status.ambiguous _ refl)
        λ _.
          Triple-if (failed_exit result) _ _ (λ _. Moves-save_and_reply p q Status.failed _ refl)
            λ _. accepted (job_id_of s.scheduler_family result.stdout)
    where
      accepted : (job : Option String) → Moves p Safe (accepted_job q s job) Safe
      accepted none = Moves-save_and_reply p q Status.ambiguous _ refl
      accepted (some job_id) =
          Triple-bind (λ _. Holds p Safe) utc_now _ (Moves-utc_now p Safe safe_id)
            λ now. Moves-save_and_reply p q ok _ refl

  Moves-input :
      (family : Family) (staging : FilePath)
      → Moves p (Marked p q) (submission_input family staging) (Marked p q)
  unfolding launch
  Moves-input slurm staging = Moves-pure p (Marked p q) marked_safe _
  Moves-input pbs staging = Moves-pure p (Marked p q) marked_safe _
  Moves-input lsf staging =
      Triple-bind (λ _. Holds p (Marked p q)) _ _ (Moves-file_at p (Marked p q) marked_safe _)
        λ file.
          Triple-bind (λ _. Holds p (Marked p q)) _ _ (Moves-require p (Marked p q) marked_safe _ _)
            λ text. Moves-pure p (Marked p q) marked_safe _

  Moves-launch :
      (s : SubmissionState) (executable : String) → Moves p (Start p q) (launch q s executable) Safe
  unfolding launch
  Moves-launch s executable =
      Triple-bind (λ _. Holds p (Marked p q)) (save q (record s { phase = submitting })) _
        (Moves-save p q (Start p q) (Marked p q) start_safe marked_safe
          (λ o n d h. (h.0, λ e. absurd (d e))) (record s { phase = submitting })
          (λ o n now e h. ((omega (arith, h.1 e), λ c. h.1 e), λ _. (refl, h.1 e))))
        λ s'.
          Triple-bind (λ _. Holds p (Marked p q)) _ _
            (Moves-input s'.scheduler_family s'.staging_directory)
            λ input.
              Triple-bind (λ _. Holds p Safe) _ _
                (Moves-submit p q (Marked p q) Safe marked_safe (λ o n d h. h.0) _ _ safe_id
                  (λ o n e h. (omega (arith, (h.1 e).1), λ c. cc ((h.1 e).0))))
                λ result. Moves-record_outcome s' result

  Moves-launch_with :
      (s : SubmissionState) (found : Option String)
      → Moves p (Start p q) (launch_with q s found) Safe
  unfolding launch_with
  Moves-launch_with s none =
      Triple-before (λ w h. h.0) (Moves-save_and_reply p q Status.unavailable _ refl)
  Moves-launch_with s (some executable) = Moves-launch s executable

  Moves-submit_checked :
      (s : SubmissionState) (problem : Option String)
      → Moves p (Start p q) (submit_checked q s problem) Safe
  unfolding submit_checked
  Moves-submit_checked s (some problem) =
      Triple-before (λ w h. h.0) (Moves-pure p Safe safe_id (reply_with Status.failed s problem))
  Moves-submit_checked s none =
      Triple-bind (λ _. Holds p (Start p q)) _ _ (Moves-which p (Start p q) start_safe _)
        (Moves-launch_with s)

  -- What the invariant says at a phase that was read.
  At : Phase → View
  At f o n = Safe o n × (p ≡ q → is_prepared f ≡ true → n ≡ 0)

  ambiguous_again :
      (s : SubmissionState)
      → Moves p Safe (save_and_reply q Status.ambiguous (record s { phase = ambiguous })) Safe
  ambiguous_again s = Moves-save_and_reply p q Status.ambiguous _ refl

  Moves-submit_from : (s : SubmissionState) (f : Phase) → Moves p (At f) (submit_from q s f) Safe
  unfolding submit_from At
  Moves-submit_from s submitted =
      Triple-before (λ w h. h.0) (Moves-pure p Safe safe_id (reply ok s))
  Moves-submit_from s submitting = Triple-before (λ w h. h.0) (ambiguous_again s)
  Moves-submit_from s ambiguous = Triple-before (λ w h. h.0) (ambiguous_again s)
  Moves-submit_from s submission_failed =
      Triple-before (λ w h. h.0) (Moves-pure p Safe safe_id (reply Status.failed s))
  Moves-submit_from s cancelled =
      Triple-before (λ w h. h.0) (Moves-pure p Safe safe_id (reply Status.failed s))
  Moves-submit_from s prepared =
      Triple-before (λ w h. (h.0, λ e. h.1 e refl))
        (Triple-bind (λ _. Holds p (Start p q)) _ _
          (Moves-staged_problem p (Start p q) start_safe s) (Moves-submit_checked s))

  Known-at : (s : SubmissionState) (w : World) → Known p q s w → Holds p (At s.phase) w
  unfolding At
  Known-at s w h = (
    h.0,
    λ e f.
        h.0.1
          (ap (λ (x : FilePath). may_launch (w.states (state_file x))) e ∙ ap may_launch h.1 ∙ f),
  )

pub Moves-submit_op : (p : FilePath) (payload : Fields) → Moves p Safe (submit payload) Safe
unfolding submit
Moves-submit_op p payload =
    Triple-bind (λ (q, s). Known p q s) (state_of payload) _ (Triple-state_of p payload)
      λ (q, s). Triple-before (Known-at p q s) (Moves-submit_from p q s s.phase)
