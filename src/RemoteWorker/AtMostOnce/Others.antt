-- ===== src/RemoteWorker/AtMostOnce/Others.antt =====
-- The invariant along `_prepare`, `_reconcile` and `_cancel`, which launch no submission.
use project_bourne.Prelude.{refl, ◌||◌, String, Option, none, some, List, [], ◌∷◌}
use project_bourne.Json.{Fields}
use project_bourne.RemoteWorker.Paths.{FilePath}
use project_bourne.RemoteWorker.State.{
  Family, slurm, pbs, lsf, Phase, prepared, submitting, ambiguous, submission_failed, submitted,
  cancelled, SubmissionState, Status, ok,
}
use project_bourne.RemoteWorker.Effects.{
  query, cancellation, CommandResult, Exec, pure, ◌>>=◌, run_command,
}
use project_bourne.RemoteWorker.Effects.Triple.{Triple-bind, Triple-before, Triple-if}
use project_bourne.RemoteWorker.Observation.{
  failed_exit, scheduler_observation, history, earlier_queries, lsf_queries, queries,
  with_executable, lsf_observation, lsf_answer_is_final,
}
use project_bourne.RemoteWorker.Operations.{
  Reply, cancel_result, cancel_job, cancel_known, cancel, reconcile_unsubmitted, reconcile_job,
  reconcile, state_of,
}
use project_bourne.RemoteWorker.AtMostOnce.Actions.{
  safe_id, Known, Triple-state_of, Moves-save_and_reply,
}
use project_bourne.RemoteWorker.AtMostOnce.Rules.{
  Safe, Holds, Moves, Moves-pure, Moves-require, Moves-which, Moves-file_at, Moves-run_other,
}

module _ (p : FilePath) where
  abbrev pub Stays : {A : Type 0} → Exec A → Type 0
  Stays m = Moves p Safe m Safe

  pub Stays-pure : {A : Type 0} (a : A) → Stays (pure a)
  Stays-pure a = Moves-pure p Safe safe_id a

  pub Stays-bind :
      {A B : Type 0} {m : Exec A} {f : A → Exec B}
      → Stays m
      → ((a : A) → Stays (f a))
      → Stays (m >>= f)
  Stays-bind t k = Triple-bind (λ _. Holds p Safe) _ _ t k

  Stays-query : (owner : FilePath) (argv : List String) → Stays (run_command owner query argv none)
  Stays-query owner argv = Moves-run_other p Safe safe_id owner query argv none refl

  Moves-history :
      (staging : FilePath) (job_id identity : String) (found : Option String)
      → Stays (history staging job_id identity found)
  unfolding history
  Moves-history staging job_id identity none = Stays-pure _
  Moves-history staging job_id identity (some executable) =
      Stays-bind (Moves-require p Safe safe_id _ _)
        λ arguments. Stays-bind (Stays-query staging _) λ historical. Stays-pure _

  Moves-earlier_queries :
      (staging : FilePath) (executable job_id identity : String)
      → Stays (earlier_queries staging executable job_id identity)
  unfolding earlier_queries
  Moves-earlier_queries staging executable job_id identity =
      Stays-bind (Moves-require p Safe safe_id _ _) λ earlier.
        Stays-bind (Stays-query staging _) λ recent.
          Triple-if (lsf_observation recent job_id "recent_finished").observable _ _
            (λ _. Stays-pure _)
            λ _.
              Stays-bind (Moves-which p Safe safe_id "bhist")
                (Moves-history staging job_id identity)

  Moves-lsf_queries :
      (staging : FilePath) (executable job_id identity : String)
      → Stays (lsf_queries staging executable job_id identity)
  unfolding lsf_queries
  Moves-lsf_queries staging executable job_id identity =
      Stays-bind (Moves-require p Safe safe_id _ _) λ arguments.
        Stays-bind (Stays-query staging _) λ result.
          Triple-if (lsf_answer_is_final result job_id) _ _ (λ _. Stays-pure _)
            λ _. Moves-earlier_queries staging executable job_id identity

  Moves-queries :
      (s : SubmissionState) (job_id : String) (family : Family) (executable : String)
      → Stays (queries s job_id family executable)
  unfolding queries
  Moves-queries s job_id slurm executable =
      Stays-bind (Stays-query s.staging_directory _) λ result. Stays-pure _
  Moves-queries s job_id pbs executable =
      Stays-bind (Stays-query s.staging_directory _) λ result. Stays-pure _
  Moves-queries s job_id lsf executable =
      Moves-lsf_queries s.staging_directory executable job_id s.submitting_identity

  Moves-with_executable :
      (s : SubmissionState) (job_id : String) (found : Option String)
      → Stays (with_executable s job_id found)
  unfolding with_executable
  Moves-with_executable s job_id none = Stays-pure _
  Moves-with_executable s job_id (some executable) =
      Moves-queries s job_id s.scheduler_family executable

  Moves-scheduler_observation :
      (s : SubmissionState) (job_id : String) → Stays (scheduler_observation s job_id)
  unfolding scheduler_observation
  Moves-scheduler_observation s job_id =
      Stays-bind (Moves-which p Safe safe_id _) (Moves-with_executable s job_id)

  Moves-reconcile_unsubmitted :
      (q : FilePath) (s : SubmissionState) (f : Phase) → Stays (reconcile_unsubmitted q s f)
  unfolding reconcile_unsubmitted
  Moves-reconcile_unsubmitted q s submitting = Moves-save_and_reply p q Status.ambiguous _ refl
  Moves-reconcile_unsubmitted q s ambiguous = Moves-save_and_reply p q Status.ambiguous _ refl
  Moves-reconcile_unsubmitted q s prepared = Stays-pure _
  Moves-reconcile_unsubmitted q s submission_failed = Stays-pure _
  Moves-reconcile_unsubmitted q s submitted = Stays-pure _
  Moves-reconcile_unsubmitted q s cancelled = Stays-pure _

  Moves-reconcile_job :
      (q : FilePath) (s : SubmissionState) (job : Option String) → Stays (reconcile_job q s job)
  unfolding reconcile_job
  Moves-reconcile_job q s none = Moves-reconcile_unsubmitted q s s.phase
  Moves-reconcile_job q s (some job_id) =
      Stays-bind (Moves-scheduler_observation s job_id)
        λ observation. Stays-bind (Moves-file_at p Safe safe_id _) λ file. Stays-pure _

  Moves-cancel_result :
      (q : FilePath) (s : SubmissionState) (result : CommandResult)
      → Stays (cancel_result q s result)
  unfolding cancel_result
  Moves-cancel_result q s result =
      Triple-if (failed_exit result || result.timed_out) _ _ (λ _. Stays-pure _)
        λ _. Moves-save_and_reply p q ok _ refl

  Moves-cancel_job :
      (q : FilePath) (s : SubmissionState) (job_id : String) (found : Option String)
      → Stays (cancel_job q s job_id found)
  unfolding cancel_job
  Moves-cancel_job q s job_id none = Stays-pure _
  Moves-cancel_job q s job_id (some executable) =
      Stays-bind
        (Moves-run_other p Safe safe_id q cancellation (executable ∷ job_id ∷ []) none refl)
        (Moves-cancel_result q s)

  Moves-cancel_known :
      (q : FilePath) (s : SubmissionState) (job : Option String) → Stays (cancel_known q s job)
  unfolding cancel_known
  Moves-cancel_known q s none = Stays-pure _
  Moves-cancel_known q s (some job_id) =
      Stays-bind (Moves-which p Safe safe_id _) (Moves-cancel_job q s job_id)

  Stays-state_of :
      (payload : Fields) (f : FilePath × SubmissionState → Exec Reply)
      → ((a : FilePath × SubmissionState) → Stays (f a))
      → Stays (state_of payload >>= f)
  Stays-state_of payload f k =
      Triple-bind (λ (q, s). Known p q s) (state_of payload) f (Triple-state_of p payload)
        λ a. Triple-before (λ w h. h.0) (k a)

  pub Moves-reconcile_op : (payload : Fields) → Stays (reconcile payload)
  unfolding reconcile
  Moves-reconcile_op payload = Stays-state_of payload _ λ (q, s). Moves-reconcile_job q s s.job_id

  pub Moves-cancel_op : (payload : Fields) → Stays (cancel payload)
  unfolding cancel
  Moves-cancel_op payload = Stays-state_of payload _ λ (q, s). Moves-cancel_known q s s.job_id
