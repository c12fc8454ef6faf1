-- ===== src/Scheduler/Laws/Cancellations.antt =====
-- What a cancellation that succeeds has established.
use project_bourne.Prelude.{
  ◌≡◌, refl, inl, inr, String, ◌==◌, string_eq, Bool, true, false, Option, none, some, List, [],
  ◌∷◌, Bool-cases, arith,
}
use project_bourne.Prelude.Checks.{Checked, value, refused, guard, guarded, Holds, Holds-bind}
use project_bourne.RemoteWorker.Effects.{CommandResult}
use project_bourne.RemoteWorker.State.{Family, slurm, pbs, lsf}
use project_bourne.Scheduler.Families.{Machine, SchedulerJob, failed}
use project_bourne.Scheduler.Cancellation.{
  CancelWrite, event_recorded, job_state_set, execution_state_set, job_of, known_job,
  on_cancel_answer, cancel_arguments, cancel_command, cancel_with, cancel_known, cancel,
}

-- The writes that record the end of the job.
abbrev pub is_cancelled : List CancelWrite → Bool
is_cancelled [] = false
is_cancelled (event_recorded kind ∷ rest) = is_cancelled rest
is_cancelled (job_state_set s ∷ rest) = is_cancelled rest
is_cancelled (execution_state_set s ∷ rest) = true

-- A command of a scheduler that cancels one job, and its arguments.
unfoldable pub Cancels : Family → SchedulerJob → String → List String → Type 0
Cancels slurm job command arguments =
    (command ≡ "scancel") × (arguments ≡ "--user" ∷ job.submitting_identity ∷ job.job_id ∷ [])
Cancels pbs job command arguments = (command ≡ "qdel") × (arguments ≡ job.job_id ∷ [])
Cancels lsf job command arguments = (command ≡ "bkill") × (arguments ≡ job.job_id ∷ [])

-- The job is the stored one of this backend and this user, and the cancel command for it succeeded.
pub record IsAuthorised (m : Machine) (family : Family) (backend name : String)
    (stored : Option SchedulerJob) (user : String) : Type 0 where
  pub job : SchedulerJob
  pub is_stored : stored ≡ some job
  pub same_backend : (backend == name) ≡ true
  pub same_user : (job.submitting_identity == user) ≡ true
  pub command : String
  pub arguments : List String
  pub cancels : Cancels family job command arguments
  pub executable : String
  pub is_found : m.which command ≡ some executable
  pub answer : CommandResult
  pub asked : m.answers (executable ∷ arguments) ≡ some answer
  pub succeeded : failed answer ≡ false

answered_well :
    (o : Option CommandResult)
    → is_cancelled (on_cancel_answer o).0 ≡ true
    → (r : CommandResult) × (o ≡ some r) × (failed r ≡ false)
unfolding on_cancel_answer
answered_well none h = absurd (ground (arith, h))
answered_well (some r) h = elim (Bool-cases (failed r)) [
  | inl f ↦ absurd (ground (arith, f, h))
  | inr f ↦ (r, refl, f)
]

-- What `known_job` has checked of the job that it returns.
abbrev Known : String → String → Option SchedulerJob → String → SchedulerJob → Type 0
Known backend name stored user job =
    ((backend == name) ≡ true) × (stored ≡ some job) × ((job.submitting_identity == user) ≡ true)

job_of-same : (stored : Option SchedulerJob) → Holds (λ job. stored ≡ some job) (job_of stored)
job_of-same none = tt
job_of-same (some job) = refl

known_job-Known :
    (backend name : String) (stored : Option SchedulerJob) (user : String)
    → Holds (Known backend name stored user) (known_job backend name stored user)
unfolding known_job
known_job-Known backend name stored user =
    Holds-bind (λ _. (backend == name) ≡ true) (Known backend name stored user)
      (guard (backend == name) _) _ (guarded (backend == name) _)
      λ _ b.
        Holds-bind (λ job. stored ≡ some job) (Known backend name stored user) (job_of stored) _
          (job_of-same stored)
          λ job s.
            Holds-bind (λ _. (job.submitting_identity == user) ≡ true)
              (Known backend name stored user) (guard (job.submitting_identity == user) _) _
              (guarded (job.submitting_identity == user) _) λ _ u. (b, s, u)

command-Cancels :
    (family : Family) (job : SchedulerJob)
    → Cancels family job (cancel_command family) (cancel_arguments family job)
unfolding Cancels
command-Cancels slurm job = (refl, refl)
command-Cancels pbs job = (refl, refl)
command-Cancels lsf job = (refl, refl)

module _ (m : Machine) (family : Family) (backend name : String) (stored : Option SchedulerJob)
    (user : String) where
  through_executable :
      (job : SchedulerJob) (o : Option String)
      → m.which (cancel_command family) ≡ o
      → Known backend name stored user job
      → is_cancelled (cancel_with m family job o).0 ≡ true
      → IsAuthorised m family backend name stored user
  through_executable job none e k h = absurd (ground (arith, h))
  through_executable job (some executable) e k h =
      let (answer, asked, succeeded) =
        answered_well (m.answers (executable ∷ cancel_arguments family job)) h in
      record {
        job = job;
        is_stored = k.1;
        same_backend = k.0;
        same_user = k.2;
        command = cancel_command family;
        arguments = cancel_arguments family job;
        cancels = command-Cancels family job;
        executable = executable;
        is_found = e;
        answer = answer;
        asked = asked;
        succeeded = succeeded;
      }

  cancel_known-IsAuthorised :
      (c : Checked SchedulerJob)
      → Holds (Known backend name stored user) c
      → is_cancelled (cancel_known m family c).0 ≡ true
      → IsAuthorised m family backend name stored user
  cancel_known-IsAuthorised (refused message) k h = absurd (ground (arith, h))
  cancel_known-IsAuthorised (value job) k h =
      through_executable job (m.which (cancel_command family)) refl k h

  -- An execution is recorded as cancelled only if its stored job is of the same backend, was
  -- submitted by the current identity, and the command found for `scancel` with the user and
  -- the job's id, for `qdel` with the id, or for `bkill` with the id, as the scheduler is
  -- Slurm, PBS or LSF, ended with exit status 0 in time.
  pub cancel-IsAuthorised :
      is_cancelled (cancel m family backend name stored user).0 ≡ true
      → IsAuthorised m family backend name stored user
  unfolding cancel
  cancel-IsAuthorised h =
      cancel_known-IsAuthorised (known_job backend name stored user)
        (known_job-Known backend name stored user) h
