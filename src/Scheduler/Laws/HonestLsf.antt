-- ===== src/Scheduler/Laws/HonestLsf.antt =====
-- So is what LSF is observed to say.
use project_bourne.Prelude.{inl, inr, String, string_eq, Option, none, some, ◌∷◌, Bool-cases}
use project_bourne.Prelude.Checks.{Checked, Holds, Holds-bind, Holds-any}
use project_bourne.Lsf.{
  active_job_arguments, recent_job_arguments, historical_job_arguments, parse_bjobs_job,
  parse_bhist_job, normalize_lsf_state,
}
use project_bourne.RemoteWorker.Effects.{CommandResult}
use project_bourne.RemoteWorker.State.{lsf}
use project_bourne.Scheduler.Observation.{SchedulerObservation}
use project_bourne.Scheduler.Families.{Machine, SchedulerJob, run, failed}
use project_bourne.Scheduler.LsfJob.{
  recorded, unseen_active, or_unseen, lsf_history, or_else_ask, lsf_recent, observe_lsf,
  arguments_of, observed_as, history_diagnostic,
}
use project_bourne.Scheduler.Laws.Honest.{IsHonest, seen-IsHonest, unseen-IsHonest}

-- What is asked of an observation that is there.
abbrev Recorded : Option SchedulerObservation → Type 0
Recorded none = Unit
Recorded (some o) = IsHonest lsf o

recorded-Recorded :
    (source : String) (parse : String → Option (String × String)) (r : CommandResult)
    → Recorded (recorded source parse r)
recorded-Recorded source parse r = elim (Bool-cases (failed r)) [
  | inl h ↦ rw h tt
  | inr h ↦ rw h (of_parsed (parse r.stdout))
]
  where
    of_parsed : (p : Option (String × String)) → Recorded (observed_as source p)
    of_parsed none = tt
    of_parsed (some (job, raw)) = seen-IsHonest lsf source (normalize_lsf_state raw) (some raw)

or_unseen-IsHonest :
    (source diagnostic : String) (o : Option SchedulerObservation)
    → Recorded o
    → IsHonest lsf (or_unseen source diagnostic o)
or_unseen-IsHonest source diagnostic none h = unseen-IsHonest lsf source diagnostic
or_unseen-IsHonest source diagnostic (some o) h = h

or_else_ask-IsHonest :
    (o : Option SchedulerObservation) (later : Checked SchedulerObservation)
    → Recorded o
    → Holds (IsHonest lsf) later
    → Holds (IsHonest lsf) (or_else_ask o later)
or_else_ask-IsHonest none later h k = k
or_else_ask-IsHonest (some o) later h k = h

lsf_history-IsHonest :
    (m : Machine) (job : SchedulerJob) (e : Option String)
    → Holds (IsHonest lsf) (lsf_history m job e)
unfolding lsf_history
lsf_history-IsHonest m job none =
    unseen-IsHonest lsf "historical_accounting_unavailable"
      "known job was absent from active and recent-finished LSF views; bhist is unavailable"
lsf_history-IsHonest m job (some executable) =
    Holds-bind (λ _. Unit {0}) (IsHonest lsf)
      (arguments_of (historical_job_arguments job.job_id job.submitting_identity)) _ (Holds-any _)
      λ arguments _.
        Holds-bind (λ _. Unit {0}) (IsHonest lsf) (run m (executable ∷ arguments)) _ (Holds-any _)
          λ r _.
            or_unseen-IsHonest "historical_accounting" (history_diagnostic r)
              (recorded "historical_accounting" (λ s. parse_bhist_job s job.job_id) r)
              (recorded-Recorded "historical_accounting" (λ s. parse_bhist_job s job.job_id) r)

lsf_recent-IsHonest :
    (m : Machine) (job : SchedulerJob) (executable : String)
    → Holds (IsHonest lsf) (lsf_recent m job executable)
unfolding lsf_recent
lsf_recent-IsHonest m job executable =
    Holds-bind (λ _. Unit {0}) (IsHonest lsf)
      (arguments_of (recent_job_arguments job.job_id job.submitting_identity)) _ (Holds-any _)
      λ arguments _.
        Holds-bind (λ _. Unit {0}) (IsHonest lsf) (run m (executable ∷ arguments)) _ (Holds-any _)
          λ r _.
            or_else_ask-IsHonest (recorded "recent_finished" (λ s. parse_bjobs_job s job.job_id) r)
              _ (recorded-Recorded "recent_finished" (λ s. parse_bjobs_job s job.job_id) r)
              (lsf_history-IsHonest m job (m.which "bhist"))

pub observe_lsf-IsHonest :
    (m : Machine) (job : SchedulerJob) (executable : String)
    → Holds (IsHonest lsf) (observe_lsf m job executable)
unfolding observe_lsf
observe_lsf-IsHonest m job executable =
    Holds-bind (λ _. Unit {0}) (IsHonest lsf)
      (arguments_of (active_job_arguments job.job_id job.submitting_identity)) _ (Holds-any _)
      λ arguments _.
        Holds-bind (λ _. Unit {0}) (IsHonest lsf) (run m (executable ∷ arguments)) _ (Holds-any _)
          λ r _.
            or_else_ask-IsHonest (recorded "active" (λ s. parse_bjobs_job s job.job_id) r) _
              (recorded-Recorded "active" (λ s. parse_bjobs_job s job.job_id) r)
              (Holds-bind (λ _. Unit {0}) (IsHonest lsf) (unseen_active r) _ (Holds-any _)
                λ _ _. lsf_recent-IsHonest m job executable)
