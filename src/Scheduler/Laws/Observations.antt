-- ===== src/Scheduler/Laws/Observations.antt =====
-- What every observation of a job says of its end.
use project_bourne.Prelude.{
  ◌≡◌, refl, ap, ◌∙◌, inl, inr, String, ◌==◌, string_eq, Bool, true, false, ◌&&◌, ◌||◌, not,
  contains, Bool-cases,
}
use project_bourne.Prelude.Checks.{value, Holds, Holds-bind, Holds-any, Holds-at}
use project_bourne.RemoteWorker.State.{Family, slurm, pbs, lsf}
use project_bourne.Scheduler.Observation.{
  SchedulerObservation, execution_state, state_by, uncertain_states, running_state,
}
use project_bourne.Scheduler.Families.{Machine, SchedulerJob}
use project_bourne.Scheduler.LsfJob.{observe_with, observe, located, status_command}
use project_bourne.Scheduler.Laws.Honest.{
  final_states, IsHonest, observe_slurm-IsHonest, observe_pbs-IsHonest,
}
use project_bourne.Scheduler.Laws.HonestLsf.{observe_lsf-IsHonest}

observe_with-IsHonest :
    (m : Machine) (job : SchedulerJob) (family : Family) (executable : String)
    → Holds (IsHonest family) (observe_with m job family executable)
observe_with-IsHonest m job slurm executable = observe_slurm-IsHonest m job executable
observe_with-IsHonest m job pbs executable = observe_pbs-IsHonest m job executable
observe_with-IsHonest m job lsf executable = observe_lsf-IsHonest m job executable

observe-IsHonest : (m : Machine) (job : SchedulerJob) → Holds (IsHonest job.family) (observe m job)
unfolding observe
observe-IsHonest m job =
    Holds-bind (λ _. Unit {0}) (IsHonest job.family)
      (located (m.which (status_command job.family)) (status_command job.family)) _ (Holds-any _)
      λ executable _. observe_with-IsHonest m job job.family executable

-- A state of a job that runs is not the name of the end.
runs_on : (s : String) → (running_state s == "scheduler_terminal") ≡ false
runs_on s = elim (Bool-cases (s == "pending" || s == "queued" || s == "configuring")) [
  | inl h ↦ rw h refl
  | inr h ↦ elim (Bool-cases (s == "running" || s == "completing")) [
    | inl k ↦ rw (h, k) refl
    | inr k ↦ elim (Bool-cases (s == "cancelled")) [
      | inl c ↦ rw (h, k, c) refl
      | inr c ↦ rw (h, k, c) refl
    ]
  ]
]

ends_by :
    (seen_now uncertain final : Bool) (other : String)
    → (other == "scheduler_terminal") ≡ false
    → (state_by (not seen_now || uncertain) (seen_now && final) other == "scheduler_terminal")
      ≡ (seen_now && (final && not uncertain))
ends_by false uncertain final other h = refl
ends_by true true true other h = refl
ends_by true true false other h = refl
ends_by true false true other h = refl
ends_by true false false other h = h

ends_honestly :
    (family : Family) (o : SchedulerObservation)
    → IsHonest family o
    → (execution_state o == "scheduler_terminal") ≡ (
        o.observable
        && (contains (final_states family) o.state && not (contains uncertain_states o.state)))
unfolding IsHonest execution_state
ends_honestly family o h =
    ap
      (λ t.
        state_by (not o.observable || contains uncertain_states o.state) t (running_state o.state)
        == "scheduler_terminal")
      h
    ∙ ends_by o.observable (contains uncertain_states o.state)
        (contains (final_states family) o.state) (running_state o.state) (runs_on o.state)

-- An observation that was made of a job by any of the three schedulers gives the execution the
-- state "scheduler_terminal" exactly if the job was seen, in a final state of its scheduler
-- that is not an uncertain one.
pub execution_state-observe :
    (m : Machine) (job : SchedulerJob) (o : SchedulerObservation)
    → observe m job ≡ value o
    → (execution_state o == "scheduler_terminal") ≡ (
        o.observable
        && (contains (final_states job.family) o.state && not (contains uncertain_states o.state)))
execution_state-observe m job o h =
    ends_honestly job.family o
      (Holds-at (IsHonest job.family) (observe m job) o h (observe-IsHonest m job))
