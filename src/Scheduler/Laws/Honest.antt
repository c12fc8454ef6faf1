-- ===== src/Scheduler/Laws/Honest.antt =====
-- What Slurm and PBS are observed to say of a job is honest about its end.
use project_bourne.Prelude.{
  ◌≡◌, refl, ◌<>◌, inl, inr, String, ◌==◌, string_eq, ◌&&◌, Option, none, some, List, contains,
  Bool-cases, if◌then◌else◌,
}
use project_bourne.Prelude.Text.{is_empty_text, strip}
use project_bourne.Prelude.Checks.{value, Holds, Holds-bind, Holds-any}
use project_bourne.Lsf.{lsf_terminal_states}
use project_bourne.RemoteWorker.Effects.{CommandResult}
use project_bourne.RemoteWorker.State.{Family, slurm, pbs, lsf}
use project_bourne.RemoteWorker.Observation.{failed_exit}
use project_bourne.Scheduler.Observation.{
  SchedulerObservation, failure_detail, unseen, seen, parse_slurm_accounting_state,
}
use project_bourne.Scheduler.Families.{
  Machine, SchedulerJob, run, failed, slurm_terminal_states, pbs_terminal_states, slurm_status,
  slurm_accounting, observe_slurm, pbs_status, pbs_job_is_unobservable, pbs_answer, observe_pbs,
  accounting, accounted,
}

abbrev pub final_states : Family → List String
final_states slurm = slurm_terminal_states
final_states pbs = pbs_terminal_states
final_states lsf = lsf_terminal_states

-- An observation is of a job that is seen, and final exactly in the family's final states, or of
-- one that is not seen, and then says nothing of its end.
unfoldable pub IsHonest : Family → SchedulerObservation → Type 0
IsHonest family o = o.terminal ≡ (o.observable && contains (final_states family) o.state)

pub seen-IsHonest :
    (family : Family) (source state : String) (raw : Option String)
    → IsHonest family (seen (final_states family) source state raw)
unfolding IsHonest
seen-IsHonest family source state raw = refl

pub unseen-IsHonest :
    (family : Family) (source diagnostic : String) → IsHonest family (unseen source diagnostic)
unfolding IsHonest
unseen-IsHonest family source diagnostic = refl

accounted-IsHonest : (s : Option String) → IsHonest slurm (accounted s)
unfolding IsHonest
accounted-IsHonest none = refl
accounted-IsHonest (some state) = refl

accounting-IsHonest : (job : SchedulerJob) (r : CommandResult) → IsHonest slurm (accounting job r)
accounting-IsHonest job r = elim (Bool-cases (failed r)) [
  | inl h ↦ rw h (
      unseen-IsHonest slurm "accounting_error"
        ("known job was absent from squeue and Slurm accounting failed: " <> failure_detail r))
  | inr h ↦ rw h (accounted-IsHonest (parse_slurm_accounting_state r.stdout job.job_id))
]

slurm_accounting-IsHonest :
    (m : Machine) (job : SchedulerJob) (e : Option String)
    → Holds (IsHonest slurm) (slurm_accounting m job e)
unfolding slurm_accounting
slurm_accounting-IsHonest m job none =
    unseen-IsHonest slurm "accounting_unavailable"
      "known job was absent from squeue and Slurm accounting was unavailable"
slurm_accounting-IsHonest m job (some executable) =
    Holds-bind (λ _. Unit {0}) (IsHonest slurm) (run m _) _ (Holds-any _)
      λ r _. accounting-IsHonest job r

pub observe_slurm-IsHonest :
    (m : Machine) (job : SchedulerJob) (executable : String)
    → Holds (IsHonest slurm) (observe_slurm m job executable)
unfolding observe_slurm
observe_slurm-IsHonest m job executable =
    Holds-bind (λ _. Unit {0}) (IsHonest slurm) (run m _) _ (Holds-any _)
      λ r _.
        Holds-bind (λ _. Unit {0}) (IsHonest slurm) (slurm_status r) _ (Holds-any _)
          λ state _. of_state state
  where
    of_state :
        (state : String)
        → Holds (IsHonest slurm) (
            if state == "unobservable"
            then slurm_accounting m job (m.which "sacct")
            else value (seen slurm_terminal_states "active" state none))
    of_state state = elim (Bool-cases (state == "unobservable")) [
      | inl h ↦ rw h (slurm_accounting-IsHonest m job (m.which "sacct"))
      | inr h ↦ rw h (seen-IsHonest slurm "active" state none)
    ]

pbs_answer-IsHonest : (r : CommandResult) → Holds (IsHonest pbs) (pbs_answer r)
unfolding pbs_answer pbs_job_is_unobservable pbs_status
pbs_answer-IsHonest r = elim (Bool-cases r.timed_out) [
  | inl h ↦ rw h tt
  | inr h ↦ elim (Bool-cases (failed_exit r)) [
    | inl f ↦ elim (Bool-cases (pbs_job_is_unobservable r)) [
      | inl u ↦
          rw (h, f, u)
            (unseen-IsHonest pbs "active"
              "known job was no longer observable through exact-job qstat")
      | inr u ↦ rw (h, f, u) tt
    ]
    | inr f ↦ elim (Bool-cases (is_empty_text (strip r.stdout))) [
      | inl e ↦
          rw (h, f, e) (unseen-IsHonest pbs "active" "exact-job qstat returned no observable job")
      | inr e ↦ elim (Bool-cases (pbs_status r == "unknown")) [
        | inl u ↦ rw (h, f, e, u) tt
        | inr u ↦ rw (h, f, e, u) (seen-IsHonest pbs "active" (pbs_status r) none)
      ]
    ]
  ]
]

pub observe_pbs-IsHonest :
    (m : Machine) (job : SchedulerJob) (executable : String)
    → Holds (IsHonest pbs) (observe_pbs m job executable)
unfolding observe_pbs
observe_pbs-IsHonest m job executable =
    Holds-bind (λ _. Unit {0}) (IsHonest pbs) (run m _) _ (Holds-any _) λ r _. pbs_answer-IsHonest r
