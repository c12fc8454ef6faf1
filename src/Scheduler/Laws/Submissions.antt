-- ===== src/Scheduler/Laws/Submissions.antt =====
-- What an execution writes to the store follows the stages of a submission.
use project_bourne.Prelude.{
  ◌≡◌, refl, String, ◌<>◌, Bool, true, false, Option, none, some, List, [], ◌∷◌, if◌then◌else◌,
}
use project_bourne.Prelude.Checks.{Checked, value, refused}
use project_bourne.Resolver.Models.{InventorySnapshot, ExecutionPlan}
use project_bourne.Batch.Script.{ScriptPaths}
use project_bourne.RemoteWorker.Effects.{CommandResult}
use project_bourne.RemoteWorker.State.{Family}
use project_bourne.RemoteWorker.Observation.{failed_exit}
use project_bourne.Scheduler.Observation.{failure_detail}
use project_bourne.Scheduler.Submission.{
  Write, staging_set, state_set, job_saved, Ending, accepted_as, given_up, in_doubt, Execution,
  also, ParsedJob, exact, invalid, not_unique, parse_submission, record_failure, record_doubt,
  record_job, answered, run_answer, submit_command, family_name, launched, script_of, staged,
  execute,
}

-- How far a submission is.
pub data Stage : Type 0 where
  planned in_staging ready rejected doubtful : Stage
  saved_as : String → Stage
  submitted_as : String → Stage

-- The writes that lead from one stage to another.
pub data Advance : Stage → Write → Stage → Type 0 where
  stages : Advance planned staging_set in_staging
  prepares : Advance in_staging (state_set "prepared" none) ready
  rejects : (error : String) → Advance ready (state_set "failed" (some error)) rejected
  doubts : (error : String) → Advance ready (state_set "submission_ambiguous" (some error)) doubtful
  saves : (job_id : String) → Advance ready (job_saved job_id) (saved_as job_id)
  submits :
      (job_id : String)
      → Advance (saved_as job_id) (state_set "submitted" none) (submitted_as job_id)

pub data Course : Stage → List Write → Stage → Type 0 where
  halt : {s : Stage} → Course s [] s
  advance :
      {s t u : Stage} {w : Write} {rest : List Write}
      → Advance s w t
      → Course t rest u
      → Course s (w ∷ rest) u

-- Given up before anything was written, before the command ran, or with a recorded failure.
abbrev pub can_be_given_up : Stage → Bool
can_be_given_up planned = true
can_be_given_up in_staging = false
can_be_given_up ready = true
can_be_given_up rejected = true
can_be_given_up doubtful = false
can_be_given_up (saved_as job_id) = false
can_be_given_up (submitted_as job_id) = false

-- The stages that each way to end belongs to.
abbrev pub EndsAt : Ending → Stage → Type 0
EndsAt (accepted_as job_id) s = s ≡ submitted_as job_id
EndsAt (in_doubt message) s = s ≡ doubtful
EndsAt (given_up message) s = can_be_given_up s ≡ true

-- From a stage, the writes lead to one that the ending belongs to.
abbrev pub Reaches : Stage → Execution → Type 0
Reaches s (writes, ending) = (t : Stage) × Course s writes t × EndsAt ending t

failure-Reaches : (detail message : String) → Reaches ready (record_failure detail message)
failure-Reaches detail message = (rejected, advance (rejects detail) halt, refl)

doubt-Reaches : (detail : String) → Reaches ready (record_doubt detail)
doubt-Reaches detail = (doubtful, advance (doubts detail) halt, refl)

record_job-Reaches : (j : ParsedJob) → Reaches ready (record_job j)
unfolding record_job
record_job-Reaches (exact job_id) =
    (submitted_as job_id, advance (saves job_id) (advance (submits job_id) halt), refl)
record_job-Reaches (invalid message) = failure-Reaches message message
record_job-Reaches (not_unique message) = doubt-Reaches message

if-Reaches :
    (b : Bool) (s : Stage) (x y : Execution)
    → Reaches s x
    → Reaches s y
    → Reaches s (if b then x else y)
if-Reaches true s x y hx hy = hx
if-Reaches false s x y hx hy = hy

answered-Reaches : (family : Family) (r : CommandResult) → Reaches ready (answered family r)
unfolding answered
answered-Reaches family r =
    if-Reaches r.timed_out ready _ _
      (doubt-Reaches "scheduler submission timed out; acceptance is unknown")
      (if-Reaches (failed_exit r) ready _ _
        (failure-Reaches (failure_detail r)
          (family_name family <> (" submission failed: " <> failure_detail r)))
        (record_job-Reaches (parse_submission family r.stdout)))

run_answer-Reaches :
    (family : Family) (o : Option CommandResult) → Reaches ready (run_answer family o)
run_answer-Reaches family none = (ready, halt, refl)
run_answer-Reaches family (some r) = answered-Reaches family r

also-Reaches :
    (s t : Stage) (w : Write) (e : Execution) → Advance s w t → Reaches t e → Reaches s (also w e)
also-Reaches s t w (writes, ending) a (u, course, ends) = (u, advance a course, ends)

module _ (answers : List String → Option String → Option CommandResult)
    (which : String → Option String) (quote : String → String) (family : Family) where
  launched-Reaches :
      (path script : String) (o : Option String)
      → Reaches ready (launched answers which quote family path script o)
  launched-Reaches path script none =
      failure-Reaches (submit_command family <> " executable is unavailable")
        (submit_command family <> " executable is unavailable")
  launched-Reaches path script (some executable) = run_answer-Reaches family _

  staged-Reaches :
      (path : String) (c : Checked String)
      → Reaches planned (staged answers which quote family path c)
  staged-Reaches path (refused message) = (planned, halt, refl)
  staged-Reaches path (value script) = also-Reaches planned in_staging staging_set _ stages (
      also-Reaches in_staging ready (state_set "prepared" none) _ prepares
        (launched-Reaches path script (which (submit_command family))))

  -- What a submission to a scheduler writes to the store leads, for every plan and every answer
  -- of the machine, along the stages planned, in staging, ready, and rejected, doubtful, or
  -- saved and submitted; it returns a job exactly as submitted, raises AmbiguousSubmission only
  -- as doubtful, and another exception only as planned, ready or rejected.
  pub execute-Reaches :
      (plan : ExecutionPlan) (inventory : InventorySnapshot) (paths : ScriptPaths)
      (path execution_id : String)
      → Reaches planned (execute answers which quote family plan inventory paths path execution_id)
  unfolding execute
  execute-Reaches plan inventory paths path execution_id =
      staged-Reaches path (script_of answers which quote family plan inventory paths execution_id)
