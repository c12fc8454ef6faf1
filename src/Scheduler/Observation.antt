-- ===== src/Scheduler/Observation.antt =====
-- SchedulerObservation of backends.py, and what is made of it and of the output of commands.
use Prim.Native.Char.{Char, code}
use project_bourne.Prelude.{
  suc, String, ◌<>◌, ◌==◌, nat_eq, string_eq, Bool, true, false, ◌||◌, not, Option, none, some,
  List, [], ◌∷◌, contains, if◌then◌else◌,
}
use project_bourne.Prelude.Int.{ℤ, pos, negsuc}
use project_bourne.Prelude.Text.{
  is_empty_text, is_line_break, text_take, strip, split_on, split_words, casefold, decimal,
}
use project_bourne.Json.{bool, str, Fields, end, field}
use project_bourne.Requests.Document.{optional_field, text}
use project_bourne.RemoteWorker.Effects.{CommandResult}

pub record SchedulerObservation : Type 0 where
  pub state : String
  pub source : String
  pub observable : Bool
  pub terminal : Bool
  pub diagnostic : Option String
  pub raw_state : Option String

-- `SchedulerObservation.details`
unfoldable pub details : SchedulerObservation → String → String → Fields
details o family job_id = field "scheduler_family" (str family) (
    field "scheduler_state" (str o.state) (
      field "job_id" (str job_id) (
        field "observation_source" (str o.source) (
          field "job_observable" (bool o.observable) (
            field "scheduler_terminal" (bool o.terminal) (
              optional_field "diagnostic" (text o.diagnostic)
                (optional_field "raw_scheduler_state" (text o.raw_state) end)))))))

-- A job that is not seen.
abbrev pub unseen : String → String → SchedulerObservation
unseen source diagnostic = record {
  state = "unobservable";
  source = source;
  observable = false;
  terminal = false;
  diagnostic = some (text_take 4096 diagnostic);
  raw_state = none;
}

-- A job that is seen in a state, which is final if it is in the list.
abbrev pub seen : List String → String → String → Option String → SchedulerObservation
seen terminal_states source state raw = record {
  state = state;
  source = source;
  observable = true;
  terminal = contains terminal_states state;
  diagnostic = none;
  raw_state = raw;
}

-- The dictionary of `_execution_state`.
abbrev pub running_state : String → String
running_state s =
    if s == "pending" || s == "queued" || s == "configuring"
    then "queued"
    else if s == "running" || s == "completing"
    then "running"
    else if s == "cancelled"
    then "cancelled"
    else "submitted"

-- By whether the job is not seen or uncertain, whether its state is final, and the state else.
abbrev pub state_by : Bool → Bool → String → String
state_by true terminal other = "scheduler_unobservable"
state_by false true other = "scheduler_terminal"
state_by false false other = other

abbrev pub uncertain_states : List String
uncertain_states = "unknown" ∷ "scheduler_uncertain" ∷ []

-- `_execution_state`
unfoldable pub execution_state : SchedulerObservation → String
execution_state o =
    state_by (not o.observable || contains uncertain_states o.state) o.terminal
      (running_state o.state)

-- `_scheduler_outcome`
unfoldable pub scheduler_outcome : String → String → String
scheduler_outcome state result_evidence =
    if state == "cancelled"
    then "scheduler_cancelled"
    else if state == "timeout"
    then "scheduler_timeout"
    else if state == "out_of_memory"
    then "out_of_memory"
    else if state == "node_fail"
    then "node_failure"
    else if result_evidence == "partial"
    then "result_bundle_partial"
    else "result_bundle_missing"

abbrev exit_text : Option ℤ → String
exit_text none = "exit None"
exit_text (some (pos n)) = "exit " <> decimal n
exit_text (some (negsuc n)) = "exit -" <> decimal (suc n)

abbrev or_text : String → String → String
or_text s fallback = if is_empty_text s then fallback else s

-- `_failure_detail`
unfoldable pub failure_detail : CommandResult → String
failure_detail r =
    if r.timed_out
    then "scheduler command timed out"
    else text_take 4096
        (or_text (strip r.stderr) (or_text (strip r.stdout) (exit_text r.returncode)))

abbrev without_plus : Char → String → String
without_plus c String.[] = if code c == b'+' then "" else String.◌∷◌ c ""
without_plus c (String.◌∷◌ d s) = String.◌∷◌ c (String.◌∷◌ d s)

-- `s.rstrip("+")`
abbrev pub strip_plus : String → String
strip_plus String.[] = ""
strip_plus (String.◌∷◌ c s) = without_plus c (strip_plus s)

-- `s.replace("-", "_")`
abbrev pub underscored : String → String
underscored String.[] = ""
underscored (String.◌∷◌ c s) =
    let rest = underscored s in if code c == b'-' then "_" <> rest else String.◌∷◌ c rest

abbrev pub first_word : List String → String
first_word [] = ""
first_word (w ∷ rest) = w

-- `_normalize_slurm_state`, on a text that is not blank.
unfoldable pub normalize_slurm_state : String → String
normalize_slurm_state s = casefold (underscored (strip_plus (first_word (split_words s))))

abbrev accounting_row : String → List String → Option (Option String)
accounting_row job_id (job ∷ state ∷ rest) =
    if strip job == job_id
    then some
        (if is_empty_text (strip state) then none else some (normalize_slurm_state (strip state)))
    else none
accounting_row job_id (job ∷ []) = none
accounting_row job_id [] = none

abbrev first_row : Option (Option String) → Option String → Option String
first_row none later = later
first_row (some state) later = state

abbrev accounting_lines : String → List String → Option String
accounting_lines job_id [] = none
accounting_lines job_id (line ∷ rest) =
    first_row (accounting_row job_id (split_on (λ c. c == b'|') line))
      (accounting_lines job_id rest)

-- `_parse_slurm_accounting_state`
unfoldable pub parse_slurm_accounting_state : String → String → Option String
parse_slurm_accounting_state stdout job_id = accounting_lines job_id (split_on is_line_break stdout)
