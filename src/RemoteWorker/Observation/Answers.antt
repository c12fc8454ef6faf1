-- ===== src/RemoteWorker/Observation/Answers.antt =====
-- What remote_worker.py reads out of one answer of a scheduler: `_lsf_observation`,
-- `_lsf_history_observation` and the last part of `_scheduler_observation`.
use Prim.Native.Char.{code}
use project_bourne.Prelude.{
  String, ◌==◌, nat_eq, string_eq, option_eq, Bool, true, false, ◌&&◌, ◌||◌, not, Option, none,
  some, contains, if◌then◌else◌,
}
use project_bourne.Prelude.Int.{pos, int_eq}
use project_bourne.Prelude.Text.{
  is_letter, is_space, is_empty_text, text_take, strip, strip_left, upper, casefold, after_prefix,
  first_line,
}
use project_bourne.Lsf.{lsf_terminal_states, parse_bjobs_job, parse_bhist_job, normalize_lsf_state}
use project_bourne.RemoteWorker.State.{Family, slurm}
use project_bourne.RemoteWorker.Effects.{CommandResult}

pub record Observation : Type 0 where
  pub state : String
  pub observable : Bool
  pub source : String
  pub terminal : Option Bool
  pub diagnostic : Option String
  pub raw_scheduler_state : Option String

-- `result.returncode != 0`, also for the `None` of a command that was not waited for.
abbrev pub failed_exit : CommandResult → Bool
failed_exit r = not (r.returncode == some (pos 0))

abbrev pub unobservable : String → Option Bool → Option String → Observation
unobservable source terminal diagnostic = record {
  state = "unobservable";
  observable = false;
  source = source;
  terminal = terminal;
  diagnostic = diagnostic;
  raw_scheduler_state = none;
}

abbrev pub or_text : String → String → String
or_text s fallback = if is_empty_text s then fallback else s

lsf_record : String → String → Option (String × String) → Observation
lsf_record source absent none = unobservable source (some false) (some absent)
lsf_record source absent (some (job, raw)) =
    let state = normalize_lsf_state raw in
    record {
      state = state;
      observable = true;
      source = source;
      terminal = some (contains lsf_terminal_states state);
      diagnostic = none;
      raw_scheduler_state = some raw;
    }

unfoldable pub lsf_observation : CommandResult → String → String → Observation
unfolding lsf_record
lsf_observation result job_id source =
    if result.timed_out || failed_exit result
    then unobservable source (some false)
        (some (text_take 4096 (or_text result.stderr "LSF query failed")))
    else lsf_record source "no unique exact LSF job record" (parse_bjobs_job result.stdout job_id)

unfoldable pub lsf_history_observation : CommandResult → String → Observation
unfolding lsf_record
lsf_history_observation result job_id =
    if result.timed_out || failed_exit result
    then unobservable "historical_accounting" (some false)
        (some (text_take 4096 (or_text result.stderr "exact-job bhist query failed")))
    else lsf_record "historical_accounting"
        "bhist output did not contain one unique exact job record"
        (parse_bhist_job result.stdout job_id)

-- `\s*$` with MULTILINE: white space up to a line feed or the end.
ends_line : String → Bool
ends_line String.[] = true
ends_line (String.◌∷◌ c s) = code c == b'\n' || is_space (code c) && ends_line s

job_state_value : String → Option String
job_state_value String.[] = none
job_state_value (String.◌∷◌ c s) =
    if is_letter (code c) && ends_line s then some (String.◌∷◌ c "") else none

after_literal : String → Option String → Option String
after_literal word none = none
after_literal word (some s) = after_prefix word (strip_left s)

after_equals : Option String → Option String
unfolding job_state_value
after_equals none = none
after_equals (some s) = job_state_value (strip_left s)

-- `^\s*job_state\s*=\s*([A-Za-z])\s*$` at the beginning of a line.
job_state_at : String → Option String
unfolding after_literal after_equals
job_state_at s = after_equals (after_literal "=" (after_literal "job_state" (some s)))

or_else : Option String → Option String → Option String
or_else none b = b
or_else (some a) b = some a

job_state_from : Bool → String → Option String
unfolding job_state_at or_else
job_state_from at_line String.[] = none
job_state_from at_line (String.◌∷◌ c s) =
    let rest = job_state_from (code c == b'\n') s in
    or_else (if at_line then job_state_at (String.◌∷◌ c s) else none) rest

-- The letter of the first `job_state = X` line.
unfoldable pub pbs_job_state : String → Option String
unfolding job_state_from ends_line
pbs_job_state stdout = job_state_from true stdout

-- The dictionary of `_scheduler_observation`.
pbs_state_name : String → String
pbs_state_name letter =
    let state = upper letter in
    if state == "Q"
    then "queued"
    else if state == "R"
    then "running"
    else if state == "F"
    then "finished"
    else if state == "C"
    then "completed"
    else "unknown"

observed : String → Bool → Observation
observed state observable = record {
  state = state;
  observable = observable;
  source = "active";
  terminal = none;
  diagnostic = none;
  raw_scheduler_state = none;
}

pbs_record : Option String → Observation
unfolding observed pbs_state_name
pbs_record none = observed "unknown" false
pbs_record (some letter) = observed (pbs_state_name letter) true

slurm_record : String → Observation
unfolding observed
slurm_record line =
    if is_empty_text line
    then observed "unobservable" false
    else observed (casefold (strip line)) true

-- The last part of `_scheduler_observation`, for Slurm and PBS.
unfoldable pub active_observation : Family → CommandResult → Observation
unfolding pbs_record slurm_record
active_observation family result =
    if result.timed_out || failed_exit result
    then unobservable "active" none (some (text_take 4096 result.stderr))
    else elim family [
      | slurm ↦ slurm_record (first_line result.stdout)
      | _ ↦ pbs_record (pbs_job_state result.stdout)
    ]
