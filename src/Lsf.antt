-- ===== src/Lsf.antt =====
-- lsf.py: identity, states and history of one exact LSF job. A pattern of `re` is a function on
-- the text; `\b` counts the ASCII letters, digits and "_" as word characters.
pub mod Match
pub mod Laws
mod Tests
use project_bourne.Prelude.{
  ℕ, String, ◌<>◌, ◌==◌, nat_eq, string_eq, Bool, ◌&&◌, ◌||◌, not, Option, none, some, List, [],
  ◌∷◌, leb, contains, if◌then◌else◌,
}
use project_bourne.Prelude.Text.{
  is_digit, is_empty_text, any_char, all_chars, text_length, strip, upper, casefold, rows_of,
}
use project_bourne.Lsf.Match.{is_word, tags, search, job_not_found, no_job_found, not_in_job_list}

-- SAFE_LSF_JOB: `[0-9]+`
abbrev pub safe_lsf_job : String → Bool
safe_lsf_job s = not (is_empty_text s) && all_chars is_digit s

-- LSF_TERMINAL_STATES
abbrev pub lsf_terminal_states : List String
lsf_terminal_states =
    "completed" ∷ "failed" ∷ "post_processing_completed" ∷ "post_processing_failed" ∷ []

-- `_validate_identity`; `false` is a ValueError.
unfoldable pub validate_identity : String → String → Bool
validate_identity job_id identity =
    safe_lsf_job job_id
    && not (is_empty_text identity)
    && leb (text_length identity) 256
    && not (any_char (λ c. c == 0 || (c == b'\r' || c == b'\n')) identity)

-- `none` is the ValueError of `_validate_identity`.
unfoldable pub active_job_arguments : String → String → Option (List String)
active_job_arguments job_id identity =
    if validate_identity job_id identity
    then some ("-noheader" ∷ "-u" ∷ identity ∷ "-o" ∷ "jobid stat" ∷ job_id ∷ [])
    else none

unfoldable pub recent_job_arguments : String → String → Option (List String)
unfolding active_job_arguments
recent_job_arguments job_id identity = elim (active_job_arguments job_id identity) [
  | none ↦ none
  | some arguments ↦ some ("-a" ∷ arguments)
]

unfoldable pub historical_job_arguments : String → String → Option (List String)
historical_job_arguments job_id identity =
    if validate_identity job_id identity
    then some ("-l" ∷ "-n" ∷ "0" ∷ "-u" ∷ identity ∷ job_id ∷ [])
    else none

unfoldable pub only_row : List (List String) → String → Option (String × String)
only_row ((job ∷ state ∷ []) ∷ []) expected_job_id =
    if job == expected_job_id && safe_lsf_job job then some (job, upper state) else none
only_row _ expected_job_id = none

unfoldable pub parse_bjobs_job : String → String → Option (String × String)
unfolding only_row
parse_bjobs_job stdout expected_job_id =
    if safe_lsf_job expected_job_id then only_row (rows_of stdout) expected_job_id else none

unfoldable pub only_status : List (String × String) → String → Option (String × String)
only_status ((status, rest) ∷ []) expected_job_id = some (expected_job_id, upper status)
only_status _ expected_job_id = none

-- `[A-Za-z_]`
abbrev is_status_char : ℕ → Bool
is_status_char c = is_word c && not (is_digit c)

unfoldable pub status_in : List (String × String) → String → Option (String × String)
unfolding only_status
status_in ((job, body) ∷ []) expected_job_id =
    if job == expected_job_id
    then only_status (tags "Status" is_status_char body) expected_job_id
    else none
status_in _ expected_job_id = none

unfoldable pub parse_bhist_job : String → String → Option (String × String)
unfolding status_in
parse_bhist_job stdout expected_job_id =
    if safe_lsf_job expected_job_id
    then status_in (tags "Job" is_digit stdout) expected_job_id
    else none

-- The name of a state in capitals.
unfoldable pub state_name : String → String
state_name state =
    if contains ("PEND" ∷ "WAIT" ∷ "PROV" ∷ []) state
    then "pending"
    else if state == "RUN"
    then "running"
    else if contains ("PSUSP" ∷ "USUSP" ∷ "SSUSP" ∷ []) state
    then "suspended"
    else if state == "DONE"
    then "completed"
    else if state == "EXIT"
    then "failed"
    else if state == "POST_DONE"
    then "post_processing_completed"
    else if state == "POST_ERR"
    then "post_processing_failed"
    else if contains ("ZOMBI" ∷ "UNKWN" ∷ []) state
    then "scheduler_uncertain"
    else "unknown"

unfoldable pub normalize_lsf_state : String → String
unfolding state_name
normalize_lsf_state value = state_name (upper (strip value))

-- On the two streams of a command's result.
unfoldable pub lsf_job_is_unobservable : String → String → Bool
lsf_job_is_unobservable stderr stdout =
    let diagnostic = casefold (stderr <> ("\n" <> stdout)) in
    search job_not_found diagnostic
    || search no_job_found diagnostic
    || search not_in_job_list diagnostic
