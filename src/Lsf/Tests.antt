-- ===== src/Lsf/Tests.antt =====
-- Runs of the parsers of lsf.py, and an instance of their theorem.
use project_bourne.Prelude.{◌≡◌, refl, true, some, String}
use project_bourne.Prelude.Text.{is_space, is_line_break, rows_of, split_words, upper_char}
use project_bourne.Lsf.{safe_lsf_job, parse_bjobs_job, only_row}
use project_bourne.Lsf.Laws.{parse_bjobs_job-exact}

parse_bjobs_job_run : parse_bjobs_job "  4711   RUN \n" "4711" ≡ some ("4711", "RUN")
unfolding parse_bjobs_job only_row is_space is_line_break rows_of split_words upper_char
parse_bjobs_job_run = refl

abbrev job : String
job = "4711"

parse_bjobs_job-exact_example : (job ≡ job) × (safe_lsf_job job ≡ true)
parse_bjobs_job-exact_example =
    parse_bjobs_job-exact "  4711   RUN \n" "4711" "4711" "RUN" parse_bjobs_job_run
