-- ===== src/Lsf/Laws.antt =====
-- What the parsers and state names of lsf.py guarantee.
use project_bourne.Prelude.{
  String, ◌≡◌, inl, inr, true, some, List, [], ◌∷◌, ◌==◌, string_eq, eq_iff, Bool-cases, arith,
}
use project_bourne.Prelude.Text.{rows_of}
use project_bourne.Lsf.{safe_lsf_job, parse_bjobs_job, only_row}

only_row-exact :
    (rows : List (List String)) (job_id job state : String)
    → only_row rows job_id ≡ some (job, state)
    → (job ≡ job_id) × (safe_lsf_job job ≡ true)
unfolding only_row
only_row-exact [] job_id job state h = ground arith
only_row-exact (row ∷ other ∷ rest) job_id job state h = ground arith
only_row-exact ([] ∷ []) job_id job state h = ground arith
only_row-exact ((a ∷ []) ∷ []) job_id job state h = ground arith
only_row-exact ((a ∷ b ∷ c ∷ rest) ∷ []) job_id job state h = ground arith
only_row-exact ((a ∷ b ∷ []) ∷ []) job_id job state h = elim (Bool-cases (a == job_id)) [
  | inl same ↦ ground (arith, h, same, (eq_iff a job_id).0 same)
  | inr differ ↦ ground (arith, h, differ)
]

-- A parsed record of `bjobs` is of the job that was asked for, which is a number.
pub parse_bjobs_job-exact :
    (stdout job_id : String) (job state : String)
    → parse_bjobs_job stdout job_id ≡ some (job, state)
    → (job ≡ job_id) × (safe_lsf_job job ≡ true)
unfolding parse_bjobs_job only_row
parse_bjobs_job-exact stdout job_id job state h = elim (Bool-cases (safe_lsf_job job_id)) [
  | inl safe ↦ only_row-exact (rows_of stdout) job_id job state (ground (arith, h, safe))
  | inr bad ↦ ground (arith, h, bad)
]
