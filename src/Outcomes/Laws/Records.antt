-- ===== src/Outcomes/Laws/Records.antt =====
-- A verification run that is recorded is read back as it was.
use project_bourne.Prelude.{String, Option, suc, ℕ, ◌≡◌, refl, List, [], ◌∷◌, string_eq, All}
use project_bourne.Prelude.Checks.{value, Holds, Holds-bind, Holds-self, Holds-at}
use project_bourne.Requests.Models.{VerificationCheckSpec, ExecutionRequest}
use project_bourne.Outcomes.Models.{
  Artifact, Experiment, VerificationCheckResult, result_checks, check_result, VerificationRun,
  run_checks, check_run,
}
use project_bourne.Outcomes.Verification.{
  evaluate_check, output_of, evaluate_checks, evaluate_verification,
}
use project_bourne.Outcomes.Persisted.{
  result_fields, result_to_dict, result_from_dict, result_items, run_to_dict, results_from,
  run_from_dict,
}

-- A result that its own check accepts.
abbrev Valid : VerificationCheckResult → Type 0
Valid r = check_result r ≡ value r

-- To show of a checked result what follows from its checks.
pub check_result-at {ℓ} :
    (P : VerificationCheckResult → Type ℓ) (r : VerificationCheckResult)
    → (result_checks r ≡ value tt → P r)
    → Holds P (check_result r)
unfolding check_result
check_result-at P r f =
    Holds-bind (λ _. result_checks r ≡ value tt) P (result_checks r) _
      (Holds-self (result_checks r)) λ _ h. f h

pub check_run-at {ℓ} :
    (P : VerificationRun → Type ℓ) (r : VerificationRun)
    → (run_checks r ≡ value tt → P r)
    → Holds P (check_run r)
unfolding check_run
check_run-at P r f =
    Holds-bind (λ _. run_checks r ≡ value tt) P (run_checks r) _ (Holds-self (run_checks r))
      λ _ h. f h

result-Valid : (r : VerificationCheckResult) → result_checks r ≡ value tt → Valid r
unfolding check_result
result-Valid r h = rw h refl

run_valid : (r : VerificationRun) → run_checks r ≡ value tt → check_run r ≡ value r
unfolding check_run
run_valid r h = rw h refl

evaluate_check-Valid :
    (id run_id : String) (n : ℕ) (c : VerificationCheckSpec) (o : Option Artifact)
    → Holds Valid (evaluate_check id run_id n c o)
unfolding evaluate_check
evaluate_check-Valid id run_id n c o = check_result-at Valid _ λ h. result-Valid _ h

evaluate_checks-Valid :
    (ids : ℕ → String) (run_id : String) (n : ℕ) (artifacts : List Artifact)
    (checks : List VerificationCheckSpec)
    → Holds (All Valid) (evaluate_checks ids run_id n artifacts checks)
unfolding evaluate_checks
evaluate_checks-Valid ids run_id n artifacts [] = tt
evaluate_checks-Valid ids run_id n artifacts (c ∷ rest) =
    Holds-bind Valid (All Valid)
      (evaluate_check (ids (suc n)) run_id n c (output_of artifacts c.path)) _
      (evaluate_check-Valid (ids (suc n)) run_id n c (output_of artifacts c.path))
      λ r h.
        Holds-bind (All Valid) (All Valid) (evaluate_checks ids run_id (suc n) artifacts rest) _
          (evaluate_checks-Valid ids run_id (suc n) artifacts rest) λ more k. (h, k)

result_from_dict-to_dict :
    (r : VerificationCheckResult) → Valid r → result_from_dict (result_to_dict r) ≡ value r
unfolding result_from_dict result_to_dict result_fields
result_from_dict-to_dict r h = h

results_from-items :
    (rs : List VerificationCheckResult) → All Valid rs → results_from (result_items rs) ≡ value rs
unfolding results_from
results_from-items [] h = refl
results_from-items (r ∷ rest) h =
    rw (result_from_dict-to_dict r h.0, results_from-items rest h.1) refl

run_from_dict-to_dict :
    (run : VerificationRun)
    → All Valid run.checks
    → check_run run ≡ value run
    → run_from_dict (run_to_dict run) ≡ value run
unfolding run_from_dict run_to_dict
run_from_dict-to_dict run hs h = rw (results_from-items run.checks hs) h

-- A verification run that was evaluated, written as a dict and read back, is the same run.
pub run_from_dict-evaluated :
    (ids : ℕ → String) (request : ExecutionRequest) (execution_id : String)
    (experiment : Experiment) (artifacts : List Artifact) (run : VerificationRun)
    → evaluate_verification ids request execution_id experiment artifacts ≡ value run
    → run_from_dict (run_to_dict run) ≡ value run
unfolding evaluate_verification
run_from_dict-evaluated ids request execution_id experiment artifacts run h =
    Holds-at (λ r. run_from_dict (run_to_dict r) ≡ value r)
      (evaluate_verification ids request execution_id experiment artifacts) run h
      (Holds-bind (All Valid) (λ r. run_from_dict (run_to_dict r) ≡ value r)
        (evaluate_checks ids (ids 0) 0 artifacts request.verification_checks) _
        (evaluate_checks-Valid ids (ids 0) 0 artifacts request.verification_checks)
        λ results hs.
          check_run-at (λ r. run_from_dict (run_to_dict r) ≡ value r) _
            λ k. run_from_dict-to_dict _ hs (run_valid _ k))
