-- ===== src/Outcomes/Laws/Runs.antt =====
-- The aggregate state of a verification run.
use project_bourne.Prelude.{
  ℕ, suc, ◌≡◌, refl, sym, ◌∙◌, inl, inr, String, ◌==◌, string_eq, Bool, true, false, ◌&&◌, not,
  Option, List, [], ◌∷◌, contains, any, all, is_empty, Bool-cases, arith,
}
use project_bourne.Prelude.Checks.{value, Holds, Holds-bind, Holds-at}
use project_bourne.Requests.Models.{VerificationCheckSpec, ExecutionRequest}
use project_bourne.Outcomes.Models.{
  Artifact, Experiment, VerificationCheckResult, result_checks, VerificationRun,
}
use project_bourne.Outcomes.Verification.{
  evaluate_check, output_of, evaluate_checks, has_state, aggregate_of, aggregate,
  evaluate_verification,
}
use project_bourne.Outcomes.Laws.Records.{check_result-at, check_run-at}
use project_bourne.Outcomes.Laws.Verdicts.{meets, refutes, judge-passed, judge-failed}

-- The states that a result can have.
abbrev IsState : String → Type 0
IsState s = contains ("passed" ∷ "failed" ∷ "unknown" ∷ []) s ≡ true

-- A result of a check that says what the records say of it.
abbrev Judged : VerificationCheckSpec → Option Artifact → VerificationCheckResult → Type 0
Judged c o r =
    ((r.state == "passed") ≡ meets c o) × ((r.state == "failed") ≡ refutes c o) × IsState r.state

state_checked : (r : VerificationCheckResult) → result_checks r ≡ value tt → IsState r.state
unfolding result_checks
state_checked r h = ground (arith, h)

evaluate_check-Judged :
    (id run_id : String) (n : ℕ) (c : VerificationCheckSpec) (o : Option Artifact)
    → Holds (Judged c o) (evaluate_check id run_id n c o)
unfolding evaluate_check
evaluate_check-Judged id run_id n c o =
    check_result-at (Judged c o) _ λ h. (judge-passed c o, judge-failed c o, state_checked _ h)

-- The results of checks, counted by state.
record Counted (artifacts : List Artifact) (checks : List VerificationCheckSpec)
    (results : List VerificationCheckResult) : Type 0 where
  pub failed : has_state "failed" results ≡ any (λ c. refutes c (output_of artifacts c.path)) checks
  pub clean :
      (not (has_state "failed" results) && not (has_state "unknown" results))
      ≡ all (λ c. meets c (output_of artifacts c.path)) checks
  pub empty : is_empty results ≡ is_empty checks

settled : (s : String) → IsState s → (not (s == "failed") && not (s == "unknown")) ≡ (s == "passed")
settled s h = elim (Bool-cases (s == "passed")) [
  | inl p ↦ rw ((string_eq.is_equal_iff s "passed").0 p) refl
  | inr p ↦ elim (Bool-cases (s == "failed")) [
    | inl q ↦ rw ((string_eq.is_equal_iff s "failed").0 q) refl
    | inr q ↦ rw ((string_eq.is_equal_iff s "unknown").0 (ground (arith, h, p, q))) refl
  ]
]

no_states : (s : String) → has_state s [] ≡ false
unfolding has_state
no_states s = refl

module _ (artifacts : List Artifact) (c : VerificationCheckSpec) (rest : List VerificationCheckSpec)
    (r : VerificationCheckResult) (more : List VerificationCheckResult)
    (j : Judged c (output_of artifacts c.path) r) (k : Counted artifacts rest more) where
  failed_one :
      has_state "failed" (r ∷ more) ≡ any (λ c. refutes c (output_of artifacts c.path)) (c ∷ rest)
  unfolding has_state
  failed_one = rw (j.1, sym k.failed) refl

  clean_one :
      (not (has_state "failed" (r ∷ more)) && not (has_state "unknown" (r ∷ more)))
      ≡ all (λ c. meets c (output_of artifacts c.path)) (c ∷ rest)
  unfolding has_state
  clean_one = ground (arith, settled r.state j.2, j.0, k.clean)

evaluate_checks-Counted :
    (ids : ℕ → String) (run_id : String) (n : ℕ) (artifacts : List Artifact)
    (checks : List VerificationCheckSpec)
    → Holds (Counted artifacts checks) (evaluate_checks ids run_id n artifacts checks)
unfolding evaluate_checks
evaluate_checks-Counted ids run_id n artifacts [] = record {
  failed = none_failed;
  clean = none_open;
  empty = refl;
}
  where
    none_failed : has_state "failed" [] ≡ false
    none_failed = no_states "failed"

    none_open : (not (has_state "failed" []) && not (has_state "unknown" [])) ≡ true
    none_open = rw (no_states "failed", no_states "unknown") refl
evaluate_checks-Counted ids run_id n artifacts (c ∷ rest) =
    Holds-bind (Judged c (output_of artifacts c.path)) (Counted artifacts (c ∷ rest))
      (evaluate_check (ids (suc n)) run_id n c (output_of artifacts c.path)) _
      (evaluate_check-Judged (ids (suc n)) run_id n c (output_of artifacts c.path))
      λ r j.
        Holds-bind (Counted artifacts rest) (Counted artifacts (c ∷ rest))
          (evaluate_checks ids run_id (suc n) artifacts rest) _
          (evaluate_checks-Counted ids run_id (suc n) artifacts rest)
          λ more k. counted_one r more j k
  where
    counted_one :
        (r : VerificationCheckResult) (more : List VerificationCheckResult)
        → Judged c (output_of artifacts c.path) r
        → Counted artifacts rest more
        → Counted artifacts (c ∷ rest) (r ∷ more)
    counted_one r more j k = record {
      failed = failed_one artifacts c rest r more j k;
      clean = clean_one artifacts c rest r more j k;
      empty = refl;
    }

aggregated_passed : (e f u : Bool) → (aggregate_of e f u == "passed") ≡ (not e && (not f && not u))
aggregated_passed true f u = refl
aggregated_passed false true u = refl
aggregated_passed false false true = refl
aggregated_passed false false false = refl

aggregated_failed : (e f u : Bool) → (e ≡ true → f ≡ false) → (aggregate_of e f u == "failed") ≡ f
aggregated_failed true f u h = sym (h refl)
aggregated_failed false true u h = refl
aggregated_failed false false true h = refl
aggregated_failed false false false h = refl

-- What the aggregate state says.
module _ (artifacts : List Artifact) (checks : List VerificationCheckSpec)
    (results : List VerificationCheckResult) (k : Counted artifacts checks results) where
  aggregate-passed :
      (aggregate results == "passed")
      ≡ (not (is_empty checks) && all (λ c. meets c (output_of artifacts c.path)) checks)
  unfolding aggregate
  aggregate-passed =
      aggregated_passed (is_empty results) (has_state "failed" results)
        (has_state "unknown" results)
      ∙ rw (k.empty, k.clean) refl

  aggregate-failed :
      (aggregate results == "failed") ≡ any (λ c. refutes c (output_of artifacts c.path)) checks
  unfolding aggregate
  aggregate-failed =
      aggregated_failed (is_empty results) (has_state "failed" results)
        (has_state "unknown" results) (nothing results)
      ∙ k.failed
    where
      nothing :
          (rs : List VerificationCheckResult) → is_empty rs ≡ true → has_state "failed" rs ≡ false
      nothing [] h = no_states "failed"
      nothing (r ∷ rs) h = absurd (ground (arith, h))

-- What is said of a run.
abbrev Settled : List Artifact → List VerificationCheckSpec → VerificationRun → Type 0
Settled artifacts checks run =
    ((run.aggregate_state == "passed")
      ≡ (not (is_empty checks) && all (λ c. meets c (output_of artifacts c.path)) checks))
    × ((run.aggregate_state == "failed") ≡ any (λ c. refutes c (output_of artifacts c.path)) checks)

-- A verification run says "passed" exactly if there are checks and the first output record of
-- each check's path meets it, and "failed" exactly if such a record refutes a check; what meets
-- and what refutes a check is described on its own.
pub evaluate_verification-aggregate :
    (ids : ℕ → String) (request : ExecutionRequest) (execution_id : String)
    (experiment : Experiment) (artifacts : List Artifact) (run : VerificationRun)
    → evaluate_verification ids request execution_id experiment artifacts ≡ value run
    → ((run.aggregate_state == "passed") ≡ (
        not (is_empty request.verification_checks)
        && all (λ c. meets c (output_of artifacts c.path)) request.verification_checks))
      × ((run.aggregate_state == "failed")
          ≡ any (λ c. refutes c (output_of artifacts c.path)) request.verification_checks)
unfolding evaluate_verification
evaluate_verification-aggregate ids request execution_id experiment artifacts run h =
    Holds-at (Settled artifacts request.verification_checks)
      (evaluate_verification ids request execution_id experiment artifacts) run h
      (Holds-bind (Counted artifacts request.verification_checks)
        (Settled artifacts request.verification_checks)
        (evaluate_checks ids (ids 0) 0 artifacts request.verification_checks) _
        (evaluate_checks-Counted ids (ids 0) 0 artifacts request.verification_checks)
        λ results k. check_run-at (Settled artifacts request.verification_checks) _ λ _. (
          aggregate-passed artifacts request.verification_checks results k,
          aggregate-failed artifacts request.verification_checks results k,
        ))
