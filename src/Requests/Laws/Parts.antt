-- ===== src/Requests/Laws/Parts.antt =====
-- Each part of a document that the program writes is read back as what was written.
use project_bourne.Prelude.{
  ℕ, ◌≡◌, refl, String, nat_eq, string_eq, true, false, Option, none, some, arith,
}
use project_bourne.Prelude.Checks.{value}
use project_bourne.Json.{str}
use project_bourne.Planning.Shape.{at_least_one}
use project_bourne.Resolver.Models.{direct, slurm, pbs, lsf, BackendChoice, auto, only}
use project_bourne.Requests.Values.{
  bounded_text, bounded_string, validate_string_list, reject_unknown, integer_item,
}
use project_bourne.Requests.Amounts.{parse_memory, parse_walltime}
use project_bourne.Requests.Models.{RequestArtifacts, check_optional_text}
use project_bourne.Requests.Parse.{artifacts_of, optional_amount, backend_choice, optional_string}
use project_bourne.Requests.Document.{number, text, artifact_fields, backend_name}
use project_bourne.Requests.Laws.Texts.{string_list-texts, bounded_string-again}
use project_bourne.Requests.Laws.Sections.{or_null}

pub artifacts_of-fields :
    (a : RequestArtifacts)
    → validate_string_list "input artifacts" 2048 false a.inputs ≡ value tt
    → validate_string_list "output artifacts" 2048 false a.outputs ≡ value tt
    → artifacts_of (artifact_fields a) ≡ value a
unfolding artifacts_of reject_unknown
artifacts_of-fields a hi ho =
    rw
      (
        string_list-texts _ "input artifacts" 2048 false a.inputs hi,
        string_list-texts _ "output artifacts" 2048 false a.outputs ho,
      )
      refl

pub amount-number :
    (n : Option ℕ) → at_least_one n ≡ true → optional_amount parse_memory (number n) ≡ value n
unfolding optional_amount parse_memory
amount-number none h = refl
amount-number (some n) h = ground (arith, h)

pub walltime-number :
    (n : Option ℕ) → at_least_one n ≡ true → optional_amount parse_walltime (number n) ≡ value n
unfolding optional_amount parse_walltime
walltime-number none h = refl
walltime-number (some n) h = ground (arith, h)

pub integer-number :
    (key : String) (n : Option ℕ) → at_least_one n ≡ true → integer_item key 1 (number n) ≡ value n
unfolding integer_item
integer-number key none h = refl
integer-number key (some n) h = ground (arith, h)

pub integer-any : (key : String) (n : Option ℕ) → integer_item key 0 (number n) ≡ value n
unfolding integer_item
integer-any key none = refl
integer-any key (some n) = ground arith

pub backend_choice-name : (b : BackendChoice) → backend_choice (backend_name b) ≡ value b
unfolding backend_choice
backend_choice-name auto = refl
backend_choice-name (only direct) = refl
backend_choice-name (only slurm) = refl
backend_choice-name (only pbs) = refl
backend_choice-name (only lsf) = refl

pub bounded-name :
    (l : String) (b : BackendChoice)
    → bounded_string l (str (backend_name b)) ≡ value (backend_name b)
unfolding bounded_string bounded_text
bounded-name l auto = refl
bounded-name l (only direct) = refl
bounded-name l (only slurm) = refl
bounded-name l (only pbs) = refl
bounded-name l (only lsf) = refl

pub optional_string-text :
    (l m : String) (t : Option String)
    → check_optional_text l t ≡ value tt
    → optional_string m (or_null (text t)) ≡ value t
unfolding optional_string check_optional_text
optional_string-text l m none h = refl
optional_string-text l m (some s) h = rw (bounded_string-again l m s h) refl
