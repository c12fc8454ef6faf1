-- ===== src/Requests/Laws/Written.antt =====
-- Each section of a document that the program writes is read back as what was written.
use project_bourne.Prelude.{
  ℕ, eq_iff, ◌≡◌, refl, ap, inl, inr, String, ◌==◌, nat_eq, string_eq, true, false, not, ◌&&◌,
  Option, none, some, List, [], ◌∷◌, leb, length, suc, All, is_empty, contains, all, Bool-cases,
  if◌then◌else◌, arith,
}
use project_bourne.Prelude.Checks.{Checked, value, ◌>>=◌}
use project_bourne.Json.{Json, str, obj, Fields, end, field, keys, items_length}
use project_bourne.Resolver.Models.{
  direct, slurm, pbs, lsf, BackendChoice, auto, only, ExecutionConstraints,
}
use project_bourne.Requests.Values.{
  bounded_text, bounded_string, validate_string_list, object_or_empty, reject_unknown, as_object,
  lookup,
}
use project_bourne.Requests.Models.{RequestArtifacts, VerificationCheckSpec, check_optional_text}
use project_bourne.Requests.Parse.{
  artifacts_of, backend_choice, optional_string, is_lsf, execution_of, parent_of, telemetry_of,
  checks_of, check_list, parse_items, parse_check,
}
use project_bourne.Requests.Document.{
  text, artifact_fields, backend_name, execution_fields, check_fields, check_items,
  verification_fields, is_default, parent_section, telemetry_section,
}
use project_bourne.Requests.Laws.Texts.{bounded_string-again}
use project_bourne.Requests.Laws.Sections.{lookup-other, lookup-same, get-lookup, known-optional}
use project_bourne.Requests.Laws.Parts.{
  artifacts_of-fields, backend_choice-name, bounded-name, optional_string-text,
}

-- A section where it is written, read by `of`.
abbrev pub read_section {ℓ} : {A : Type ℓ} → String → Option Json → (Fields → Checked A) → Checked A
read_section key section of_fields = object_or_empty key section >>= of_fields

pub read-artifacts :
    (a : RequestArtifacts)
    → validate_string_list "input artifacts" 2048 false a.inputs ≡ value tt
    → validate_string_list "output artifacts" 2048 false a.outputs ≡ value tt
    → read_section "artifacts"
        (if is_empty a.inputs && is_empty a.outputs then none else some (obj (artifact_fields a)))
        artifacts_of
      ≡ value a
unfolding object_or_empty as_object artifacts_of reject_unknown
read-artifacts a hi ho = artifacts_split a.inputs a.outputs (artifacts_of-fields a hi ho)
  where
    artifacts_split :
        (xs ys : List String)
        → artifacts_of (artifact_fields (record { inputs = xs; outputs = ys }))
          ≡ value (record { inputs = xs; outputs = ys })
        → read_section "artifacts"
            (if is_empty xs && is_empty ys
              then none
              else some (obj (artifact_fields (record { inputs = xs; outputs = ys }))))
            artifacts_of
          ≡ value (record { inputs = xs; outputs = ys })
    artifacts_split [] [] h = h
    artifacts_split [] (y ∷ ys) h = h
    artifacts_split (x ∷ xs) ys h = h

module _ (e : ExecutionConstraints) where
  lookup-target : lookup (execution_fields e) "target" ≡ text e.target
  unfolding execution_fields
  lookup-target = simp (lookup-other, lookup-same)

  lookup-context : lookup (execution_fields e) "context" ≡ text e.context
  unfolding execution_fields
  lookup-context = simp (lookup-other, lookup-same)

  known-execution :
      all (contains ("backend" ∷ "target" ∷ "context" ∷ [])) (keys (execution_fields e)) ≡ true
  unfolding execution_fields
  known-execution =
      known-optional ("backend" ∷ "target" ∷ "context" ∷ []) "target" (text e.target) _ refl (
        known-optional ("backend" ∷ "target" ∷ "context" ∷ []) "context" (text e.context) _ refl
          refl)

  lookup-backend : lookup (execution_fields e) "backend" ≡ some (str (backend_name e.backend))
  unfolding execution_fields
  lookup-backend = refl

-- The texts of the constraints, and LSF with the version that knows it.
pub record Constrained (version : ℕ) (e : ExecutionConstraints) : Type 0 where
  pub target : check_optional_text "execution target" e.target ≡ value tt
  pub context : check_optional_text "execution context" e.context ≡ value tt
  pub family : not (version == 1 && is_lsf e.backend) ≡ true

pub execution_of-fields :
    (version : ℕ) (e : ExecutionConstraints)
    → Constrained version e
    → execution_of version (execution_fields e) ≡ value e
unfolding execution_of reject_unknown
execution_of-fields version e c =
    rw
      (
        known-execution e,
        lookup-backend e,
        bounded-name "execution backend" e.backend,
        get-lookup (execution_fields e) "target",
        get-lookup (execution_fields e) "context",
        lookup-target e,
        lookup-context e,
        optional_string-text _ "execution target" e.target c.target,
        optional_string-text _ "execution context" e.context c.context,
        backend_choice-name e.backend,
        c.family,
      )
      refl

default_execution :
    (version : ℕ)
    → execution_of version end ≡ value (record { backend = auto; target = none; context = none })
unfolding execution_of reject_unknown bounded_string bounded_text optional_string backend_choice
default_execution version = ground arith

pub read-execution :
    (version : ℕ) (e : ExecutionConstraints)
    → Constrained version e
    → read_section "execution"
        (if is_default e then none else some (obj (execution_fields e)))
        (execution_of version)
      ≡ value e
unfolding object_or_empty as_object
read-execution version e c = split e.backend e.target e.context (execution_of-fields version e c)
  where
    split :
        (b : BackendChoice) (t s : Option String)
        → execution_of version (execution_fields (record { backend = b; target = t; context = s }))
          ≡ value (record { backend = b; target = t; context = s })
        → read_section "execution"
            (if is_default (record { backend = b; target = t; context = s })
              then none
              else some (obj (execution_fields (record { backend = b; target = t; context = s }))))
            (execution_of version)
          ≡ value (record { backend = b; target = t; context = s })
    split auto none none h = default_execution version
    split auto none (some s) h = h
    split auto (some t) s h = h
    split (only direct) t s h = h
    split (only slurm) t s h = h
    split (only pbs) t s h = h
    split (only lsf) t s h = h

pub read-parent :
    (l : String) (parent : Option String)
    → check_optional_text l parent ≡ value tt
    → read_section "provenance" (parent_section parent) parent_of ≡ value parent
unfolding object_or_empty as_object parent_of reject_unknown
read-parent l none h = optional_string-text l "parent experiment" none h
read-parent l (some s) h = optional_string-text l "parent experiment" (some s) h

pub read-telemetry :
    (l mode : String)
    → bounded_text false l mode ≡ value tt
    → read_section "telemetry" (telemetry_section mode) telemetry_of ≡ value mode
unfolding object_or_empty as_object telemetry_of reject_unknown bounded_string bounded_text
read-telemetry l mode h = elim (Bool-cases (mode == "summary")) [
  | inl p ↦ rw (p, (eq_iff mode "summary").0 p) refl
  | inr p ↦ rw (p, bounded_string-again l "telemetry mode" mode h) refl
]

pub telemetry_of-mode :
    (mode : String)
    → bounded_text false "telemetry mode" mode ≡ value tt
    → telemetry_of (field "mode" (str mode) end) ≡ value mode
unfolding telemetry_of reject_unknown
telemetry_of-mode mode h = bounded_string-again "telemetry mode" "telemetry mode" mode h

-- A check that is read back as it was.
abbrev pub Kept : VerificationCheckSpec → Type 0
Kept c = parse_check (obj (check_fields c)) ≡ value c

parse_items-check_items :
    (checks : List VerificationCheckSpec)
    → All Kept checks
    → parse_items (check_items checks) ≡ value checks
unfolding parse_items
parse_items-check_items [] h = refl
parse_items-check_items (c ∷ rest) h = rw (h.0, parse_items-check_items rest h.1) refl

pub items_length-check_items :
    (checks : List VerificationCheckSpec) → items_length (check_items checks) ≡ length checks
items_length-check_items [] = refl
items_length-check_items (c ∷ rest) = ap suc (items_length-check_items rest)

pub checks_of-fields :
    (checks : List VerificationCheckSpec)
    → leb (length checks) 2048 ≡ true
    → All Kept checks
    → checks_of (verification_fields checks) ≡ value checks
unfolding checks_of reject_unknown check_list
checks_of-fields checks p h =
    rw (items_length-check_items checks, p, parse_items-check_items checks h) refl

pub read-checks :
    (checks : List VerificationCheckSpec)
    → leb (length checks) 2048 ≡ true
    → All Kept checks
    → read_section "verification"
        (if is_empty checks then none else some (obj (verification_fields checks)))
        checks_of
      ≡ value checks
unfolding object_or_empty as_object checks_of reject_unknown
read-checks [] p h = checks_of-fields [] p h
read-checks (c ∷ rest) p h = checks_of-fields (c ∷ rest) p h
