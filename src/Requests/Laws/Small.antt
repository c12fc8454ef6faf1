-- ===== src/Requests/Laws/Small.antt =====
-- The sections of a document, and the document, are within the bounds on a request's JSON.
use project_bourne.Prelude.{
  ℕ, ◌≤◌, ◌≡◌, refl, String, nat_eq, string_eq, Bool, true, false, Option, none, some, List, [],
  ◌∷◌, All, leb, length, if◌then◌else◌, arith,
}
use project_bourne.Prelude.Checks.{value}
use project_bourne.Json.{Json, str, obj, Fields, end, field, fields_length}
use project_bourne.Requests.Values.{
  bounded_text, validate_string_list, validate_json_bounds, validate_items, validate_fields,
}
use project_bourne.Requests.Models.{VerificationCheckSpec, check_optional_text}
use project_bourne.Requests.Document.{
  optional_field, check_items, verification_fields, Sections, document, unless_empty,
  parent_section,
}
use project_bourne.Requests.Laws.Texts.{bounded_text-any}
use project_bourne.Requests.Laws.Sections.{OfSome, length-optional, validate-optional}
use project_bourne.Requests.Laws.Checks.{Small}
use project_bourne.Requests.Laws.Bounds.{Bounded, obj-Bounded, texts-Bounded}
use project_bourne.Requests.Laws.Written.{items_length-check_items}

-- A section that is written is bounded.
abbrev pub SectionOk : Option Json → Type 0
SectionOk s = OfSome (Bounded 1) s

pub unless_empty-SectionOk : (f : Fields) → Bounded 1 (obj f) → SectionOk (unless_empty f)
unless_empty-SectionOk end h = tt
unless_empty-SectionOk (field k v rest) h = h

pub unless-SectionOk : (b : Bool) (v : Json) → Bounded 1 v → SectionOk (if b then none else some v)
unless-SectionOk true v h = tt
unless-SectionOk false v h = h

pub parent-SectionOk :
    (l : String) (parent : Option String)
    → check_optional_text l parent ≡ value tt
    → SectionOk (parent_section parent)
unfolding check_optional_text validate_json_bounds bounded_text
parent-SectionOk l none h = tt
parent-SectionOk l (some s) h = ground (arith, h)

pub mode-Bounded :
    (l mode : String)
    → bounded_text false l mode ≡ value tt
    → Bounded 1 (obj (field "mode" (str mode) end))
unfolding validate_json_bounds bounded_text
mode-Bounded l mode h = ground (arith, h)

check_items-Bounded :
    (checks : List VerificationCheckSpec)
    → All Small checks
    → validate_items 3 (check_items checks) ≡ value tt
unfolding validate_json_bounds
check_items-Bounded [] h = refl
check_items-Bounded (c ∷ rest) h = rw (h.0, check_items-Bounded rest h.1) refl

pub checks-Bounded :
    (checks : List VerificationCheckSpec)
    → leb (length checks) 2048 ≡ true
    → All Small checks
    → Bounded 1 (obj (verification_fields checks))
unfolding validate_json_bounds bounded_text
checks-Bounded checks p h =
    ground (arith, p, items_length-check_items checks, check_items-Bounded checks h)

-- Every section that is there is bounded.
pub record SectionsOk (s : Sections) : Type 0 where
  pub artifacts : SectionOk s.artifacts
  pub resources : SectionOk s.resources
  pub execution : SectionOk s.execution
  pub provenance : SectionOk s.provenance
  pub telemetry : SectionOk s.telemetry
  pub verification : SectionOk s.verification

pub document-Bounded :
    (version : ℕ) (command : List String) (working_directory : String) (s : Sections)
    → validate_string_list "command" 4096 true command ≡ value tt
    → bounded_text false "working directory" working_directory ≡ value tt
    → SectionsOk s
    → Bounded 0 (obj (document version command working_directory s))
unfolding document validate_json_bounds bounded_text
document-Bounded version command working_directory s hc hw ok =
    obj-Bounded 0 (document version command working_directory s) refl few each
  where
    few : fields_length (document version command working_directory s) ≤ 256
    few = omega (
      arith,
      length-optional "artifacts" s.artifacts _,
      length-optional "resources" s.resources _,
      length-optional "execution" s.execution _,
      length-optional "provenance" s.provenance _,
      length-optional "telemetry" s.telemetry _,
      length-optional "verification" s.verification end,
    )

    sections :
        validate_fields 1 (
          optional_field "artifacts" s.artifacts (
            optional_field "resources" s.resources (
              optional_field "execution" s.execution (
                optional_field "provenance" s.provenance (
                  optional_field "telemetry" s.telemetry
                    (optional_field "verification" s.verification end))))))
        ≡ value tt
    sections = validate-optional 1 "artifacts" s.artifacts _ refl ok.artifacts (
        validate-optional 1 "resources" s.resources _ refl ok.resources (
          validate-optional 1 "execution" s.execution _ refl ok.execution (
            validate-optional 1 "provenance" s.provenance _ refl ok.provenance (
              validate-optional 1 "telemetry" s.telemetry _ refl ok.telemetry (
                validate-optional 1 "verification" s.verification end refl ok.verification refl)))))

    each : validate_fields 1 (document version command working_directory s) ≡ value tt
    each =
        rw
          (
            texts-Bounded 1 "command" 4096 true command refl (omega arith) hc,
            bounded_text-any "working directory" "request string" true working_directory hw,
            sections,
          )
          refl
