-- ===== src/Requests/Laws/RoundTrip.antt =====
-- Documents that are written, parsed again.
use mathlib.Core.Path.{subst}
use project_bourne.Prelude.{
  ℕ, eq_iff, ◌≡◌, refl, inl, inr, String, ◌==◌, nat_eq, string_eq, true, false, List, [], ◌∷◌, All,
  leb, contains, Bool-cases, arith,
}
use project_bourne.Prelude.Checks.{value, Holds, Holds-bind, Holds-any, Holds-self, Holds-at}
use project_bourne.Json.{Json, str, obj, end, field}
use project_bourne.Requests.Values.{as_object, bounded_text}
use project_bourne.Requests.Models.{VerificationCheckSpec, ExecutionRequest}
use project_bourne.Requests.Document.{
  artifact_fields, resource_fields, execution_fields, verification_fields, Sections, document,
  request_sections, to_document,
}
use project_bourne.Requests.Laws.Checks.{Small, Good}
use project_bourne.Requests.Laws.Bounds.{
  Bounded, artifacts-Bounded, resources-Bounded, execution-Bounded,
}
use project_bourne.Requests.Laws.Resources.{read-resources}
use project_bourne.Requests.Laws.Written.{
  Kept, read-artifacts, read-execution, read-parent, read-telemetry, read-checks,
}
use project_bourne.Requests.Laws.Accepted.{Sound, request_checks-Sound}
use project_bourne.Requests.Parse.{
  Host, Intent, parse_intent, bounded_document, request_of, parse_execution_request,
  max_request_bytes,
}
use project_bourne.Requests.Models.{request_checks, check_request}
use project_bourne.Requests.Laws.Meant.{Meant, parse_intent-Meant}
use project_bourne.Requests.Laws.Intents.{Reads, parse_intent-document}
use project_bourne.Requests.Models.{RequestSource}
use project_bourne.Requests.Laws.Small.{
  SectionsOk, unless_empty-SectionOk, unless-SectionOk, parent-SectionOk, mode-Bounded,
  checks-Bounded, document-Bounded,
}

-- The request of an intent passes its own check, and the intent is one of a document.
pub record Accepted (host : Host) (source : RequestSource) (i : Intent) : Type 0 where
  pub sound : request_checks (request_of host source i) ≡ value tt
  pub meant : Meant i

-- A request that is made of such an intent.
unfoldable pub Made : Host → RequestSource → ExecutionRequest → Type 0
Made host source r = (i : Intent) × (request_of host source i ≡ r) × Accepted host source i

pub parse-Made :
    (host : Host) (source : RequestSource) (v : Json)
    → Holds (Made host source) (parse_execution_request host source v)
unfolding parse_execution_request Made check_request
parse-Made host source v =
    Holds-bind (λ _. Unit {0}) (Made host source) (bounded_document host v) _ (Holds-any _)
      λ _ _.
        Holds-bind (λ _. Unit {0}) (Made host source) (as_object "execution request" v) _
          (Holds-any _)
          λ root _.
            Holds-bind Meant (Made host source) (parse_intent root) _ (parse_intent-Meant root)
              λ i m.
                Holds-bind (λ _. request_checks (request_of host source i) ≡ value tt)
                  (Made host source) (request_checks (request_of host source i)) _
                  (Holds-self (request_checks (request_of host source i)))
                  λ _ h. (i, refl, record { sound = h; meant = m })

module _ (host : Host) (source : RequestSource) (i : Intent) (s : Sections) where
  written : Json
  written = obj (document i.version i.command i.working_directory s)

  written_in_bounds :
      (size : ℕ)
      → Bounded 0 written
      → host.document_size written ≡ value size
      → leb size max_request_bytes ≡ true
      → bounded_document host written ≡ value tt
  unfolding bounded_document
  written_in_bounds size h p q = rw (h, p, q) refl

  -- A bounded document whose sections are read as an intent is made into its request.
  pub parse-written :
      (size : ℕ)
      → Accepted host source i
      → SectionsOk s
      → Reads s i
      → host.document_size (obj (document i.version i.command i.working_directory s)) ≡ value size
      → leb size max_request_bytes ≡ true
      → parse_execution_request host source
          (obj (document i.version i.command i.working_directory s))
        ≡ value (request_of host source i)
  unfolding parse_execution_request as_object check_request request_of written
  parse-written size a ok reads p q =
      let sound = request_checks-Sound (request_of host source i) a.sound in
      rw
        (
          written_in_bounds size
              (document-Bounded i.version i.command i.working_directory s sound.command
                sound.working ok)
              p q,
          parse_intent-document i s sound.version sound.command sound.working reads,
          a.sound,
        )
        refl

pub goods-Kept : (checks : List VerificationCheckSpec) → All Good checks → All Kept checks
goods-Kept [] h = tt
goods-Kept (c ∷ rest) h = (h.0.0, goods-Kept rest h.1)

pub goods-Small : (checks : List VerificationCheckSpec) → All Good checks → All Small checks
goods-Small [] h = tt
goods-Small (c ∷ rest) h = (h.0.1, goods-Small rest h.1)

pub known_mode :
    (mode : String)
    → contains ("off" ∷ "summary" ∷ []) mode ≡ true
    → bounded_text false "telemetry mode" mode ≡ value tt
unfolding bounded_text
known_mode mode h = elim (Bool-cases (mode == "off")) [
  | inl p ↦ rw ((eq_iff mode "off").0 p) refl
  | inr p ↦ rw ((eq_iff mode "summary").0 (ground (arith, h, p))) refl
]

module _ (host : Host) (source : RequestSource) (i : Intent) (a : Accepted host source i) where
  pub sound : Sound (request_of host source i)
  sound = request_checks-Sound (request_of host source i) a.sound

  request_sections-Ok : SectionsOk (request_sections (request_of host source i))
  unfolding request_sections request_of
  request_sections-Ok = record {
    artifacts =
        unless-SectionOk _ (obj (artifact_fields i.artifacts))
          (artifacts-Bounded i.artifacts sound.inputs sound.outputs);
    resources =
        unless_empty-SectionOk (resource_fields i.resources) (resources-Bounded i.resources);
    execution =
        unless-SectionOk _ (obj (execution_fields i.execution))
          (execution-Bounded i.execution a.meant.constrained.target a.meant.constrained.context);
    provenance = parent-SectionOk "requested parent experiment" i.parent sound.parent;
    telemetry =
        unless-SectionOk _ (obj (field "mode" (str i.telemetry_mode) end))
          (mode-Bounded "telemetry mode" i.telemetry_mode (known_mode i.telemetry_mode sound.mode));
    verification =
        unless-SectionOk _ (obj (verification_fields i.checks))
          (checks-Bounded i.checks sound.count (goods-Small i.checks a.meant.checks));
  }

  request_sections-Reads : Reads (request_sections (request_of host source i)) i
  unfolding request_sections request_of
  request_sections-Reads = record {
    artifacts = read-artifacts i.artifacts sound.inputs sound.outputs;
    resources = read-resources i.resources a.meant.amounts;
    execution = read-execution i.version i.execution a.meant.constrained;
    provenance = read-parent "requested parent experiment" i.parent sound.parent;
    telemetry =
        read-telemetry "telemetry mode" i.telemetry_mode (known_mode i.telemetry_mode sound.mode);
    verification = read-checks i.checks sound.count (goods-Kept i.checks a.meant.checks);
  }

  to_document-again :
      (size : ℕ)
      → host.document_size (to_document (request_of host source i)) ≡ value size
      → leb size max_request_bytes ≡ true
      → parse_execution_request host source (to_document (request_of host source i))
        ≡ value (request_of host source i)
  unfolding to_document request_of
  to_document-again size p q =
      parse-written host source i (request_sections (request_of host source i)) size a
        request_sections-Ok request_sections-Reads p q

-- If a document is made into a request on a host, then the document of that request, if its
-- size is within the limit, is made into the same request on that host.
pub parse-to_document :
    (host : Host) (source : RequestSource) (v : Json) (r : ExecutionRequest) (size : ℕ)
    → parse_execution_request host source v ≡ value r
    → host.document_size (to_document r) ≡ value size
    → leb size max_request_bytes ≡ true
    → parse_execution_request host source (to_document r) ≡ value r
unfolding Made
parse-to_document host source v r size h p q =
    let (i, same, a) =
      Holds-at (Made host source) (parse_execution_request host source v) r h
        (parse-Made host source v) in
    again i same a
  where
    again :
        (i : Intent)
        → request_of host source i ≡ r
        → Accepted host source i
        → parse_execution_request host source (to_document r) ≡ value r
    again i same a =
        subst
          (λ r'.
            host.document_size (to_document r') ≡ value size
            → parse_execution_request host source (to_document r') ≡ value r')
          same (λ p'. to_document-again host source i a size p' q) p
