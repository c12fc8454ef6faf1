-- ===== src/Requests/Laws/CommandLine.antt =====
-- The command line makes the request that a document makes.
use mathlib.Core.Path.{subst}
use project_bourne.Prelude.{ℕ, ◌≡◌, String, nat_eq, string_eq, true, [], leb}
use project_bourne.Prelude.Checks.{value, Holds-at}
use project_bourne.Json.{Json, obj}
use project_bourne.Requests.Values.{as_object, object_or_empty}
use project_bourne.Requests.Models.{ExecutionRequest}
use project_bourne.Requests.Document.{Sections, document, cli_sections, execution_request_from_cli}
use project_bourne.Requests.Laws.Bounds.{artifacts-Bounded, resources-Bounded, execution-Bounded}
use project_bourne.Requests.Laws.Resources.{resources_of-fields}
use project_bourne.Requests.Laws.Written.{
  read-parent, execution_of-fields, checks_of-fields, telemetry_of-mode,
}
use project_bourne.Requests.Laws.Parts.{artifacts_of-fields}
use project_bourne.Requests.Laws.Accepted.{Sound}
use project_bourne.Requests.Parse.{
  Host, Intent, request_of, parse_execution_request, max_request_bytes,
}
use project_bourne.Requests.Models.{check_source}
use project_bourne.Requests.Laws.Intents.{Reads}
use project_bourne.Requests.Models.{RequestSource}
use project_bourne.Requests.Laws.Small.{SectionsOk, parent-SectionOk, mode-Bounded, checks-Bounded}
use project_bourne.Requests.Laws.RoundTrip.{
  sound, Accepted, Made, parse-Made, parse-written, goods-Kept, goods-Small, known_mode,
}

-- The sections that the command line writes for an intent.
abbrev told : Intent → Sections
told i = cli_sections i.artifacts i.resources i.execution i.parent i.telemetry_mode i.checks

module _ (host : Host) (source : RequestSource) (i : Intent) (a : Accepted host source i) where
  made_soundly : Sound (request_of host source i)
  made_soundly = sound host source i a

  told-Ok : SectionsOk (told i)
  unfolding cli_sections request_of
  told-Ok = record {
    artifacts = artifacts-Bounded i.artifacts made_soundly.inputs made_soundly.outputs;
    resources = resources-Bounded i.resources;
    execution =
        execution-Bounded i.execution a.meant.constrained.target a.meant.constrained.context;
    provenance = parent-SectionOk "requested parent experiment" i.parent made_soundly.parent;
    telemetry =
        mode-Bounded "telemetry mode" i.telemetry_mode
          (known_mode i.telemetry_mode made_soundly.mode);
    verification = checks-Bounded i.checks made_soundly.count (goods-Small i.checks a.meant.checks);
  }

  told-Reads : Reads (told i) i
  unfolding cli_sections request_of object_or_empty as_object
  told-Reads = record {
    artifacts = artifacts_of-fields i.artifacts made_soundly.inputs made_soundly.outputs;
    resources = resources_of-fields i.resources a.meant.amounts;
    execution = execution_of-fields i.version i.execution a.meant.constrained;
    provenance = read-parent "requested parent experiment" i.parent made_soundly.parent;
    telemetry = telemetry_of-mode i.telemetry_mode (known_mode i.telemetry_mode made_soundly.mode);
    verification =
        checks_of-fields i.checks made_soundly.count (goods-Kept i.checks a.meant.checks);
  }

  parse-told :
      (size : ℕ)
      → i.version ≡ 2
      → i.working_directory ≡ "."
      → host.document_size (obj (document 2 i.command "." (told i))) ≡ value size
      → leb size max_request_bytes ≡ true
      → parse_execution_request host source (obj (document 2 i.command "." (told i)))
        ≡ value (request_of host source i)
  parse-told size hv hw p q =
      subst
        (λ v.
          host.document_size (obj (document v i.command "." (told i))) ≡ value size
          → parse_execution_request host source (obj (document v i.command "." (told i)))
            ≡ value (request_of host source i))
        hv
        (subst
          (λ w.
            host.document_size (obj (document i.version i.command w (told i))) ≡ value size
            → parse_execution_request host source (obj (document i.version i.command w (told i)))
              ≡ value (request_of host source i))
          hw (λ p'. parse-written host source i (told i) size a told-Ok told-Reads p' q))
        p

-- If a document of version 2 with the working directory "." is made into a request, the command
-- line with the same command, artifacts, resources, constraints, parent, telemetry mode and
-- checks, and a document within the size limit, makes the same request.
pub execution_request_from_cli-parsed :
    (host : Host) (kind : String) (source : RequestSource) (v : Json) (r : ExecutionRequest)
    (size : ℕ)
    → check_source (record { kind = kind; metadata = [] }) ≡ value source
    → parse_execution_request host source v ≡ value r
    → r.request_schema_version ≡ 2
    → r.working_directory ≡ "."
    → host.document_size (
        obj (
          document 2 r.command "." (
            cli_sections r.artifacts r.resources r.execution r.requested_parent_experiment
              r.telemetry_mode r.verification_checks)))
      ≡ value size
    → leb size max_request_bytes ≡ true
    → execution_request_from_cli host r.command r.artifacts r.resources r.execution
        r.requested_parent_experiment r.telemetry_mode r.verification_checks kind
      ≡ value r
unfolding Made execution_request_from_cli request_of
execution_request_from_cli-parsed host kind source v r size k h hv hw p q =
    let (i, same, a) =
      Holds-at (Made host source) (parse_execution_request host source v) r h
        (parse-Made host source v) in
    rw k (
      subst
        (λ r'.
          r'.request_schema_version ≡ 2
          → r'.working_directory ≡ "."
          → host.document_size (cli_document r') ≡ value size
          → parse_execution_request host source (cli_document r') ≡ value r')
        same (λ hv' hw' p'. again i a hv' hw' p') hv hw p)
  where
    cli_document : ExecutionRequest → Json
    cli_document r' = obj (
        document 2 r'.command "." (
          cli_sections r'.artifacts r'.resources r'.execution r'.requested_parent_experiment
            r'.telemetry_mode r'.verification_checks))

    again :
        (i : Intent)
        → Accepted host source i
        → i.version ≡ 2
        → i.working_directory ≡ "."
        → host.document_size (obj (document 2 i.command "." (told i))) ≡ value size
        → parse_execution_request host source (obj (document 2 i.command "." (told i)))
          ≡ value (request_of host source i)
    again i a hv' hw' p' = parse-told host source i a size hv' hw' p' q
