-- ===== src/Requests/Laws/Intents.antt =====
-- A document is read back section by section.
use project_bourne.Prelude.{
  ℕ, ◌≡◌, refl, String, ◌==◌, nat_eq, string_eq, true, false, ◌||◌, List, all, contains,
}
use project_bourne.Prelude.Checks.{value}
use project_bourne.Json.{str, end, get, keys}
use project_bourne.Requests.Values.{
  lookup, optional_object, reject_unknown, bounded_string, string_list, bounded_text,
  validate_string_list,
}
use project_bourne.Requests.Document.{Sections, document}
use project_bourne.Requests.Laws.Texts.{string_list-texts, bounded_string-again}
use project_bourne.Requests.Laws.Sections.{lookup-other, lookup-same, known-optional}
use project_bourne.Requests.Laws.Written.{read_section}
use project_bourne.Requests.Parse.{
  Intent, root_fields, get_or, supported_version, parse_version, artifacts_of, resources_of,
  execution_of, parent_of, telemetry_of, checks_of, parse_artifacts, parse_resources,
  parse_execution, parse_parent, parse_telemetry, parse_checks, parse_intent,
}

module _ (version : ℕ) (command : List String) (working_directory : String) (s : Sections) where
  lookup-artifacts : lookup (document version command working_directory s) "artifacts" ≡ s.artifacts
  unfolding document
  lookup-artifacts = simp (lookup-other, lookup-same)

  lookup-resources : lookup (document version command working_directory s) "resources" ≡ s.resources
  unfolding document
  lookup-resources = simp (lookup-other, lookup-same)

  lookup-execution : lookup (document version command working_directory s) "execution" ≡ s.execution
  unfolding document
  lookup-execution = simp (lookup-other, lookup-same)

  lookup-provenance :
      lookup (document version command working_directory s) "provenance" ≡ s.provenance
  unfolding document
  lookup-provenance = simp (lookup-other, lookup-same)

  lookup-telemetry : lookup (document version command working_directory s) "telemetry" ≡ s.telemetry
  unfolding document
  lookup-telemetry = simp (lookup-other, lookup-same)

  lookup-verification :
      lookup (document version command working_directory s) "verification" ≡ s.verification
  unfolding document
  lookup-verification = simp (lookup-other, lookup-same)

  known-document :
      all (contains root_fields) (keys (document version command working_directory s)) ≡ true
  unfolding document
  known-document = known-optional root_fields "artifacts" s.artifacts _ refl (
      known-optional root_fields "resources" s.resources _ refl (
        known-optional root_fields "execution" s.execution _ refl (
          known-optional root_fields "provenance" s.provenance _ refl (
            known-optional root_fields "telemetry" s.telemetry _ refl
              (known-optional root_fields "verification" s.verification end refl refl)))))

  version-document :
      (version == 1 || version == 2) ≡ true
      → parse_version (document version command working_directory s) ≡ value version
  unfolding document parse_version supported_version
  version-document h = rw h refl

  command-document :
      validate_string_list "command" 4096 true command ≡ value tt
      → string_list "command" 4096 true
          (get (document version command working_directory s) "command")
        ≡ value command
  unfolding document
  command-document h = string_list-texts "command" "command" 4096 true command h

  working-document :
      bounded_text false "working directory" working_directory ≡ value tt
      → bounded_string "working directory"
          (get_or (document version command working_directory s) "working_directory" (str "."))
        ≡ value working_directory
  unfolding document
  working-document h =
      bounded_string-again "working directory" "working directory" working_directory h

-- Every section is read as what the intent has.
pub record Reads (s : Sections) (i : Intent) : Type 0 where
  pub artifacts : read_section "artifacts" s.artifacts artifacts_of ≡ value i.artifacts
  pub resources : read_section "resources" s.resources resources_of ≡ value i.resources
  pub execution : read_section "execution" s.execution (execution_of i.version) ≡ value i.execution
  pub provenance : read_section "provenance" s.provenance parent_of ≡ value i.parent
  pub telemetry : read_section "telemetry" s.telemetry telemetry_of ≡ value i.telemetry_mode
  pub verification : read_section "verification" s.verification checks_of ≡ value i.checks

-- A document whose sections are read as an intent is parsed as that intent.
pub parse_intent-document :
    (i : Intent) (s : Sections)
    → (i.version == 1 || i.version == 2) ≡ true
    → validate_string_list "command" 4096 true i.command ≡ value tt
    → bounded_text false "working directory" i.working_directory ≡ value tt
    → Reads s i
    → parse_intent (document i.version i.command i.working_directory s) ≡ value i
unfolding parse_intent reject_unknown optional_object parse_artifacts parse_resources
    parse_execution parse_parent parse_telemetry parse_checks
parse_intent-document i s hv hc hw reads =
    rw
      (
        known-document i.version i.command i.working_directory s,
        version_read,
        command_read,
        working_read,
        lookup-artifacts i.version i.command i.working_directory s,
        reads.artifacts,
        lookup-resources i.version i.command i.working_directory s,
        reads.resources,
        lookup-execution i.version i.command i.working_directory s,
        reads.execution,
        lookup-provenance i.version i.command i.working_directory s,
        reads.provenance,
        lookup-telemetry i.version i.command i.working_directory s,
        reads.telemetry,
        lookup-verification i.version i.command i.working_directory s,
        reads.verification,
      )
      refl
  where
    version_read :
        parse_version (document i.version i.command i.working_directory s) ≡ value i.version
    version_read = version-document i.version i.command i.working_directory s hv

    command_read :
        string_list "command" 4096 true
          (get (document i.version i.command i.working_directory s) "command")
        ≡ value i.command
    command_read = command-document i.version i.command i.working_directory s hc

    working_read :
        bounded_string "working directory" (
          get_or (document i.version i.command i.working_directory s) "working_directory" (str "."))
        ≡ value i.working_directory
    working_read = working-document i.version i.command i.working_directory s hw
