-- ===== src/Requests/Laws/Resources.antt =====
-- The resources that a document of the program asks for are read back as what was written.
use project_bourne.Prelude.{
  ◌≡◌, refl, String, nat_eq, string_eq, true, Option, List, [], ◌∷◌, contains, all,
}
use project_bourne.Prelude.Checks.{Checked, value, ◌>>=◌}
use project_bourne.Json.{Json, Fields, end, field, keys}
use project_bourne.Planning.Shape.{at_least_one}
use project_bourne.Resolver.Models.{ResourceRequirements}
use project_bourne.Requests.Values.{
  object_or_empty, reject_unknown, as_object, lookup, resource_integer,
}
use project_bourne.Requests.Parse.{resources_of}
use project_bourne.Requests.Document.{number, resource_fields, unless_empty}
use project_bourne.Requests.Laws.Sections.{lookup-other, lookup-same, known-optional}
use project_bourne.Requests.Laws.Parts.{amount-number, walltime-number, integer-number, integer-any}

-- A section where it is written, read by `of`.
abbrev pub read_section {ℓ} : {A : Type ℓ} → String → Option Json → (Fields → Checked A) → Checked A
read_section key section of_fields = object_or_empty key section >>= of_fields

abbrev resource_names : List String
resource_names = "cpus" ∷ "gpus" ∷ "nodes" ∷ "mpi_ranks" ∷ "memory" ∷ "walltime" ∷ []

module _ (r : ResourceRequirements) where
  lookup-cpus : lookup (resource_fields r) "cpus" ≡ number r.cpus
  unfolding resource_fields
  lookup-cpus = simp (lookup-other, lookup-same)

  lookup-gpus : lookup (resource_fields r) "gpus" ≡ number r.gpus
  unfolding resource_fields
  lookup-gpus = simp (lookup-other, lookup-same)

  lookup-nodes : lookup (resource_fields r) "nodes" ≡ number r.nodes
  unfolding resource_fields
  lookup-nodes = simp (lookup-other, lookup-same)

  lookup-ranks : lookup (resource_fields r) "mpi_ranks" ≡ number r.mpi_ranks
  unfolding resource_fields
  lookup-ranks = simp (lookup-other, lookup-same)

  lookup-memory : lookup (resource_fields r) "memory" ≡ number r.memory_bytes
  unfolding resource_fields
  lookup-memory = simp (lookup-other, lookup-same)

  lookup-walltime : lookup (resource_fields r) "walltime" ≡ number r.walltime_seconds
  unfolding resource_fields
  lookup-walltime = simp (lookup-other, lookup-same)

  known-resources : all (contains resource_names) (keys (resource_fields r)) ≡ true
  unfolding resource_fields
  known-resources = known-optional resource_names "cpus" (number r.cpus) _ refl (
      known-optional resource_names "gpus" (number r.gpus) _ refl (
        known-optional resource_names "nodes" (number r.nodes) _ refl (
          known-optional resource_names "mpi_ranks" (number r.mpi_ranks) _ refl (
            known-optional resource_names "memory" (number r.memory_bytes) _ refl
              (known-optional resource_names "walltime" (number r.walltime_seconds) _ refl refl)))))

-- The amounts that a request may ask for.
pub record Amounts (r : ResourceRequirements) : Type 0 where
  pub cpus : at_least_one r.cpus ≡ true
  pub nodes : at_least_one r.nodes ≡ true
  pub ranks : at_least_one r.mpi_ranks ≡ true
  pub memory : at_least_one r.memory_bytes ≡ true
  pub walltime : at_least_one r.walltime_seconds ≡ true

pub resources_of-fields :
    (r : ResourceRequirements) → Amounts r → resources_of (resource_fields r) ≡ value r
unfolding resources_of reject_unknown resource_integer
resources_of-fields r a =
    rw
      (
        known-resources r,
        lookup-cpus r,
        integer-number "cpus" r.cpus a.cpus,
        lookup-gpus r,
        integer-any "gpus" r.gpus,
        lookup-nodes r,
        integer-number "nodes" r.nodes a.nodes,
        lookup-ranks r,
        integer-number "mpi_ranks" r.mpi_ranks a.ranks,
        lookup-memory r,
        amount-number r.memory_bytes a.memory,
        lookup-walltime r,
        walltime-number r.walltime_seconds a.walltime,
      )
      refl

read-unless_empty : (key : String) (f : Fields) → object_or_empty key (unless_empty f) ≡ value f
unfolding object_or_empty as_object
read-unless_empty key end = refl
read-unless_empty key (field k v rest) = refl

pub read-resources :
    (r : ResourceRequirements)
    → Amounts r
    → read_section "resources" (unless_empty (resource_fields r)) resources_of ≡ value r
read-resources r a =
    rw (read-unless_empty "resources" (resource_fields r)) (resources_of-fields r a)
