-- ===== src/Resolver/Laws/Offers.antt =====
-- What holds of every candidate that `_candidates` of resolver.py offers.
use project_bourne.Prelude.{
  String, ◌≡◌, ap, ◌∙◌, ◌≢◌, ◌⊎◌, inl, inr, true, Option, none, some, List, [], ◌∷◌, map, All,
  All-append, All-map, Bool-cases, Option-cases, if◌then◌else◌, string_eq, option_eq, arith,
}
use project_bourne.Resolver.Models.{
  Backend, direct, compatible, WorkloadSpec, DiscoveredTarget, SchedulerResource, InventorySnapshot,
  current_target, PlanCandidate, Host,
}
use project_bourne.Resolver.Scheduled.{scheduled_state}
use project_bourne.Resolver.Candidates.{
  family_backend, admits, direct_candidate, direct_candidates, scheduled_candidate,
  target_candidates, append_all, scheduler_targets, scheduler_candidates, candidates,
}

-- A scheduled candidate: with a scheduler, and never claimed to be compatible.
unfoldable pub IsScheduled : WorkloadSpec → DiscoveredTarget → PlanCandidate → Type 0
IsScheduled workload access c =
    (admits workload.constraints.backend c.backend ≡ true)
    × (c.access_target_id ≡ access.id)
    × (c.backend ≢ direct)
    × (c.scheduler_id ≢ none)
    × (c.compatibility_state ≢ compatible)

-- A direct candidate: on the current host, without a scheduler.
unfoldable pub IsDirect : WorkloadSpec → DiscoveredTarget → PlanCandidate → Type 0
IsDirect workload access c =
    (admits workload.constraints.backend c.backend ≡ true)
    × (c.access_target_id ≡ access.id)
    × (c.backend ≡ direct)
    × (c.execution_target_id ≡ some access.id)
    × (c.scheduler_id ≡ none)

unfoldable pub IsOffer : WorkloadSpec → DiscoveredTarget → PlanCandidate → Type 0
IsOffer workload access c = IsDirect workload access c ⊎ IsScheduled workload access c

family_backend-scheduled : (family : String) → family_backend family ≢ some direct
unfolding family_backend
family_backend-scheduled family = ground arith

All-append_all {ℓ κ} :
    {A : Type ℓ} {B : Type ℓ} (P : B → Type κ) (f : A → List B)
    → ((a : A) → All P (f a))
    → (xs : List A) → All P (append_all (map f xs))
All-append_all P f h [] = tt
All-append_all P f h (x ∷ xs) =
    All-append P (f x) (append_all (map f xs)) (h x) (All-append_all P f h xs)

module _ (host : Host) (workload : WorkloadSpec) (inventory : InventorySnapshot)
    (access : DiscoveredTarget) where
  direct_candidates-IsOffer :
      All (IsOffer workload access) (direct_candidates host workload inventory access)
  unfolding direct_candidates direct_candidate IsOffer IsDirect
  direct_candidates-IsOffer = ground arith

  target_candidates-IsScheduled :
      (scheduler : SchedulerResource) (backend : Backend) (target : Option DiscoveredTarget)
      → admits workload.constraints.backend backend ≡ true
      → backend ≢ direct
      → All
          (IsScheduled workload access)
          (target_candidates host workload inventory access scheduler backend target)
  unfolding target_candidates scheduled_candidate scheduled_state IsScheduled
  target_candidates-IsScheduled scheduler backend target a n = ground arith

  loop-IsScheduled :
      (scheduler : SchedulerResource) (backend : Backend)
      → backend ≢ direct
      → (targets : List (Option DiscoveredTarget))
      → All (IsScheduled workload access) (
          if admits workload.constraints.backend backend
          then append_all
              (map (target_candidates host workload inventory access scheduler backend) targets)
          else [])
  loop-IsScheduled scheduler backend n targets =
      elim (Bool-cases (admits workload.constraints.backend backend)) [
        | inl a ↦ ground (
          arith,
          a,
          All-append_all (IsScheduled workload access)
              (target_candidates host workload inventory access scheduler backend)
              (λ target. target_candidates-IsScheduled scheduler backend target a n) targets,
        )
        | inr a ↦ ground (arith, a)
      ]

  scheduler_candidates-IsScheduled :
      (scheduler : SchedulerResource)
      → All
          (IsScheduled workload access)
          (scheduler_candidates host workload inventory access scheduler)
  unfolding scheduler_candidates scheduler_targets
  scheduler_candidates-IsScheduled scheduler =
      elim (Option-cases (family_backend scheduler.family)) [
        | inl h ↦ ground (arith, h)
        | inr (backend, h) ↦ ground (
          arith,
          h,
          loop-IsScheduled scheduler backend
              (λ p. family_backend-scheduled scheduler.family (h ∙ ap some p))
              (scheduler_targets scheduler inventory.targets),
        )
      ]

  pub schedulers-IsScheduled :
      All (IsScheduled workload access) (
        append_all (map (scheduler_candidates host workload inventory access) inventory.schedulers))
  schedulers-IsScheduled =
      All-append_all (IsScheduled workload access)
        (scheduler_candidates host workload inventory access) scheduler_candidates-IsScheduled
        inventory.schedulers

-- With a current host, every candidate is of the backend that the workload asks for and starts
-- from that host; a direct one runs there, without a scheduler, and a scheduled one has a
-- scheduler and is never compatible.
pub candidates-IsOffer :
    (host : Host) (workload : WorkloadSpec) (inventory : InventorySnapshot)
    (access : DiscoveredTarget)
    → current_target inventory ≡ some access
    → All (IsOffer workload access) (candidates host workload inventory)
unfolding candidates IsOffer
candidates-IsOffer host workload inventory access h = ground (
  arith,
  h,
  All-append (IsOffer workload access) (direct_candidates host workload inventory access)
      (append_all (map (scheduler_candidates host workload inventory access) inventory.schedulers))
      (direct_candidates-IsOffer host workload inventory access)
      (All-map (IsScheduled workload access) (IsOffer workload access) (λ c s. inr s) _
        (schedulers-IsScheduled host workload inventory access)),
)
