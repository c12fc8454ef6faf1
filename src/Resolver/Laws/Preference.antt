-- ===== src/Resolver/Laws/Preference.antt =====
-- Without constraints `resolve_execution` of resolver.py runs a workload directly if it can.
use Prim.Native.Nat.{◌≤◌}
use project_bourne.Prelude.{
  length, length-append, ◌≡◌, ◌∙◌, refl, inl, inr, Bool, true, false, some, List, [], ◌∷◌, ◌++◌,
  map, filter, All, All-map, Bool-cases, Option-cases, arith,
}
use project_bourne.Resolver.Models.{
  DiscoveredTarget, WorkloadSpec, InventorySnapshot, current_target, PlanCandidate, Host,
}
use project_bourne.Resolver.Candidates.{
  direct_candidates, append_all, scheduler_candidates, candidates,
}
use project_bourne.Resolver.Selection.{
  is_viable, is_compatible_direct, is_explicit, choose_direct, choose_automatic, choose, make_plan,
  resolution, resolve_execution,
}
use project_bourne.Resolver.Laws.Offers.{IsScheduled, schedulers-IsScheduled}
use project_bourne.Resolver.Laws.Choices.{In}

module _ {A : Type 0} (p q : A → Bool) where
  filter-append : (xs ys : List A) → filter p (xs ++ ys) ≡ filter p xs ++ filter p ys
  filter-append [] ys = refl
  filter-append (x ∷ xs) ys = ground (arith, filter-append xs ys)

  filter-All : (xs : List A) → All (λ a. p a ≡ false) xs → filter p xs ≡ []
  filter-All [] h = refl
  filter-All (x ∷ xs) h = ground (arith, h.0, filter-All xs h.1)

  In-positive : (a : A) (xs : List A) → In a xs → p a ≡ true → In a (filter p xs)
  In-positive a [] h t = ground arith
  In-positive a (x ∷ xs) h t = elim (Bool-cases (p x)) [
    | inl s ↦ grind (arith, In-positive a xs)
    | inr s ↦ grind (arith, In-positive a xs)
  ]

  -- Two tests in turn, of which the second implies the first.
  filter-filter :
      ((a : A) → p a ≡ true → q a ≡ true) → (xs : List A) → filter p (filter q xs) ≡ filter p xs
  filter-filter imp [] = refl
  filter-filter imp (x ∷ xs) = elim (Bool-cases (p x)) [
    | inl s ↦ ground (arith, s, imp x s, filter-filter imp xs)
    | inr s ↦ elim (Bool-cases (q x)) [
      | inl t ↦ ground (arith, s, t, filter-filter imp xs)
      | inr t ↦ ground (arith, s, t, filter-filter imp xs)
    ]
  ]

scheduled-not_direct :
    (workload : WorkloadSpec) (access : DiscoveredTarget) (c : PlanCandidate)
    → IsScheduled workload access c
    → is_compatible_direct c ≡ false
unfolding IsScheduled
scheduled-not_direct workload access c h = ground arith

compatible-viable : (c : PlanCandidate) → is_compatible_direct c ≡ true → is_viable c ≡ true
compatible-viable c h = ground arith

alone : {A : Type 0} (xs : List A) (a : A) → length xs ≤ 1 → In a xs → xs ≡ a ∷ []
alone [] a l h = ground arith
alone (x ∷ []) a l h = ground arith
alone (x ∷ y ∷ rest) a l h = ground arith

module _ (host : Host) (workload : WorkloadSpec) (inventory : InventorySnapshot) where
  direct_candidates-at_most_one :
      (access : DiscoveredTarget)
      → length (filter is_compatible_direct (direct_candidates host workload inventory access)) ≤ 1
  unfolding direct_candidates
  direct_candidates-at_most_one access = ground arith

  candidates-at_most_one_direct :
      length (filter is_compatible_direct (candidates host workload inventory)) ≤ 1
  unfolding candidates
  candidates-at_most_one_direct = elim (Option-cases (current_target inventory)) [
    | inl h ↦ ground (arith, h)
    | inr (access, h) ↦
        let directs = direct_candidates host workload inventory access in
        let scheduled =
          append_all
            (map (scheduler_candidates host workload inventory access) inventory.schedulers) in
        ground (
          arith,
          h,
          direct_candidates-at_most_one access,
          filter-append is_compatible_direct is_viable directs scheduled,
          length-append (filter is_compatible_direct directs)
              (filter is_compatible_direct scheduled),
          filter-All is_compatible_direct is_viable scheduled (
              All-map (IsScheduled workload access) (λ c. is_compatible_direct c ≡ false)
                (scheduled-not_direct workload access) scheduled
                (schedulers-IsScheduled host workload inventory access)),
        )
  ]

  only_direct :
      (c : PlanCandidate)
      → In c (candidates host workload inventory)
      → is_compatible_direct c ≡ true
      → filter is_compatible_direct (filter is_viable (candidates host workload inventory)) ≡ c ∷ []
  only_direct c i d =
      let found = candidates host workload inventory in
      filter-filter is_compatible_direct is_viable compatible-viable found
      ∙ alone (filter is_compatible_direct found) c candidates-at_most_one_direct
          (In-positive is_compatible_direct is_viable c found i d)

  -- Without a constraint on the backend, the target and the context, a direct candidate that is
  -- compatible is the one that is selected.
  pub resolve_execution-direct :
      (c : PlanCandidate)
      → is_explicit workload.constraints ≡ false
      → In c (candidates host workload inventory)
      → is_compatible_direct c ≡ true
      → (resolve_execution host workload inventory).selected
        ≡ some (make_plan host workload inventory c)
  unfolding resolve_execution resolution choose choose_automatic choose_direct
  resolve_execution-direct c e i d = ground (arith, e, only_direct c i d)
