-- ===== src/Resolver/Laws/Choices.antt =====
-- What `resolve_execution` of resolver.py selects, and when it selects nothing.
use project_bourne.Prelude.{
  ◌≡◌, refl, ◌⊎◌, inl, inr, Bool, true, not, Option, none, some, List, [], ◌∷◌, filter, Bool-cases,
  arith,
}
use project_bourne.Resolver.Models.{
  ExecutionConstraints, WorkloadSpec, InventorySnapshot, PlanCandidate, ExecutionPlan, Host,
}
use project_bourne.Resolver.Candidates.{candidates}
use project_bourne.Resolver.Selection.{
  is_viable, is_direct, is_compatible_direct, is_explicit, choose_explicit, choose_scheduled,
  choose_direct, choose_automatic, choose, make_plan, plan_of, resolution, resolve_execution,
}

-- `c` stands in the list.
abbrev pub In : {A : Type 0} → A → List A → Type 0
In a [] = ⊥
In a (x ∷ xs) = (a ≡ x) ⊎ In a xs

module _ {A : Type 0} where
  In-filter : (p : A → Bool) (a : A) (xs : List A) → In a (filter p xs) → In a xs × (p a ≡ true)
  In-filter p a [] h = ground arith
  In-filter p a (x ∷ xs) h = elim (Bool-cases (p x)) [
    | inl q ↦ grind (arith, In-filter p a xs)
    | inr q ↦ grind (arith, In-filter p a xs)
  ]

choose_explicit-In :
    (found : List PlanCandidate) (c : PlanCandidate)
    → (choose_explicit found).selected_candidate ≡ some c
    → In c found
unfolding choose_explicit
choose_explicit-In found c h = ground arith

choose_scheduled-alone :
    (viable scheduled : List PlanCandidate) (c : PlanCandidate)
    → (choose_scheduled viable scheduled).selected_candidate ≡ some c
    → scheduled ≡ c ∷ []
unfolding choose_scheduled
choose_scheduled-alone viable scheduled c h = ground arith

choose_direct-cases :
    (directs viable : List PlanCandidate) (c : PlanCandidate)
    → (choose_direct directs viable).selected_candidate ≡ some c
    → (directs ≡ c ∷ []) ⊎ (filter (λ c. not (is_direct c)) viable ≡ c ∷ [])
unfolding choose_direct
choose_direct-cases [] viable c h = inr (choose_scheduled-alone viable _ c h)
choose_direct-cases (d ∷ []) viable c h = inl (ground arith)
choose_direct-cases (d ∷ e ∷ rest) viable c h = inr (choose_scheduled-alone viable _ c h)

In-alone : {A : Type 0} (xs : List A) (c : A) → xs ≡ c ∷ [] → In c xs
In-alone [] c h = ground arith
In-alone (x ∷ []) c h = ground arith
In-alone (x ∷ y ∷ rest) c h = ground arith

choose_automatic-In :
    (viable : List PlanCandidate) (c : PlanCandidate)
    → (choose_automatic viable).selected_candidate ≡ some c
    → In c viable
unfolding choose_automatic
choose_automatic-In viable c h =
    elim (choose_direct-cases (filter is_compatible_direct viable) viable c h) [
      | inl d ↦ (In-filter is_compatible_direct c viable (In-alone _ c d)).0
      | inr s ↦ (In-filter (λ c. not (is_direct c)) c viable (In-alone _ c s)).0
    ]

-- The chosen candidate is one of the offered and is not rejected.
choose-In :
    (constraints : ExecutionConstraints) (found : List PlanCandidate) (c : PlanCandidate)
    → (choose constraints found).selected_candidate ≡ some c
    → In c found × (is_viable c ≡ true)
unfolding choose
choose-In constraints found c h = elim (Bool-cases (is_explicit constraints)) [
  | inl e ↦
      In-filter is_viable c found
        (choose_explicit-In (filter is_viable found) c (ground (arith, e, h)))
  | inr e ↦
      In-filter is_viable c found
        (choose_automatic-In (filter is_viable found) c (ground (arith, e, h)))
]

module _ (host : Host) (workload : WorkloadSpec) (inventory : InventorySnapshot) where
  resolution-selected :
      (found : List PlanCandidate) (picked : Option PlanCandidate) (plan : ExecutionPlan)
      → (choose workload.constraints found).selected_candidate ≡ picked
      → plan_of host workload inventory picked ≡ some plan
      → (c : PlanCandidate) × In c found
        × (is_viable c ≡ true)
        × (plan ≡ make_plan host workload inventory c)
  resolution-selected found (some c) plan e h =
      let taken = choose-In workload.constraints found c e in (c, taken.0, taken.1, ground arith)
  resolution-selected found none plan e h = ground arith

  -- A selected plan is the plan of one of the candidates, which is not incompatible.
  pub resolve_execution-selected :
      (plan : ExecutionPlan)
      → (resolve_execution host workload inventory).selected ≡ some plan
      → (c : PlanCandidate) × In c (candidates host workload inventory)
        × (is_viable c ≡ true)
        × (plan ≡ make_plan host workload inventory c)
  unfolding resolve_execution resolution
  resolve_execution-selected plan h =
      resolution-selected (candidates host workload inventory) _ plan refl h
