-- ===== src/Resolver/Laws/Sole.antt =====
-- When `resolve_execution` of resolver.py has one candidate left, and what it does then.
use project_bourne.Prelude.{
  ◌≡◌, ◌∙◌, ap, sym, ◌↔◌, ◌⊎◌, refl, inl, inr, true, false, not, Option, none, some, List, [], ◌∷◌,
  ◌++◌, filter, All, Bool-cases, arith,
}
use project_bourne.Resolver.Models.{
  auto, direct, compatible, incompatible, ExecutionConstraints, WorkloadSpec, InventorySnapshot,
  PlanCandidate, ExecutionPlan, Host,
}
use project_bourne.Resolver.Candidates.{candidates}
use project_bourne.Resolver.Selection.{
  is_viable, is_explicit, is_some, choose_explicit, choose_scheduled, choose_direct,
  choose_automatic, choose, make_plan, plan_of, resolution, resolve_execution,
}

abbrev pub Incompatible : PlanCandidate → Type 0
Incompatible c = c.compatibility_state ≡ incompatible

-- `c` is not incompatible, and every other of the candidates is.
pub record IsSole (c : PlanCandidate) (found : List PlanCandidate) : Type 0 where
  pub before : List PlanCandidate
  pub after : List PlanCandidate
  pub is_split : found ≡ before ++ (c ∷ after)
  pub all_before : All Incompatible before
  pub not_incompatible : ¬ Incompatible c
  pub all_after : All Incompatible after

-- The workload names a backend, a target or a context.
abbrev pub IsConstrained : ExecutionConstraints → Type 0
IsConstrained k = (¬ (k.backend ≡ auto)) ⊎ (¬ (k.target ≡ none)) ⊎ (¬ (k.context ≡ none))

constrained_explicit : (k : ExecutionConstraints) → IsConstrained k → is_explicit k ≡ true
constrained_explicit k h = ground arith

viable_or_not : (c : PlanCandidate) → (is_viable c ≡ true) ↔ (¬ Incompatible c)
viable_or_not c = ground arith

not_viable : (c : PlanCandidate) → is_viable c ≡ false → Incompatible c
not_viable c h = ground arith

none_viable : (xs : List PlanCandidate) → All Incompatible xs → filter is_viable xs ≡ []
none_viable [] h = refl
none_viable (x ∷ xs) h = ground (arith, h.0, none_viable xs h.1)

all-Incompatible : (xs : List PlanCandidate) → filter is_viable xs ≡ [] → All Incompatible xs
all-Incompatible [] h = tt
all-Incompatible (x ∷ xs) h = elim (Bool-cases (is_viable x)) [
  | inl v ↦ absurd (ground (arith, v, h))
  | inr v ↦ (not_viable x v, all-Incompatible xs (ground (arith, v, h)))
]

module _ (c : PlanCandidate) where
  split_alone :
      (before after : List PlanCandidate)
      → All Incompatible before
      → All Incompatible after
      → ¬ Incompatible c
      → filter is_viable (before ++ (c ∷ after)) ≡ c ∷ []
  split_alone [] after hb ha v = ground (arith, (viable_or_not c).1 v, none_viable after ha)
  split_alone (x ∷ before) after hb ha v = ground (arith, hb.0, split_alone before after hb.1 ha v)

  IsSole-filter : (found : List PlanCandidate) → IsSole c found → filter is_viable found ≡ c ∷ []
  IsSole-filter found s =
      rw s.is_split (split_alone s.before s.after s.all_before s.all_after s.not_incompatible)

  filter-IsSole : (found : List PlanCandidate) → filter is_viable found ≡ c ∷ [] → IsSole c found
  filter-IsSole [] h = absurd (ground (arith, h))
  filter-IsSole (x ∷ found) h = elim (Bool-cases (is_viable x)) [
    | inl v ↦ record {
      before = [];
      after = found;
      is_split = ground (arith, v, h);
      all_before = tt;
      not_incompatible = (viable_or_not c).0 (ground (arith, v, h));
      all_after = all-Incompatible found (ground (arith, v, h));
    }
    | inr v ↦
        let s = filter-IsSole found (ground (arith, v, h)) in
        record {
          before = x ∷ s.before;
          after = s.after;
          is_split = ground (arith, s.is_split);
          all_before = (not_viable x v, s.all_before);
          not_incompatible = s.not_incompatible;
          all_after = s.all_after;
        }
  ]

explicit-alone :
    (viable : List PlanCandidate) (c : PlanCandidate)
    → (choose_explicit viable).selected_candidate ≡ some c
    → viable ≡ c ∷ []
unfolding choose_explicit
explicit-alone viable c h = ground arith

choose-explicit :
    (k : ExecutionConstraints) (found : List PlanCandidate)
    → is_explicit k ≡ true
    → choose k found ≡ choose_explicit (filter is_viable found)
unfolding choose
choose-explicit k found e = ground (arith, e)

-- Scheduled, or a direct candidate that is compatible.
abbrev pub IsReady : PlanCandidate → Type 0
IsReady c = (¬ (c.backend ≡ direct)) ⊎ (c.compatibility_state ≡ compatible)

alone_chosen :
    (c : PlanCandidate) → IsReady c → (choose_automatic (c ∷ [])).selected_candidate ≡ some c
unfolding choose_automatic choose_direct choose_scheduled
alone_chosen c h = ground arith

choose-alone :
    (k : ExecutionConstraints) (found : List PlanCandidate) (c : PlanCandidate)
    → filter is_viable found ≡ c ∷ []
    → IsReady c
    → (choose k found).selected_candidate ≡ some c
unfolding choose choose_explicit
choose-alone k found c f r = ground (arith, f, alone_chosen c r)

choose-either :
    (k : ExecutionConstraints) (found : List PlanCandidate)
    → is_some (choose k found).selected_candidate ≡ not (is_some (choose k found).reason)
unfolding choose choose_explicit choose_automatic choose_direct choose_scheduled
choose-either k found = ground arith

module _ (host : Host) (workload : WorkloadSpec) (inventory : InventorySnapshot) where
  plan_of-some :
      (picked : Option PlanCandidate) (plan : ExecutionPlan)
      → plan_of host workload inventory picked ≡ some plan
      → (c : PlanCandidate) × (picked ≡ some c) × (plan ≡ make_plan host workload inventory c)
  plan_of-some none plan h = absurd (ground (arith, h))
  plan_of-some (some c) plan h = (c, refl, ground (arith, h))

  planned_either :
      (picked : Option PlanCandidate)
      → is_some (plan_of host workload inventory picked) ≡ is_some picked
  planned_either none = refl
  planned_either (some c) = refl

  -- If the workload names a backend, a target or a context, then a plan is selected exactly if
  -- it is that of a candidate that is not incompatible while all others are.
  pub resolve_execution-explicit :
      IsConstrained workload.constraints
      → (plan : ExecutionPlan)
      → ((resolve_execution host workload inventory).selected ≡ some plan) ↔ (
          (c : PlanCandidate) × IsSole c (candidates host workload inventory)
          × (plan ≡ make_plan host workload inventory c))
  unfolding resolve_execution resolution choose_explicit
  resolve_execution-explicit k plan =
      let found = candidates host workload inventory in
      let e = choose-explicit workload.constraints found (constrained_explicit _ k) in
      (
        λ h.
            let (c, s, p) = plan_of-some _ plan h in
            (
              c,
              filter-IsSole c found (
                  explicit-alone (filter is_viable found) c
                    (ap (λ p. p.selected_candidate) (sym e) ∙ s)),
              p,
            ),
        λ (c, s, p). rw (e, IsSole-filter c found s) (ap some (sym p)),
      )

  -- A resolution gives either a plan or a reason, never both and never neither; and if all
  -- candidates but one are incompatible, and that one is scheduled or compatible, it gives the
  -- plan of that one.
  pub resolve_execution-settled :
      (is_some (resolve_execution host workload inventory).selected
        ≡ not (is_some (resolve_execution host workload inventory).reason))
      × ((c : PlanCandidate)
          → IsSole c (candidates host workload inventory)
          → IsReady c
          → (resolve_execution host workload inventory).selected
            ≡ some (make_plan host workload inventory c))
  unfolding resolve_execution resolution
  resolve_execution-settled =
      let found = candidates host workload inventory in
      (
        planned_either _ ∙ choose-either workload.constraints found,
        λ c s r.
            ap (plan_of host workload inventory)
              (choose-alone workload.constraints found c (IsSole-filter c found s) r),
      )
