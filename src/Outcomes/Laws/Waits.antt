-- ===== src/Outcomes/Laws/Waits.antt =====
-- A scheduler's wait that is added to a summary afterwards.
use project_bourne.Prelude.{
  ◌≡◌, refl, String, ◌==◌, string_eq, Bool, true, false, ◌&&◌, not, Option, none, some, List, [],
  ◌∷◌, ◌++◌, filter, is_empty, dedupe,
}
use project_bourne.Json.{Float}
use project_bourne.Resolver.Models.{Backend, ExecutionPlan}
use project_bourne.Requests.Models.{ExecutionRequest}
use project_bourne.Outcomes.Models.{
  Artifact, Experiment, AllocationObservation, check_summary, is_negative,
}
use project_bourne.Outcomes.Telemetry.{
  is_known, listed, has_queue, unavailable_facts, summary_sources, summary_coverage, summary_of,
  with_wait, add_scheduler_wait,
}

others_stay :
    (i o q a : Bool)
    → filter
        (λ s. not (s == "scheduler_wait_seconds"))
        (listed i "known_input_artifact_bytes"
          ++ listed o "known_output_artifact_bytes"
          ++ listed q "scheduler_wait_seconds"
          ++ listed a "allocated_resources")
      ≡ listed i "known_input_artifact_bytes"
        ++ listed o "known_output_artifact_bytes"
        ++ []
        ++ listed a "allocated_resources"
others_stay true true true true = refl
others_stay true true true false = refl
others_stay true true false true = refl
others_stay true true false false = refl
others_stay true false true true = refl
others_stay true false true false = refl
others_stay true false false true = refl
others_stay true false false false = refl
others_stay false true true true = refl
others_stay false true true false = refl
others_stay false true false true = refl
others_stay false true false false = refl
others_stay false false true true = refl
others_stay false false true false = refl
others_stay false false false true = refl
others_stay false false false false = refl

module _ (artifacts : List Artifact) (allocation : Option AllocationObservation)
    (seconds : Float) where
  sources_added :
      dedupe
        (summary_sources artifacts allocation none ++ ("bourne_scheduler_lifecycle_events" ∷ []))
      ≡ summary_sources artifacts allocation (some seconds)
  unfolding summary_sources
  sources_added = split (not (is_empty artifacts)) (is_known allocation)
    where
      split :
          (b c : Bool)
          → dedupe (
              (("bourne_experiment_record" ∷ [])
                ++ listed b "bourne_artifact_records"
                ++ listed c "bourne_compute_allocation_observation"
                ++ [])
              ++ ("bourne_scheduler_lifecycle_events" ∷ []))
            ≡ ("bourne_experiment_record" ∷ [])
              ++ listed b "bourne_artifact_records"
              ++ listed c "bourne_compute_allocation_observation"
              ++ ("bourne_scheduler_lifecycle_events" ∷ [])
      split true true = refl
      split true false = refl
      split false true = refl
      split false false = refl

  coverage_added :
      dedupe (summary_coverage artifacts allocation none ++ ("scheduler_queue_interval" ∷ []))
      ≡ summary_coverage artifacts allocation (some seconds)
  unfolding summary_coverage
  coverage_added = split (not (is_empty artifacts)) (is_known allocation)
    where
      split :
          (b c : Bool)
          → dedupe (
              (("execution_wall_time" ∷ "captured_process_output" ∷ [])
                ++ listed b "declared_artifact_capture"
                ++ listed c "allocated_resource_summary"
                ++ [])
              ++ ("scheduler_queue_interval" ∷ []))
            ≡ ("execution_wall_time" ∷ "captured_process_output" ∷ [])
              ++ listed b "declared_artifact_capture"
              ++ listed c "allocated_resource_summary"
              ++ ("scheduler_queue_interval" ∷ [])
      split true true = refl
      split true false = refl
      split false true = refl
      split false false = refl

  queue_known : (b : Bool) → (b && false) ≡ false
  queue_known true = refl
  queue_known false = refl

  unavailable_left :
      (request : ExecutionRequest) (backend : Backend)
      → filter
          (λ s. not (s == "scheduler_wait_seconds"))
          (unavailable_facts request backend artifacts allocation none)
        ≡ unavailable_facts request backend artifacts allocation (some seconds)
  unfolding unavailable_facts
  unavailable_left request backend =
      rw (queue_known (has_queue backend))
        (others_stay _ _ (has_queue backend && true) (not (is_known allocation)))

  -- A wait that is not negative and is added to a summary built without one gives the summary
  -- that is built with it.
  pub add_scheduler_wait-summary_of :
      (id : String) (request : ExecutionRequest) (plan : ExecutionPlan) (execution_id : String)
      (experiment : Experiment)
      → is_negative seconds ≡ false
      → add_scheduler_wait
          (summary_of id request plan execution_id experiment artifacts allocation none)
          (some seconds)
        ≡ check_summary
            (summary_of id request plan execution_id experiment artifacts allocation (some seconds))
  unfolding add_scheduler_wait with_wait summary_of
  add_scheduler_wait-summary_of id request plan execution_id experiment h =
      rw (h, unavailable_left request plan.backend, sources_added, coverage_added) refl
