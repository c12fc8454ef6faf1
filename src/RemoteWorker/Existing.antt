-- ===== src/RemoteWorker/Existing.antt =====
-- `_prepare` of remote_worker.py for an execution whose state file exists.
use project_bourne.Prelude.{
  ℕ, ◌≡◌, ◌↔◌, ◌⊎◌, ◌∙◌, ap, sym, ◌<◌, refl, inl, inr, true, Option, none, some, arith, string_eq,
  if◌then◌else◌, eq_iff, ◌==◌, Bool-cases,
}
use project_bourne.Json.{Fields}
use project_bourne.RemoteWorker.State.{
  Family, family_beq, ExpectedFiles, expected_beq, Variant, variant_beq, SubmissionState, Stored,
  valid, unreadable, ok,
}
use project_bourne.RemoteWorker.Effects.{
  World, Env, Outcome, returned, raised, killed, pure, raise, lift, state_at, make_directories,
  remote_worker_error,
}
use project_bourne.RemoteWorker.Requests.{PrepareRequest, prepare_request}
use project_bourne.RemoteWorker.Operations.{
  Reply, reply, state_file, read_state, checked, make_variant_directory, variant_part, staging_of,
  same_request, prepare_again, prepare_found, prepare,
}

-- The state is of the execution that is asked for, and has the scheduler family, the three digests
-- and the variant of the request.
pub record IsOfRequest (r : PrepareRequest) (s : SubmissionState) : Type 0 where
  pub same_execution : s.execution_id ≡ r.execution_id
  pub same_family : s.scheduler_family ≡ r.scheduler_family
  pub same_files : s.expected_files ≡ r.expected
  pub same_variant : s.expected_variant ≡ variant_part r.variant

family_iff : (a b : Family) → (family_beq a b ≡ true) ↔ (a ≡ b)
family_iff a b = ground arith

expected_iff : (a b : ExpectedFiles) → (expected_beq a b ≡ true) ↔ (a ≡ b)
expected_iff a b =
    ground (arith, eq_iff a.job b.job, eq_iff a.plan b.plan, eq_iff a.worker b.worker)

variant_iff : (a b : Option Variant) → (variant_beq a b ≡ true) ↔ (a ≡ b)
variant_iff none none = (λ h. refl, λ h. refl)
variant_iff none (some b) = (λ h. cc, λ h. cc)
variant_iff (some a) none = (λ h. cc, λ h. cc)
variant_iff (some a) (some b) =
    ground (arith, eq_iff a.remote_path b.remote_path, eq_iff a.sha256 b.sha256)

module _ (r : PrepareRequest) where
  same_request-IsOfRequest :
      (s : SubmissionState)
      → s.execution_id ≡ r.execution_id
      → same_request r s ≡ true
      → IsOfRequest r s
  same_request-IsOfRequest s i h = record {
    same_execution = i;
    same_family = (family_iff s.scheduler_family r.scheduler_family).0 (ground (arith, h));
    same_files = (expected_iff s.expected_files r.expected).0 (ground (arith, h));
    same_variant = (variant_iff s.expected_variant (variant_part r.variant)).0 (ground (arith, h));
  }

  IsOfRequest-same_request : (s : SubmissionState) → IsOfRequest r s → same_request r s ≡ true
  IsOfRequest-same_request s h = ground (
    arith,
    (family_iff s.scheduler_family r.scheduler_family).1 h.same_family,
    (expected_iff s.expected_files r.expected).1 h.same_files,
    (variant_iff s.expected_variant (variant_part r.variant)).1 h.same_variant,
  )

  again : Outcome SubmissionState → Outcome Reply
  again (returned s) =
      if same_request r s
      then returned (reply ok s)
      else raised
          (remote_worker_error "retry content conflicts with immutable remote execution state")
  again (raised x) = raised x
  again killed = killed

  -- What the contents of the file lead to.
  unfoldable answer_existing : Stored → Outcome Reply
  unfolding again
  answer_existing found = again (checked r.execution_id (some found))

  answered-own :
      (found : Stored) (answer : Reply)
      → answer_existing found ≡ returned answer
      → (s : SubmissionState) × (found ≡ valid s) × IsOfRequest r s × (answer ≡ reply ok s)
  unfolding answer_existing checked
  answered-own unreadable answer h = absurd (ground (arith, h))
  answered-own (valid s) answer h = elim (Bool-cases (s.execution_id == r.execution_id)) [
    | inl i ↦ elim (Bool-cases (same_request r s)) [
      | inl q ↦ (
        s,
        refl,
        same_request-IsOfRequest s ((eq_iff s.execution_id r.execution_id).0 i) q,
        ground (arith, i, q, h),
      )
      | inr q ↦ absurd (ground (arith, i, q, h))
    ]
    | inr i ↦ absurd (ground (arith, i, h))
  ]

  own-answered :
      (s : SubmissionState) → IsOfRequest r s → answer_existing (valid s) ≡ returned (reply ok s)
  unfolding answer_existing checked
  own-answered s h = ground (
    arith,
    IsOfRequest-same_request s h,
    (eq_iff s.execution_id r.execution_id).1 h.same_execution,
  )

-- The process is killed with its budget used up, or it answers what the file leads to.
prepare-answer :
    (payload : Fields) (r : PrepareRequest) (found : Stored) (e : Env) (w : World)
    → prepare_request payload ≡ returned r
    → w.states (state_file (staging_of r)) ≡ some found
    → ((((prepare payload e w).0 ≡ killed) × (w.budget ≡ 0))
        ⊎ ((prepare payload e w).0 ≡ answer_existing r found))
      × ((prepare payload e w).1.states ≡ w.states)
      × ((prepare payload e w).1.launches ≡ w.launches)
unfolding prepare lift prepare_found prepare_again make_variant_directory make_directories state_at
    read_state checked pure raise answer_existing
prepare-answer payload r found e w h k = ground (arith, h, k)

-- The answer to a preparation whose state file has the contents `found`.
unfoldable pub Answers : PrepareRequest → Stored → ℕ → Outcome Reply → Type 0
Answers r found budget outcome =
    ((answer : Reply)
      → outcome ≡ returned answer
      → (s : SubmissionState) × (found ≡ valid s) × IsOfRequest r s × (answer ≡ reply ok s))
    × ((s : SubmissionState)
        → 0 < budget
        → found ≡ valid s
        → IsOfRequest r s
        → outcome ≡ returned (reply ok s))

outcome-Answers :
    (r : PrepareRequest) (found : Stored) (budget : ℕ) (outcome : Outcome Reply)
    → ((outcome ≡ killed) × (budget ≡ 0)) ⊎ (outcome ≡ answer_existing r found)
    → Answers r found budget outcome
unfolding Answers
outcome-Answers r found budget outcome (inl (k, b)) =
    (λ answer h. absurd (ground (arith, k, h)), λ s p f o. absurd (ground (arith, p, b)))
outcome-Answers r found budget outcome (inr a) = (
  λ answer h. answered-own r found answer (sym a ∙ h),
  λ s p f o. a ∙ ap (answer_existing r) f ∙ own-answered r s o,
)

-- If the state file of the execution exists, whatever it holds and whenever the worker is
-- killed, `prepare` changes neither state files nor launches; it returns a reply only if the
-- file is a state of this execution with the family, the digests and the variant of the
-- request, and the reply is then that state; with such a state, and not killed at its first
-- effect, it returns it.
pub prepare-existing :
    (payload : Fields) (r : PrepareRequest) (found : Stored) (e : Env) (w : World)
    → prepare_request payload ≡ returned r
    → w.states (state_file (staging_of r)) ≡ some found
    → Answers r found w.budget (prepare payload e w).0
      × ((prepare payload e w).1.states ≡ w.states)
      × ((prepare payload e w).1.launches ≡ w.launches)
prepare-existing payload r found e w h k =
    let (answer, states, launches) = prepare-answer payload r found e w h k in
    (outcome-Answers r found w.budget _ answer, states, launches)
