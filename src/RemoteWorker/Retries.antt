-- ===== src/RemoteWorker/Retries.antt =====
-- `_prepare` of remote_worker.py called again for the same execution.
use project_bourne.Prelude.{
  ℕ, suc, ◌≡◌, refl, inl, inr, true, String, Option, none, some, arith, string_eq, if◌then◌else◌,
  eq_iff, string_beq, ◌==◌, Bool-cases,
}
use project_bourne.Json.{Fields}
use project_bourne.RemoteWorker.Paths.{FilePath}
use project_bourne.RemoteWorker.State.{
  Family, family_beq, Variant, variant_beq, SubmissionState, Stored, valid, unreadable, ok,
}
use project_bourne.RemoteWorker.Effects.{
  World, Env, Outcome, returned, raised, ◌>>=◌, pure, raise, lift, state_at, utc_now, get_user,
  write_state, make_directories, make_new_directory, remote_worker_error,
}
use project_bourne.RemoteWorker.Effects.Triple.{
  Ends, Triple, Triple-bind, Triple-if, Ends-map, Anything, anything, lifted,
}
use project_bourne.RemoteWorker.Requests.{PrepareRequest, prepare_request}
use project_bourne.RemoteWorker.Operations.{
  Reply, reply, state_file, read_state, checked, make_variant_directory, variant_part, staging_of,
  same_request, prepare_again, initial_state, prepare_new, prepare_found, prepare,
}
use project_bourne.RemoteWorker.AtMostOnce.Writes.{wrote}

string_beq_refl : (s : String) → string_beq s s ≡ true
string_beq_refl s = (eq_iff s s).1 refl

family_beq_refl : (f : Family) → family_beq f f ≡ true
family_beq_refl f = ground arith

variant_beq_refl : (v : Option Variant) → variant_beq v v ≡ true
variant_beq_refl none = refl
variant_beq_refl (some v) = ground (arith, string_beq_refl v.remote_path, string_beq_refl v.sha256)

same_request_refl :
    (r : PrepareRequest) (user created updated : String)
    → same_request r (initial_state r user created updated) ≡ true
unfolding initial_state
same_request_refl r user created updated = ground (
  arith,
  family_beq_refl r.scheduler_family,
  string_beq_refl r.expected.job,
  string_beq_refl r.expected.plan,
  string_beq_refl r.expected.worker,
  variant_beq_refl (variant_part r.variant),
)

-- The state of a preparation that was asked for by `r` stands in its file.
Stands : PrepareRequest → SubmissionState → World → Type 0
Stands r s w =
    (w.states (state_file (staging_of r)) ≡ some (valid s))
    × (same_request r s ≡ true)
    × (s.execution_id ≡ r.execution_id)

-- What the second call answers.
unfoldable answer_again : PrepareRequest → SubmissionState → Outcome Reply
answer_again r s =
    if same_request r s
    then returned (reply ok s)
    else raised
        (remote_worker_error "retry content conflicts with immutable remote execution state")

prepare-again :
    (payload : Fields) (r : PrepareRequest) (s : SubmissionState) (e : Env) (w : World) (left : ℕ)
    → prepare_request payload ≡ returned r
    → w.budget ≡ suc left
    → w.states (state_file (staging_of r)) ≡ some (valid s)
    → s.execution_id ≡ r.execution_id
    → ((prepare payload e w).0 ≡ answer_again r s)
      × ((prepare payload e w).1.states ≡ w.states)
      × ((prepare payload e w).1.launches ≡ w.launches)
unfolding prepare lift prepare_found prepare_again make_variant_directory make_directories state_at
    read_state checked pure raise answer_again
prepare-again payload r s e w left h b k i =
    ground (arith, h, b, k, i, string_beq_refl r.execution_id)

-- The reply of a preparation is that of a state that stands in its file.
Prepared : PrepareRequest → Reply → World → Type 0
Prepared r answer w = (s : SubmissionState) × (answer ≡ reply ok s) × Stands r s w

checked_own :
    (path : FilePath) (execution_id : String) (found : Option Stored) (w : World)
    → w.states path ≡ found
    → Ends
        (λ s v. (v.states path ≡ some (valid s)) × (s.execution_id ≡ execution_id))
        Anything
        (checked execution_id found)
        w
unfolding checked
checked_own path execution_id none w h = tt
checked_own path execution_id (some unreadable) w h = tt
checked_own path execution_id (some (valid s)) w h =
    elim (Bool-cases (s.execution_id == execution_id)) [
      | inl same ↦ ground (arith, same, h, (eq_iff s.execution_id execution_id).0 same)
      | inr differ ↦ ground (arith, differ)
    ]

module _ (r : PrepareRequest) where
  new-Prepared : Triple Anything (prepare_new r) (Prepared r) Anything
  unfolding prepare_new Prepared Stands pure
  new-Prepared =
      Triple-bind (λ _. Anything) (make_new_directory (staging_of r)) _ (anything _)
        λ _.
          Triple-bind (λ _. Anything) get_user _ (anything _)
            λ user.
              Triple-bind (λ _. Anything) utc_now _ (anything _)
                λ created.
                  Triple-bind (λ _. Anything) utc_now _ (anything _)
                    λ updated.
                      written (initial_state r user created updated)
                        (same_request_refl r user created updated) refl
    where
      written :
          (s : SubmissionState)
          → same_request r s ≡ true
          → s.execution_id ≡ r.execution_id
          → Triple Anything
              (write_state (state_file (staging_of r)) s >>= λ _. pure (reply ok s))
              (Prepared r)
              Anything
      written s q i =
          Triple-bind (λ _ w. w.states (state_file (staging_of r)) ≡ some (valid s)) _ _
            (wrote (staging_of r) s) λ _. record { at = λ e w h. (s, refl, (h, q, i)) }

  again-Prepared :
      (s : SubmissionState)
      → Triple
          (λ w.
            (w.states (state_file (staging_of r)) ≡ some (valid s))
            × (s.execution_id ≡ r.execution_id))
          (prepare_again r s)
          (Prepared r)
          Anything
  unfolding prepare_again Prepared Stands pure raise
  again-Prepared s =
      Triple-if (same_request r s) _ _ (λ q. record { at = λ e w h. (s, refl, (h.0, q, h.1)) })
        λ q. record { at = λ e w h. tt }

  own_state :
      Triple Anything
        (read_state (state_file (staging_of r)) r.execution_id)
        (λ s w.
          (w.states (state_file (staging_of r)) ≡ some (valid s))
          × (s.execution_id ≡ r.execution_id))
        Anything
  unfolding read_state checked state_at lift
  own_state = record {
    at = λ e w h. checked_own (state_file (staging_of r)) r.execution_id _ w refl;
  }

  found-Prepared :
      (found : Option Stored) → Triple Anything (prepare_found r found) (Prepared r) Anything
  unfolding prepare_found
  found-Prepared none = new-Prepared
  found-Prepared (some found) = Triple-bind _ _ _ own_state again-Prepared

  asked_Prepared :
      Triple Anything
        (make_variant_directory r.variant >>= λ _.
          state_at (state_file (staging_of r)) >>= prepare_found r)
        (Prepared r)
        Anything
  asked_Prepared =
      Triple-bind (λ _. Anything) (make_variant_directory r.variant) _ (anything _)
        λ _.
          Triple-bind (λ _. Anything) (state_at (state_file (staging_of r))) _ (anything _)
            found-Prepared

-- A call that returned is answered again in the same way.
unfoldable pub Repeats : Fields → Reply → World → Type 0
Repeats payload answer w =
    (e : Env) (left : ℕ)
    → let (again, w') = prepare payload e (record w { budget = suc left }) in
      (again ≡ returned answer) × (w'.states ≡ w.states) × (w'.launches ≡ w.launches)

Prepared-Repeats :
    (payload : Fields) (r : PrepareRequest) (answer : Reply) (w : World)
    → prepare_request payload ≡ returned r
    → Prepared r answer w
    → Repeats payload answer w
unfolding Prepared Repeats Stands answer_again
Prepared-Repeats payload r answer w h (s, same, (k, q, i)) e left =
    ground
      (arith, same, q, prepare-again payload r s e (record w { budget = suc left }) left h refl k i)

-- If a preparation returns a reply, then the same request again, if it is not killed at its
-- first effect, returns the same reply and changes neither state files nor launches.
pub prepare-Repeats :
    (payload : Fields) (e : Env) (w : World)
    → Ends (Repeats payload) (λ _. Unit) (prepare payload e w).0 (prepare payload e w).1
unfolding prepare
prepare-Repeats payload e w =
    (Triple-bind (λ r _. prepare_request payload ≡ returned r) (lift (prepare_request payload)) _
        (lifted (prepare_request payload))
        λ r. record {
          at = λ e w h.
              Ends-map (Prepared r) (Repeats payload) Anything Anything _ _
                (λ a p. Prepared-Repeats payload r a _ h p) (λ u. u) ((asked_Prepared r).at e w tt);
        }).at
      e w tt
