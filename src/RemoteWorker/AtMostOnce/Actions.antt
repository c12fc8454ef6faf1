-- ===== src/RemoteWorker/AtMostOnce/Actions.antt =====
-- The invariant along the operations of the worker.
use project_bourne.Prelude.{ℕ, ◌≡◌, ◌≢◌, false, String, Option, some, arith}
use project_bourne.Json.{Fields}
use project_bourne.RemoteWorker.Paths.{FilePath}
use project_bourne.RemoteWorker.State.{SubmissionState, Stored, valid, Status}
use project_bourne.RemoteWorker.Effects.{Env, World, pure, lift, utc_now, state_at, write_state}
use project_bourne.RemoteWorker.Effects.Triple.{Ends, Triple, Triple-bind}
use project_bourne.RemoteWorker.Requests.{staging_request}
use project_bourne.RemoteWorker.Operations.{
  reply, state_file, save, save_and_reply, read_state, state_of,
}
use project_bourne.RemoteWorker.AtMostOnce.Rules.{
  Moves-lift, is_prepared, View, Safe, Holds, Moves, Moves-pure, Moves-utc_now, Moves-write,
}

-- What is known behind `_state`: the state that was read stands at its file.
abbrev pub Known : FilePath → FilePath → SubmissionState → World → Type 0
Known p q s w = Holds p Safe w × (w.states (state_file q) ≡ some (valid s))

pub safe_id : (o : Option Stored) (n : ℕ) → Safe o n → Safe o n
safe_id o n h = h

read_state-Ends :
    (p q : FilePath) (execution_id : String) (e : Env) (w : World)
    → Holds p Safe w
    → let (r, w') = read_state (state_file q) execution_id e w in
      Ends (Known p q) (Holds p Safe) r w'
unfolding read_state lift state_at
read_state-Ends p q execution_id e w h = ground arith

pub Triple-read_state :
    (p q : FilePath) (execution_id : String)
    → Triple (Holds p Safe) (read_state (state_file q) execution_id) (Known p q) (Holds p Safe)
Triple-read_state p q execution_id = record { at = read_state-Ends p q execution_id }

pub Triple-state_of :
    (p : FilePath) (payload : Fields)
    → Triple (Holds p Safe) (state_of payload) (λ (q, s). Known p q s) (Holds p Safe)
unfolding state_of pure
Triple-state_of p payload =
    Triple-bind (λ _. Holds p Safe) (lift (staging_request payload)) _
      (Moves-lift p Safe safe_id (staging_request payload))
      λ (execution_id, q).
        Triple-bind (Known p q) (read_state (state_file q) execution_id) _
          (Triple-read_state p q execution_id) λ s. record { at = λ e w h. h }

module _ (p q : FilePath) where
  -- A write of a state whose phase is not "prepared".
  pub Moves-save :
      (V W : View)
      → ((o : Option Stored) (n : ℕ) → V o n → Safe o n)
      → ((o : Option Stored) (n : ℕ) → W o n → Safe o n)
      → ((o : Option Stored) (n : ℕ) → p ≢ q → V o n → W o n)
      → (s : SubmissionState)
      → ((o : Option Stored) (n : ℕ) (now : String)
          → p ≡ q
          → V o n
          → W (some (valid (record s { updated_at = now }))) n)
      → Moves p V (save q s) W
  unfolding save
  Moves-save V W safe end other s self =
      Triple-bind (λ _. Holds p V) utc_now _ (Moves-utc_now p V safe)
        λ now.
          Triple-bind (λ _. Holds p W) (write_state (state_file q) (record s { updated_at = now }))
            _ (Moves-write p q V W safe other (record s { updated_at = now }) (λ o n. self o n now))
            λ _. Moves-pure p W end (record s { updated_at = now })

  pub Moves-save_and_reply :
      (status : Status) (s : SubmissionState)
      → is_prepared s.phase ≡ false
      → Moves p Safe (save_and_reply q status s) Safe
  unfolding save_and_reply
  Moves-save_and_reply status s later =
      Triple-bind (λ _. Holds p Safe) (save q s) _
        (Moves-save Safe Safe safe_id safe_id (λ o n _ h. h) s (λ o n now _ h. ground arith))
        λ s'. Moves-pure p Safe safe_id (reply status s')
