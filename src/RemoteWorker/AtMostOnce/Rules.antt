-- ===== src/RemoteWorker/AtMostOnce/Rules.antt =====
-- What each effect of the worker does to one staging directory's state and to the number of its
-- submissions: the rules for the invariant below.
use project_bourne.Prelude.{
  ℕ, suc, ◌≤◌, ◌==◌, list_eq, string_eq, list_beq_iff, ◌≡◌, ◌≢◌, Bool, true, false, String, Option,
  none, some, List, [], ◌∷◌, Bool-cases, ne_of_beq, inl, inr, if◌then◌else◌,
}
use project_bourne.RemoteWorker.Paths.{FilePath}
use project_bourne.RemoteWorker.State.{Phase, prepared, SubmissionState, Stored, valid, unreadable}
use project_bourne.RemoteWorker.Effects.{
  Purpose, submission, Launch, World, Error, Outcome, Exec, pure, raise, lift, require, utc_now,
  get_user, which, file_at, state_at, make_directories, make_new_directory, write_state,
  record_launch, answer, run_command,
}
use project_bourne.RemoteWorker.Effects.Triple.{Triple, Triple-bind, Ends-map, spend-Ends}
use project_bourne.RemoteWorker.Operations.{state_file}
use project_bourne.RemoteWorker.Operations.Submit.{staged_problem}
use project_bourne.RemoteWorker.AtMostOnce.Writes.{Left, write_state-states}

abbrev pub is_submission : Purpose → Bool
is_submission submission = true
is_submission _ = false

-- How often the scheduler's submit command was launched for a staging directory.
abbrev pub submissions : FilePath → List Launch → ℕ
submissions p [] = 0
submissions p (l ∷ rest) =
    let n = submissions p rest in
    if is_submission l.purpose then (if p == l.owner then suc n else n) else n

abbrev pub is_prepared : Phase → Bool
is_prepared prepared = true
is_prepared _ = false

-- Whether a later call may still launch: nothing is written yet, or the phase is "prepared".
abbrev pub may_launch : Option Stored → Bool
may_launch none = true
may_launch (some (valid s)) = is_prepared s.phase
may_launch (some unreadable) = false

-- A condition on what stands at the state file and on the number of submissions.
abbrev pub View : Type 1
View = Option Stored → ℕ → Type 0

-- The invariant: at most one submission, and none while a later call may launch.
abbrev pub Safe : View
Safe o n = (n ≤ 1) × (may_launch o ≡ true → n ≡ 0)

module _ (p : FilePath) where
  abbrev pub Holds : View → World → Type 0
  Holds V w = V (w.states (state_file p)) (submissions p w.launches)

  -- From `V` to `W`, and to the invariant where the action raises or is killed.
  abbrev pub Moves : {A : Type 0} → View → Exec A → View → Type 0
  Moves V m W = Triple (Holds V) m (λ _. Holds W) (Holds Safe)

module _ (p : FilePath) (V : View) (safe : (o : Option Stored) (n : ℕ) → V o n → Safe o n) where
  pub Moves-pure : {A : Type 0} (a : A) → Moves p V (pure a) V
  unfolding pure
  Moves-pure a = record { at = λ e w h. h }

  pub Moves-raise : {A : Type 0} (x : Error) → Moves p V (raise {A = A} x) V
  unfolding raise
  Moves-raise x = record { at = λ e w h. safe _ _ h }

  pub Moves-require : {A : Type 0} (x : Error) (o : Option A) → Moves p V (require x o) V
  unfolding require
  Moves-require x none = record { at = λ e w h. safe _ _ h }
  Moves-require x (some a) = record { at = λ e w h. h }

  pub Moves-lift : {A : Type 0} (r : Outcome A) → Moves p V (lift r) V
  unfolding lift
  Moves-lift (Outcome.returned a) = record { at = λ e w h. h }
  Moves-lift (Outcome.raised x) = record { at = λ e w h. safe _ _ h }
  Moves-lift Outcome.killed = record { at = λ e w h. safe _ _ h }

  pub Moves-utc_now : Moves p V utc_now V
  unfolding utc_now
  Moves-utc_now = record { at = λ e w h. h }

  pub Moves-get_user : Moves p V get_user V
  unfolding get_user
  Moves-get_user = record { at = λ e w h. h }

  pub Moves-which : (command : String) → Moves p V (which command) V
  unfolding which
  Moves-which command = record { at = λ e w h. h }

  pub Moves-file_at : (path : FilePath) → Moves p V (file_at path) V
  unfolding file_at
  Moves-file_at path = record { at = λ e w h. h }

  pub Moves-state_at : (path : FilePath) → Moves p V (state_at path) V
  unfolding state_at
  Moves-state_at path = record { at = λ e w h. h }

  pub Moves-staged_problem : (s : SubmissionState) → Moves p V (staged_problem s) V
  unfolding staged_problem
  Moves-staged_problem s = record { at = λ e w h. h }

  pub Moves-make_directories : (path : FilePath) → Moves p V (make_directories path) V
  unfolding make_directories
  Moves-make_directories path = record {
    at = λ e w h. spend-Ends (λ _. Holds p V) (Holds p Safe) w.budget _ w (λ left. h) (safe _ _ h);
  }

  pub Moves-make_new_directory : (path : FilePath) → Moves p V (make_new_directory path) V
  unfolding make_new_directory
  Moves-make_new_directory path = record {
    at = λ e w h. elim (Bool-cases (w.directories path)) [
      | inl old ↦ rw old (safe _ _ h)
      | inr new ↦
          rw new (spend-Ends (λ _. Holds p V) (Holds p Safe) w.budget _ w (λ left. h) (safe _ _ h))
    ];
  }

  pub Moves-answer : (argv : List String) → Moves p V (answer argv) V
  unfolding answer
  Moves-answer argv = record {
    at = λ e w h. (Moves-require (Error.other_exception "OSError") (e.run argv)).at e w h;
  }

  -- A query or a cancellation is no submission.
  pub Moves-run_other :
      (owner : FilePath) (purpose : Purpose) (argv : List String) (input : Option String)
      → is_submission purpose ≡ false
      → Moves p V (run_command owner purpose argv input) V
  unfolding run_command
  Moves-run_other owner purpose argv input other =
      Triple-bind (λ _. Holds p V) (record_launch owner purpose argv input) (λ _. answer argv)
        (record {
          at = λ e w h.
              spend-Ends (λ _. Holds p V) (Holds p Safe) w.budget _ w (λ left. rw other h)
                (safe _ _ h);
        })
        (λ _. Moves-answer argv)

module _ (p q : FilePath) (V W : View) (safe : (o : Option Stored) (n : ℕ) → V o n → Safe o n)
    (other : (o : Option Stored) (n : ℕ) → p ≢ q → V o n → W o n) where
  pub Moves-write :
      (s : SubmissionState)
      → ((o : Option Stored) (n : ℕ) → p ≡ q → V o n → W (some (valid s)) n)
      → Moves p V (write_state (state_file q) s) W
  Moves-write s self = record {
    at = λ e w h.
        Ends-map
          (λ _. Left p (if p == q then some (valid s) else w.states (state_file p)) w.launches)
          (λ _. Holds p W) (Left p (w.states (state_file p)) w.launches) (Holds p Safe) _
          (write_state (state_file q) s e w).1 (λ _ l. rw (l.0, l.1) (written w h))
          (λ l. rw (l.0, l.1) (safe _ _ h)) (write_state-states p q s e w);
  }
    where
      written :
          (w : World)
          → Holds p V w
          → W
              (if p == q then some (valid s) else w.states (state_file p))
              (submissions p w.launches)
      written w h = elim (Bool-cases (p == q)) [
        | inl same ↦ rw same (self _ _ ((list_beq_iff p q).0 same) h)
        | inr differ ↦ rw differ (other _ _ (ne_of_beq p q differ) h)
      ]

  pub Moves-submit :
      (argv : List String) (input : Option String)
      → ((o : Option Stored) (n : ℕ) → W o n → Safe o n)
      → ((o : Option Stored) (n : ℕ) → p ≡ q → V o n → W o (suc n))
      → Moves p V (run_command q submission argv input) W
  unfolding run_command
  Moves-submit argv input end self =
      Triple-bind (λ _. Holds p W) (record_launch q submission argv input) (λ _. answer argv)
        (record {
          at = λ e w h.
              spend-Ends (λ _. Holds p W) (Holds p Safe) w.budget _ w (λ left. launched w h)
                (safe _ _ h);
        })
        (λ _. Moves-answer p W end argv)
    where
      launched :
          (w : World)
          → Holds p V w
          → W
              (w.states (state_file p))
              (let n = submissions p w.launches in if p == q then suc n else n)
      launched w h = elim (Bool-cases (p == q)) [
        | inl same ↦ rw same (self _ _ ((list_beq_iff p q).0 same) h)
        | inr differ ↦ rw differ (other _ _ (ne_of_beq p q differ) h)
      ]
