-- ===== src/RemoteWorker/AtMostOnce/Writes.antt =====
-- What `_write_state` leaves at the state file of any staging directory.
use Prim.Native.String.append
use project_bourne.Prelude.{
  ◌+◌, ◌<◌, String, ◌<>◌, ◌==◌, string_eq, list_eq, eq_iff, string_beq, sym, inl, inr, ◌≡◌, ap, ◌≢◌,
  false, Option, some, List, arith, refl, list_beq_iff, Bool-cases, if◌then◌else◌,
}
use project_bourne.Prelude.Text.{text_length}
use project_bourne.RemoteWorker.Paths.{FilePath}
use project_bourne.RemoteWorker.State.{SubmissionState, Stored, valid}
use project_bourne.RemoteWorker.Effects.{World, Env, Launch, write_state}
use project_bourne.RemoteWorker.Effects.Triple.{Ends, Triple, Anything}
use project_bourne.RemoteWorker.Operations.{state_file}

text_length-append : (s t : String) → text_length (s <> t) ≡ text_length s + text_length t
text_length-append String.[] t = rw append.nil (omega arith)
text_length-append (String.◌∷◌ c s) t = rw append.cons (omega (arith, text_length-append s t))

append-ne_self : (s t : String) → 0 < text_length t → (s <> t) ≢ s
append-ne_self s t h e = omega (arith, text_length-append s t, ap text_length e)

-- The temporary file of one state is no state file.
pub temporary_name :
    (pid : String)
    → string_beq "submission-state.json" ("submission-state.json" <> (".tmp-" <> pid)) ≡ false
temporary_name pid =
    elim (Bool-cases
      (string_beq "submission-state.json" ("submission-state.json" <> (".tmp-" <> pid)))) [
        | inl same ↦ absurd (
            append-ne_self "submission-state.json" (".tmp-" <> pid)
              (omega (arith, text_length-append ".tmp-" pid)) (sym ((eq_iff _ _).0 same)))
        | inr differ ↦ differ
      ]

-- What stands at the state file of `p`, and what was launched.
abbrev pub Left : FilePath → Option Stored → List Launch → World → Type 0
Left p o launches w = (w.states (state_file p) ≡ o) × (w.launches ≡ launches)

-- A write that returns leaves the state at the state file of `q`. Whatever happens, no other
-- state file changes, and nothing is launched.
pub write_state-states :
    (p q : FilePath) (s : SubmissionState) (e : Env) (w : World)
    → let (r, w') = write_state (state_file q) s e w in
      Ends
        (λ _. Left p (if p == q then some (valid s) else w.states (state_file p)) w.launches)
        (Left p (w.states (state_file p)) w.launches)
        r
        w'
unfolding write_state
write_state-states p q s e w = ground (arith, temporary_name e.pid)

-- A write that returns leaves the state at its file.
pub wrote :
    (q : FilePath) (s : SubmissionState)
    → Triple Anything
        (write_state (state_file q) s)
        (λ _ w. w.states (state_file q) ≡ some (valid s))
        Anything
unfolding write_state
wrote q s = record { at = λ e w h. ground (arith, temporary_name e.pid, (list_beq_iff q q).1 refl) }
