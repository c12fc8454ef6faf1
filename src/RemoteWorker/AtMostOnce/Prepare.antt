-- ===== src/RemoteWorker/AtMostOnce/Prepare.antt =====
-- The invariant along `_prepare`, which writes "prepared" only where no state stands.
use project_bourne.Prelude.{ℕ, ◌≡◌, ap, ◌∙◌, refl, Option, none, some}
use project_bourne.Json.{Fields}
use project_bourne.RemoteWorker.Paths.{FilePath}
use project_bourne.RemoteWorker.State.{SubmissionState, Stored, Variant}
use project_bourne.RemoteWorker.Effects.{state_at}
use project_bourne.RemoteWorker.Effects.Triple.{Triple, Triple-bind, Triple-before, Triple-if}
use project_bourne.RemoteWorker.Requests.{PrepareRequest, prepare_request}
use project_bourne.RemoteWorker.Operations.{
  state_file, staging_of, same_request, initial_state, make_variant_directory, prepare_again,
  prepare_new, prepare_found, prepare,
}
use project_bourne.RemoteWorker.AtMostOnce.Actions.{safe_id, Known, Triple-read_state}
use project_bourne.RemoteWorker.AtMostOnce.Rules.{
  may_launch, View, Safe, Holds, Moves, Moves-raise, Moves-lift, Moves-utc_now, Moves-get_user,
  Moves-write, Moves-make_directories, Moves-make_new_directory,
}
use project_bourne.RemoteWorker.AtMostOnce.Others.{Stays, Stays-pure, Stays-bind}

-- No state stands at the state file of `q`, so nothing was submitted from there.
abbrev Absent : FilePath → FilePath → View
Absent p q o n = Safe o n × (p ≡ q → n ≡ 0)

module _ (p : FilePath) (r : PrepareRequest) where
  absent_safe : (o : Option Stored) (n : ℕ) → Absent p (staging_of r) o n → Safe o n
  absent_safe o n h = h.0

  Moves-prepare_new : Moves p (Absent p (staging_of r)) (prepare_new r) Safe
  unfolding prepare_new
  Moves-prepare_new =
      let V : View = Absent p (staging_of r) in
      Triple-bind (λ _. Holds p V) _ _ (Moves-make_new_directory p V absent_safe (staging_of r))
        λ _.
          Triple-bind (λ _. Holds p V) _ _ (Moves-get_user p V absent_safe)
            λ user.
              Triple-bind (λ _. Holds p V) _ _ (Moves-utc_now p V absent_safe)
                λ created.
                  Triple-bind (λ _. Holds p V) _ _ (Moves-utc_now p V absent_safe)
                    λ updated.
                      Triple-bind (λ _. Holds p Safe) _ _
                        (Moves-write p (staging_of r) V Safe absent_safe (λ o n d h. h.0)
                          (initial_state r user created updated) (λ o n e h. (h.0.0, λ _. h.1 e)))
                        λ _. Stays-pure p _

  Moves-prepare_again : (s : SubmissionState) → Stays p (prepare_again r s)
  unfolding prepare_again
  Moves-prepare_again s =
      Triple-if (same_request r s) _ _ (λ _. Stays-pure p _) λ _. Moves-raise p Safe safe_id _

  Moves-prepare_found :
      (found : Option Stored)
      → Triple
          (λ w. Holds p Safe w × (w.states (state_file (staging_of r)) ≡ found))
          (prepare_found r found)
          (λ _. Holds p Safe)
          (Holds p Safe)
  unfolding prepare_found
  Moves-prepare_found none =
      Triple-before
        (λ w h. (
          h.0,
          λ e.
              h.0.1
                (ap (λ (x : FilePath). may_launch (w.states (state_file x))) e ∙ ap may_launch h.1),
        ))
        Moves-prepare_new
  Moves-prepare_found (some found) =
      Triple-before (λ w h. h.0)
        (Triple-bind (Known p (staging_of r)) _ _
          (Triple-read_state p (staging_of r) r.execution_id)
          λ s. Triple-before (λ w h. h.0) (Moves-prepare_again s))

  Triple-found :
      Triple
        (Holds p Safe)
        (state_at (state_file (staging_of r)))
        (λ found w. Holds p Safe w × (w.states (state_file (staging_of r)) ≡ found))
        (Holds p Safe)
  unfolding state_at
  Triple-found = record { at = λ e w h. (h, refl) }

  Moves-make_variant_directory :
      (v : Option (Variant × FilePath)) → Stays p (make_variant_directory v)
  unfolding make_variant_directory
  Moves-make_variant_directory none = Stays-pure p tt
  Moves-make_variant_directory (some (variant, path)) = Moves-make_directories p Safe safe_id _

pub Moves-prepare_op : (p : FilePath) (payload : Fields) → Stays p (prepare payload)
unfolding prepare
Moves-prepare_op p payload = Stays-bind p (Moves-lift p Safe safe_id (prepare_request payload)) λ r.
    Stays-bind p (Moves-make_variant_directory p r r.variant) λ _.
      Triple-bind (λ found w. Holds p Safe w × (w.states (state_file (staging_of r)) ≡ found)) _ _
        (Triple-found p r) (Moves-prepare_found p r)
