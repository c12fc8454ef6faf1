-- ===== src/RemoteWorker/Verified.antt =====
-- `_submit` of remote_worker.py launches nothing that was not verified.
use project_bourne.Prelude.{
  ◌≡◌, refl, Bool, true, false, ◌&&◌, ◌==◌, string_eq, ◌∷◌, String, Option, none, some, arith,
}
use project_bourne.Json.{Fields}
use project_bourne.RemoteWorker.Paths.{FilePath, parse_path}
use project_bourne.RemoteWorker.State.{
  Phase, prepared, submitting, ambiguous, submission_failed, submitted, cancelled, ExpectedFiles,
  Variant, SubmissionState, Status,
}
use project_bourne.RemoteWorker.Effects.{
  World, Env, Outcome, returned, raised, killed, pure, continue, utc_now, write_state, lift,
  state_at,
}
use project_bourne.RemoteWorker.Operations.{save, save_and_reply, state_of, read_state}
use project_bourne.RemoteWorker.Operations.Submit.{
  first_of_two, changed_file, changed_variant, staged_problem, submit_checked, submit_from, submit,
}
use project_bourne.RemoteWorker.AtMostOnce.Rules.{is_prepared}

abbrev is_none {ℓ} : {A : Type ℓ} → Option A → Bool
is_none none = true
is_none (some a) = false

-- The file stands there and has the digest.
abbrev is_intact : World → FilePath → String → Bool
is_intact w path digest = elim (w.files path) [ none ↦ false | some file ↦ file.sha256 == digest ]

unfoldable pub files_intact : FilePath → ExpectedFiles → World → Bool
files_intact staging expected w =
    is_intact w ("job.sh" ∷ staging) expected.job
    && is_intact w ("plan.json" ∷ staging) expected.plan
    && is_intact w ("worker.pyz" ∷ staging) expected.worker

unfoldable pub variant_intact : Option Variant → World → Bool
variant_intact none w = true
variant_intact (some variant) w = is_intact w (parse_path variant.remote_path) variant.sha256

-- The phase is "prepared", and each staged file and the variant have the digests of the state file.
unfoldable pub is_verified : SubmissionState → World → Bool
is_verified s w =
    is_prepared s.phase
    && files_intact s.staging_directory s.expected_files w
    && variant_intact s.expected_variant w

changed_file-intact :
    (staging : FilePath) (expected : ExpectedFiles) (w : World)
    → is_none (changed_file staging expected w) ≡ files_intact staging expected w
unfolding changed_file files_intact
changed_file-intact staging expected w = ground arith

changed_variant-intact :
    (variant : Option Variant) (w : World)
    → is_none (changed_variant variant w) ≡ variant_intact variant w
unfolding changed_variant variant_intact
changed_variant-intact none w = refl
changed_variant-intact (some variant) w = ground arith

unfoldable pub verified : Outcome (FilePath × SubmissionState) → World → Bool
verified (returned (q, s)) w = is_verified s w
verified _ w = false

saved-launches :
    (q : FilePath) (st : Status) (s : SubmissionState) (e : Env) (w : World)
    → (save_and_reply q st s e w).1.launches ≡ w.launches
unfolding save_and_reply save write_state utc_now pure
saved-launches q st s e w = ground arith

checked-launches :
    (q : FilePath) (s : SubmissionState) (e : Env) (w : World) (a b : Option String)
    → (is_none a && is_none b) ≡ false
    → (submit_checked q s (first_of_two a b) e w).1.launches ≡ w.launches
unfolding submit_checked pure
checked-launches q s e w none none h = ground arith
checked-launches q s e w none (some d) h = refl
checked-launches q s e w (some d) b h = refl

submit_from-launches :
    (q : FilePath) (s : SubmissionState) (f : Phase) (e : Env) (w : World)
    → (is_prepared f
        && files_intact s.staging_directory s.expected_files w
        && variant_intact s.expected_variant w)
      ≡ false
    → (submit_from q s f e w).1.launches ≡ w.launches
unfolding submit_from pure staged_problem
submit_from-launches q s submitted e w h = refl
submit_from-launches q s submission_failed e w h = refl
submit_from-launches q s cancelled e w h = refl
submit_from-launches q s submitting e w h = saved-launches q _ _ e w
submit_from-launches q s ambiguous e w h = saved-launches q _ _ e w
submit_from-launches q s prepared e w h =
    checked-launches q s e w (changed_file s.staging_directory s.expected_files w)
      (changed_variant s.expected_variant w)
      (ground (
        arith,
        h,
        changed_file-intact s.staging_directory s.expected_files w,
        changed_variant-intact s.expected_variant w,
      ))

after_reading :
    (r : Outcome (FilePath × SubmissionState)) (e : Env) (w : World)
    → verified r w ≡ false
    → (continue r (λ (q, s). submit_from q s s.phase) e w).1.launches ≡ w.launches
unfolding verified is_verified
after_reading (returned (q, s)) e w h = submit_from-launches q s s.phase e w h
after_reading (raised x) e w h = refl
after_reading killed e w h = refl

state_of-world : (payload : Fields) (e : Env) (w : World) → (state_of payload e w).1 ≡ w
unfolding state_of read_state state_at lift pure
state_of-world payload e w = ground arith

-- A submission launches nothing unless the payload names a directory whose state file says
-- "prepared", and the three staged files and the variant have the digests that it holds.
pub submit-verified :
    (payload : Fields) (e : Env) (w : World)
    → verified (state_of payload e w).0 w ≡ false
    → (submit payload e w).1.launches ≡ w.launches
unfolding submit
submit-verified payload e w h = grind (arith, after_reading, state_of-world)
