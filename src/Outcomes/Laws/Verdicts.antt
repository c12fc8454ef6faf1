-- ===== src/Outcomes/Laws/Verdicts.antt =====
-- The state of a verification run against a description of its own: which checks the captured
-- output records meet, and which they refute.
use project_bourne.Prelude.{
  ℕ, ◌≡◌, refl, ◌∙◌, inl, inr, String, ◌==◌, string_eq, Bool, true, false, ◌&&◌, ◌||◌, not, Option,
  none, some, leb, Bool-cases, if◌then◌else◌,
}
use project_bourne.Prelude.Text.{casefold}
use project_bourne.Requests.Models.{VerificationCheckSpec}
use project_bourne.Outcomes.Models.{
  ExistenceState, present, missing, unsettled, CaptureStatus, complete, unreadable, unsupported,
  changed, Artifact,
}
use project_bourne.Outcomes.Verification.{
  verdict, exists_state, size_state, digest_state, content_state, captured_state, check_state,
  judge,
}

abbrev pub is_present : ExistenceState → Bool
is_present present = true
is_present missing = false
is_present unsettled = false

abbrev pub is_missing : ExistenceState → Bool
is_missing present = false
is_missing missing = true
is_missing unsettled = false

abbrev pub is_whole : CaptureStatus → Bool
is_whole complete = true
is_whole unreadable = false
is_whole unsupported = false
is_whole changed = false

-- Both are known, and the test holds of them.
abbrev pub both_known {ℓ} : {A : Type ℓ} → (A → A → Bool) → Option A → Option A → Bool
both_known p (some a) (some b) = p a b
both_known p none b = false
both_known p (some a) none = false

abbrev pub same_digest : String → String → Bool
same_digest expected found = casefold found == expected

-- What a check asks of the content, and what contradicts it.
unfoldable pub content_meets : VerificationCheckSpec → Artifact → Bool
content_meets c a =
    if c.type == "output_min_bytes"
    then both_known leb c.min_bytes a.size_bytes
    else both_known same_digest c.sha256 a.sha256

abbrev pub digest_differs : Option String → Option String → Bool
digest_differs expected none = false
digest_differs none (some found) = true
digest_differs (some expected) (some found) = not (same_digest expected found)

unfoldable pub content_refutes : VerificationCheckSpec → Artifact → Bool
content_refutes c a =
    if c.type == "output_min_bytes"
    then both_known (λ least size. not (leb least size)) c.min_bytes a.size_bytes
    else digest_differs c.sha256 a.sha256

-- The record of an output meets a check: the file is there, and for a check of its content it is
-- captured completely and the content is what the check asks for.
unfoldable pub meets : VerificationCheckSpec → Option Artifact → Bool
meets c none = false
meets c (some a) =
    is_present a.existence_state
    && (c.type == "output_exists" || is_whole a.capture_status && content_meets c a)

-- It refutes a check: the file is missing, or it is captured completely and the content is another.
unfoldable pub refutes : VerificationCheckSpec → Option Artifact → Bool
refutes c none = false
refutes c (some a) =
    is_missing a.existence_state
    || is_present a.existence_state
      && (not (c.type == "output_exists") && (is_whole a.capture_status && content_refutes c a))

passes : (b : Bool) → (verdict b == "passed") ≡ b
passes true = refl
passes false = refl

fails : (b : Bool) → (verdict b == "failed") ≡ not b
fails true = refl
fails false = refl

size-passed : (m n : Option ℕ) → ((size_state m n).0 == "passed") ≡ both_known leb m n
unfolding size_state
size-passed none none = refl
size-passed (some m) none = refl
size-passed none (some n) = refl
size-passed (some m) (some n) = passes (leb m n)

size-failed :
    (m n : Option ℕ)
    → ((size_state m n).0 == "failed") ≡ both_known (λ least size. not (leb least size)) m n
unfolding size_state
size-failed none none = refl
size-failed (some m) none = refl
size-failed none (some n) = refl
size-failed (some m) (some n) = fails (leb m n)

digest-passed :
    (m n : Option String) → ((digest_state m n).0 == "passed") ≡ both_known same_digest m n
unfolding digest_state
digest-passed none none = refl
digest-passed (some m) none = refl
digest-passed none (some n) = refl
digest-passed (some m) (some n) = passes (same_digest m n)

digest-failed : (m n : Option String) → ((digest_state m n).0 == "failed") ≡ digest_differs m n
unfolding digest_state
digest-failed none none = refl
digest-failed (some m) none = refl
digest-failed none (some n) = refl
digest-failed (some m) (some n) = fails (same_digest m n)

content-passed :
    (c : VerificationCheckSpec) (a : Artifact)
    → ((content_state c a).0 == "passed") ≡ content_meets c a
unfolding content_state content_meets
content-passed c a = elim (Bool-cases (c.type == "output_min_bytes")) [
  | inl p ↦ rw p (size-passed c.min_bytes a.size_bytes)
  | inr p ↦ rw p (digest-passed c.sha256 a.sha256)
]

content-failed :
    (c : VerificationCheckSpec) (a : Artifact)
    → ((content_state c a).0 == "failed") ≡ content_refutes c a
unfolding content_state content_refutes
content-failed c a = elim (Bool-cases (c.type == "output_min_bytes")) [
  | inl p ↦ rw p (size-failed c.min_bytes a.size_bytes)
  | inr p ↦ rw p (digest-failed c.sha256 a.sha256)
]

exists-states :
    (e : ExistenceState)
    → (((exists_state e).0 == "passed") ≡ is_present e)
      × (((exists_state e).0 == "failed") ≡ is_missing e)
unfolding exists_state
exists-states present = (refl, refl)
exists-states missing = (refl, refl)
exists-states unsettled = (refl, refl)

captured-passed :
    (e : ExistenceState) (s : CaptureStatus) (c : VerificationCheckSpec) (a : Artifact)
    → ((captured_state e s c a).0 == "passed") ≡ (is_present e && (is_whole s && content_meets c a))
unfolding captured_state
captured-passed missing s c a = refl
captured-passed unsettled s c a = refl
captured-passed present complete c a = content-passed c a
captured-passed present unreadable c a = refl
captured-passed present unsupported c a = refl
captured-passed present changed c a = refl

captured-failed :
    (e : ExistenceState) (s : CaptureStatus) (c : VerificationCheckSpec) (a : Artifact)
    → ((captured_state e s c a).0 == "failed")
      ≡ (is_missing e || is_present e && (is_whole s && content_refutes c a))
unfolding captured_state
captured-failed missing s c a = refl
captured-failed unsettled s c a = refl
captured-failed present complete c a = content-failed c a
captured-failed present unreadable c a = refl
captured-failed present unsupported c a = refl
captured-failed present changed c a = refl

-- What remains of the tests for a check of existence.
exists_only :
    (e : ExistenceState) (x y : Bool)
    → (is_present e ≡ (is_present e && (true || x)))
      × (is_missing e ≡ (is_missing e || is_present e && (false && y)))
exists_only present x y = (refl, refl)
exists_only missing x y = (refl, refl)
exists_only unsettled x y = (refl, refl)

pub judge-passed :
    (c : VerificationCheckSpec) (o : Option Artifact) → ((judge c o).0 == "passed") ≡ meets c o
unfolding judge check_state meets
judge-passed c none = refl
judge-passed c (some a) = elim (Bool-cases (c.type == "output_exists")) [
  | inl p ↦ rw p (
      (exists-states a.existence_state).0
      ∙ (exists_only a.existence_state (is_whole a.capture_status && content_meets c a) true).0)
  | inr p ↦ rw p (captured-passed a.existence_state a.capture_status c a)
]

pub judge-failed :
    (c : VerificationCheckSpec) (o : Option Artifact) → ((judge c o).0 == "failed") ≡ refutes c o
unfolding judge check_state refutes
judge-failed c none = refl
judge-failed c (some a) = elim (Bool-cases (c.type == "output_exists")) [
  | inl p ↦ rw p (
      (exists-states a.existence_state).1
      ∙ (exists_only a.existence_state true (is_whole a.capture_status && content_refutes c a)).1)
  | inr p ↦ rw p (captured-failed a.existence_state a.capture_status c a)
]
