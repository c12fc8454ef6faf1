-- ===== src/RemoteWorker/Requests.antt =====
-- What remote_worker.py accepts: the envelope (`_request_payload`) and the payloads of `_prepare`
-- and of the operations on a prepared execution (`_execution`, `_absolute_path`, `_state`).
use project_bourne.Prelude.{
  ℕ, String, ◌<>◌, ◌==◌, nat_eq, string_eq, Bool, ◌&&◌, ◌||◌, Option, none, some, List, [], ◌∷◌,
  leb, all, contains, if◌then◌else◌,
}
use project_bourne.Prelude.Text.{is_digit, is_hex, all_chars, text_length}
use project_bourne.Json.{
  Json, null, str, arr, obj, Fields, end, field, get, keys, equals_number, equals_text,
}
use project_bourne.RemoteWorker.Paths.{
  FilePath, PathCheck, accepted, not_absolute, traversing, is_under, absolute_path,
  is_execution_path,
}
use project_bourne.RemoteWorker.State.{Family, slurm, pbs, lsf, ExpectedFiles, Variant}
use project_bourne.RemoteWorker.Effects.{
  remote_worker_error, other_exception, Outcome, returned, raised, killed,
}

-- A check that may raise, before anything is touched.
infixl 10 ◌>>=◌ ◌>>◌
abbrev ◌>>=◌ : {A B : Type 0} → Outcome A → (A → Outcome B) → Outcome B
returned a >>= f = f a
raised x >>= f = raised x
killed >>= f = killed

abbrev ◌>>◌ : {B : Type 0} → Outcome (Unit {0}) → Outcome B → Outcome B
m >> k = m >>= λ _. k

abbrev refuse : {A : Type 0} → String → Outcome A
refuse message = raised (remote_worker_error message)

abbrev guard : Bool → String → Outcome (Unit {0})
guard holds message = if holds then returned tt else refuse message

-- REMOTE_PROTOCOL and REMOTE_PROTOCOL_VERSION of remote_transport.py
abbrev remote_protocol : String
remote_protocol = "bourne.remote-worker"

abbrev remote_protocol_version : ℕ
remote_protocol_version = 1

payload_of : Json → Outcome Fields
payload_of (obj payload) = returned payload
payload_of _ = refuse "remote operation envelope does not match invocation"

-- `_request_payload`
unfoldable pub request_payload : Json → String → Outcome Fields
unfolding payload_of
request_payload (obj value) operation = do
  guard (equals_text (get value "protocol") remote_protocol) "remote request protocol is invalid"
  guard (equals_number (get value "protocol_version") remote_protocol_version)
      "remote protocol version is incompatible"
  guard (equals_text (get value "operation") operation)
      "remote operation envelope does not match invocation"
  payload_of (get value "payload")
request_payload _ operation = refuse "remote request must be an object"

-- `[0-9A-HJKMNP-TV-Z]`
abbrev pub is_crockford : ℕ → Bool
is_crockford c =
    is_digit c
    || leb b'A' c && leb c b'H'
    || leb b'J' c && leb c b'K'
    || leb b'M' c && leb c b'N'
    || leb b'P' c && leb c b'T'
    || leb b'V' c && leb c b'Z'

-- `_EXECUTION_ID`
unfoldable pub is_execution_id : String → Bool
is_execution_id s = text_length s == 26 && all_chars is_crockford s

-- `_execution`
unfoldable pub execution : Json → Outcome String
execution (str s) =
    if is_execution_id s then returned s else refuse "canonical execution identity is required"
execution _ = refuse "canonical execution identity is required"

path_of : String → PathCheck → Outcome FilePath
path_of label (accepted path) = returned path
path_of label not_absolute = refuse (label <> " must be an absolute path")
path_of label traversing = refuse (label <> " cannot traverse parent directories")

-- `_absolute_path`
unfoldable pub absolute : Json → String → Outcome FilePath
unfolding path_of
absolute (str s) label = path_of label (absolute_path s)
absolute _ label = refuse (label <> " must be an absolute path")

-- `family not in {"slurm", "pbs", "lsf"}`; a list or a dict is not hashable.
unfoldable pub family_of : Json → Outcome Family
family_of (str s) =
    if s == "slurm"
    then returned slurm
    else if s == "pbs"
    then returned pbs
    else if s == "lsf"
    then returned lsf
    else refuse "remote preparation requires Slurm, PBS, or LSF"
family_of (arr items) = raised (other_exception "TypeError")
family_of (obj fields) = raised (other_exception "TypeError")
family_of _ = refuse "remote preparation requires Slurm, PBS, or LSF"

-- `[0-9a-f]{64}`
abbrev pub is_digest : String → Bool
is_digest s = text_length s == 64 && all_chars is_hex s

-- `re.fullmatch` raises a TypeError on what is no text.
digest_of : String → Json → Outcome String
digest_of message (str s) = if is_digest s then returned s else refuse message
digest_of message _ = raised (other_exception "TypeError")

-- `all(re.fullmatch(...) for item in expected.values())`
check_digests : Fields → Outcome (Unit {0})
unfolding digest_of
check_digests end = returned tt
check_digests (field k v rest) =
    let others = check_digests rest in digest_of "staged-file digest is invalid" v >>= λ _. others

-- `set(fields) == set(names)`
abbrev has_exactly : Fields → List String → Bool
has_exactly fields names = all (contains names) (keys fields) && all (contains (keys fields)) names

unfoldable pub expected_of : Json → Outcome ExpectedFiles
unfolding check_digests digest_of
expected_of (obj fields) = do
  guard (has_exactly fields ("worker.pyz" ∷ "plan.json" ∷ "job.sh" ∷ []))
      "remote preparation requires exact staged-file digests"
  check_digests fields
  job ← digest_of "staged-file digest is invalid" (get fields "job.sh")
  plan ← digest_of "staged-file digest is invalid" (get fields "plan.json")
  worker ← digest_of "staged-file digest is invalid" (get fields "worker.pyz")
  returned (record { job = job; plan = plan; worker = worker })
expected_of _ = refuse "remote preparation requires exact staged-file digests"

text_of : Json → String
text_of (str s) = s
text_of _ = ""

-- The variant of a request, with its path parsed: under the staging root's variants directory.
unfoldable pub variant_of : FilePath → Json → Outcome (Option (Variant × FilePath))
unfolding digest_of text_of
variant_of staging_root null = returned none
variant_of staging_root (obj fields) = do
  guard (has_exactly fields ("remote_path" ∷ "sha256" ∷ []))
      "remote variant staging request is invalid"
  path ← absolute (get fields "remote_path") "variant path"
  guard (is_under ("variants" ∷ ".bourne" ∷ staging_root) path)
      "variant path is outside Bourne staging"
  digest ← digest_of "variant digest is invalid" (get fields "sha256")
  returned
      (some (record { remote_path = text_of (get fields "remote_path"); sha256 = digest }, path))
variant_of staging_root _ = refuse "remote variant staging request is invalid"

pub record PrepareRequest : Type 0 where
  pub execution_id : String
  pub staging_root : FilePath
  pub scheduler_family : Family
  pub expected : ExpectedFiles
  pub variant : Option (Variant × FilePath)

-- The checks of `_prepare`, in its order.
unfoldable pub prepare_request : Fields → Outcome PrepareRequest
prepare_request payload = do
  execution_id ← execution (get payload "execution_id")
  staging_root ← absolute (get payload "staging_root") "staging root"
  family ← family_of (get payload "scheduler_family")
  expected ← expected_of (get payload "expected_files")
  variant ← variant_of staging_root (get payload "variant")
  returned (record {
    execution_id = execution_id;
    staging_root = staging_root;
    scheduler_family = family;
    expected = expected;
    variant = variant;
  })

-- The checks before `_read_state` in `_submit`, `_reconcile` and `_cancel`.
unfoldable pub staging_request : Fields → Outcome (String × FilePath)
staging_request payload = do
  execution_id ← execution (get payload "execution_id")
  staging ← absolute (get payload "staging_directory") "staging directory"
  guard (is_execution_path staging execution_id) "staging directory is not a Bourne execution path"
  returned (execution_id, staging)
