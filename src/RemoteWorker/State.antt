-- ===== src/RemoteWorker/State.antt =====
-- The contents of submission-state.json, as `_prepare`, `_submit`, `_reconcile` and `_cancel` of
-- remote_worker.py write it, and `_public_state`.
use project_bourne.Prelude.{String, ◌==◌, string_eq, Bool, true, false, ◌&&◌, Option, none, some}
use project_bourne.RemoteWorker.Paths.{FilePath}

-- scheduler_family
pub data Family : Type 0 where
  slurm pbs lsf : Family

abbrev pub family_beq : Family → Family → Bool
family_beq slurm slurm = true
family_beq pbs pbs = true
family_beq lsf lsf = true
family_beq _ _ = false

-- state["state"]
pub data Phase : Type 0 where
  prepared submitting ambiguous submission_failed submitted cancelled : Phase

-- The digests of exactly the three staged files; the JSON text sorts the names.
pub record ExpectedFiles : Type 0 where
  pub job : String
  pub plan : String
  pub worker : String

abbrev pub expected_beq : ExpectedFiles → ExpectedFiles → Bool
expected_beq a b = a.job == b.job && (a.plan == b.plan && a.worker == b.worker)

-- The variant of the request: its path as a text, the same path parsed, and its digest.
pub record Variant : Type 0 where
  pub remote_path : String
  pub sha256 : String

abbrev pub variant_beq : Option Variant → Option Variant → Bool
variant_beq none none = true
variant_beq (some a) (some b) = a.remote_path == b.remote_path && a.sha256 == b.sha256
variant_beq _ _ = false

pub record SubmissionState : Type 0 where
  pub execution_id : String
  pub phase : Phase
  pub scheduler_family : Family
  pub submitting_identity : String
  pub staging_directory : FilePath
  pub expected_files : ExpectedFiles
  pub expected_variant : Option Variant
  pub created_at : String
  pub updated_at : String
  pub diagnostic : Option String
  pub job_id : Option String
  pub submitted_at : Option String

-- `_public_state`: the state without the expected files and the expected variant.
pub record PublicState : Type 0 where
  pub execution_id : String
  pub phase : Phase
  pub scheduler_family : Family
  pub submitting_identity : String
  pub staging_directory : FilePath
  pub created_at : String
  pub updated_at : String
  pub diagnostic : Option String
  pub job_id : Option String
  pub submitted_at : Option String

unfoldable pub public_state : SubmissionState → PublicState
public_state s = record {
  execution_id = s.execution_id;
  phase = s.phase;
  scheduler_family = s.scheduler_family;
  submitting_identity = s.submitting_identity;
  staging_directory = s.staging_directory;
  created_at = s.created_at;
  updated_at = s.updated_at;
  diagnostic = s.diagnostic;
  job_id = s.job_id;
  submitted_at = s.submitted_at;
}

-- What stands at the path of a state file: a state, or a text that `_read_state` refuses.
pub data Stored : Type 0 where
  valid : SubmissionState → Stored
  unreadable : Stored

-- The response's status.
pub data Status : Type 0 where
  ok failed ambiguous unavailable unknown : Status
