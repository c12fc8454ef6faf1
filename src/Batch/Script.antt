-- ===== src/Batch/Script.antt =====
-- `render_batch_script`, `_target_name` and `_planned_execution_argv` of backends.py. `shlex.quote`
-- is a parameter, as it is the Python library's.
use project_bourne.Prelude.{
  ℕ, String, ◌<>◌, ◌==◌, nat_eq, string_eq, Bool, true, false, ◌&&◌, ◌||◌, not, Option, none, some,
  List, [], ◌∷◌, ◌++◌, find, map, if◌then◌else◌,
}
use project_bourne.Prelude.Text.{is_digit, is_letter, is_empty_text, all_chars}
use project_bourne.Prelude.Checks.{Checked, value, refused, ◌>>=◌, ◌>>◌, guard}
use project_bourne.Planning.Container.{ContainerMount}
use project_bourne.Resolver.Models.{
  Backend, direct, slurm, pbs, lsf, DiscoveredTarget, InventorySnapshot, ExecutionPlan,
}
use project_bourne.Batch.Slurm.{slurm_directives}
use project_bourne.Batch.Pbs.{join, pbs_directives}
use project_bourne.Batch.Lsf.{lsf_directives}

-- `[A-Za-z0-9_.+-]`
abbrev pub is_name_char : ℕ → Bool
is_name_char c = is_letter c || is_digit c || c == b'_' || c == b'.' || c == b'+' || c == b'-'

-- _SAFE_SCHEDULER_NAME
abbrev pub safe_scheduler_name : String → Bool
safe_scheduler_name s = not (is_empty_text s) && all_chars is_name_char s

abbrev pub safe_target : Option String → Bool
safe_target none = true
safe_target (some name) = safe_scheduler_name name

unfoldable pub directives : Backend → ExecutionPlan → Option String → Checked (List String)
directives direct plan target_name = refused "unsupported scheduler family"
directives slurm plan target_name = slurm_directives plan target_name
directives pbs plan target_name = pbs_directives plan target_name
directives lsf plan target_name = lsf_directives plan target_name

abbrev pub is_scheduler : Backend → Bool
is_scheduler direct = false
is_scheduler _ = true

-- The paths of a script's command, as texts.
pub record ScriptPaths : Type 0 where
  pub worker : String
  pub plan : String
  pub result : String

-- `command`
abbrev pub command_line : (String → String) → ScriptPaths → String → String
command_line quote paths execution_id =
    join " " (map quote (paths.worker ∷ paths.plan ∷ paths.result ∷ execution_id ∷ []))

unfoldable pub script_lines : List String → String → List String
script_lines directive_lines command =
    ("#!/bin/sh" ∷ directive_lines)
    ++ ("set -eu"
        ∷ "if command -v python3 >/dev/null 2>&1; then"
        ∷ ("  exec python3 " <> command)
        ∷ "elif command -v python >/dev/null 2>&1; then"
        ∷ ("  exec python " <> command)
        ∷ "else"
        ∷ "  echo 'bourne worker requires a Python 3 runtime' >&2"
        ∷ "  exit 70"
        ∷ "fi"
        ∷ ""
        ∷ [])

-- The lines that `render_batch_script` joins.
unfoldable pub batch_lines :
    (String → String)
    → Backend
    → ExecutionPlan
    → ScriptPaths
    → String
    → Option String
    → Checked (List String)
batch_lines quote family plan paths execution_id target_name = do
  guard (is_scheduler family) "unsupported scheduler family"
  guard (safe_target target_name) "scheduler target name contains unsafe characters"
  found ← directives family plan target_name
  value (script_lines found (command_line quote paths execution_id))

-- `render_batch_script`
unfoldable pub render_batch_script :
    (String → String)
    → Backend
    → ExecutionPlan
    → ScriptPaths
    → String
    → Option String
    → Checked String
render_batch_script quote family plan paths execution_id target_name = do
  lines ← batch_lines quote family plan paths execution_id target_name
  value (join "\n" lines)

named_target : Option DiscoveredTarget → Checked (Option String)
named_target none = refused "execution target is absent from the plan inventory"
named_target (some target) = value (some target.name)

-- `_target_name`
unfoldable pub target_name_of : ExecutionPlan → InventorySnapshot → Checked (Option String)
unfolding named_target
target_name_of plan inventory = elim plan.execution_target_id [
  | none ↦ value none
  | some id ↦ named_target (find (λ t. t.id == id) inventory.targets)
]

-- `--bind` and the specification of one mount.
unfoldable pub mount_specification : ContainerMount → String
mount_specification m =
    let both = m.source <> (":" <> m.destination) in if m.read_only then both <> ":ro" else both

abbrev pub bind_arguments : List ContainerMount → List String
bind_arguments [] = []
bind_arguments (m ∷ mounts) = "--bind" ∷ mount_specification m ∷ bind_arguments mounts

-- `ExecutionPlan.argv`
abbrev pub plan_argv : ExecutionPlan → List String
plan_argv plan = plan.executable ∷ plan.arguments

-- `_planned_execution_argv`
unfoldable pub planned_execution_argv : ExecutionPlan → List String
planned_execution_argv plan = elim plan.container [
  | none ↦ plan_argv plan
  | some c ↦
      (c.runtime ∷ "exec" ∷ (if c.clean_environment then "--cleanenv" ∷ [] else []))
      ++ ("--pwd" ∷ plan.working_directory ∷ bind_arguments c.mounts)
      ++ (c.image ∷ plan_argv plan)
]
