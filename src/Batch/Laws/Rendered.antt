-- ===== src/Batch/Laws/Rendered.antt =====
-- The whole script of `render_batch_script` of backends.py.
use project_bourne.Prelude.{◌≡◌, refl, String, ◌<>◌, true, Option, List, [], ◌∷◌, nat_eq, All, ◌++◌}
use project_bourne.Prelude.Checks.{
  Checked, value, refused, guard, Holds, Holds-bind, Holds-any, guarded,
}
use project_bourne.Resolver.Models.{Backend, ExecutionPlan}
use project_bourne.Batch.Script.{
  safe_target, directives, is_scheduler, ScriptPaths, script_lines, batch_lines,
}
use project_bourne.Batch.Laws.Lines.{OneLine, OneLines}
use project_bourne.Batch.Laws.Marks.{Marked, Marks}
use project_bourne.Batch.Laws.Markers.{marker_of, directives-Marks}
use project_bourne.Batch.Laws.Scripts.{directives-Lines}

-- One option of the scheduler: a comment with its marker, on one line.
abbrev pub IsOption : Backend → String → Type 0
IsOption family s = OneLine s × Marked (marker_of family) s

both :
    (marker : String) (xs : List String)
    → OneLines xs
    → Marks marker xs
    → All (λ s. OneLine s × Marked marker s) xs
unfolding OneLines Marks
both marker [] h k = tt
both marker (x ∷ xs) h k = ((h.0, k.0), both marker xs h.1 k.1)

Holds-both :
    (marker : String) (m : Checked (List String))
    → Holds OneLines m
    → Holds (Marks marker) m
    → Holds (All (λ s. OneLine s × Marked marker s)) m
Holds-both marker (value xs) h k = both marker xs h k
Holds-both marker (refused why) h k = tt

-- The lines of a job script: the shell, options of the scheduler, and the command with every
-- argument quoted, under the first Python that is found.
unfoldable pub IsScript : (String → String) → Backend → ScriptPaths → String → List String → Type 0
IsScript quote family paths execution_id lines =
    let arguments =
      quote paths.worker
      <> (" "
          <> (quote paths.plan <> (" " <> (quote paths.result <> (" " <> quote execution_id))))) in
    (options : List String) × All (IsOption family) options
    × (lines
        ≡ "#!/bin/sh" ∷ options
          ++ ("set -eu"
              ∷ "if command -v python3 >/dev/null 2>&1; then"
              ∷ ("  exec python3 " <> arguments)
              ∷ "elif command -v python >/dev/null 2>&1; then"
              ∷ ("  exec python " <> arguments)
              ∷ "else"
              ∷ "  echo 'bourne worker requires a Python 3 runtime' >&2"
              ∷ "  exit 70"
              ∷ "fi"
              ∷ ""
              ∷ []))

-- Every batch script that is rendered is the line "#!/bin/sh", then options of one line each
-- that begin with the marker of the scheduler ("#SBATCH --", "#PBS -" or "#BSUB -"), then "set
-- -eu" and the fixed lines that run the worker with the quoted paths and the quoted execution
-- identity.
pub batch_lines-IsScript :
    (quote : String → String) (family : Backend) (plan : ExecutionPlan) (paths : ScriptPaths)
    (execution_id : String) (target : Option String)
    → Holds
        (IsScript quote family paths execution_id)
        (batch_lines quote family plan paths execution_id target)
unfolding batch_lines script_lines IsScript
batch_lines-IsScript quote family plan paths execution_id target =
    Holds-bind (λ _. Unit {0}) _ (guard (is_scheduler family) _) _ (Holds-any _)
      λ _ u.
        Holds-bind (λ _. safe_target target ≡ true) _ (guard (safe_target target) _) _
          (guarded (safe_target target) _)
          λ _ t.
            Holds-bind (All (IsOption family)) _ (directives family plan target) _ (options t)
              λ found h. (found, h, refl)
  where
    options :
        safe_target target ≡ true → Holds (All (IsOption family)) (directives family plan target)
    options t =
        Holds-both (marker_of family) (directives family plan target)
          (directives-Lines family plan target t) (directives-Marks family plan target)
