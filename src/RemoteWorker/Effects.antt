-- ===== src/RemoteWorker/Effects.antt =====
-- One invocation of the worker as an action on the login node: files, clock, scheduler commands.
-- Each durable effect uses one unit of `budget`; an invocation whose budget is used up is killed
-- there, and what it wrote before stays. Exceptions are values, as `main` catches them all.
pub mod Triple
use project_bourne.Prelude.{
  ℕ, zero, suc, ◌+◌, String, ◌<>◌, ◌==◌, string_eq, list_eq, Bool, true, false, Option, none, some,
  List, [], ◌∷◌, if◌then◌else◌,
}
use project_bourne.Prelude.Int.{ℤ}
use project_bourne.Json.{Json}
use project_bourne.RemoteWorker.Paths.{FilePath}
use project_bourne.RemoteWorker.State.{SubmissionState, Stored, valid, unreadable}

-- A regular file as the worker reads it: its size, its SHA-256 in hexadecimal, its text and what
-- `json.loads` returns for the text.
pub record File : Type 0 where
  pub size : ℕ
  pub sha256 : String
  pub text : String
  pub parsed : Option Json

-- `BoundedCommandResult`
pub record CommandResult : Type 0 where
  pub returncode : Option ℤ
  pub stdout : String
  pub stderr : String
  pub timed_out : Bool

pub data Purpose : Type 0 where
  submission query cancellation : Purpose

-- A command that was launched, for whose staging directory and for what.
pub record Launch : Type 0 where
  pub owner : FilePath
  pub purpose : Purpose
  pub argv : List String
  pub input : Option String

pub record World : Type 0 where
  pub files : FilePath → Option File
  pub states : FilePath → Option Stored
  pub directories : FilePath → Bool
  pub launches : List Launch
  pub ticks : ℕ
  pub budget : ℕ

-- What the machine answers during one invocation. `run` gives `none` for an OSError.
pub record Env : Type 0 where
  pub which : String → Option String
  pub clock : ℕ → String
  pub user : String
  pub pid : String
  pub run : List String → Option CommandResult

pub data Error : Type 0 where
  remote_worker_error : String → Error
  other_exception : String → Error

pub data Outcome {ℓ} (A : Type ℓ) : Type ℓ where
  returned : A → Outcome A
  raised : Error → Outcome A
  killed : Outcome A

abbrev pub Exec : Type 0 → Type 0
Exec A = Env → World → Outcome A × World

module _ {A B : Type 0} where
  abbrev pub continue : Outcome A → (A → Exec B) → Exec B
  continue (returned a) f e w = f a e w
  continue (raised x) f e w = (raised x, w)
  continue killed f e w = (killed, w)

  infixl 10 ◌>>=◌ ◌>>◌
  abbrev pub ◌>>=◌ : Exec A → (A → Exec B) → Exec B
  ◌>>=◌ m f e w = let (r, w') = m e w in continue r f e w'

  abbrev pub ◌>>◌ : Exec A → Exec B → Exec B
  m >> k = m >>= λ _. k

unfoldable pub pure : {A : Type 0} → A → Exec A
pure a e w = (returned a, w)

unfoldable pub raise : {A : Type 0} → Error → Exec A
raise x e w = (raised x, w)

unfoldable pub lift : {A : Type 0} → Outcome A → Exec A
lift r e w = (r, w)

-- The value of an `Option`, or an exception.
unfoldable pub require : {A : Type 0} → Error → Option A → Exec A
require x none e w = (raised x, w)
require x (some a) e w = (returned a, w)

-- `utc_now()`
unfoldable pub utc_now : Exec String
utc_now e w = (returned (e.clock w.ticks), record w { ticks = w.ticks + 1 })

-- `getpass.getuser()`
unfoldable pub get_user : Exec String
get_user e w = (returned e.user, w)

-- `shutil.which(command)`
unfoldable pub which : String → Exec (Option String)
which command e w = (returned (e.which command), w)

unfoldable pub file_at : FilePath → Exec (Option File)
file_at path e w = (returned (w.files path), w)

unfoldable pub state_at : FilePath → Exec (Option Stored)
state_at path e w = (returned (w.states path), w)

unfoldable pub directory_at : FilePath → Exec Bool
directory_at path e w = (returned (w.directories path), w)

abbrev pub spend : ℕ → (World → World) → World → Outcome (Unit {0}) × World
spend zero effect w = (killed, w)
spend (suc left) effect w = (returned tt, effect (record w { budget = left }))

abbrev pub update : {A : Type 0} → (FilePath → A) → FilePath → A → FilePath → A
update f path a q = if q == path then a else f q

-- Whether a path is `path` or one of its parents.
abbrev pub is_part_of : FilePath → FilePath → Bool
is_part_of path [] = false
is_part_of path (last ∷ rest) =
    let above = is_part_of path rest in if path == (last ∷ rest) then true else above

-- `path.mkdir(parents=True, exist_ok=True)`, where the file system lets it make the directories.
unfoldable pub make_directories : FilePath → Exec (Unit {0})
make_directories path e w =
    spend w.budget
      (λ v. record v { directories = λ q. if is_part_of q path then true else v.directories q }) w

-- `path.mkdir(parents=True, exist_ok=False)`
unfoldable pub make_new_directory : FilePath → Exec (Unit {0})
unfolding make_directories
make_new_directory path e w =
    if w.directories path
    then (raised (other_exception "FileExistsError"), w)
    else make_directories path e w

abbrev write_temporary : FilePath → SubmissionState → Exec (Unit {0})
write_temporary temporary s e w = elim (w.states temporary) [
  | some _ ↦ (raised (other_exception "FileExistsError"), w)
  | none ↦ spend w.budget (λ v. record v { states = update v.states temporary (some (valid s)) }) w
]

abbrev replace : FilePath → FilePath → SubmissionState → Exec (Unit {0})
replace temporary path s e w =
    spend w.budget
      (λ v. record v { states = update (update v.states path (some (valid s))) temporary none }) w

-- `path.with_name(path.name + suffix)`
abbrev pub with_suffix : String → FilePath → FilePath
with_suffix suffix [] = []
with_suffix suffix (last ∷ rest) = (last <> suffix) ∷ rest

-- `_write_state`: a temporary file, then `os.replace`.
unfoldable pub write_state : FilePath → SubmissionState → Exec (Unit {0})
write_state path s e w =
    let temporary = with_suffix (".tmp-" <> e.pid) path in
    (write_temporary temporary s >> replace temporary path s) e w

unfoldable pub record_launch : FilePath → Purpose → List String → Option String → Exec (Unit {0})
record_launch owner purpose argv input e w =
    spend w.budget
      (λ v. record v {
        launches =
            record { owner = owner; purpose = purpose; argv = argv; input = input } ∷ v.launches;
      })
      w

unfoldable pub answer : List String → Exec CommandResult
unfolding require
answer argv e w = require (other_exception "OSError") (e.run argv) e w

-- `run_bounded_command(argv, ...)`. The launch is on record from here on, whether the command
-- answers, fails to start, or the worker is killed while it runs.
unfoldable pub run_command : FilePath → Purpose → List String → Option String → Exec CommandResult
unfolding record_launch answer
run_command owner purpose argv input = record_launch owner purpose argv input >> answer argv
