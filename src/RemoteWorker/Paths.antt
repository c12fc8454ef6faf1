-- ===== src/RemoteWorker/Paths.antt =====
-- `pathlib` paths, `_absolute_path` and the path tests of `_state` in remote_worker.py.
-- A path is its parts from the last to the root, "/" or "//".
use Prim.Native.Char.{code}
use project_bourne.Prelude.{
  String, ◌<>◌, ◌==◌, nat_eq, string_eq, list_eq, Bool, false, ◌&&◌, ◌||◌, not, List, [], ◌∷◌,
  contains, is_empty, if◌then◌else◌,
}
use project_bourne.Prelude.Text.{is_empty_text, any_char, split_on}

abbrev pub FilePath : Type 0
FilePath = List String

-- `path.name`, "" at the root
abbrev pub name : FilePath → String
name [] = ""
name (root ∷ []) = ""
name (last ∷ above ∷ rest) = last

-- `path.parent`, the root of the root
abbrev pub parent : FilePath → FilePath
parent [] = []
parent (root ∷ []) = root ∷ []
parent (last ∷ above ∷ rest) = above ∷ rest

-- `path.relative_to(root)` raises no error.
abbrev pub is_under : FilePath → FilePath → Bool
is_under root [] = root == []
is_under root (last ∷ rest) = let below = is_under root rest in (last ∷ rest) == root || below

-- The components after the root: empty ones and "." are dropped.
add_parts : List String → FilePath → FilePath
add_parts [] path = path
add_parts (part ∷ rest) path =
    add_parts rest (if is_empty_text part || part == "." then path else part ∷ path)

-- Exactly two slashes in front are a root of their own.
root_of : List String → String
root_of (a ∷ b ∷ c ∷ rest) =
    if is_empty_text b && not (is_empty_text c && not (is_empty rest)) then "//" else "/"
root_of _ = "/"

-- `Path(value)` for a text that begins with "/".
unfoldable pub parse_path : String → FilePath
unfolding add_parts root_of
parse_path value =
    let parts = split_on (λ c. c == b'/') value in add_parts parts (root_of parts ∷ [])

starts_with_slash : String → Bool
starts_with_slash String.[] = false
starts_with_slash (String.◌∷◌ c s) = code c == b'/'

pub data PathCheck : Type 0 where
  accepted : FilePath → PathCheck
  not_absolute traversing : PathCheck

-- `_absolute_path` on a text; any other value is refused before.
unfoldable pub absolute_path : String → PathCheck
unfolding starts_with_slash parse_path
absolute_path value =
    if not (starts_with_slash value) || any_char (λ c. c == 0 || (c == b'\r' || c == b'\n')) value
    then not_absolute
    else let path = parse_path value in if contains path ".." then traversing else accepted path

-- The test of `_state` on the staging directory.
abbrev pub is_execution_path : FilePath → String → Bool
is_execution_path staging execution_id =
    name staging == execution_id
    && name (parent staging) == "executions"
    && name (parent (parent staging)) == ".bourne"

-- `str(path)`
unfoldable pub render : FilePath → String
render [] = ""
render (root ∷ []) = root
render (last ∷ root ∷ []) = root <> last
render (last ∷ above ∷ next ∷ rest) = render (above ∷ next ∷ rest) <> ("/" <> last)
