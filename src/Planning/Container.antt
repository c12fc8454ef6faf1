-- ===== src/Planning/Container.antt =====
-- ContainerMount and ContainerExecution of planning_models.py, with typed fields.
use project_bourne.Prelude.{
  ℕ, String, ◌<>◌, ◌==◌, nat_eq, string_eq, Bool, true, false, ◌&&◌, ◌||◌, not, Option, none, some,
  List, contains, length, ltb, [], ◌∷◌,
}
use project_bourne.Prelude.Text.{
  any_char, all_chars, text_length, starts_with, after_prefix, is_hex,
}
use project_bourne.Prelude.Checks.{Checked, value, ◌>>◌, guard}

pub record ContainerMount : Type 0 where
  pub source : String
  pub destination : String
  pub read_only : Bool

-- `character in "\n\r\0"`
abbrev pub breaks_line : ℕ → Bool
breaks_line c = c == b'\n' || (c == b'\r' || c == 0)

-- `character in "\n\r\0:,"`
abbrev pub is_separator : ℕ → Bool
is_separator c = breaks_line c || (c == b':' || c == b',')

-- `path.startswith("/")` and no longer than 16384
abbrev is_bounded_path : String → Bool
is_bounded_path path = starts_with path "/" && not (ltb 16384 (text_length path))

-- `ContainerMount.__post_init__`
unfoldable pub check_mount : ContainerMount → Checked ContainerMount
check_mount m = do
  guard (is_bounded_path m.source && is_bounded_path m.destination)
      "container bind paths must be absolute"
  guard (not (any_char is_separator m.source || any_char is_separator m.destination))
      "container bind paths contain unsafe characters"
  value m

pub record ContainerExecution : Type 0 where
  pub runtime : String
  pub image : String
  pub mounts : List ContainerMount
  pub clean_environment : Bool
  pub image_digest : Option String

-- `sha256:[0-9a-f]{64}`
abbrev pub is_canonical_digest : String → Bool
is_canonical_digest s = elim (after_prefix "sha256:" s) [
  | none ↦ false
  | some rest ↦ text_length rest == 64 && all_chars is_hex rest
]

abbrev canonical_or_absent : Option String → Bool
canonical_or_absent none = true
canonical_or_absent (some s) = is_canonical_digest s

-- `ContainerExecution.__post_init__`
unfoldable pub check_container : ContainerExecution → Checked ContainerExecution
check_container c = do
  guard (contains ("apptainer" ∷ "singularity" ∷ []) c.runtime)
      ("unsupported container runtime: " <> c.runtime)
  guard (is_bounded_path c.image) "container image must be an absolute existing-image path"
  guard (not (any_char breaks_line c.image)) "container image path contains unsafe characters"
  guard (not (ltb 128 (length c.mounts))) "container bind list exceeds the safety limit"
  guard (canonical_or_absent c.image_digest) "container image digest must use sha256:<hex>"
  value c
