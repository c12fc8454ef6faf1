-- ===== src/Batch/Laws/Mounts.antt =====
-- A container's mounts, as the runtime reads them.
use Prim.Native.Char.{code}
use Prim.Native.String.append
use project_bourne.Prelude.{
  ℕ, ◌≡◌, refl, ap, ◌∙◌, String, ◌<>◌, ◌==◌, nat_eq, Bool, true, false, [], ◌∷◌, if◌then◌else◌,
  arith,
}
use project_bourne.Prelude.Text.{any_char, split_on}
use project_bourne.Prelude.Checks.{value}
use project_bourne.Planning.Container.{ContainerMount, is_separator, check_mount}
use project_bourne.Batch.Script.{mount_specification}

abbrev pub is_colon : ℕ → Bool
is_colon c = c == b':'

not_colon : (c : ℕ) → is_separator c ≡ false → is_colon c ≡ false
not_colon c h = ground (arith, h)

safe_parts :
    (m : ContainerMount)
    → check_mount m ≡ value m
    → (any_char is_separator m.source ≡ false) × (any_char is_separator m.destination ≡ false)
unfolding check_mount
safe_parts m h = ground (arith, h)

-- `text.split(":")` behind a text with no colon.
pub split-colon :
    (s t : String)
    → any_char is_separator s ≡ false
    → split_on is_colon (s <> (":" <> t)) ≡ s ∷ split_on is_colon t
split-colon String.[] t h = rw (append.nil, append.cons, append.nil) refl
split-colon (String.◌∷◌ c s) t h =
    rw append.cons
      (ground (arith, split-colon s t (ground (arith, h)), not_colon (code c) (ground (arith, h))))

-- A text with no colon is one part.
pub split_alone : (s : String) → any_char is_separator s ≡ false → split_on is_colon s ≡ s ∷ []
split_alone String.[] h = refl
split_alone (String.◌∷◌ c s) h =
    ground (arith, split_alone s (ground (arith, h)), not_colon (code c) (ground (arith, h)))

append_assoc : (s t u : String) → ((s <> t) <> u) ≡ (s <> (t <> u))
append_assoc String.[] t u = rw (append.nil, append.nil) refl
append_assoc (String.◌∷◌ c s) t u =
    rw (append.cons, append.cons, append.cons) (ap (String.◌∷◌ c) (append_assoc s t u))

split-bind :
    (s d : String) (read_only : Bool)
    → any_char is_separator s ≡ false
    → any_char is_separator d ≡ false
    → split_on is_colon (let both = s <> (":" <> d) in if read_only then both <> ":ro" else both)
      ≡ s ∷ d ∷ (if read_only then "ro" ∷ [] else [])
split-bind s d true hs hd =
    ap (split_on is_colon)
      (append_assoc s (":" <> d) ":ro" ∙ ap (λ t. s <> t) (append_assoc ":" d ":ro"))
    ∙ (split-colon s (d <> ":ro") hs ∙ ap (λ parts. s ∷ parts) (split-colon d "ro" hd))
split-bind s d false hs hd = split-colon s d hs ∙ ap (λ parts. s ∷ parts) (split_alone d hd)

-- The bind specification of a mount that passed its check, split at the colons, gives back
-- source, destination and "ro" for a mount that is read-only.
pub check_mount-split :
    (m : ContainerMount)
    → check_mount m ≡ value m
    → split_on is_colon (mount_specification m)
      ≡ m.source ∷ m.destination ∷ (if m.read_only then "ro" ∷ [] else [])
unfolding mount_specification
check_mount-split m h =
    let (hs, hd) = safe_parts m h in split-bind m.source m.destination m.read_only hs hd
