-- ===== src/Batch/Laws/Marks.antt =====
-- The directives of backends.py begin with the marker of their scheduler.
use Prim.Native.String.append
use project_bourne.Prelude.{
  ℕ, ◌≡◌, refl, String, ◌<>◌, true, Option, none, some, List, [], ◌∷◌, ◌++◌, nat_eq, All,
  All-append, Bool-cases, inl, inr, arith,
}
use project_bourne.Prelude.Text.{starts_with, is_empty_text}
use project_bourne.Prelude.Checks.{Checked, ◌>>=◌, Holds, Holds-bind, Holds-any}
use project_bourne.Batch.Slurm.{named_line, line_of}

-- The text begins with the marker.
unfoldable pub Marked : String → String → Type 0
Marked marker s = starts_with s marker ≡ true

unfoldable pub Marks : String → List String → Type 0
Marks marker = All (Marked marker)

-- A literal in front that begins with the marker.
pub Marked-behind :
    (marker before s : String) → starts_with before marker ≡ true → Marked marker (before <> s)
unfolding Marked
Marked-behind String.[] before s h = refl
Marked-behind (String.◌∷◌ c marker) String.[] s h = absurd (ground (arith, h))
Marked-behind (String.◌∷◌ c marker) (String.◌∷◌ d before) s h =
    rw append.cons (ground (arith, h, Marked-behind marker before s (ground (arith, h))))

module _ (marker : String) where
  pub Marks-nil : Marks marker []
  unfolding Marks
  Marks-nil = tt

  pub Marks-one : (s : String) → starts_with s marker ≡ true → Marks marker (s ∷ [])
  unfolding Marks Marked
  Marks-one s h = (h, tt)

  pub Marks-append :
      (xs ys : List String) → Marks marker xs → Marks marker ys → Marks marker (xs ++ ys)
  unfolding Marks
  Marks-append xs ys h k = All-append (Marked marker) xs ys h k

  -- Lines that are made of a literal and a number.
  pub Marks-line_of :
      (before : String) (f : ℕ → String) (n : Option ℕ)
      → starts_with before marker ≡ true
      → Marks marker (line_of (λ k. before <> f k) n)
  unfolding Marks
  Marks-line_of before f none h = tt
  Marks-line_of before f (some k) h = (Marked-behind marker before (f k) h, tt)

  pub Marks-named :
      (before : String) (target : Option String)
      → starts_with before marker ≡ true
      → Marks marker (named_line before target)
  unfolding Marks
  Marks-named before none h = tt
  Marks-named before (some name) h = elim (Bool-cases (is_empty_text name)) [
    | inl e ↦ rw e tt
    | inr e ↦ rw e (Marked-behind marker before name h, tt)
  ]

  -- A step whose result only supplies numbers.
  pub marked_step :
      (m : Checked (Option ℕ)) (f : Option ℕ → Checked (List String))
      → ((n : Option ℕ) → Holds (Marks marker) (f n))
      → Holds (Marks marker) (m >>= f)
  marked_step m f h = Holds-bind (λ _. Unit {0}) (Marks marker) m f (Holds-any m) (λ n u. h n)

  -- The first line and the named one in front of the others.
  pub marked_head :
      (head before : String) (target : Option String) (rest : List String)
      → starts_with head marker ≡ true
      → starts_with before marker ≡ true
      → Marks marker rest
      → Marks marker ((head ∷ named_line before target) ++ rest)
  marked_head head before target rest hh hb h =
      Marks-append (head ∷ named_line before target) rest
        (Marks-append (head ∷ []) (named_line before target) (Marks-one head hh)
          (Marks-named before target hb))
        h
