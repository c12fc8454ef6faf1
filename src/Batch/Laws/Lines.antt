-- ===== src/Batch/Laws/Lines.antt =====
-- Texts without a line break, as the directives of backends.py are built from them.
use Prim.Native.Char.{code}
use Prim.Native.String.append
use project_bourne.Prelude.{
  ℕ, ◌≡◌, refl, inl, inr, String, ◌<>◌, nat_eq, Bool, true, false, Option, none, some, List, [],
  ◌∷◌, ◌++◌, All, All-append, ltb, Bool-cases, arith,
}
use project_bourne.Prelude.Text.{any_char, all_chars, is_digit, is_empty_text, decimal}
use project_bourne.Prelude.Text.Decimal.{digits-decimal}
use project_bourne.Planning.Container.{breaks_line}
use project_bourne.Batch.Amounts.{two_digits, walltime}
use project_bourne.Batch.Slurm.{named_line, line_of}
use project_bourne.Batch.Script.{is_name_char, safe_target}

-- No line break in the text.
unfoldable pub OneLine : String → Type 0
OneLine s = any_char breaks_line s ≡ false

pub OneLine-literal : (s : String) → any_char breaks_line s ≡ false → OneLine s
unfolding OneLine
OneLine-literal s h = h

pub OneLine-append : (s t : String) → OneLine s → OneLine t → OneLine (s <> t)
unfolding OneLine
OneLine-append String.[] t hs ht = rw append.nil ht
OneLine-append (String.◌∷◌ c s) t hs ht =
    rw append.cons (ground (arith, hs, OneLine-append s t (ground (arith, hs)) ht))

-- A literal in front.
pub OneLine-behind :
    (before s : String) → any_char breaks_line before ≡ false → OneLine s → OneLine (before <> s)
OneLine-behind before s h hs = OneLine-append before s (OneLine-literal before h) hs

OneLine-chars :
    (p : ℕ → Bool) (s : String)
    → ((c : ℕ) → p c ≡ true → breaks_line c ≡ false)
    → all_chars p s ≡ true
    → OneLine s
unfolding OneLine
OneLine-chars p String.[] q h = refl
OneLine-chars p (String.◌∷◌ c s) q h =
    ground (arith, h, q (code c) (ground (arith, h)), OneLine-chars p s q (ground (arith, h)))

digit_breaks : (c : ℕ) → is_digit c ≡ true → breaks_line c ≡ false
digit_breaks c h = ground (arith, h)

name_breaks : (c : ℕ) → is_name_char c ≡ true → breaks_line c ≡ false
name_breaks c h = ground (arith, h)

pub OneLine-decimal : (n : ℕ) → OneLine (decimal n)
OneLine-decimal n = OneLine-chars is_digit (decimal n) digit_breaks (digits-decimal n)

OneLine-two_digits : (n : ℕ) → OneLine (two_digits n)
unfolding two_digits
OneLine-two_digits n = elim (Bool-cases (ltb n 10)) [
  | inl small ↦ rw small (OneLine-behind "0" (decimal n) refl (OneLine-decimal n))
  | inr large ↦ rw large (OneLine-decimal n)
]

pub OneLine-walltime : (n : ℕ) → OneLine (walltime n)
unfolding walltime
OneLine-walltime n = OneLine-append _ _ (OneLine-two_digits _) (
    OneLine-behind ":" _ refl (
      OneLine-append _ _ (OneLine-two_digits _) (OneLine-behind ":" _ refl (OneLine-two_digits _))))

-- A number between two literals.
pub OneLine-around :
    (before after : String) (n : ℕ)
    → any_char breaks_line before ≡ false
    → any_char breaks_line after ≡ false
    → OneLine (before <> (decimal n <> after))
OneLine-around before after n hb ha =
    OneLine-behind before _ hb
      (OneLine-append (decimal n) after (OneLine-decimal n) (OneLine-literal after ha))

-- Every one of the texts.
unfoldable pub OneLines : List String → Type 0
OneLines = All OneLine

pub OneLines-append : (xs ys : List String) → OneLines xs → OneLines ys → OneLines (xs ++ ys)
unfolding OneLines
OneLines-append xs ys h k = All-append OneLine xs ys h k

pub OneLines-cons : (x : String) (xs : List String) → OneLine x → OneLines xs → OneLines (x ∷ xs)
unfolding OneLines
OneLines-cons x xs h k = (h, k)

pub OneLines-nil : OneLines []
unfolding OneLines
OneLines-nil = tt

pub OneLines-line_of :
    (f : ℕ → String) (n : Option ℕ) → ((k : ℕ) → OneLine (f k)) → OneLines (line_of f n)
unfolding OneLines
OneLines-line_of f none h = tt
OneLines-line_of f (some k) h = (h k, tt)

-- `before` and a number.
pub OneLine-number :
    (before : String) (n : ℕ) → any_char breaks_line before ≡ false → OneLine (before <> decimal n)
OneLine-number before n h = OneLine-behind before (decimal n) h (OneLine-decimal n)

pub OneLines-named :
    (before : String) (target : Option String)
    → any_char breaks_line before ≡ false
    → safe_target target ≡ true
    → OneLines (named_line before target)
unfolding OneLines
OneLines-named before none hb h = tt
OneLines-named before (some name) hb h = elim (Bool-cases (is_empty_text name)) [
  | inl e ↦ rw e tt
  | inr e ↦ rw e (
    OneLine-behind before name hb (OneLine-chars is_name_char name name_breaks (ground (arith, h))),
    tt,
  )
]

-- `=` and a number behind a name.
pub OneLine-equals :
    (before name : String) (n : ℕ)
    → any_char breaks_line before ≡ false
    → any_char breaks_line name ≡ false
    → OneLine (before <> (name <> ("=" <> decimal n)))
OneLine-equals before name n hb hn =
    OneLine-behind before _ hb (OneLine-behind name _ hn (OneLine-number "=" n refl))
