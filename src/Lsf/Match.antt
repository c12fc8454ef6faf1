-- ===== src/Lsf/Match.antt =====
-- The patterns of lsf.py as backtracking matchers: from a text to the rests that a match may
-- leave. A run of white space is matched whole, since no pattern goes on with white space after it.
use project_bourne.Prelude.{
  ℕ, String, ◌==◌, nat_eq, Bool, false, ◌&&◌, ◌||◌, not, Option, none, some, List, [], ◌∷◌, ◌++◌,
  is_empty, if◌then◌else◌,
}
use project_bourne.Prelude.Text.{
  is_digit, is_letter, is_space, is_empty_text, strip_left, after_prefix, span,
}
use Prim.Native.Char.{code}

-- `\w` on ASCII
abbrev pub is_word : ℕ → Bool
is_word c = is_letter c || is_digit c || c == b'_'

abbrev pub Matcher : Type 0
Matcher = String → List String

infixr 60 ◌then_match◌
infixr 55 ◌or_match◌
abbrev concat_map : Matcher → List String → List String
concat_map m [] = []
concat_map m (s ∷ rest) = m s ++ concat_map m rest

abbrev ◌then_match◌ : Matcher → Matcher → Matcher
◌then_match◌ m n s = concat_map n (m s)

abbrev ◌or_match◌ : Matcher → Matcher → Matcher
◌or_match◌ m n s = m s ++ n s

abbrev some_rest : Option String → List String
some_rest none = []
some_rest (some s) = s ∷ []

abbrev literal : String → Matcher
literal word s = some_rest (after_prefix word s)

-- `\s+`
abbrev spaces : Matcher
spaces String.[] = []
spaces (String.◌∷◌ c s) = if is_space (code c) then strip_left s ∷ [] else []

abbrev close_tag : String × String → Matcher
close_tag (inside, rest) s = if is_empty_text inside then [] else literal ">" rest

-- `<[^>]+>`
abbrev angle : Matcher
angle s = close_tag (span (λ c. not (c == b'>')) s) s

-- `job(?:\s+<[^>]+>)?\s+(?:is\s+not\s+found|not\s+found)`
abbrev not_found : Matcher
not_found = literal "not" then_match spaces then_match literal "found"

abbrev pub job_not_found : Matcher
job_not_found =
    literal "job"
    then_match (spaces then_match literal "<" then_match angle or_match literal "")
    then_match spaces
    then_match (literal "is" then_match spaces then_match not_found or_match not_found)

-- `no\s+(?:unfinished\s+)?job\s+found`
abbrev pub no_job_found : Matcher
no_job_found =
    literal "no"
    then_match spaces
    then_match (literal "unfinished" then_match spaces or_match literal "")
    then_match literal "job"
    then_match spaces
    then_match literal "found"

-- `not\s+found\s+in\s+job\s+list`
abbrev pub not_in_job_list : Matcher
not_in_job_list =
    not_found
    then_match spaces
    then_match literal "in"
    then_match spaces
    then_match literal "job"
    then_match spaces
    then_match literal "list"

-- `unknown\s+job` of `_pbs_job_is_unobservable` in backends.py; what may follow does not matter.
abbrev pub unknown_job : Matcher
unknown_job = literal "unknown" then_match spaces then_match literal "job"

-- `job(?:\s+id)?\s+(?:does\s+not\s+exist|not\s+found)`
abbrev pub job_absent : Matcher
job_absent =
    literal "job"
    then_match (spaces then_match literal "id" or_match literal "")
    then_match spaces
    then_match (literal "does"
          then_match spaces
          then_match literal "not"
          then_match spaces
          then_match literal "exist"
        or_match not_found)

-- `re.search`
abbrev pub search : Matcher → String → Bool
search m String.[] = not (is_empty (m ""))
search m (String.◌∷◌ c s) = not (is_empty (m (String.◌∷◌ c s))) || search m s

abbrev inside_of : String × String → List (String × String)
inside_of (inside, String.[]) = []
inside_of (inside, String.◌∷◌ c rest) =
    if not (is_empty_text inside) && code c == b'>' then (inside, rest) ∷ [] else []

abbrev tags_inside : (ℕ → Bool) → List String → List (String × String)
tags_inside p [] = []
tags_inside p (s ∷ rest) = inside_of (span p s) ++ tags_inside p rest

abbrev tag_at : String → (ℕ → Bool) → String → List (String × String)
tag_at word p s = tags_inside p ((literal word then_match spaces then_match literal "<") s)

abbrev tags_from : String → (ℕ → Bool) → Bool → String → List (String × String)
tags_from word p after_word String.[] = []
tags_from word p after_word (String.◌∷◌ c s) =
    let rest = tags_from word p (is_word (code c)) s in
    (if after_word then [] else tag_at word p (String.◌∷◌ c s)) ++ rest

-- `re.finditer(r"\bWORD\s+<([...]+)>", s)`: what each match has in its group, and the text
-- behind the match. No match begins inside another.
abbrev pub tags : String → (ℕ → Bool) → String → List (String × String)
tags word p s = tags_from word p false s
