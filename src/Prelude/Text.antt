-- ===== src/Prelude/Text.antt =====
-- Python's `str` operations on native texts. A text is its list of characters by `String.[]` and
-- `String.∷`. Case mapping is that of ASCII, and leaves every other character alone.
pub mod Case
pub mod Decimal
use Prim.Native.Nat.{ℕ, zero, suc, ◌+◌, ◌-◌, ◌*◌, ◌/◌, ◌%◌}
use Prim.Native.Char.{Char, code}
use Prim.Native.String.{String}
use mathlib.Core.Bool.{Bool, true, false, not, ◌&&◌, ◌||◌}
use mathlib.Core.Option.{Option, none, some}
use mathlib.Core.List.{List, [], ◌∷◌}
use project_bourne.Prelude.Tests.{leb, ltb, nat_beq, if◌then◌else◌}

abbrev pub is_digit : ℕ → Bool
is_digit c = leb b'0' c && leb c b'9'

abbrev pub is_lower : ℕ → Bool
is_lower c = leb b'a' c && leb c b'z'

abbrev pub is_upper : ℕ → Bool
is_upper c = leb b'A' c && leb c b'Z'

abbrev pub is_letter : ℕ → Bool
is_letter c = is_lower c || is_upper c

-- `[0-9a-f]`
abbrev pub is_hex : ℕ → Bool
is_hex c = is_digit c || leb b'a' c && leb c b'f'

-- `str.isspace`
unfoldable pub is_space : ℕ → Bool
is_space c =
    leb 9 c && leb c 13
    || leb 28 c && leb c 32
    || nat_beq c 0x85
    || nat_beq c 0xa0
    || nat_beq c 0x1680
    || leb 0x2000 c && leb c 0x200a
    || nat_beq c 0x2028
    || nat_beq c 0x2029
    || nat_beq c 0x202f
    || nat_beq c 0x205f
    || nat_beq c 0x3000

-- The line boundaries of `str.splitlines`.
unfoldable pub is_line_break : ℕ → Bool
is_line_break c =
    leb 10 c && leb c 13
    || leb 28 c && leb c 30
    || nat_beq c 0x85
    || nat_beq c 0x2028
    || nat_beq c 0x2029

abbrev pub is_empty_text : String → Bool
is_empty_text String.[] = true
is_empty_text (String.◌∷◌ c s) = false

-- `len(s)`, in characters.
abbrev pub text_length : String → ℕ
text_length String.[] = 0
text_length (String.◌∷◌ c s) = suc (text_length s)

-- `all(p(c) for c in s)`
abbrev pub all_chars : (ℕ → Bool) → String → Bool
all_chars p String.[] = true
all_chars p (String.◌∷◌ c s) = p (code c) && all_chars p s

-- `any(p(c) for c in s)`
abbrev pub any_char : (ℕ → Bool) → String → Bool
any_char p String.[] = false
any_char p (String.◌∷◌ c s) = p (code c) || any_char p s

-- `s[:n]`
abbrev pub text_take : ℕ → String → String
text_take zero s = ""
text_take (suc n) String.[] = ""
text_take (suc n) (String.◌∷◌ c s) = String.◌∷◌ c (text_take n s)

-- `s.lstrip()`
abbrev pub strip_left : String → String
strip_left String.[] = ""
strip_left (String.◌∷◌ c s) =
    let rest = strip_left s in if is_space (code c) then rest else String.◌∷◌ c s

abbrev cons_stripped : Char → String → String
cons_stripped c String.[] = if is_space (code c) then "" else String.◌∷◌ c ""
cons_stripped c (String.◌∷◌ d s) = String.◌∷◌ c (String.◌∷◌ d s)

-- `s.rstrip()`
abbrev pub strip_right : String → String
strip_right String.[] = ""
strip_right (String.◌∷◌ c s) = cons_stripped c (strip_right s)

-- `s.strip()`
abbrev pub strip : String → String
strip s = strip_right (strip_left s)

abbrev pub cons_head : Char → List String → List String
cons_head c [] = String.◌∷◌ c "" ∷ []
cons_head c (w ∷ ws) = String.◌∷◌ c w ∷ ws

-- `s.split(sep)` at the characters that `sep` accepts: one more part than there are separators.
abbrev pub split_on : (ℕ → Bool) → String → List String
split_on sep String.[] = "" ∷ []
split_on sep (String.◌∷◌ c s) =
    let rest = split_on sep s in if sep (code c) then "" ∷ rest else cons_head c rest

abbrev pub drop_empty : List String → List String
drop_empty [] = []
drop_empty (w ∷ ws) = let rest = drop_empty ws in if is_empty_text w then rest else w ∷ rest

-- `s.split()`
unfoldable pub split_words : String → List String
split_words s = drop_empty (split_on is_space s)

-- The texts of the alphabet at an offset.
abbrev pub char_at_offset : ℕ → String → Char → Char
char_at_offset n String.[] d = d
char_at_offset zero (String.◌∷◌ c s) d = c
char_at_offset (suc n) (String.◌∷◌ c s) d = char_at_offset n s d

unfoldable pub upper_char : Char → Char
upper_char c =
    if is_lower (code c) then char_at_offset (code c - b'a') "ABCDEFGHIJKLMNOPQRSTUVWXYZ" c else c

unfoldable pub lower_char : Char → Char
lower_char c =
    if is_upper (code c) then char_at_offset (code c - b'A') "abcdefghijklmnopqrstuvwxyz" c else c

-- `s.upper()`
abbrev pub upper : String → String
upper String.[] = ""
upper (String.◌∷◌ c s) = String.◌∷◌ (upper_char c) (upper s)

-- `s.lower()` and `s.casefold()`
abbrev pub casefold : String → String
casefold String.[] = ""
casefold (String.◌∷◌ c s) = String.◌∷◌ (lower_char c) (casefold s)

-- `int(s)` for a text of decimal digits.
abbrev pub digits_value : ℕ → String → ℕ
digits_value n String.[] = n
digits_value n (String.◌∷◌ c s) = digits_value (n * 10 + (code c - b'0')) s

unfoldable digit_char : ℕ → Char
digit_char d = char_at_offset d "0123456789" (char_at_zero "0")
  where
    char_at_zero : String → Char
    char_at_zero s = char_at_offset 0 s Prim.Native.Char.nul

unfoldable decimal_from : ℕ → ℕ → String → String
decimal_from zero n out = out
decimal_from (suc fuel) n out =
    let more = String.◌∷◌ (digit_char (n % 10)) out in
    let rest = decimal_from fuel (n / 10) more in if ltb n 10 then more else rest

-- `str(n)`. Each round divides by ten, so `n + 1` rounds are enough.
unfoldable pub decimal : ℕ → String
unfolding decimal_from digit_char
decimal n = decimal_from (suc n) n ""

-- The rest of a text after a prefix.
abbrev pub after_prefix : String → String → Option String
after_prefix String.[] s = some s
after_prefix (String.◌∷◌ c p) String.[] = none
after_prefix (String.◌∷◌ c p) (String.◌∷◌ d s) =
    if nat_beq (code c) (code d) then after_prefix p s else none

-- `s.startswith(prefix)`
abbrev pub starts_with : String → String → Bool
starts_with s prefix = elim (after_prefix prefix s) [ none ↦ false | some _ ↦ true ]

-- The longest prefix of characters that `p` accepts, and the rest.
abbrev pub span : (ℕ → Bool) → String → String × String
span p String.[] = ("", "")
span p (String.◌∷◌ c s) =
    let (first, rest) = span p s in
    if p (code c) then (String.◌∷◌ c first, rest) else ("", String.◌∷◌ c s)

-- `s.strip().splitlines()[0]`, or "" where there is no line.
unfoldable pub first_line : String → String
first_line s = (span (λ c. not (is_line_break c)) (strip s)).0

-- The non-blank lines, each as its words: `[l.split() for l in s.splitlines() if l.strip()]`.
abbrev word_rows : List String → List (List String)
word_rows [] = []
word_rows (line ∷ rest) =
    let rows = word_rows rest in
    if is_empty_text (strip line) then rows else split_words line ∷ rows

unfoldable pub rows_of : String → List (List String)
rows_of s = word_rows (split_on is_line_break s)
