-- ===== src/Requests/Amounts.antt =====
-- `_parse_memory` and `_parse_walltime` of execution_request.py. With `re.IGNORECASE`, `I` also
-- stands for U+0131 and `S` for U+017F, whose upper case they are.
use Prim.Native.Char.{code}
use project_bourne.Prelude.{
  ℕ, ◌+◌, ◌*◌, ◌^◌, String, ◌==◌, nat_eq, Bool, true, false, ◌&&◌, ◌||◌, not, Option, none, some,
  List, [], ◌∷◌, leb, ltb, if◌then◌else◌,
}
use project_bourne.Prelude.Int.{pos, negsuc}
use project_bourne.Prelude.Text.{is_digit, is_empty_text, all_chars, digits_value, span, split_on}
use project_bourne.Prelude.Checks.{Checked, value, refused}
use project_bourne.Json.{Json, int, str}

-- `[1-9][0-9]*`
abbrev pub is_positive_decimal : String → Bool
is_positive_decimal String.[] = false
is_positive_decimal (String.◌∷◌ c s) =
    is_digit (code c) && not (code c == b'0') && all_chars is_digit s

abbrev pub power_of_unit : ℕ → Option ℕ
power_of_unit c =
    if c == b'K' || c == b'k'
    then some 1024
    else if c == b'M' || c == b'm'
    then some (1024 ^ 2)
    else if c == b'G' || c == b'g'
    then some (1024 ^ 3)
    else if c == b'T' || c == b't'
    then some (1024 ^ 4)
    else none

abbrev pub is_byte_letter : ℕ → Bool
is_byte_letter c = c == b'B' || c == b'b'

abbrev pub is_binary_letter : ℕ → Bool
is_binary_letter c = c == b'I' || c == b'i' || c == 0x131

-- `(?:i?B)?`
abbrev pub is_byte_suffix : String → Bool
is_byte_suffix String.[] = true
is_byte_suffix (String.◌∷◌ c String.[]) = is_byte_letter (code c)
is_byte_suffix (String.◌∷◌ c (String.◌∷◌ d String.[])) =
    is_binary_letter (code c) && is_byte_letter (code d)
is_byte_suffix (String.◌∷◌ c (String.◌∷◌ d (String.◌∷◌ e s))) = false

-- `([KMGT](?:i?B)?|B)?`, as the number of bytes that the unit stands for.
unfoldable pub memory_unit : String → Option ℕ
memory_unit String.[] = some 1
memory_unit (String.◌∷◌ c s) =
    if is_byte_letter (code c) && is_empty_text s
    then some 1
    else if is_byte_suffix s
    then power_of_unit (code c)
    else none

abbrev pub memory_refusal : String
memory_refusal = "memory must be a value such as 4G or 512MiB"

abbrev pub scaled : ℕ → String → Option ℕ → Checked ℕ
scaled amount message none = refused message
scaled amount message (some unit) = value (amount * unit)

unfoldable pub memory_text : String → Checked ℕ
memory_text s =
    let (digits, unit) = span is_digit s in
    if is_positive_decimal digits
    then scaled (digits_value 0 digits) memory_refusal (memory_unit unit)
    else refused memory_refusal

-- `_parse_memory`
unfoldable pub parse_memory : Json → Checked ℕ
parse_memory (int (pos n)) = if ltb n 1 then refused "memory must be at least 1 byte" else value n
parse_memory (int (negsuc n)) = refused "memory must be at least 1 byte"
parse_memory (str s) = memory_text s
parse_memory _ = refused "memory must be positive bytes or a size string"

-- The letter of a duration in seconds.
abbrev pub duration_unit : ℕ → Option ℕ
duration_unit c =
    if c == b'H' || c == b'h'
    then some 3600
    else if c == b'M' || c == b'm'
    then some 60
    else if c == b'S' || c == b's' || c == 0x17f
    then some 1
    else none

abbrev pub scaled_duration : String → Option ℕ → Option ℕ
scaled_duration digits none = none
scaled_duration digits (some unit) =
    if is_positive_decimal digits then some (digits_value 0 digits * unit) else none

-- _WALLTIME
abbrev pub duration : String → String → Option ℕ
duration digits String.[] = none
duration digits (String.◌∷◌ c String.[]) = scaled_duration digits (duration_unit (code c))
duration digits (String.◌∷◌ c (String.◌∷◌ d s)) = none

-- `[0-5][0-9]`
abbrev pub is_sixtieth : String → Bool
is_sixtieth (String.◌∷◌ c (String.◌∷◌ d String.[])) =
    leb b'0' (code c) && leb (code c) b'5' && is_digit (code d)
is_sixtieth _ = false

abbrev pub is_colon : ℕ → Bool
is_colon c = c == b':'

unfoldable pub clock_seconds : List String → Option ℕ
clock_seconds (hours ∷ minutes ∷ seconds ∷ []) =
    let total =
      digits_value 0 hours * 3600 + digits_value 0 minutes * 60 + digits_value 0 seconds in
    if not (is_empty_text hours)
      && all_chars is_digit hours
      && is_sixtieth minutes
      && is_sixtieth seconds
      && ltb 0 total
    then some total
    else none
clock_seconds _ = none

abbrev pub clock_or_refused : Option ℕ → Checked ℕ
clock_or_refused none = refused "walltime must be seconds, 2h/30m, or HH:MM:SS"
clock_or_refused (some seconds) = value seconds

abbrev pub or_clock : String → Option ℕ → Checked ℕ
or_clock s (some seconds) = value seconds
or_clock s none = clock_or_refused (clock_seconds (split_on is_colon s))

-- The digits alone, then a duration, then a clock.
unfoldable pub walltime_text : String → Checked ℕ
walltime_text s =
    let (digits, unit) = span is_digit s in
    if is_positive_decimal s then value (digits_value 0 s) else or_clock s (duration digits unit)

-- `_parse_walltime`
unfoldable pub parse_walltime : Json → Checked ℕ
parse_walltime (int (pos n)) =
    if ltb n 1 then refused "walltime must be at least 1 second" else value n
parse_walltime (int (negsuc n)) = refused "walltime must be at least 1 second"
parse_walltime (str s) = walltime_text s
parse_walltime _ = refused "walltime must be positive seconds or a duration string"
