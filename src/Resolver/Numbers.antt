-- ===== src/Resolver/Numbers.antt =====
-- `_leading_int`, `_slurm_gpu_count`, `_direct_gpu_count` of resolver.py. `\d` is an ASCII digit.
use project_bourne.Prelude.{
  ℕ, suc, ◌+◌, String, ◌<>◌, ◌==◌, nat_eq, string_eq, true, false, ◌||◌, not, Option, none, some,
  List, [], ◌∷◌, contains, if◌then◌else◌,
}
use project_bourne.Prelude.Int.{pos, negsuc}
use project_bourne.Prelude.Text.{
  is_digit, is_empty_text, strip, strip_left, span, split_on, digits_value, decimal, after_prefix,
}
use project_bourne.Json.{Json, null, bool, int, float, str, arr, obj, items_length, get}
use project_bourne.Resolver.Models.{Host, DiscoveredTarget}

-- The digits in front of a text, as a number.
abbrev pub leading_digits : String → Option ℕ
leading_digits s =
    let digits = (span is_digit s).0 in
    if is_empty_text digits then none else some (digits_value 0 digits)

-- `str(value)`
text_of : Host → Json → String
text_of host null = "None"
text_of host (bool true) = "True"
text_of host (bool false) = "False"
text_of host (int (pos n)) = decimal n
text_of host (int (negsuc n)) = "-" <> decimal (suc n)
text_of host (float f) = host.float_text f
text_of host (str s) = s
text_of host (arr items) = host.container_text (arr items)
text_of host (obj fields) = host.container_text (obj fields)

-- `_leading_int`
unfoldable pub leading_int : Host → Json → Option ℕ
unfolding text_of
leading_int host null = none
leading_int host value = leading_digits (strip_left (text_of host value))

-- Of the segments behind "gpu", the last that a match can end in: those in front are not empty.
last_count : List String → Option ℕ
last_count [] = none
last_count (segment ∷ rest) =
    let later = last_count rest in
    if is_empty_text segment
    then none
    else elim later [ none ↦ leading_digits segment | some n ↦ some n ]

segments_count : List String → Option ℕ
unfolding last_count
segments_count [] = none
segments_count (first ∷ rest) = if is_empty_text first then last_count rest else none

-- `gpu(?::[^,:()]+)*:(\d+)` at the beginning of a part without commas.
part_count : Option String → Option ℕ
unfolding segments_count
part_count none = none
part_count (some rest) =
    segments_count (split_on (λ c. c == b':') (span (λ c. not (c == b'(' || c == b')')) rest).0)

-- The sum of the counts, if there is one.
add_count : Option ℕ → Option ℕ → Option ℕ
add_count none total = total
add_count (some n) none = some n
add_count (some n) (some m) = some (n + m)

sum_counts : List String → Option ℕ
unfolding part_count add_count
sum_counts [] = none
sum_counts (part ∷ rest) = add_count (part_count (after_prefix "gpu" part)) (sum_counts rest)

gpu_count_of : String → Option ℕ
unfolding sum_counts
gpu_count_of s =
    if contains ("" ∷ "(null)" ∷ "N/A" ∷ []) (strip s)
    then none
    else sum_counts (split_on (λ c. c == b',') s)

-- `_slurm_gpu_count`
unfoldable pub slurm_gpu_count : Host → Json → Option ℕ
unfolding gpu_count_of text_of
slurm_gpu_count host null = none
slurm_gpu_count host value = gpu_count_of (text_of host value)

gpu_list_length : Json → Option ℕ
gpu_list_length (arr items) = some (items_length items)
gpu_list_length _ = none

system_gpus : Json → Option ℕ
unfolding gpu_list_length
system_gpus (obj system) = gpu_list_length (get system "gpus")
system_gpus _ = none

-- `_direct_gpu_count`
unfoldable pub direct_gpu_count : DiscoveredTarget → Option ℕ
unfolding system_gpus
direct_gpu_count target = system_gpus (get target.metadata "system")
