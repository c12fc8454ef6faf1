-- ===== src/Requests/Laws/Checks.antt =====
-- A verification check that was parsed is read back as it is.
use project_bourne.Prelude.{
  ℕ, ◌≡◌, refl, inl, inr, String, ◌==◌, nat_eq, string_eq, Bool, true, false, ◌&&◌, Option, none,
  some, [], ◌∷◌, All, contains, Bool-cases, if◌then◌else◌, arith,
}
use project_bourne.Prelude.Text.{casefold, all_chars, any_char}
use project_bourne.Prelude.Text.Case.{casefold-casefold}
use project_bourne.Prelude.Checks.{value, guard, Holds, Holds-bind, Holds-any, Holds-self}
use project_bourne.Json.{Json, null, bool, int, float, str, arr, obj, Items, nil, cons, get}
use project_bourne.Requests.Values.{
  bounded_text, bounded_string, reject_unknown, as_object, validate_json_bounds, is_nul,
}
use project_bourne.Requests.Models.{
  VerificationCheckSpec, is_null, natural_of, text_of, is_sha256, is_any_hex, exists_spec,
  min_bytes_spec, sha256_spec, check_spec,
}
use project_bourne.Requests.Parse.{folded, parse_check, parse_items}
use project_bourne.Requests.Document.{check_fields}
use project_bourne.Requests.Laws.Texts.{bounded_text-any}
use project_bourne.Requests.Laws.Written.{Kept}

-- The document of a check is within the bounds of a request's JSON.
abbrev pub Small : VerificationCheckSpec → Type 0
Small c = validate_json_bounds 3 (obj (check_fields c)) ≡ value tt

abbrev pub Good : VerificationCheckSpec → Type 0
Good c = Kept c × Small c

abbrev PathOk : String → Type 0
PathOk path = bounded_text false "verification path" path ≡ value tt

-- The text of a digest is folded.
abbrev Folded : Option String → Type 0
Folded none = Unit
Folded (some s) = casefold s ≡ s

folded-Folded : (v : Json) → Folded (text_of (folded v))
folded-Folded (str s) = casefold-casefold s
folded-Folded null = tt
folded-Folded (bool b) = tt
folded-Folded (int n) = tt
folded-Folded (float f) = tt
folded-Folded (arr items) = tt
folded-Folded (obj fields) = tt

exists_spec-Good : (path : String) (b : Bool) → PathOk path → Holds Good (exists_spec path b)
unfolding exists_spec parse_check as_object reject_unknown check_fields bounded_string bounded_text
    check_spec validate_json_bounds
exists_spec-Good path true h =
    (ground (arith, h), rw (bounded_text-any "verification path" "request string" true path h) refl)
exists_spec-Good path false h = tt

min_bytes_spec-Good :
    (path : String) (n : Option ℕ) (b : Bool) → PathOk path → Holds Good (min_bytes_spec path n b)
unfolding min_bytes_spec exists_spec parse_check as_object reject_unknown check_fields
    bounded_string bounded_text check_spec validate_json_bounds
min_bytes_spec-Good path (some n) true h =
    (ground (arith, h), rw (bounded_text-any "verification path" "request string" true path h) refl)
min_bytes_spec-Good path (some n) false h = tt
min_bytes_spec-Good path none b h = tt

sha-Kept :
    (path s : String)
    → PathOk path
    → is_sha256 s ≡ true
    → casefold s ≡ s
    → Kept (record { type = "output_sha256"; path = path; min_bytes = none; sha256 = some s })
unfolding sha256_spec parse_check as_object reject_unknown check_fields bounded_string bounded_text
    check_spec
sha-Kept path s h p q = rw q (ground (arith, h, p))

no_nul : (s : String) → all_chars is_any_hex s ≡ true → any_char is_nul s ≡ false
no_nul String.[] h = refl
no_nul (String.◌∷◌ c s) h = ground (arith, h, no_nul s (ground (arith, h)))

small_sha : (s : String) → is_sha256 s ≡ true → bounded_text true "request string" s ≡ value tt
unfolding bounded_text
small_sha s h = ground (arith, h, no_nul s (ground (arith, h)))

sha-Small :
    (path s : String)
    → PathOk path
    → is_sha256 s ≡ true
    → Small (record { type = "output_sha256"; path = path; min_bytes = none; sha256 = some s })
unfolding validate_json_bounds check_fields bounded_text
sha-Small path s h p =
    ground (arith, bounded_text-any "verification path" "request string" true path h, small_sha s p)

sha256_spec-Good :
    (path : String) (b : Bool) (s : Option String)
    → PathOk path
    → Folded s
    → Holds Good (sha256_spec path b s)
unfolding sha256_spec
sha256_spec-Good path false s h q = tt
sha256_spec-Good path true none h q = tt
sha256_spec-Good path true (some s) h q = elim (Bool-cases (is_sha256 s)) [
  | inl p ↦ rw p (sha-Kept path s h p q, sha-Small path s h p)
  | inr p ↦ rw p tt
]

check_spec-Good :
    (type path : String) (m s : Json) → PathOk path → Holds Good (check_spec type path m (folded s))
unfolding check_spec
check_spec-Good type path m s h =
    Holds-bind (λ _. Unit {0}) Good
      (guard (contains ("output_exists" ∷ "output_min_bytes" ∷ "output_sha256" ∷ []) type) _) _
      (Holds-any _)
      λ _ _.
        Holds-bind (λ _. Unit {0}) Good (bounded_text false "verification path" path) _
          (Holds-any _) λ _ _. branches
  where
    branches : Holds Good (
        if type == "output_exists"
        then exists_spec path (is_null m && is_null (folded s))
        else if type == "output_min_bytes"
        then min_bytes_spec path (natural_of m) (is_null (folded s))
        else sha256_spec path (is_null m) (text_of (folded s)))
    branches = elim (Bool-cases (type == "output_exists")) [
      | inl p ↦ rw p (exists_spec-Good path (is_null m && is_null (folded s)) h)
      | inr p ↦ elim (Bool-cases (type == "output_min_bytes")) [
        | inl q ↦ rw (p, q) (min_bytes_spec-Good path (natural_of m) (is_null (folded s)) h)
        | inr q ↦
            rw (p, q) (sha256_spec-Good path (is_null m) (text_of (folded s)) h (folded-Folded s))
      ]
    ]

bounded_string-PathOk : (v : Json) → Holds PathOk (bounded_string "verification path" v)
unfolding bounded_string
bounded_string-PathOk (str s) =
    Holds-bind (λ _. PathOk s) PathOk (bounded_text false "verification path" s) _
      (Holds-self (bounded_text false "verification path" s)) λ _ h. h
bounded_string-PathOk null = tt
bounded_string-PathOk (bool b) = tt
bounded_string-PathOk (int n) = tt
bounded_string-PathOk (float f) = tt
bounded_string-PathOk (arr items) = tt
bounded_string-PathOk (obj fields) = tt

pub parse_check-Good : (v : Json) → Holds Good (parse_check v)
unfolding parse_check
parse_check-Good v =
    Holds-bind (λ _. Unit {0}) Good (as_object "verification check" v) _ (Holds-any _)
      λ fields _.
        Holds-bind (λ _. Unit {0}) Good
          (reject_unknown "verification check" ("type" ∷ "path" ∷ "min_bytes" ∷ "sha256" ∷ [])
            fields)
          _ (Holds-any _)
          λ _ _.
            Holds-bind (λ _. Unit {0}) Good
              (bounded_string "verification check type" (get fields "type")) _ (Holds-any _)
              λ type _.
                Holds-bind PathOk Good (bounded_string "verification path" (get fields "path")) _
                  (bounded_string-PathOk (get fields "path"))
                  λ path h.
                    check_spec-Good type path (get fields "min_bytes") (get fields "sha256") h

pub parse_items-Good : (items : Items) → Holds (All Good) (parse_items items)
unfolding parse_items
parse_items-Good nil = tt
parse_items-Good (cons v rest) =
    Holds-bind Good (All Good) (parse_check v) _ (parse_check-Good v) λ c h.
      Holds-bind (All Good) (All Good) (parse_items rest) _ (parse_items-Good rest) λ more k. (h, k)
