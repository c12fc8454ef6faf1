-- ===== src/Ids/Laws.antt =====
-- What the identities of ids.py are good for.
use Prim.Native.Char.{Char, code}
use project_bourne.Prelude.{
  every_below, every_below-at, ℕ, zero, suc, ◌+◌, ◌*◌, ◌/◌, ◌%◌, ◌^◌, ◌<◌, ◌≡◌, refl, sym, ap, ◌∙◌,
  String, true, ◌&&◌, some, ltb, nat_beq, Bool-cases, inl, inr, if◌then◌else◌, arith,
}
use project_bourne.Prelude.Text.{all_chars, text_length}
use project_bourne.RemoteWorker.Requests.{is_crockford, is_execution_id}
use project_bourne.Ids.{crockford_base32, digit, encode, new_ulid}

-- The position of a character, or the length of the text.
abbrev index_in : String → Char → ℕ
index_in String.[] c = 0
index_in (String.◌∷◌ d s) c =
    let later = suc (index_in s c) in if nat_beq (code d) (code c) then 0 else later

unfoldable pub digit_value : Char → ℕ
digit_value c = index_in crockford_base32 c

-- The number that a text of digits in base 32 stands for, behind those that were read.
unfoldable pub decode : ℕ → String → ℕ
decode n String.[] = n
decode n (String.◌∷◌ c s) = decode (n * 32 + digit_value c) s

digits_checked :
    every_below 32 (λ k. nat_beq (digit_value (digit k)) k && is_crockford (code (digit k))) ≡ true
unfolding digit_value digit
digits_checked = refl

digit_checked :
    (k : ℕ) → k < 32 → (nat_beq (digit_value (digit k)) k && is_crockford (code (digit k))) ≡ true
digit_checked k l =
    every_below-at 32 (λ j. nat_beq (digit_value (digit j)) j && is_crockford (code (digit j))) k
      digits_checked l

digit_value-digit : (k : ℕ) → k < 32 → digit_value (digit k) ≡ k
digit_value-digit k l = ground (arith, digit_checked k l)

-- What `n` digits can hold.
abbrev room : ℕ → ℕ
room zero = 1
room (suc n) = 32 * room n

decode-encode :
    (n value : ℕ) (out : String) → value < room n → decode 0 (encode n value out) ≡ decode value out
unfolding encode decode
decode-encode zero value out h = ap (λ n. decode n out) (omega (arith, h))
decode-encode (suc n) value out h =
    decode-encode n (value / 32) (String.◌∷◌ (digit (value % 32)) out) (omega (arith, h))
    ∙ ap (λ n. decode n out) (omega (arith, digit_value-digit (value % 32) (omega arith)))

encode-chars :
    (n value : ℕ) (out : String)
    → all_chars is_crockford out ≡ true
    → all_chars is_crockford (encode n value out) ≡ true
unfolding encode
encode-chars zero value out h = h
encode-chars (suc n) value out h =
    encode-chars n (value / 32) (String.◌∷◌ (digit (value % 32)) out)
      (ground (arith, h, digit_checked (value % 32) (omega arith)))

text_length-encode :
    (n value : ℕ) (out : String) → text_length (encode n value out) ≡ n + text_length out
unfolding encode
text_length-encode zero value out = omega arith
text_length-encode (suc n) value out =
    omega (arith, text_length-encode n (value / 32) (String.◌∷◌ (digit (value % 32)) out))

-- For every time below 2 ^ 48 and every number an identity is made, and the remote worker
-- accepts it as an execution identity.
pub new_ulid-accepted :
    (timestamp_ms random : ℕ)
    → timestamp_ms < 2 ^ 48
    → (s : String) × (new_ulid timestamp_ms random ≡ some s) × (is_execution_id s ≡ true)
unfolding new_ulid is_execution_id
new_ulid-accepted t r l =
    let s = encode 26 (t * 2 ^ 80 + r) "" in
    (
      s,
      ground (arith, l),
      ground (
        arith,
        text_length-encode 26 (t * 2 ^ 80 + r) "",
        encode-chars 26 (t * 2 ^ 80 + r) "" refl,
      ),
    )

parts : (t r v : ℕ) → r < 2 ^ 80 → v ≡ t * 2 ^ 80 + r → (v / 2 ^ 80 ≡ t) × (v % 2 ^ 80 ≡ r)
parts t r v l e = (omega (arith, l, e), omega (arith, l, e))

-- Read as 26 digits in base 32, the identity made from a time and a number below 2 ^ 80 gives
-- back both: the time in front, the number in the last 80 bits.
pub new_ulid-decode :
    (timestamp_ms random : ℕ) (s : String)
    → random < 2 ^ 80
    → new_ulid timestamp_ms random ≡ some s
    → (decode 0 s / 2 ^ 80 ≡ timestamp_ms) × (decode 0 s % 2 ^ 80 ≡ random)
unfolding new_ulid decode
new_ulid-decode t r s l h = elim (Bool-cases (ltb t (2 ^ 48))) [
  | inl fits ↦ parts t r (decode 0 s) l (decoded (ground (arith, fits)) (ground (arith, h, fits)))
  | inr large ↦ ground (arith, h, large)
]
  where
    decoded : t < 2 ^ 48 → encode 26 (t * 2 ^ 80 + r) "" ≡ s → decode 0 s ≡ t * 2 ^ 80 + r
    decoded fits e =
        ap (decode 0) (sym e) ∙ decode-encode 26 (t * 2 ^ 80 + r) "" (omega (arith, fits, l))
