-- ===== src/Ids.antt =====
-- ids.py: identities of 26 characters from a time in milliseconds and ten random bytes.
pub mod Laws
mod Tests
use Prim.Native.Char.{Char}
use project_bourne.Prelude.{
  ℕ, zero, suc, ◌+◌, ◌*◌, ◌/◌, ◌%◌, ◌^◌, String, Bool, Option, none, some, ltb, if◌then◌else◌,
}

-- _CROCKFORD_BASE32
abbrev pub crockford_base32 : String
crockford_base32 = "0123456789ABCDEFGHJKMNPQRSTVWXYZ"

-- `text[index]`, of an index within the text.
abbrev pub char_at : ℕ → String → Char
char_at index String.[] = Prim.Native.Char.nul
char_at zero (String.◌∷◌ c s) = c
char_at (suc index) (String.◌∷◌ c s) = char_at index s

-- `_CROCKFORD_BASE32[index]`
unfoldable pub digit : ℕ → Char
digit index = char_at index crockford_base32

-- The loop over `encoded`, from its last character on: `value & 0x1F` and `value >>= 5`.
unfoldable pub encode : ℕ → ℕ → String → String
encode zero value encoded = encoded
encode (suc left) value encoded = encode left (value / 32) (String.◌∷◌ (digit (value % 32)) encoded)

-- `new_ulid`, with the number of the random bytes, which is below 2 ^ 80, so that `|` adds it.
-- `none` is the ValueError of a time that has more than 48 bits.
unfoldable pub new_ulid : ℕ → ℕ → Option String
unfolding encode
new_ulid timestamp_ms random =
    if ltb timestamp_ms (2 ^ 48) then some (encode 26 (timestamp_ms * 2 ^ 80 + random) "") else none
