-- ===== src/Util/Hex.antt =====
-- `format_hex`, `hex_to_uint` and `decode_hex` of src/util.cc. A `char` is signed: a byte from 128 on
-- is the negative number 256 below it.
pub mod RoundTrip
use Prim.Native.Nat.{bit_or}
use quicsy.Prelude.{
  ℕ, zero, suc, ◌+◌, ◌-◌, ◌*◌, ◌/◌, ◌%◌, ◌^◌, ◌||◌, ◌≡◌, refl, Bool, [], ◌∷◌, Bytes, codes, Option,
  none, some, leb, ltb, ◌==◌, if◌then◌else◌, length, replicate, get_or, guard, ◌>>◌, ◌>>=◌,
}
use quicsy.Prelude.Buffer.{write_at}

-- `LOWER_XDIGITS`.
abbrev pub lower_xdigits : Bytes
lower_xdigits = codes "0123456789abcdef"

-- `format_hex(uint8_t)`: the two digits of a byte.
unfoldable pub format_hex_byte : ℕ → Bytes
format_hex_byte c = get_or lower_xdigits (c / 16) 0 ∷ get_or lower_xdigits (c % 16) 0 ∷ []

-- `res[i * 2] = …; res[i * 2 + 1] = …;` for the bytes from index `i` on.
unfoldable pub fill_hex : Bytes → ℕ → Bytes → Bytes
unfolding format_hex_byte write_at
fill_hex [] i res = res
fill_hex (c ∷ s) i res = fill_hex s (i + 1) (write_at res (i * 2) (format_hex_byte c))

-- `format_hex(const uint8_t *, size_t)`.
unfoldable pub format_hex : Bytes → Bytes
unfolding fill_hex
format_hex s = fill_hex s 0 (replicate (length s * 2) 0)

-- `c - k` as `uint32_t`, for a `char` with byte `c`.
abbrev char_minus : ℕ → ℕ → ℕ
char_minus c k = if ltb c 128 then (c + 2 ^ 32 - k) % 2 ^ 32 else (c + 2 ^ 32 - 256 - k) % 2 ^ 32

-- `c <= limit` for a `char` with byte `c`.
abbrev char_le : ℕ → ℕ → Bool
char_le c limit = leb 128 c || leb c limit

unfoldable pub hex_to_uint : ℕ → ℕ
hex_to_uint c =
    if char_le c b'9'
    then char_minus c b'0'
    else if char_le c b'Z'
    then (char_minus c b'A' + 10) % 2 ^ 32
    else if char_le c b'z'
    then (char_minus c b'a' + 10) % 2 ^ 32
    else 256

-- `(hex_to_uint(a) << 4) | hex_to_uint(b)`, stored in a `char`.
unfoldable pub decode_pair : ℕ → ℕ → ℕ
unfolding hex_to_uint
decode_pair a b = bit_or (hex_to_uint a * 16 % 2 ^ 32) (hex_to_uint b) % 256

unfoldable pub decode_pairs : Bytes → Bytes
unfolding decode_pair
decode_pairs (a ∷ b ∷ s) = decode_pair a b ∷ decode_pairs s
decode_pairs (a ∷ []) = []
decode_pairs [] = []

-- `none`: the assertion on the size fails.
unfoldable pub decode_hex : Bytes → Option Bytes
unfolding decode_pairs
decode_hex s = do guard (length s % 2 == 0); some (decode_pairs s)

hex_of_two_bytes : format_hex (10 ∷ 255 ∷ []) ≡ codes "0aff"
unfolding format_hex
hex_of_two_bytes = refl

upper_case : decode_hex (codes "0AfF") ≡ some (10 ∷ 255 ∷ [])
unfolding decode_hex
upper_case = refl
