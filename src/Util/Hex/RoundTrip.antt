-- ===== src/Util/Hex/RoundTrip.antt =====
-- Hexadecimal text is read back to the bytes that it was made of.
use quicsy.Prelude.{
  ℕ, suc, ◌+◌, ◌*◌, ◌/◌, ◌%◌, ◌<◌, ◌≡◌, refl, ap, ◌∙◌, [], ◌∷◌, ◌++◌, arith, Bytes, IsBytes, some,
  true, ◌==◌, ==_iff, length, replicate, get_or, append_assoc, length-append,
}
use quicsy.Prelude.Tables.{holds_on_table, holds_on_table_at}
use quicsy.Prelude.Buffer.{write_at, write_at-replicate}
use quicsy.Util.Hex.{
  lower_xdigits, format_hex_byte, fill_hex, format_hex, decode_pair, decode_pairs, decode_hex,
}

-- Two digits for each byte.
hex_text : Bytes → Bytes
hex_text [] = []
hex_text (c ∷ s) = format_hex_byte c ++ hex_text s

byte_write :
    (c : ℕ) (pre : Bytes) (i n : ℕ)
    → i * 2 ≡ length pre
    → write_at (pre ++ replicate (suc n * 2) 0) (i * 2) (format_hex_byte c)
      ≡ (pre ++ format_hex_byte c) ++ replicate (n * 2) 0
unfolding format_hex_byte
byte_write c pre i n h =
    let e : suc n * 2 ≡ 2 + n * 2 = omega arith in
    rw e (write_at-replicate (format_hex_byte c) pre (i * 2) (n * 2) 0 h)

length-format_hex_byte : (c : ℕ) → length (format_hex_byte c) ≡ 2
unfolding format_hex_byte
length-format_hex_byte c = refl

fill_hex-hex_text :
    (s pre : Bytes) (i : ℕ)
    → i * 2 ≡ length pre
    → fill_hex s i (pre ++ replicate (length s * 2) 0) ≡ pre ++ hex_text s
unfolding fill_hex hex_text
fill_hex-hex_text [] pre i h = refl
fill_hex-hex_text (c ∷ s) pre i h =
    ap (fill_hex s (i + 1)) (byte_write c pre i (length s) h)
    ∙ fill_hex-hex_text s (pre ++ format_hex_byte c) (i + 1)
        (omega (arith, length-append pre (format_hex_byte c), length-format_hex_byte c))
    ∙ append_assoc pre (format_hex_byte c) (hex_text s)

format_hex-hex_text : (s : Bytes) → format_hex s ≡ hex_text s
unfolding format_hex
format_hex-hex_text s = fill_hex-hex_text s [] 0 (omega arith)

-- Each byte, by evaluation.
pair_table :
    holds_on_table
      (λ c. decode_pair (get_or lower_xdigits (c / 16) 0) (get_or lower_xdigits (c % 16) 0) == c)
      256
    ≡ true
unfolding holds_on_table decode_pair
pair_table = refl

decode_pair-digits :
    (c : ℕ)
    → c < 256
    → decode_pair (get_or lower_xdigits (c / 16) 0) (get_or lower_xdigits (c % 16) 0) ≡ c
decode_pair-digits c h = (==_iff _ c).0 (holds_on_table_at _ 256 c h pair_table)

decode_pairs-hex_text : (s : Bytes) → IsBytes s → decode_pairs (hex_text s) ≡ s
unfolding decode_pairs hex_text format_hex_byte
decode_pairs-hex_text [] h = refl
decode_pairs-hex_text (c ∷ s) (hc, hs) =
    λ i. decode_pair-digits c hc i ∷ decode_pairs-hex_text s hs i

length-hex_text : (s : Bytes) → length (hex_text s) ≡ length s * 2
unfolding hex_text format_hex_byte
length-hex_text [] = omega arith
length-hex_text (c ∷ s) = omega (arith, length-hex_text s)

-- `decode_hex` reads back what `format_hex` writes, for every string of bytes.
pub decode_hex-format_hex : (s : Bytes) → IsBytes s → decode_hex (format_hex s) ≡ some s
unfolding decode_hex
decode_hex-format_hex s h =
    rw (format_hex-hex_text s) (ground (arith, decode_pairs-hex_text s h, length-hex_text s))
