-- ===== src/Util/Tests.antt =====
-- The theorems on the texts of src/util.cc at concrete inputs.
use quicsy.Prelude.{
  ℕ, ◌≤◌, ◌<◌, ◌+◌, ◌*◌, ◌/◌, ◌≡◌, ◌⊎◌, ◌↔◌, true, [], ◌∷◌, map, take, length, some, codes, arith,
  IsBytes, Bytes,
}
use quicsy.Util.Number.{parse_uint, format_uint, accept, reject}
use quicsy.Util.Number.RoundTrip.{parse_uint-format_uint}
use quicsy.Util.Number.Accept.{IsNumeral, decimal, parse_uint_decides}
use quicsy.Util.Units.{parse_uint_iec, format_uint_iec, parse_duration, format_duration}
use quicsy.Util.Units.RoundTrip.{parse_uint_iec-format_uint_iec, parse_duration-format_duration}
use quicsy.Util.Duration.{format_durationf}
use quicsy.Util.Duration.Nearest.{hundredth, numeral, format_durationf-IsNear}
use quicsy.Prelude.{if◌then◌else◌}
use quicsy.Util.Mime.{read_line}
use quicsy.Util.Mime.Words.{is_entry, define, words_from, read_line-define}
use quicsy.Util.Hex.{format_hex, decode_hex}
use quicsy.Util.Hex.RoundTrip.{decode_hex-format_hex}
use quicsy.Util.Base64.{b64encode}
use quicsy.Util.Base64.Decode.{b64decode, b64decode-b64encode}
use quicsy.Util.CaseCmp.{to_lower, istarts_with, istarts_with_iff}

abbrev some_bytes : Bytes
some_bytes = 0 ∷ 171 ∷ 255 ∷ 7 ∷ []

some_bytes-IsBytes : IsBytes some_bytes
some_bytes-IsBytes = (omega arith, (omega arith, (omega arith, (omega arith, tt))))

parse_uint-format_uint_example :
    parse_uint (format_uint 18446744073709551615) ≡ accept 18446744073709551615
parse_uint-format_uint_example = parse_uint-format_uint 18446744073709551615 (omega arith)

parse_uint_decides_example :
    (IsNumeral (codes "0443") × (parse_uint (codes "0443") ≡ accept (decimal 0 (codes "0443"))))
    ⊎ ((¬ IsNumeral (codes "0443")) × (parse_uint (codes "0443") ≡ reject))
parse_uint_decides_example = parse_uint_decides (codes "0443")

parse_uint_iec-format_uint_iec_example : parse_uint_iec (format_uint_iec 1572864) ≡ accept 1572864
parse_uint_iec-format_uint_iec_example = parse_uint_iec-format_uint_iec 1572864 (omega arith)

parse_duration-format_duration_example :
    parse_duration (format_duration 90000000000) ≡ accept 90000000000
parse_duration-format_duration_example = parse_duration-format_duration 90000000000 (omega arith)

decode_hex-format_hex_example : decode_hex (format_hex some_bytes) ≡ some some_bytes
decode_hex-format_hex_example = decode_hex-format_hex some_bytes some_bytes-IsBytes

b64decode-b64encode_example :
    (b64decode (b64encode some_bytes) ≡ some_bytes)
    × (length (b64encode some_bytes) ≡ (length some_bytes + 2) / 3 * 4)
b64decode-b64encode_example = b64decode-b64encode some_bytes some_bytes-IsBytes

abbrev small : Bytes
small = b'h' ∷ b'T' ∷ []

abbrev header : Bytes
header = b'H' ∷ b't' ∷ b'T' ∷ []

header-IsBytes : IsBytes header
header-IsBytes = (omega arith, (omega arith, (omega arith, tt)))

istarts_with_iff_example :
    (istarts_with header small ≡ true)
    ↔ (map to_lower (take (length small) header) ≡ map to_lower small)
istarts_with_iff_example =
    istarts_with_iff header small header-IsBytes (omega arith, (omega arith, tt))

-- 59.999 seconds.
format_durationf-IsNear_example :
    (whole : ℕ) × (cents : ℕ) × (unit : ℕ) × (format_durationf 59999000000
      ≡ numeral whole cents unit)
    × (cents < 100)
    × (unit ≤ 2)
    × (10 * ((whole * 100 + cents) * hundredth unit) ≤ 599990000000 + 5 * hundredth unit)
    × (599990000000 < 10 * ((whole * 100 + cents) * hundredth unit) + 6 * hundredth unit)
    × ((whole < 1000) ⊎ (unit ≡ 2))
format_durationf-IsNear_example = format_durationf-IsNear 59999000000 (omega arith)

abbrev mp4_line : Bytes
mp4_line = codes "video/mp4  mp4 m4v"

read_line-define_example :
    read_line mp4_line [] ≡ (if is_entry mp4_line then define (words_from [] mp4_line) [] else [])
read_line-define_example = read_line-define mp4_line []
