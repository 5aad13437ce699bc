-- ===== src/Util/Units/RoundTrip.antt =====
-- The parsers read back what the printers write.
use quicsy.Prelude.{
  ℕ, suc, ◌+◌, ◌*◌, ◌/◌, ◌^◌, ◌≤◌, ◌<◌, ◌≡◌, refl, ap, ◌∙◌, [], ◌∷◌, ◌++◌, arith, Bytes, length,
  get_or, length-append, some,
}
use quicsy.Prelude.Int.{pos}
use quicsy.Util.Number.{u64_max, format_uint, accept, parse_uint_internal, parse_digits}
use quicsy.Util.Number.RoundTrip.{parse_uint_internal-format_uint, parse_uint_internal-plain}
use quicsy.Util.Units.{
  format_uint_iec, parse_uint_iec, iec_factor, long_factor, scale_short, format_duration,
  parse_duration, scale, seconds, milliseconds, microseconds,
}

-- The text behind a number is found at the number's length.
get_or-append :
    (s rest : Bytes) (d : ℕ) (k : ℕ) → get_or (s ++ rest) (length s + k) d ≡ get_or rest k d
get_or-append [] rest d k = ap (λ i. get_or rest i d) (omega arith)
get_or-append (x ∷ s) rest d k =
    let e : suc (length s) + k ≡ suc (length s + k) = omega arith in rw e (get_or-append s rest d k)

-- A printed number before a text that begins with no digit.
read_number :
    (n c : ℕ) (rest : Bytes)
    → n ≤ u64_max
    → b'9' < c
    → parse_uint_internal (format_uint n ++ c ∷ rest)
      ≡ record { res = n; idx = length (format_uint n); rv = pos 0 }
unfolding parse_digits
read_number n c rest h d = parse_uint_internal-format_uint n (c ∷ rest) h ∙ ground arith

-- One unit letter behind a number.
read_iec :
    (n c m : ℕ)
    → n ≤ u64_max
    → b'9' < c
    → iec_factor c ≡ some m
    → parse_uint_iec (format_uint n ++ c ∷ []) ≡ scale n m
unfolding parse_uint_iec
read_iec n c m h d e = ground (
  arith,
  read_number n c [] h d,
  length-append (format_uint n) (c ∷ []),
  get_or-append (format_uint n) (c ∷ []) 0 0,
)

read_plain_iec : (n : ℕ) → n ≤ u64_max → parse_uint_iec (format_uint n) ≡ accept n
unfolding parse_uint_iec
read_plain_iec n h = ground (arith, parse_uint_internal-plain n h)

-- `parse_uint_iec` reads back what `format_uint_iec` writes, for every 64-bit number.
pub parse_uint_iec-format_uint_iec :
    (n : ℕ) → n ≤ u64_max → parse_uint_iec (format_uint_iec n) ≡ accept n
unfolding format_uint_iec scale iec_factor
parse_uint_iec-format_uint_iec n h = ground (
  arith,
  read_iec (n / 2 ^ 30) b'G' (2 ^ 30) (omega arith) (omega arith) refl,
  read_iec (n / 2 ^ 20) b'M' (2 ^ 20) (omega arith) (omega arith) refl,
  read_iec (n / 2 ^ 10) b'K' (2 ^ 10) (omega arith) (omega arith) refl,
  read_plain_iec n h,
)

read_long :
    (n c m : ℕ)
    → n ≤ u64_max
    → b'9' < c
    → long_factor c ≡ some m
    → parse_duration (format_uint n ++ c ∷ []) ≡ scale n m
unfolding parse_duration
read_long n c m h d e = ground (
  arith,
  read_number n c [] h d,
  length-append (format_uint n) (c ∷ []),
  get_or-append (format_uint n) (c ∷ []) 0 0,
)

read_short :
    (n c : ℕ)
    → n ≤ u64_max
    → b'9' < c
    → parse_duration (format_uint n ++ c ∷ b's' ∷ []) ≡ scale_short n c
unfolding parse_duration
read_short n c h d = ground (
  arith,
  read_number n c (b's' ∷ []) h d,
  length-append (format_uint n) (c ∷ b's' ∷ []),
  get_or-append (format_uint n) (c ∷ b's' ∷ []) 0 0,
  get_or-append (format_uint n) (c ∷ b's' ∷ []) 0 1,
)

-- `parse_duration` reads back what `format_duration` writes, for every 64-bit number of nanoseconds.
pub parse_duration-format_duration :
    (n : ℕ) → n ≤ u64_max → parse_duration (format_duration n) ≡ accept n
unfolding format_duration scale long_factor scale_short
parse_duration-format_duration n h = ground (
  arith,
  read_long (n / (3600 * seconds)) b'h' (3600 * seconds) (omega arith) (omega arith) refl,
  read_long (n / (60 * seconds)) b'm' (60 * seconds) (omega arith) (omega arith) refl,
  read_long (n / seconds) b's' seconds (omega arith) (omega arith) refl,
  read_short (n / milliseconds) b'm' (omega arith) (omega arith),
  read_short (n / microseconds) b'u' (omega arith) (omega arith),
  read_short n b'n' h (omega arith),
)
