-- ===== src/Util/Units.antt =====
-- `format_uint_iec` (include/quicsy/util.h), `parse_uint_iec`, `format_duration` and `parse_duration`
-- (src/util.cc): numbers with a unit. A mask of k ones is the remainder by 2 ^ k.
pub mod RoundTrip
use quicsy.Prelude.{
  ℕ, suc, ◌+◌, ◌-◌, ◌*◌, ◌/◌, ◌%◌, ◌^◌, ◌&&◌, ◌||◌, ◌≡◌, refl, Bool, true, false, not, List, [],
  ◌∷◌, ◌++◌, Bytes, codes, Option, none, some, leb, ltb, ◌==◌, if◌then◌else◌, length, get_or,
}
use quicsy.Util.Number.{
  Number, Parsed, u64_max, accept, reject, is_zero, format_uint, parse_uint_internal,
}

-- NGTCP2_NANOSECONDS is 1: durations are in nanoseconds.
abbrev pub microseconds : ℕ
microseconds = 1000

abbrev pub milliseconds : ℕ
milliseconds = 1000 * microseconds

abbrev pub seconds : ℕ
seconds = 1000 * milliseconds

-- The test of `format_uint_iec` and of `format_duration`: at least one unit, and nothing lost.
abbrev pub fits_unit : ℕ → ℕ → Bool
fits_unit n unit = leb unit n && n % unit == 0

unfoldable pub format_uint_iec : ℕ → Bytes
format_uint_iec n =
    if fits_unit n (2 ^ 30)
    then format_uint (n / 2 ^ 30) ++ codes "G"
    else if fits_unit n (2 ^ 20)
    then format_uint (n / 2 ^ 20) ++ codes "M"
    else if fits_unit n (2 ^ 10)
    then format_uint (n / 2 ^ 10) ++ codes "K"
    else format_uint n

-- The scaling at the end of both parsers: no product wraps around.
unfoldable pub scale : ℕ → ℕ → Number
scale res m = if ltb (u64_max / m) res then reject else accept (res * m % 2 ^ 64)

-- `switch (s[idx])` of `parse_uint_iec`.
unfoldable pub iec_factor : ℕ → Option ℕ
iec_factor c =
    if c == b'G' || c == b'g'
    then some (2 ^ 30)
    else if c == b'M' || c == b'm'
    then some (2 ^ 20)
    else if c == b'K' || c == b'k'
    then some (2 ^ 10)
    else none

scale_by : ℕ → Option ℕ → Number
unfolding scale
scale_by res none = reject
scale_by res (some m) = scale res m

-- Behind a parsed number: the rest of `parse_uint_iec`.
unfoldable pub finish_iec : Bytes → Parsed → Number
unfolding scale_by iec_factor
finish_iec s p =
    if not (is_zero p.rv)
    then record { value = 0; status = p.rv }
    else if p.idx == length s
    then accept p.res
    else if not (p.idx + 1 == length s)
    then reject
    else scale_by p.res (iec_factor (get_or s p.idx 0))

unfoldable pub parse_uint_iec : Bytes → Number
unfolding finish_iec
parse_uint_iec s = finish_iec s (parse_uint_internal s)

unfoldable pub format_duration : ℕ → Bytes
format_duration n =
    if fits_unit n (3600 * seconds)
    then format_uint (n / (3600 * seconds)) ++ codes "h"
    else if fits_unit n (60 * seconds)
    then format_uint (n / (60 * seconds)) ++ codes "m"
    else if fits_unit n seconds
    then format_uint (n / seconds) ++ codes "s"
    else if fits_unit n milliseconds
    then format_uint (n / milliseconds) ++ codes "ms"
    else if fits_unit n microseconds
    then format_uint (n / microseconds) ++ codes "us"
    else format_uint n ++ codes "ns"

-- The first `switch (s[idx])` of `parse_duration`: one letter.
unfoldable pub long_factor : ℕ → Option ℕ
long_factor c =
    if c == b'H' || c == b'h'
    then some (3600 * seconds)
    else if c == b'M' || c == b'm'
    then some (60 * seconds)
    else if c == b'S' || c == b's'
    then some seconds
    else none

-- The second one, before a letter `s`. The case 'n' answers at once, unscaled.
unfoldable pub short_factor : ℕ → Option ℕ
short_factor c =
    if c == b'M' || c == b'm'
    then some milliseconds
    else if c == b'U' || c == b'u'
    then some microseconds
    else none

unfoldable pub scale_short : ℕ → ℕ → Number
unfolding scale_by short_factor
scale_short res c = if c == b'N' || c == b'n' then accept res else scale_by res (short_factor c)

unfoldable pub finish_duration : Bytes → Parsed → Number
unfolding scale_by scale_short long_factor
finish_duration s p =
    if not (is_zero p.rv)
    then record { value = 0; status = p.rv }
    else if p.idx == length s
    then accept p.res
    else if p.idx + 1 == length s
    then scale_by p.res (long_factor (get_or s p.idx 0))
    else if p.idx + 2 == length s
        && (get_or s (p.idx + 1) 0 == b's' || get_or s (p.idx + 1) 0 == b'S')
    then scale_short p.res (get_or s p.idx 0)
    else reject

unfoldable pub parse_duration : Bytes → Number
unfolding finish_duration
parse_duration s = finish_duration s (parse_uint_internal s)
