-- ===== src/Util/Duration.antt =====
-- `format_fraction2`, `round2even` and `format_durationf` of src/util.cc: a duration with two digits
-- behind the point.
pub mod Nearest
use quicsy.Prelude.{
  ℕ, ◌+◌, ◌*◌, ◌/◌, ◌%◌, ◌≡◌, refl, Bool, [], ◌∷◌, ◌++◌, Bytes, codes, ltb, leb, ◌==◌, ◌&&◌,
  if◌then◌else◌,
}
use quicsy.Util.Number.{format_uint}

-- `|n|` has three digits, and the last one is dropped.
unfoldable pub format_fraction2 : ℕ → Bytes
format_fraction2 n =
    if ltb (n / 10) 10
    then b'.' ∷ b'0' ∷ (b'0' + n / 10) ∷ []
    else b'.' ∷ (b'0' + n / 10 / 10) ∷ (b'0' + n / 10 % 10) ∷ []

unfoldable pub round2even : ℕ → ℕ
round2even n = if n % 10 == 5 then (if n / 10 % 2 == 1 then n + 10 else n) else n + 5

-- `units` by its index.
abbrev pub unit_name : ℕ → Bytes
unit_name n = if n == 0 then codes "us" else if n == 1 then codes "ms" else codes "s"

-- The variables `ns` and `unit` behind the rounding and the step to the next unit.
pub record Scaled : Type 0 where
  pub ns : ℕ
  pub unit : ℕ

unfoldable pub next_unit : ℕ → ℕ → Scaled
next_unit ns unit =
    if leb 1000 (ns / 1000) && ltb unit 2
    then record { ns = ns / 1000; unit = unit + 1 }
    else record { ns = ns; unit = unit }

unfoldable pub scale_duration : ℕ → Scaled
scale_duration ns =
    if ltb ns 1000000
    then next_unit (round2even ns) 0
    else if ltb ns 1000000000
    then next_unit (round2even (ns / 1000)) 1
    else next_unit (round2even (ns / 1000000)) 2

unfoldable pub format_durationf : ℕ → Bytes
unfolding format_fraction2
format_durationf ns =
    if ltb ns 1000
    then format_uint ns ++ codes "ns"
    else (let s = scale_duration ns in
        format_uint (s.ns / 1000) ++ format_fraction2 (s.ns % 1000) ++ unit_name s.unit)

milliseconds_text : format_durationf 1234567 ≡ codes "1.23ms"
unfolding format_durationf scale_duration next_unit round2even format_uint
milliseconds_text = refl
