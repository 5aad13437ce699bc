-- ===== src/Util/Duration/Nearest.antt =====
-- How far `format_durationf` is from the duration it shows.
use quicsy.Prelude.{
  ℕ, ◌+◌, ◌*◌, ◌/◌, ◌%◌, ◌≤◌, ◌<◌, ◌==◌, ltb, tests, Bool-cases, if◌then◌else◌, ◌≡◌, ◌⊎◌, inl, inr,
  arith, refl, ap, subst, ◌∙◌, false, Bytes, [], ◌∷◌, ◌++◌,
}
use quicsy.Util.Number.{format_uint}
use quicsy.Util.Duration.{
  Scaled, round2even, next_unit, scale_duration, format_fraction2, unit_name, format_durationf,
}

-- `round2even` rounds to a multiple of ten: the tens of its result are the nearest ones, and of two
-- that are as near, the even one.
pub round2even_lem :
    (n : ℕ)
    → (round2even n / 10 * 10 ≤ n + 5)
      × (n ≤ round2even n / 10 * 10 + 5)
      × (n % 10 ≡ 5 → round2even n / 10 % 2 ≡ 0)
unfolding round2even
round2even_lem n = ground arith

-- What two digits behind the point show: the duration in nanoseconds of the number before the unit.
abbrev pub hundredth : ℕ → ℕ
hundredth unit = if unit == 0 then 10 else if unit == 1 then 10000 else 10000000

abbrev pub shown : Scaled → ℕ
shown s = s.ns / 10 * hundredth s.unit

abbrev pub IsNear : ℕ → Scaled → Type 0
IsNear ns s =
    (10 * shown s ≤ 10 * ns + 5 * hundredth s.unit)
    × (10 * ns < 10 * shown s + 6 * hundredth s.unit)
    × ((s.ns / 1000 < 1000) ⊎ (s.unit ≡ 2))

microseconds-IsNear : (ns : ℕ) → ns < 1000000 → IsNear ns (next_unit (round2even ns) 0)
unfolding next_unit
microseconds-IsNear ns h = ground (arith, round2even_lem ns)

milliseconds-IsNear :
    (ns m : ℕ)
    → m < 1000000
    → m * 1000 ≤ ns
    → ns < m * 1000 + 1000
    → IsNear ns (next_unit (round2even m) 1)
unfolding next_unit
milliseconds-IsNear ns m h low high = ground (arith, round2even_lem m)

seconds-IsNear :
    (ns m : ℕ)
    → m * 1000000 ≤ ns
    → ns < m * 1000000 + 1000000
    → IsNear ns (next_unit (round2even m) 2)
unfolding next_unit
seconds-IsNear ns m low high = ground (arith, round2even_lem m)

scale_duration-IsNear : (ns : ℕ) → 1000 ≤ ns → IsNear ns (scale_duration ns)
unfolding scale_duration
scale_duration-IsNear ns h = elim (Bool-cases (ltb ns 1000000)) [
  | inl e ↦ rw e (microseconds-IsNear ns (omega tests))
  | inr e ↦ elim (Bool-cases (ltb ns 1000000000)) [
    | inl f ↦
        rw (e, f) (milliseconds-IsNear ns (ns / 1000) (ground arith) (omega arith) (omega arith))
    | inr f ↦ rw (e, f) (seconds-IsNear ns (ns / 1000000) (omega arith) (omega arith))
  ]
]

format_fraction2-digits :
    (n : ℕ) → format_fraction2 n ≡ b'.' ∷ (b'0' + n / 10 / 10) ∷ (b'0' + n / 10 % 10) ∷ []
unfolding format_fraction2
format_fraction2-digits n = elim (Bool-cases (ltb (n / 10) 10)) [
  | inr e ↦ rw e refl
  | inl e ↦
      let tens : b'0' ≡ b'0' + n / 10 / 10 = omega (arith, tests) in
      let ones : b'0' + n / 10 ≡ b'0' + n / 10 % 10 = omega (arith, tests) in
      rw e (
        ap (λ d. b'.' ∷ d ∷ (b'0' + n / 10) ∷ []) tens
        ∙ ap (λ d. b'.' ∷ (b'0' + n / 10 / 10) ∷ d ∷ []) ones)
]

-- A decimal numeral with two digits behind the point, and a unit.
abbrev pub numeral : ℕ → ℕ → ℕ → Bytes
numeral whole cents unit =
    format_uint whole ++ (b'.' ∷ (b'0' + cents / 10) ∷ (b'0' + cents % 10) ∷ []) ++ unit_name unit

next_unit-unit : (ns unit : ℕ) → unit ≤ 2 → (next_unit ns unit).unit ≤ 2
unfolding next_unit
next_unit-unit ns unit h = ground arith

scale_duration-unit : (ns : ℕ) → (scale_duration ns).unit ≤ 2
unfolding scale_duration
scale_duration-unit ns = elim (Bool-cases (ltb ns 1000000)) [
  | inl e ↦ rw e (next_unit-unit _ 0 (omega arith))
  | inr e ↦ elim (Bool-cases (ltb ns 1000000000)) [
    | inl f ↦ rw (e, f) (next_unit-unit _ 1 (omega arith))
    | inr f ↦ rw (e, f) (next_unit-unit _ 2 (omega arith))
  ]
]

-- From a microsecond on, `format_durationf` writes a decimal numeral with exactly two digits behind the
-- point and a unit of microseconds, milliseconds or seconds. The value of the numeral in its unit
-- differs from the true duration by at most half of the last digit upwards and less than 6 tenths of it
-- downwards, and its whole part is below 1000 unless the unit is seconds.
pub format_durationf-IsNear :
    (ns : ℕ)
    → 1000 ≤ ns
    → (whole : ℕ) × (cents : ℕ) × (unit : ℕ) × (format_durationf ns ≡ numeral whole cents unit)
      × (cents < 100)
      × (unit ≤ 2)
      × (10 * ((whole * 100 + cents) * hundredth unit) ≤ 10 * ns + 5 * hundredth unit)
      × (10 * ns < 10 * ((whole * 100 + cents) * hundredth unit) + 6 * hundredth unit)
      × ((whole < 1000) ⊎ (unit ≡ 2))
unfolding format_durationf
format_durationf-IsNear ns h =
    let s = scale_duration ns in
    let (low, high, short) = scale_duration-IsNear ns h in
    let e : s.ns / 10 ≡ s.ns / 1000 * 100 + s.ns % 1000 / 10 = omega arith in
    (
      s.ns / 1000,
      s.ns % 1000 / 10,
      s.unit,
      rw (below, format_fraction2-digits (s.ns % 1000)) refl,
      omega arith,
      scale_duration-unit ns,
      subst (λ v. 10 * (v * hundredth s.unit) ≤ 10 * ns + 5 * hundredth s.unit) e low,
      subst (λ v. 10 * ns < 10 * (v * hundredth s.unit) + 6 * hundredth s.unit) e high,
      short,
    )
  where
    below : ltb ns 1000 ≡ false
    below = elim (Bool-cases (ltb ns 1000)) [ inl e ↦ absurd (omega (arith, tests, e)) | inr e ↦ e ]
