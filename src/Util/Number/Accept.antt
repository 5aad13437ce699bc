-- ===== src/Util/Number/Accept.antt =====
-- Which texts `parse_uint` accepts, and what it answers.
use mathlib.Core.List.{foldl, cons-ne-nil}
use quicsy.Prelude.{
  ℕ, ◌+◌, ◌-◌, ◌*◌, ◌≤◌, ◌≡◌, ◌≢◌, ◌⊎◌, refl, [], ◌∷◌, arith, Bytes, All, length, inl, inr,
}
use quicsy.Prelude.Int.{pos}
use quicsy.Util.Number.{u64_max, parse_digits, parse_uint, accept, reject}

abbrev pub IsDigit : ℕ → Type 0
IsDigit c = (b'0' ≤ c) × (c ≤ b'9')

-- The number that a text of digits spells behind the digits of `n`, unbounded.
abbrev pub decimal : ℕ → Bytes → ℕ
decimal = foldl (λ n c. n * 10 + (c - b'0'))

-- One or more digits whose value fits 64 bits.
abbrev pub IsNumeral : Bytes → Type 0
IsNumeral s = (s ≢ []) × All IsDigit s × (decimal 0 s ≤ u64_max)

pub le-decimal : (s : Bytes) (n : ℕ) → n ≤ decimal n s
le-decimal [] n = omega arith
le-decimal (c ∷ s) n = omega (arith, le-decimal s (n * 10 + (c - b'0')))

-- The loop accepts.
parse_digits-All :
    (s : Bytes) (res i : ℕ)
    → All IsDigit s
    → decimal res s ≤ u64_max
    → parse_digits s res i ≡ record { res = decimal res s; idx = i + length s; rv = pos 0 }
unfolding parse_digits
parse_digits-All [] res i _ h = ground arith
parse_digits-All (c ∷ s) res i (hc, hs) h = ground (
  arith,
  parse_digits-All s (res * 10 + (c - b'0')) (i + 1) hs h,
  le-decimal s (res * 10 + (c - b'0')),
)

-- When it stops at the end with no error, it has read digits only, and no sum wrapped around.
parse_digits_sound :
    (s : Bytes) (res i : ℕ)
    → res ≤ u64_max
    → (parse_digits s res i).rv ≡ pos 0
    → (parse_digits s res i).idx ≡ i + length s
    → All IsDigit s × (decimal res s ≤ u64_max)
unfolding parse_digits
parse_digits_sound [] res i r h e = (tt, r)
parse_digits_sound (c ∷ s) res i r h e =
    ground (arith, parse_digits_sound s (res * 10 + (c - b'0')) (i + 1))

pub parse_uint_complete : (s : Bytes) → IsNumeral s → parse_uint s ≡ accept (decimal 0 s)
unfolding parse_uint
parse_uint_complete [] (h, _, _) = absurd (h refl)
parse_uint_complete (c ∷ s) (_, d, fits) = ground (arith, parse_digits-All (c ∷ s) 0 0 d fits)

parse_uint_sound : (s : Bytes) → (parse_uint s).status ≡ pos 0 → IsNumeral s
unfolding parse_uint
parse_uint_sound [] h = absurd (ground arith)
parse_uint_sound (c ∷ s) h = let (d, fits) = digits_only in (cons-ne-nil c s, d, fits)
  where
    digits_only : All IsDigit (c ∷ s) × (decimal 0 (c ∷ s) ≤ u64_max)
    digits_only = ground (arith, parse_digits_sound (c ∷ s) 0 0)

parse_uint_answers : (s : Bytes) → (parse_uint s ≡ reject) ⊎ ((parse_uint s).status ≡ pos 0)
unfolding parse_uint
parse_uint_answers s = ground arith

-- `parse_uint` decides which texts are numerals: a text of one or more digits whose value fits 64
-- bits is accepted with its true value, and every other text is rejected.
pub parse_uint_decides :
    (s : Bytes)
    → (IsNumeral s × (parse_uint s ≡ accept (decimal 0 s)))
      ⊎ ((¬ IsNumeral s) × (parse_uint s ≡ reject))
parse_uint_decides s = elim (parse_uint_answers s) [
  | inl e ↦ inr (λ h. cc (parse_uint_complete s h), e)
  | inr e ↦ inl (parse_uint_sound s e, parse_uint_complete s (parse_uint_sound s e))
]
