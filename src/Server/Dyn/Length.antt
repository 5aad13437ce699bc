-- ===== src/Server/Dyn/Length.antt =====
-- Which paths ask for generated bytes, and for how many.
use quicsy.Prelude.{
  ℕ, ◌+◌, ◌-◌, ◌*◌, ◌^◌, ◌≤◌, ◌<◌, ◌≡◌, ◌⊎◌, refl, inl, inr, [], ◌∷◌, arith, Bytes, All, some,
  Option-cases,
}
use quicsy.Util.Number.Accept.{IsDigit, decimal, le-decimal}
use quicsy.Server.Dyn.{not_dynamic, length_of, dyn_digits, find_dyn_length}

-- A text of digits, perhaps of none, whose value is within the bound.
abbrev pub IsLength : ℕ → Bytes → Type 0
IsLength max s = All IsDigit s × (decimal 0 s ≤ max)

dyn_digits_complete :
    (max : ℕ) (s : Bytes) (n : ℕ)
    → max < 2 ^ 62
    → All IsDigit s
    → decimal n s ≤ max
    → dyn_digits max s n ≡ some (decimal n s)
unfolding dyn_digits
dyn_digits_complete max [] n m h fits = refl
dyn_digits_complete max (c ∷ s) n m (hc, hs) fits = ground (
  arith,
  dyn_digits_complete max s (n * 10 + (c - b'0')) m hs fits,
  le-decimal s (n * 10 + (c - b'0')),
)

dyn_digits_sound :
    (max : ℕ) (s : Bytes) (n r : ℕ)
    → n ≤ max
    → dyn_digits max s n ≡ some r
    → All IsDigit s × (decimal n s ≤ max)
unfolding dyn_digits
dyn_digits_sound max [] n r h e = (tt, h)
dyn_digits_sound max (c ∷ s) n r h e =
    ground (arith, dyn_digits_sound max s (n * 10 + (c - b'0')) r)

-- For a path that begins with a slash and a maximum below 2^62, `find_dyn_length` decides whether the
-- rest is digits of a value up to the maximum: if so it returns this value, and else -1.
pub find_dyn_length-decides :
    (max : ℕ) (s : Bytes)
    → max < 2 ^ 62
    → (IsLength max s × (find_dyn_length max (b'/' ∷ s) ≡ length_of (decimal 0 s)))
      ⊎ ((¬ IsLength max s) × (find_dyn_length max (b'/' ∷ s) ≡ not_dynamic))
unfolding find_dyn_length
find_dyn_length-decides max s m = elim (Option-cases (dyn_digits max s 0)) [
  | inl e ↦ inr (λ h. cc (e, dyn_digits_complete max s 0 m h.0 h.1), rw e)
  | inr (r, e) ↦
      let h = dyn_digits_sound max s 0 r (omega arith) e in
      inl (h, rw (dyn_digits_complete max s 0 m h.0 h.1))
]
