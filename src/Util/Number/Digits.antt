-- ===== src/Util/Number/Digits.antt =====
-- The digits of a number, most significant first, and how `format_uint` comes to write them.
use quicsy.Prelude.{
  ℕ, zero, suc, ◌+◌, ◌-◌, ◌/◌, ◌%◌, ◌≡◌, ◌≢◌, refl, ap, [], ◌∷◌, ◌++◌, arith, Bytes, ◌==◌,
  if◌then◌else◌, length, set, replicate, inl, inr, Bool-cases, append-nil,
}
use quicsy.Util.Number.{count_digits, fill_digits, format_uint}

-- The decimal digits of `n` before `out`.
unfoldable pub digits : ℕ → ℕ → Bytes → Bytes
digits zero n out = out
digits (suc f) n out =
    let rest = digits f (n / 10) ((n % 10 + b'0') ∷ out) in if n == 0 then out else rest

pub count_digits-add : (f t k : ℕ) → count_digits f t k ≡ count_digits f t 0 + k
unfolding count_digits
count_digits-add zero t k = omega arith
count_digits-add (suc f) t k =
    ground (arith, count_digits-add f (t / 10) (k + 1), count_digits-add f (t / 10) (0 + 1))

set_at_end :
    (n : ℕ) (v : ℕ) (out : Bytes) → set (replicate (suc n) 0 ++ out) n v ≡ replicate n 0 ++ v ∷ out
set_at_end zero v out = refl
set_at_end (suc n) v out = ap (λ l. 0 ∷ l) (set_at_end n v out)

fill_digits-digits :
    (f n : ℕ) (out : Bytes)
    → fill_digits f n (count_digits f n 0) (replicate (count_digits f n 0) 0 ++ out)
      ≡ digits f n out
unfolding fill_digits count_digits digits
fill_digits-digits zero n out = refl
fill_digits-digits (suc f) n out = elim (Bool-cases (n == 0)) [
  | inl e ↦ rw (e, fill_digits, count_digits, digits) refl
  | inr e ↦
      rw (e, fill_digits, count_digits, digits)
        (rw one_more
          (rw pred_suc (rw set_at_end (fill_digits-digits f (n / 10) ((n % 10 + b'0') ∷ out)))))
]
  where
    one_more : count_digits f (n / 10) (0 + 1) ≡ suc (count_digits f (n / 10) 0)
    one_more = omega (arith, count_digits-add f (n / 10) (0 + 1))

    pred_suc : suc (count_digits f (n / 10) 0) - 1 ≡ count_digits f (n / 10) 0
    pred_suc = omega arith

pub format_uint-digits : (n : ℕ) → n ≢ 0 → format_uint n ≡ digits n n []
unfolding format_uint
format_uint-digits n h = elim (Bool-cases (n == 0)) [
  | inl e ↦ absurd (h (ground arith))
  | inr e ↦
      rw (e, format_uint)
        (rw (← append-nil (replicate {A = ℕ} (count_digits n n 0) 0)) (fill_digits-digits n n []))
]

-- The digits go before the text that follows.
pub digits-append : (f n : ℕ) (out rest : Bytes) → digits f n out ++ rest ≡ digits f n (out ++ rest)
unfolding digits
digits-append zero n out rest = refl
digits-append (suc f) n out rest =
    ground (arith, digits-append f (n / 10) ((n % 10 + b'0') ∷ out) rest)

pub length-digits :
    (f n : ℕ) (out : Bytes) → length (digits f n out) ≡ count_digits f n 0 + length out
unfolding digits count_digits
length-digits zero n out = omega arith
length-digits (suc f) n out =
    ground
      (arith, length-digits f (n / 10) ((n % 10 + b'0') ∷ out), count_digits-add f (n / 10) (0 + 1))
