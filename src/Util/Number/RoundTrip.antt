-- ===== src/Util/Number/RoundTrip.antt =====
-- `parse_uint` reads back what `format_uint` writes, for every 64-bit number.
use quicsy.Prelude.{
  ℕ, zero, suc, ◌+◌, ◌/◌, ◌%◌, ◌≤◌, ◌≡◌, ◌≢◌, refl, ap, ◌∙◌, [], ◌∷◌, ◌++◌, arith, Bytes, length,
  append-nil, subst,
}
use quicsy.Prelude.Int.{pos}
use quicsy.Util.Number.{
  u64_max, count_digits, parse_digits, parse_uint_internal, parse_uint, format_uint, accept,
}
use quicsy.Util.Number.Digits.{
  digits, count_digits-add, format_uint-digits, digits-append, length-digits,
}

-- Reading the last digit of `n` after the digits before it gives `n`.
parse_digits_last :
    (n i : ℕ) (out : Bytes)
    → n ≤ u64_max
    → parse_digits ((n % 10 + b'0') ∷ out) (n / 10) i ≡ parse_digits out n (i + 1)
unfolding parse_digits
parse_digits_last n i out h = ground arith

pub parse_digits-digits :
    (f n : ℕ) (out : Bytes)
    → n ≤ f
    → n ≤ u64_max
    → parse_digits (digits f n out) 0 0 ≡ parse_digits out n (count_digits f n 0)
unfolding digits count_digits
parse_digits-digits zero n out fuel h = let e : n ≡ 0 = omega arith in rw e
parse_digits-digits (suc f) n out fuel h = ground (
  arith,
  parse_digits-digits f (n / 10) ((n % 10 + b'0') ∷ out),
  parse_digits_last n (count_digits f (n / 10) 0) out h,
  count_digits-add f (n / 10) (0 + 1),
)

digits-ne-nil : (f n : ℕ) (c : ℕ) (out : Bytes) → digits f n (c ∷ out) ≢ []
unfolding digits
digits-ne-nil zero n c out = ground arith
digits-ne-nil (suc f) n c out = ground (arith, digits-ne-nil f (n / 10) (n % 10 + b'0') (c ∷ out))

digits-suc-ne-nil : (n : ℕ) (rest : Bytes) → digits (suc n) (suc n) rest ≢ []
unfolding digits
digits-suc-ne-nil n rest = ground (arith, digits-ne-nil n (suc n / 10) (suc n % 10 + b'0') rest)

parse_uint_internal-parse_digits : (s : Bytes) → s ≢ [] → parse_uint_internal s ≡ parse_digits s 0 0
unfolding parse_uint_internal
parse_uint_internal-parse_digits [] h = absurd (h refl)
parse_uint_internal-parse_digits (c ∷ s) h = refl

-- A printed number before any text is read up to that text, whatever the text is.
pub parse_uint_internal-format_uint :
    (n : ℕ) (rest : Bytes)
    → n ≤ u64_max
    → parse_uint_internal (format_uint n ++ rest) ≡ parse_digits rest n (length (format_uint n))
parse_uint_internal-format_uint zero rest h =
    unfold format_uint parse_uint_internal parse_digits in refl
parse_uint_internal-format_uint (suc n) rest h =
    rw (format_uint-digits (suc n) (λ e. cc), digits-append (suc n) (suc n) [] rest)
      (parse_uint_internal-parse_digits _ (digits-suc-ne-nil n rest)
        ∙ parse_digits-digits (suc n) (suc n) rest (omega arith) h
        ∙ ap (parse_digits rest (suc n)) (omega (arith, length-digits (suc n) (suc n) [])))

pub parse_uint_internal-plain :
    (n : ℕ)
    → n ≤ u64_max
    → parse_uint_internal (format_uint n)
      ≡ record { res = n; idx = length (format_uint n); rv = pos 0 }
unfolding parse_digits
parse_uint_internal-plain n h =
    subst (λ s. parse_uint_internal s ≡ parse_digits [] n (length (format_uint n)))
      (append-nil (format_uint n)) (parse_uint_internal-format_uint n [] h)

-- `parse_uint` reads back what `format_uint` writes, for every 64-bit number.
pub parse_uint-format_uint : (n : ℕ) → n ≤ u64_max → parse_uint (format_uint n) ≡ accept n
unfolding parse_uint
parse_uint-format_uint n h = ground (arith, parse_uint_internal-plain n h)
