-- ===== src/Util/Number.antt =====
-- `format_uint` (include/quicsy/util.h) and `parse_uint_internal`, `parse_uint` (src/util.cc).
-- A loop is a function of its variables; `std::string` is a list of bytes. A loop that divides by ten
-- takes its own operand for fuel, which is enough since each round makes it smaller.
pub mod Digits
pub mod RoundTrip
pub mod Accept
use quicsy.Prelude.{
  ℕ, zero, suc, ◌+◌, ◌-◌, ◌*◌, ◌/◌, ◌%◌, ◌^◌, ◌||◌, ◌≡◌, refl, Bool, false, not, codes, [], ◌∷◌,
  Bytes, ltb, ◌==◌, if◌then◌else◌, length, set, replicate,
}
use quicsy.Prelude.Int.{ℤ, pos, negsuc}

-- `std::numeric_limits<uint64_t>::max()`.
abbrev pub u64_max : ℕ
u64_max = 2 ^ 64 - 1

-- `for (auto t = n; t; t /= 10, ++nlen);`
unfoldable pub count_digits : ℕ → ℕ → ℕ → ℕ
count_digits zero t nlen = nlen
count_digits (suc f) t nlen =
    let rest = count_digits f (t / 10) (nlen + 1) in if t == 0 then nlen else rest

-- `for (; n; n /= 10) res[--nlen] = (n % 10) + '0';`
unfoldable pub fill_digits : ℕ → ℕ → ℕ → Bytes → Bytes
fill_digits zero n nlen res = res
fill_digits (suc f) n nlen res =
    let rest = fill_digits f (n / 10) (nlen - 1) (set res (nlen - 1) (n % 10 + b'0')) in
    if n == 0 then res else rest

unfoldable pub format_uint : ℕ → Bytes
unfolding count_digits fill_digits
format_uint n =
    if n == 0
    then b'0' ∷ []
    else (let nlen = count_digits n n 0 in fill_digits n n nlen (replicate nlen 0))

-- `std::tuple<uint64_t, size_t, int>`.
pub record Parsed : Type 0 where
  pub res : ℕ
  pub idx : ℕ
  pub rv : ℤ

-- The loop of `parse_uint_internal` from index `i` on, with its 64-bit arithmetic.
unfoldable pub parse_digits : Bytes → ℕ → ℕ → Parsed
parse_digits [] res i = record { res = res; idx = i; rv = pos 0 }
parse_digits (c ∷ s) res i =
    if ltb c b'0' || ltb b'9' c
    then record { res = res; idx = i; rv = pos 0 }
    else if ltb ((u64_max - (c - b'0')) / 10) res
    then record { res = 0; idx = i; rv = negsuc 0 }
    else parse_digits s ((res * 10 % 2 ^ 64 + (c - b'0')) % 2 ^ 64) (i + 1)

unfoldable pub parse_uint_internal : Bytes → Parsed
unfolding parse_digits
parse_uint_internal [] = record { res = 0; idx = 0; rv = negsuc 0 }
parse_uint_internal (c ∷ s) = parse_digits (c ∷ s) 0 0

-- `std::pair<uint64_t, int>`.
pub record Number : Type 0 where
  pub value : ℕ
  pub status : ℤ

abbrev pub accept : ℕ → Number
accept n = record { value = n; status = pos 0 }

abbrev pub reject : Number
reject = record { value = 0; status = negsuc 0 }

abbrev pub is_zero : ℤ → Bool
is_zero (pos n) = n == 0
is_zero (negsuc n) = false

unfoldable pub parse_uint : Bytes → Number
unfolding parse_uint_internal
parse_uint s =
    let p = parse_uint_internal s in
    if not (is_zero p.rv) || not (p.idx == length s) then reject else accept p.res

format_max : format_uint u64_max ≡ codes "18446744073709551615"
unfolding format_uint
format_max = refl

parse_overflow : parse_uint (codes "18446744073709551616") ≡ reject
unfolding parse_uint
parse_overflow = refl
