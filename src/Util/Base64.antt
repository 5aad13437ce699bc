-- ===== src/Util/Base64.antt =====
-- `b64encode` of include/quicsy/util.h.
pub mod Decode
use quicsy.Prelude.{
  ℕ, suc, ◌+◌, ◌*◌, ◌/◌, ◌%◌, ◌^◌, ◌≡◌, refl, [], ◌∷◌, Bytes, codes, ◌==◌, if◌then◌else◌, length,
  replicate, get_or,
}
use quicsy.Prelude.Buffer.{write_at}

-- `B64_CHARS`.
abbrev pub b64_chars : Bytes
b64_chars = codes "ABCDEFGHIJKLMNOPQRSTUVWXYZabcdefghijklmnopqrstuvwxyz0123456789+/"

unfoldable pub b64_char : ℕ → ℕ
b64_char i = get_or b64_chars i 0

-- The four characters of three bytes, and of the two or one that may be left at the end.
unfoldable pub group_three : ℕ → ℕ → ℕ → Bytes
group_three a b c =
    let n = a * 2 ^ 16 + b * 2 ^ 8 + c in
    b64_char (n / 2 ^ 18)
    ∷ b64_char (n / 2 ^ 12 % 64)
    ∷ b64_char (n / 2 ^ 6 % 64)
    ∷ b64_char (n % 64)
    ∷ []

unfoldable pub group_two : ℕ → ℕ → Bytes
group_two a b =
    let n = a * 2 ^ 16 + b * 2 ^ 8 in
    b64_char (n / 2 ^ 18) ∷ b64_char (n / 2 ^ 12 % 64) ∷ b64_char (n / 2 ^ 6 % 64) ∷ b'=' ∷ []

unfoldable pub group_one : ℕ → Bytes
group_one a =
    let n = a * 2 ^ 16 in b64_char (n / 2 ^ 18) ∷ b64_char (n / 2 ^ 12 % 64) ∷ b'=' ∷ b'=' ∷ []

-- The loop while `first != j`, that is while three bytes are left, and the cases of `r` behind it.
unfoldable pub fill_groups : Bytes → ℕ → Bytes → Bytes
unfolding group_three group_two group_one write_at
fill_groups (a ∷ b ∷ c ∷ s) p res = fill_groups s (p + 4) (write_at res p (group_three a b c))
fill_groups (a ∷ b ∷ []) p res = write_at res p (group_two a b)
fill_groups (a ∷ []) p res = write_at res p (group_one a)
fill_groups [] p res = res

unfoldable pub b64encode : Bytes → Bytes
unfolding fill_groups b64_char
b64encode s = if length s == 0 then [] else fill_groups s 0 (replicate ((length s + 2) / 3 * 4) 0)

padded : b64encode (codes "hello") ≡ codes "aGVsbG8="
unfolding b64encode
padded = refl
