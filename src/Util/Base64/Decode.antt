-- ===== src/Util/Base64/Decode.antt =====
-- The encoder against a decoder of RFC 4648 base64.
use quicsy.Prelude.{
  ℕ, suc, ◌+◌, ◌-◌, ◌*◌, ◌/◌, ◌%◌, ◌^◌, ◌<◌, ◌≡◌, refl, ap, sym, ◌∙◌, [], ◌∷◌, ◌++◌, arith, Bytes,
  IsBytes, true, false, ◌&&◌, not, ◌==◌, leb, if◌then◌else◌, length, replicate, append_assoc,
  append-nil, length-append,
}
use quicsy.Prelude.Tables.{holds_on_table, holds_on_table_at}
use quicsy.Prelude.Buffer.{write_at, write_at-replicate}
use quicsy.Util.Base64.{b64_char, group_three, group_two, group_one, fill_groups, b64encode}

-- The value of a character of the alphabet.
sextet : ℕ → ℕ
sextet c =
    if leb b'a' c
    then c - b'a' + 26
    else if leb b'A' c
    then c - b'A'
    else if leb b'0' c
    then c - b'0' + 52
    else if c == b'+'
    then 62
    else 63

-- Four characters to three bytes, two for one '=' and one for two of them.
pub b64decode : Bytes → Bytes
unfolding sextet
b64decode (w ∷ x ∷ y ∷ z ∷ s) =
    let n = sextet w * 2 ^ 18 + sextet x * 2 ^ 12 + sextet y * 2 ^ 6 + sextet z in
    let more = n / 2 ^ 16 ∷ n / 2 ^ 8 % 256 ∷ n % 256 ∷ b64decode s in
    if z == b'='
    then (if y == b'='
        then (sextet w * 4 + sextet x / 16) ∷ []
        else (sextet w * 4 + sextet x / 16) ∷ (sextet x % 16 * 16 + sextet y / 4) ∷ [])
    else more
b64decode s = []

-- The groups one after the other.
b64_text : Bytes → Bytes
b64_text (a ∷ b ∷ c ∷ s) = group_three a b c ++ b64_text s
b64_text (a ∷ b ∷ []) = group_two a b
b64_text (a ∷ []) = group_one a
b64_text [] = []

triple_write :
    (a b c : ℕ) (pre : Bytes) (p n : ℕ)
    → p ≡ length pre
    → write_at (pre ++ replicate ((suc (suc (suc n)) + 2) / 3 * 4) 0) p (group_three a b c)
      ≡ (pre ++ group_three a b c) ++ replicate ((n + 2) / 3 * 4) 0
unfolding group_three
triple_write a b c pre p n h =
    let e : (suc (suc (suc n)) + 2) / 3 * 4 ≡ 4 + (n + 2) / 3 * 4 = omega arith in
    rw e (write_at-replicate (group_three a b c) pre p ((n + 2) / 3 * 4) 0 h)

length-group_three : (a b c : ℕ) → length (group_three a b c) ≡ 4
unfolding group_three
length-group_three a b c = refl

fill_groups-triple :
    (a b c : ℕ) (s : Bytes) (p : ℕ) (res : Bytes)
    → fill_groups (a ∷ b ∷ c ∷ s) p res ≡ fill_groups s (p + 4) (write_at res p (group_three a b c))
unfolding fill_groups
fill_groups-triple a b c s p res = refl

b64_text-triple :
    (a b c : ℕ) (s : Bytes) → b64_text (a ∷ b ∷ c ∷ s) ≡ group_three a b c ++ b64_text s
unfolding b64_text
b64_text-triple a b c s = refl

-- The writes of the loop lay the groups one after the other, and fill the text.
fill_groups-b64_text :
    (s pre : Bytes) (p : ℕ)
    → p ≡ length pre
    → fill_groups s p (pre ++ replicate ((length s + 2) / 3 * 4) 0) ≡ pre ++ b64_text s
fill_groups-b64_text (a ∷ b ∷ c ∷ s) pre p h =
    fill_groups-triple a b c s p _
    ∙ ap (fill_groups s (p + 4)) (triple_write a b c pre p (length s) h)
    ∙ fill_groups-b64_text s (pre ++ group_three a b c) (p + 4)
        (omega (arith, length-append pre (group_three a b c), length-group_three a b c))
    ∙ append_assoc pre (group_three a b c) (b64_text s)
    ∙ ap (λ t. pre ++ t) (sym (b64_text-triple a b c s))
fill_groups-b64_text (a ∷ b ∷ []) pre p h =
    unfold fill_groups b64_text in write_at-replicate (group_two a b) pre p 0 0 h ∙ append-nil _
fill_groups-b64_text (a ∷ []) pre p h =
    unfold fill_groups b64_text in write_at-replicate (group_one a) pre p 0 0 h ∙ append-nil _
fill_groups-b64_text [] pre p h = unfold fill_groups b64_text in refl

b64encode-b64_text : (s : Bytes) → b64encode s ≡ b64_text s
b64encode-b64_text [] = unfold b64encode b64_text in refl
b64encode-b64_text (x ∷ s) =
    unfold b64encode in ground (arith, fill_groups-b64_text (x ∷ s) [] 0 refl)

char_table : holds_on_table (λ i. sextet (b64_char i) == i && not (b64_char i == b'=')) 64 ≡ true
unfolding holds_on_table sextet b64_char
char_table = refl

sextet-b64_char : (i : ℕ) → i < 64 → (sextet (b64_char i) ≡ i) × ((b64_char i == b'=') ≡ false)
sextet-b64_char i h =
    let both =
      holds_on_table_at (λ i. sextet (b64_char i) == i && not (b64_char i == b'=')) 64 i h
        char_table in
    ground arith

read_three :
    (a b c : ℕ) (s : Bytes)
    → a < 256
    → b < 256
    → c < 256
    → b64decode (group_three a b c ++ s) ≡ a ∷ b ∷ c ∷ b64decode s
unfolding b64decode group_three
read_three a b c s ha hb hc =
    let n : ℕ = a * 2 ^ 16 + b * 2 ^ 8 + c in
    ground (
      arith,
      sextet-b64_char (n / 2 ^ 18),
      sextet-b64_char (n / 2 ^ 12 % 64),
      sextet-b64_char (n / 2 ^ 6 % 64),
      sextet-b64_char (n % 64),
    )

read_two : (a b : ℕ) → a < 256 → b < 256 → b64decode (group_two a b) ≡ a ∷ b ∷ []
unfolding b64decode group_two
read_two a b ha hb =
    let n : ℕ = a * 2 ^ 16 + b * 2 ^ 8 in
    ground (
      arith,
      sextet-b64_char (n / 2 ^ 18),
      sextet-b64_char (n / 2 ^ 12 % 64),
      sextet-b64_char (n / 2 ^ 6 % 64),
    )

read_one : (a : ℕ) → a < 256 → b64decode (group_one a) ≡ a ∷ []
unfolding b64decode group_one
read_one a ha =
    let n : ℕ = a * 2 ^ 16 in
    ground (arith, sextet-b64_char (n / 2 ^ 18), sextet-b64_char (n / 2 ^ 12 % 64))

b64decode-b64_text : (s : Bytes) → IsBytes s → b64decode (b64_text s) ≡ s
b64decode-b64_text (a ∷ b ∷ c ∷ s) (ha, (hb, (hc, hs))) =
    ap b64decode (b64_text-triple a b c s)
    ∙ read_three a b c (b64_text s) ha hb hc
    ∙ ap (λ t. a ∷ b ∷ c ∷ t) (b64decode-b64_text s hs)
b64decode-b64_text (a ∷ b ∷ []) (ha, (hb, _)) = unfold b64_text in read_two a b ha hb
b64decode-b64_text (a ∷ []) (ha, _) = unfold b64_text in read_one a ha
b64decode-b64_text [] _ = unfold b64_text b64decode in refl

length-b64_text : (s : Bytes) → length (b64_text s) ≡ (length s + 2) / 3 * 4
unfolding b64_text group_three group_two group_one
length-b64_text (a ∷ b ∷ c ∷ s) = omega (arith, length-b64_text s)
length-b64_text (a ∷ b ∷ []) = refl
length-b64_text (a ∷ []) = refl
length-b64_text [] = refl

-- The text of any string of bytes is as long as RFC 4648 says, padding included, and a decoder of
-- that standard gives the bytes back.
pub b64decode-b64encode :
    (s : Bytes)
    → IsBytes s
    → (b64decode (b64encode s) ≡ s) × (length (b64encode s) ≡ (length s + 2) / 3 * 4)
b64decode-b64encode s h = rw (b64encode-b64_text s) (b64decode-b64_text s h, length-b64_text s)
