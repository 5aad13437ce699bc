-- ===== src/Util/CaseCmp.antt =====
-- `lowcase`, `CaseCmp` and `istarts_with` of include/quicsy/util.h: comparison that ignores the case
-- of ASCII letters.
use quicsy.Prelude.{
  ℕ, zero, suc, ◌+◌, ◌≤◌, ◌<◌, ◌≡◌, refl, ◌↔◌, List, [], ◌∷◌, ◌++◌, arith, Bytes, IsBytes, codes,
  Bool, true, false, ◌&&◌, map, ◌==◌, ==_iff, leb, ltb, if◌then◌else◌, length, get_or, take,
}
use quicsy.Prelude.Tables.{holds_on_table, holds_on_table_at}

-- `n` numbers from `a` on.
abbrev count_up : ℕ → ℕ → List ℕ
count_up zero a = []
count_up (suc n) a = a ∷ count_up n (suc a)

-- `tbl`: the identity with the lower case letters in the place of the upper case ones.
abbrev lowcase_table : Bytes
lowcase_table = count_up 65 0 ++ codes "abcdefghijklmnopqrstuvwxyz" ++ count_up 165 91

unfoldable pub lowcase : ℕ → ℕ
lowcase c = get_or lowcase_table c 0

-- `CaseCmp`.
unfoldable pub case_cmp : ℕ → ℕ → Bool
case_cmp lhs rhs = lowcase lhs == lowcase rhs

-- `std::equal(first2, last2, first1, CaseCmp())`, where the first range is long enough.
unfoldable pub equal_case : Bytes → Bytes → Bool
unfolding case_cmp
equal_case [] a = true
equal_case (y ∷ b) [] = false
equal_case (y ∷ b) (x ∷ a) = case_cmp y x && equal_case b a

unfoldable pub istarts_with : Bytes → Bytes → Bool
unfolding equal_case
istarts_with a b = if ltb (length a) (length b) then false else equal_case b a

-- The letter case that the table is for, written as a rule.
abbrev pub to_lower : ℕ → ℕ
to_lower c = if leb b'A' c && leb c b'Z' then c + 32 else c

lowcase_table-to_lower : holds_on_table (λ c. lowcase c == to_lower c) 256 ≡ true
unfolding holds_on_table lowcase
lowcase_table-to_lower = refl

-- On every byte the table of 256 entries lowers exactly the letters from `A` to `Z`.
pub lowcase-to_lower : (c : ℕ) → c < 256 → lowcase c ≡ to_lower c
lowcase-to_lower c h =
    (==_iff _ _).0 (holds_on_table_at (λ c. lowcase c == to_lower c) 256 c h lowcase_table-to_lower)

equal_case_sound :
    (b a : Bytes) → equal_case b a ≡ true → map lowcase (take (length b) a) ≡ map lowcase b
unfolding equal_case
equal_case_sound [] a h = refl
equal_case_sound (y ∷ b) [] h = cc
equal_case_sound (y ∷ b) (x ∷ a) h = ground (arith, equal_case_sound b a)

equal_case_complete :
    (b a : Bytes) → map lowcase (take (length b) a) ≡ map lowcase b → equal_case b a ≡ true
unfolding equal_case
equal_case_complete [] a h = refl
equal_case_complete (y ∷ b) [] h = cc
equal_case_complete (y ∷ b) (x ∷ a) h = ground (arith, equal_case_complete b a)

take_short : (b a : Bytes) → map lowcase (take (length b) a) ≡ map lowcase b → length b ≤ length a
take_short [] a h = omega arith
take_short (y ∷ b) [] h = cc
take_short (y ∷ b) (x ∷ a) h = omega (arith, take_short b a (cc))

map-lowcase : (s : Bytes) → IsBytes s → map lowcase s ≡ map to_lower s
map-lowcase [] h = refl
map-lowcase (c ∷ s) (hc, hs) = λ i. lowcase-to_lower c hc i ∷ map-lowcase s hs i

take-IsBytes : (n : ℕ) (s : Bytes) → IsBytes s → IsBytes (take n s)
take-IsBytes zero s h = tt
take-IsBytes (suc n) [] h = tt
take-IsBytes (suc n) (c ∷ s) (hc, hs) = (hc, take-IsBytes n s hs)

-- `istarts_with` holds exactly when the first bytes of the text, as many as the prefix has, are the
-- prefix up to the case of ASCII letters.
pub istarts_with_iff :
    (a b : Bytes)
    → IsBytes a
    → IsBytes b
    → (istarts_with a b ≡ true) ↔ (map to_lower (take (length b) a) ≡ map to_lower b)
unfolding istarts_with
istarts_with_iff a b ha hb =
    rw (← map-lowcase b hb, ← map-lowcase _ (take-IsBytes (length b) a ha))
      (
        λ h. equal_case_sound b a (ground arith),
        λ h. ground (arith, take_short b a h, equal_case_complete b a h),
      )
