-- ===== src/Abr/Tests.antt =====
-- The theorems on src/abr at concrete inputs.
use quicsy.Prelude.{
  ℕ, ◌+◌, ◌<◌, ◌≡◌, ◌↔◌, ◌⊎◌, refl, true, [], ◌∷◌, ◌≢◌, Bytes, some, length, codes, List, get_elem?,
  arith,
}
use quicsy.Prelude.Int.{pos}
use quicsy.Abr.Replace.{str_replace, text, null}
use quicsy.Abr.Replace.Search.{Absent}
use quicsy.Util.Number.{format_uint}
use quicsy.Abr.Segments.{name_segments, segment_name, with_number, with_level}
use quicsy.Abr.Segments.Names.{name_of, Fits, name_segments_lem}
use quicsy.Abr.Replace.Correct.{Replaces, str_replace-Replaces, str_replace-null_iff}

-- "a$$b", and the keyword "$".
abbrev template : Bytes
template = b'a' ∷ b'$' ∷ b'$' ∷ b'b' ∷ []

abbrev dollar : Bytes
dollar = b'$' ∷ []

abbrev digits : Bytes
digits = b'1' ∷ b'2' ∷ []

dollar-ne-nil : dollar ≢ []
dollar-ne-nil e = cc

dollar_occurs : ¬ Absent dollar template
dollar_occurs h = h (b'a' ∷ []) (b'$' ∷ b'b' ∷ []) refl

str_replace-Replaces_example :
    (t : Bytes) × (n : ℕ) × (str_replace true (some template) (some dollar) (some digits)
      ≡ some (text (pos (length t + 1)) t))
    × Replaces dollar digits template t n
    × (0 < n)
str_replace-Replaces_example =
    str_replace-Replaces template dollar digits dollar-ne-nil dollar_occurs (omega arith)

str_replace-null_iff_example :
    (str_replace true (some template) (some digits) (some dollar) ≡ some null)
    ↔ ((digits ≡ []) ⊎ Absent digits template)
str_replace-null_iff_example = str_replace-null_iff template digits dollar

-- A media template and the numbers 1 and 2.
abbrev media_url : Bytes
media_url = codes "seg-$Number$.m4s"

two_fit : (k : ℕ) → k < 2 → Fits [] [] media_url (1 + k)
unfolding format_uint segment_name with_number str_replace with_level
two_fit ℕ.zero h = (omega arith, omega arith)
two_fit (ℕ.suc ℕ.zero) h = (omega arith, omega arith)
two_fit (ℕ.suc (ℕ.suc k)) h = absurd (omega arith)

name_segments_lem_example :
    (names : List Bytes) × (name_segments [] [] media_url 2 1 ≡ some names)
    × (length names ≡ 2)
    × ((k : ℕ) → k < 2 → get_elem? names k ≡ some (name_of [] [] media_url (1 + k)))
name_segments_lem_example = name_segments_lem [] [] media_url 2 1 two_fit
