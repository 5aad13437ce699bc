-- ===== src/Abr/Segments/Names.antt =====
-- The names of the segments of a level, in order, and what a number template becomes.
use quicsy.Prelude.{
  ℕ, zero, suc, ◌+◌, ◌<◌, ◌≡◌, refl, ap, subst, ◌∙◌, [], ◌∷◌, List, Bytes, some, length, get_elem?,
  arith, lt→ltb,
}
use quicsy.Util.Number.{format_uint}
use quicsy.Abr.Segments.{
  max_url_length, segnum_size, segment_name, store_url, print_segnum, name_segments,
}

-- The name of the segment of a number.
abbrev pub name_of : Bytes → Bytes → Bytes → ℕ → Bytes
name_of bandwidth id media_url sn = segment_name bandwidth id media_url (format_uint sn)

-- A number fits `segnum` and its name the buffer.
abbrev pub Fits : Bytes → Bytes → Bytes → ℕ → Type 0
Fits bandwidth id media_url sn =
    (length (format_uint sn) < segnum_size)
    × (length (name_of bandwidth id media_url sn) < max_url_length)

-- When every number and every name fits its buffer, the inner loop writes as many names as it has
-- rounds, and the one at position k is that of the k-th number from the start number on.
pub name_segments_lem :
    (bandwidth id media_url : Bytes) (count sn : ℕ)
    → ((k : ℕ) → k < count → Fits bandwidth id media_url (sn + k))
    → (names : List Bytes) × (name_segments bandwidth id media_url count sn ≡ some names)
      × (length names ≡ count)
      × ((k : ℕ) → k < count → get_elem? names k ≡ some (name_of bandwidth id media_url (sn + k)))
unfolding name_segments store_url print_segnum
name_segments_lem bandwidth id media_url zero sn fits = ([], refl, refl, λ k h. elim h [ ])
name_segments_lem bandwidth id media_url (suc count) sn fits =
    let here : sn + 0 ≡ sn = omega arith in
    let (number, name) = subst (Fits bandwidth id media_url) here (fits 0 (omega arith)) in
    let (names, loop, size, each) =
      name_segments_lem bandwidth id media_url count (sn + 1)
        (λ k h. subst (Fits bandwidth id media_url) (omega arith) (fits (suc k) (omega arith))) in
    (
      name_of bandwidth id media_url sn ∷ names,
      rw (lt→ltb _ _ number, lt→ltb _ _ name, loop) refl,
      ap suc size,
      at_each names each,
    )
  where
    at_each :
        (names : List Bytes)
        → ((k : ℕ)
            → k < count
            → get_elem? names k ≡ some (name_of bandwidth id media_url (sn + 1 + k)))
        → (k : ℕ) → k < suc count
        → get_elem? (name_of bandwidth id media_url sn ∷ names) k
          ≡ some (name_of bandwidth id media_url (sn + k))
    at_each names each zero h = ap (λ n. some (name_of bandwidth id media_url n)) (omega arith)
    at_each names each (suc k) h =
        each k (omega arith) ∙ ap (λ n. some (name_of bandwidth id media_url n)) (omega arith)
