-- ===== src/Client/Params/RoundTrip.antt =====
-- What is written is read back.
use quicsy.Prelude.{
  ℕ, zero, suc, ◌+◌, ◌/◌, ◌%◌, ◌≡◌, ◌≤◌, refl, sym, subst, ◌∙◌, ap, arith, Bool, true, false, Bytes,
  some, List, [], ◌∷◌, ◌++◌, ltb, ◌==◌, if◌then◌else◌, length, Bool-cases, inl, inr, length-append,
}
use quicsy.Util.Number.{format_uint, u64_max}
use quicsy.Util.Number.Digits.{digits, format_uint-digits}
use quicsy.Util.CaseCmp.{case_cmp, equal_case, istarts_with, lowcase}
use quicsy.Client.Params.{
  Params, streams_bidi_key, streams_uni_key, bidi_local_key, bidi_remote_key, data_uni_key,
  max_data_key, line_before, write_transport_params, get_lines, skip_space, leading_number, strtoul,
  read_param, read_params, read_transport_params,
}

abbrev IsDecimal : ℕ → Type 0
IsDecimal c = (b'0' ≤ c) × (c ≤ b'9')

-- One digit or more.
abbrev Numeral : Bytes → Type 0
Numeral [] = ⊥
Numeral (c ∷ []) = IsDecimal c
Numeral (c ∷ d ∷ s) = IsDecimal c × Numeral (d ∷ s)

digits-Numeral : (f n c : ℕ) (out : Bytes) → Numeral (c ∷ out) → Numeral (digits f n (c ∷ out))
unfolding digits
digits-Numeral zero n c out h = h
digits-Numeral (suc f) n c out h = elim (Bool-cases (n == 0)) [
  | inl e ↦ rw e h
  | inr e ↦
      rw e (digits-Numeral f (n / 10) (n % 10 + b'0') (c ∷ out) ((omega arith, omega arith), h))
]

suc-digits-Numeral : (n : ℕ) → Numeral (digits (suc n) (suc n) [])
unfolding digits
suc-digits-Numeral n =
    let e : (suc n == 0) ≡ false = ground arith in
    rw e (digits-Numeral n (suc n / 10) (suc n % 10 + b'0') [] (omega arith, omega arith))

format_uint-Numeral : (n : ℕ) → Numeral (format_uint n)
unfolding format_uint
format_uint-Numeral zero = (omega arith, omega arith)
format_uint-Numeral (suc n) =
    subst Numeral (sym (format_uint-digits (suc n) (ground arith))) (suc-digits-Numeral n)

leading_digits :
    (f n : ℕ) (out : Bytes) → n ≤ f → leading_number (digits f n out) 0 ≡ leading_number out n
unfolding digits leading_number
leading_digits zero n out h = let e : n ≡ 0 = omega arith in rw e refl
leading_digits (suc f) n out h = ground (arith, leading_digits f (n / 10) ((n % 10 + b'0') ∷ out))

leading_number-format_uint : (n : ℕ) → leading_number (format_uint n) 0 ≡ n
unfolding leading_number format_uint
leading_number-format_uint zero = refl
leading_number-format_uint (suc n) =
    ap (λ s. leading_number s 0) (format_uint-digits (suc n) (ground arith))
    ∙ leading_digits (suc n) (suc n) [] (omega arith)

with_sign-Numeral :
    (s : Bytes) → Numeral s → leading_number s 0 ≤ u64_max → strtoul s ≡ leading_number s 0
unfolding strtoul skip_space
with_sign-Numeral [] h k = absurd h
with_sign-Numeral (c ∷ []) h k = ground arith
with_sign-Numeral (c ∷ d ∷ s) h k = ground arith

strtoul-format_uint : (n : ℕ) → n ≤ u64_max → strtoul (format_uint n) ≡ n
strtoul-format_uint n h =
    with_sign-Numeral (format_uint n) (format_uint-Numeral n)
      (subst (λ m. m ≤ u64_max) (sym (leading_number-format_uint n)) h)
    ∙ leading_number-format_uint n

-- No newline is in a text.
plain : Bytes → Bool
plain [] = true
plain (c ∷ s) = if c == 10 then false else plain s

get_lines-line :
    (l rest : Bytes) → plain l ≡ true → get_lines (l ++ (10 ∷ rest)) ≡ l ∷ get_lines rest
unfolding plain get_lines
get_lines-line [] rest h = refl
get_lines-line (c ∷ l) rest h = elim (Bool-cases (c == 10)) [
  | inl e ↦ absurd (ground (arith, e, h))
  | inr e ↦ rw e (rw (get_lines-line l rest (ground (arith, e, h))) refl)
]

plain-append : (l s : Bytes) → plain l ≡ true → plain s ≡ true → plain (l ++ s) ≡ true
unfolding plain
plain-append [] s h k = k
plain-append (c ∷ l) s h k = elim (Bool-cases (c == 10)) [
  | inl e ↦ absurd (ground (arith, e, h))
  | inr e ↦ rw e (plain-append l s (ground (arith, e, h)) k)
]

plain-Numeral : (s : Bytes) → Numeral s → plain s ≡ true
unfolding plain
plain-Numeral [] h = refl
plain-Numeral (c ∷ []) h = let e : (c == 10) ≡ false = ground arith in rw e refl
plain-Numeral (c ∷ d ∷ s) h =
    let e : (c == 10) ≡ false = ground (arith, h.0) in rw e (plain-Numeral (d ∷ s) h.1)

get_lines-line_before :
    (key : Bytes) (value : ℕ) (rest : Bytes)
    → plain key ≡ true
    → get_lines (line_before key value rest) ≡ (key ++ format_uint value) ∷ get_lines rest
get_lines-line_before key value rest h = get_lines-line (key ++ format_uint value) rest (
    plain-append key (format_uint value) h
      (plain-Numeral (format_uint value) (format_uint-Numeral value)))

equal_case_self : (p s : Bytes) → equal_case p (p ++ s) ≡ true
unfolding equal_case case_cmp
equal_case_self [] s = refl
equal_case_self (c ∷ p) s = ground (arith, equal_case_self p s)

matches : (p s : Bytes) → istarts_with (p ++ s) p ≡ true
unfolding istarts_with
matches p s =
    let e : ltb (length (p ++ s)) (length p) ≡ false = ground (arith, length-append p s) in
    rw e (equal_case_self p s)

differs : (a b : Bytes) → equal_case b a ≡ false → istarts_with a b ≡ false
unfolding istarts_with
differs a b h = ground (arith, h)

module _ (n : ℕ) (p : Params) (small : n ≤ u64_max) where
  reads_streams_bidi :
      read_param (streams_bidi_key ++ format_uint n) p ≡ record p { initial_max_streams_bidi = n }
  unfolding read_param equal_case case_cmp lowcase
  reads_streams_bidi =
      rw (matches streams_bidi_key (format_uint n)) (rw (strtoul-format_uint n small) refl)

  reads_streams_uni :
      read_param (streams_uni_key ++ format_uint n) p ≡ record p { initial_max_streams_uni = n }
  unfolding read_param equal_case case_cmp lowcase
  reads_streams_uni =
      rw (differs (streams_uni_key ++ format_uint n) streams_bidi_key refl)
        (rw (matches streams_uni_key (format_uint n)) (rw (strtoul-format_uint n small) refl))

  reads_bidi_local :
      read_param (bidi_local_key ++ format_uint n) p
      ≡ record p { initial_max_stream_data_bidi_local = n }
  unfolding read_param equal_case case_cmp lowcase
  reads_bidi_local = rw (differs (bidi_local_key ++ format_uint n) streams_bidi_key refl) (
      rw (differs (bidi_local_key ++ format_uint n) streams_uni_key refl)
        (rw (matches bidi_local_key (format_uint n)) (rw (strtoul-format_uint n small) refl)))

  reads_bidi_remote :
      read_param (bidi_remote_key ++ format_uint n) p
      ≡ record p { initial_max_stream_data_bidi_remote = n }
  unfolding read_param equal_case case_cmp lowcase
  reads_bidi_remote = rw (differs (bidi_remote_key ++ format_uint n) streams_bidi_key refl) (
      rw (differs (bidi_remote_key ++ format_uint n) streams_uni_key refl) (
        rw (differs (bidi_remote_key ++ format_uint n) bidi_local_key refl)
          (rw (matches bidi_remote_key (format_uint n)) (rw (strtoul-format_uint n small) refl))))

  reads_data_uni :
      read_param (data_uni_key ++ format_uint n) p ≡ record p { initial_max_stream_data_uni = n }
  unfolding read_param equal_case case_cmp lowcase
  reads_data_uni = rw (differs (data_uni_key ++ format_uint n) streams_bidi_key refl) (
      rw (differs (data_uni_key ++ format_uint n) streams_uni_key refl) (
        rw (differs (data_uni_key ++ format_uint n) bidi_local_key refl) (
          rw (differs (data_uni_key ++ format_uint n) bidi_remote_key refl)
            (rw (matches data_uni_key (format_uint n)) (rw (strtoul-format_uint n small) refl)))))

  reads_max_data : read_param (max_data_key ++ format_uint n) p ≡ record p { initial_max_data = n }
  unfolding read_param equal_case case_cmp lowcase
  reads_max_data = rw (differs (max_data_key ++ format_uint n) streams_bidi_key refl) (
      rw (differs (max_data_key ++ format_uint n) streams_uni_key refl) (
        rw (differs (max_data_key ++ format_uint n) bidi_local_key refl) (
          rw (differs (max_data_key ++ format_uint n) bidi_remote_key refl) (
            rw (differs (max_data_key ++ format_uint n) data_uni_key refl) (
              rw (matches max_data_key (format_uint n)) (rw (strtoul-format_uint n small) refl))))))

-- The fields are numbers of 64 bits.
abbrev pub Fits64 : Params → Type 0
Fits64 p =
    (p.initial_max_streams_bidi ≤ u64_max)
    × (p.initial_max_streams_uni ≤ u64_max)
    × (p.initial_max_stream_data_bidi_local ≤ u64_max)
    × (p.initial_max_stream_data_bidi_remote ≤ u64_max)
    × (p.initial_max_stream_data_uni ≤ u64_max)
    × (p.initial_max_data ≤ u64_max)

-- The line that is written for a number.
abbrev line_for : Bytes → ℕ → Bytes
line_for key n = key ++ format_uint n

no_lines : get_lines [] ≡ []
unfolding get_lines
no_lines = refl

then_lines :
    (key : Bytes) (n : ℕ) (rest : Bytes) (ls : List Bytes)
    → plain key ≡ true
    → get_lines rest ≡ ls
    → get_lines (line_before key n rest) ≡ line_for key n ∷ ls
then_lines key n rest ls h e = get_lines-line_before key n rest h ∙ ap (λ ls. line_for key n ∷ ls) e

abbrev lines_of : Params → List Bytes
lines_of p =
    line_for streams_bidi_key p.initial_max_streams_bidi
    ∷ line_for streams_uni_key p.initial_max_streams_uni
    ∷ line_for bidi_local_key p.initial_max_stream_data_bidi_local
    ∷ line_for bidi_remote_key p.initial_max_stream_data_bidi_remote
    ∷ line_for data_uni_key p.initial_max_stream_data_uni
    ∷ line_for max_data_key p.initial_max_data
    ∷ []

written_lines : (p : Params) → get_lines (write_transport_params p) ≡ lines_of p
unfolding write_transport_params plain
written_lines p = then_lines streams_bidi_key p.initial_max_streams_bidi _ _ refl (
    then_lines streams_uni_key p.initial_max_streams_uni _ _ refl (
      then_lines bidi_local_key p.initial_max_stream_data_bidi_local _ _ refl (
        then_lines bidi_remote_key p.initial_max_stream_data_bidi_remote _ _ refl (
          then_lines data_uni_key p.initial_max_stream_data_uni _ _ refl
            (then_lines max_data_key p.initial_max_data [] [] refl no_lines)))))

read_lines-one :
    (l : Bytes) (ls : List Bytes) (p p' : Params)
    → read_param l p ≡ p'
    → read_params (l ∷ ls) p ≡ read_params ls p'
unfolding read_params
read_lines-one l ls p p' e = ap (read_params ls) e

no_more_lines : (p : Params) → read_params [] p ≡ p
unfolding read_params
no_more_lines p = refl

read_params-lines_of : (p old : Params) → Fits64 p → read_params (lines_of p) old ≡ p
read_params-lines_of p old h =
    read_lines-one _ _ _ _ (reads_streams_bidi p.initial_max_streams_bidi old h.0)
    ∙ (read_lines-one _ _ _ _ (reads_streams_uni p.initial_max_streams_uni _ h.1)
        ∙ (read_lines-one _ _ _ _ (reads_bidi_local p.initial_max_stream_data_bidi_local _ h.2)
            ∙ (read_lines-one _ _ _ _
                  (reads_bidi_remote p.initial_max_stream_data_bidi_remote _ h.3)
                ∙ (read_lines-one _ _ _ _ (reads_data_uni p.initial_max_stream_data_uni _ h.4)
                    ∙ (read_lines-one _ _ _ _ (reads_max_data p.initial_max_data _ h.5)
                        ∙ no_more_lines p)))))

-- The transport parameters that a client writes are all read back, whatever the parameters were before,
-- for every value of 64 bits.
pub read_transport_params-write :
    (p old : Params)
    → Fits64 p
    → read_transport_params (some (write_transport_params p)) old ≡ some p
unfolding read_transport_params
read_transport_params-write p old h =
    ap (λ ls. some (read_params ls old)) (written_lines p) ∙ ap some (read_params-lines_of p old h)
