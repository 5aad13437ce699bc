-- ===== src/Util/Mime/Words.antt =====
-- What a line of media types defines: its words behind the first one.
use quicsy.Prelude.{
  ℕ, zero, suc, ◌≤◌, ◌≡◌, inl, inr, refl, sym, ap, ◌∙◌, Bool, false, ◌&&◌, not, [], ◌∷◌, ◌++◌, List,
  Bytes, ◌==◌, if◌then◌else◌, arith, length, Bool-cases, append_assoc, append-nil,
}
use quicsy.Prelude.Assoc.{Table, emplace}
use quicsy.Util.Mime.{
  rws, word_at, from_space, skip_spaces, extension_round, extension_loop, add_extensions, read_line,
}

-- The words of a text, split at each space or tab; `current` is the word that has begun.
abbrev pub close_word : Bytes → List Bytes → List Bytes
close_word [] words = words
close_word (c ∷ w) words = (c ∷ w) ∷ words

unfoldable pub words_from : Bytes → Bytes → List Bytes
words_from current [] = close_word current []
words_from current (c ∷ s) =
    let ended = words_from [] s in
    let longer = words_from (current ++ c ∷ []) s in
    if rws c then close_word current ended else longer

abbrev pub emplace_all : List Bytes → Bytes → Table Bytes → Table Bytes
emplace_all [] media_type dest = dest
emplace_all (ext ∷ exts) media_type dest = emplace_all exts media_type (emplace ext media_type dest)

words_from-skip_spaces : (s : Bytes) → words_from [] (skip_spaces s) ≡ words_from [] s
unfolding words_from skip_spaces
words_from-skip_spaces [] = refl
words_from-skip_spaces (c ∷ s) = elim (Bool-cases (rws c)) [
  | inl e ↦ rw e (words_from-skip_spaces s)
  | inr e ↦ rw e (rw e refl)
]

words_from-word_at :
    (current s : Bytes)
    → words_from current s ≡ close_word (current ++ word_at s) (words_from [] (from_space s))
unfolding words_from word_at from_space
words_from-word_at current [] = ap (λ w. close_word w []) (sym (append-nil current))
words_from-word_at current (c ∷ s) = elim (Bool-cases (rws c)) [
  | inl e ↦ rw e (rw (e, append-nil current) refl)
  | inr e ↦ rw e (
      words_from-word_at (current ++ c ∷ []) s
      ∙ ap (λ w. close_word w (words_from [] (from_space s)))
          (append_assoc current (c ∷ []) (word_at s)))
]

words_from_solid :
    (c : ℕ) (s : Bytes)
    → rws c ≡ false
    → words_from [] (c ∷ s) ≡ (c ∷ word_at s) ∷ words_from [] (from_space s)
unfolding words_from
words_from_solid c s e = rw e (words_from-word_at (c ∷ []) s)

skip_spaces-head : (p : Bytes) (c : ℕ) (ext : Bytes) → skip_spaces p ≡ c ∷ ext → rws c ≡ false
unfolding skip_spaces
skip_spaces-head [] c ext e = cc
skip_spaces-head (d ∷ p) c ext e = ground (arith, skip_spaces-head p c ext)

length-skip_spaces : (p : Bytes) → length (skip_spaces p) ≤ length p
unfolding skip_spaces
length-skip_spaces [] = omega arith
length-skip_spaces (d ∷ p) = elim (Bool-cases (rws d)) [
  | inl f ↦ rw f (omega (arith, length-skip_spaces p))
  | inr f ↦ rw f (omega arith)
]

length-from_space : (p : Bytes) → length (from_space p) ≤ length p
unfolding from_space
length-from_space [] = omega arith
length-from_space (d ∷ p) = elim (Bool-cases (rws d)) [
  | inl f ↦ rw f (omega arith)
  | inr f ↦ rw f (omega (arith, length-from_space p))
]

extension_round-emplace_all :
    (fuel : ℕ) (q media_type : Bytes) (dest : Table Bytes)
    → ((c : ℕ) (ext : Bytes) → q ≡ c ∷ ext → rws c ≡ false)
    → length q ≤ suc fuel
    → ((r : Bytes) (d : Table Bytes)
        → length r ≤ fuel
        → extension_loop fuel r media_type d ≡ emplace_all (words_from [] r) media_type d)
    → extension_round (λ r d. extension_loop fuel r media_type d) media_type dest q
      ≡ emplace_all (words_from [] q) media_type dest
unfolding extension_round
extension_round-emplace_all fuel [] media_type dest h l ih = unfold words_from in refl
extension_round-emplace_all fuel (c ∷ ext) media_type dest h l ih =
    let solid : rws c ≡ false = h c ext refl in
    rw solid (
      ih (from_space ext) (emplace (c ∷ word_at ext) media_type dest)
        (omega (arith, length-from_space ext))
      ∙ ap (λ w. emplace_all w media_type dest) (sym (words_from_solid c ext solid)))

extension_loop-emplace_all :
    (fuel : ℕ) (p media_type : Bytes) (dest : Table Bytes)
    → length p ≤ fuel
    → extension_loop fuel p media_type dest ≡ emplace_all (words_from [] p) media_type dest
unfolding extension_loop
extension_loop-emplace_all zero [] media_type dest h = unfold words_from in refl
extension_loop-emplace_all zero (c ∷ p) media_type dest h = elim h [ ]
extension_loop-emplace_all (suc fuel) p media_type dest h =
    extension_round-emplace_all fuel (skip_spaces p) media_type dest (skip_spaces-head p)
      (omega (arith, length-skip_spaces p))
      (λ r d l. extension_loop-emplace_all fuel r media_type d l)
    ∙ ap (λ w. emplace_all w media_type dest) (words_from-skip_spaces p)

add_extensions-emplace_all :
    (c : ℕ) (media_type p : Bytes) (dest : Table Bytes)
    → add_extensions (c ∷ media_type) p dest ≡ emplace_all (words_from [] p) (c ∷ media_type) dest
unfolding add_extensions
add_extensions-emplace_all c media_type [] dest = unfold words_from in refl
add_extensions-emplace_all c media_type (d ∷ p) dest =
    extension_loop-emplace_all (length (d ∷ p)) (d ∷ p) (c ∷ media_type) dest (omega arith)

-- A line that is empty, is a comment or begins with a space defines nothing.
abbrev pub is_entry : Bytes → Bool
is_entry [] = false
is_entry (c ∷ line) = not (c == b'#') && not (rws c)

-- The first word is the media type, for each of the others that is not in the table yet.
abbrev pub define : List Bytes → Table Bytes → Table Bytes
define [] dest = dest
define (media_type ∷ exts) dest = emplace_all exts media_type dest

-- A line of the file is read as its words: nothing for an empty line, a comment or a line that begins
-- with a space or tab, and else the first word is put as the media type under each of the others that
-- has none.
pub read_line-define :
    (line : Bytes) (dest : Table Bytes)
    → read_line line dest ≡ (if is_entry line then define (words_from [] line) dest else dest)
unfolding read_line
read_line-define [] dest = refl
read_line-define (c ∷ line) dest = elim (Bool-cases (c == b'#')) [
  | inl e ↦ rw e refl
  | inr e ↦ elim (Bool-cases (rws c)) [
    | inl f ↦ rw (e, f) refl
    | inr f ↦
        rw (e, f, words_from_solid c line f)
          (add_extensions-emplace_all c (word_at line) (from_space line) dest)
  ]
]
