-- ===== src/Server/Http/Phrases.antt =====
-- Which status codes have a reason phrase.
use quicsy.Prelude.{
  ℕ, ◌≡◌, ◌≢◌, ◌⊎◌, inl, inr, refl, Bool, true, false, Bytes, List, [], ◌∷◌, ◌==◌, if◌then◌else◌,
  ==_iff, Bool-cases, arith,
}
use quicsy.Prelude.Assoc.{same, same_refl}
use quicsy.Server.Http.{reason_phrases, lookup_phrase, get_reason_phrase}

abbrev pub Listed : ℕ → List (ℕ × Bytes) → Type 0
Listed code [] = ⊥
Listed code ((c, phrase) ∷ cases) = (code ≡ c) ⊎ Listed code cases

-- Each code stands once, each phrase too, and none is empty.
fresh : ℕ → Bytes → List (ℕ × Bytes) → Bool
fresh code phrase [] = true
fresh code phrase ((c, p) ∷ cases) =
    let rest = fresh code phrase cases in
    if code == c then false else if same phrase p then false else rest

is_empty : Bytes → Bool
is_empty [] = true
is_empty (b ∷ s) = false

all_fresh : List (ℕ × Bytes) → Bool
unfolding fresh is_empty
all_fresh [] = true
all_fresh ((c, p) ∷ cases) =
    let rest = all_fresh cases in
    if is_empty p then false else if fresh c p cases then rest else false

reason_phrases_fresh : all_fresh reason_phrases ≡ true
unfolding all_fresh same
reason_phrases_fresh = refl

lookup_fresh :
    (code : ℕ) (phrase : Bytes) (other : ℕ) (cases : List (ℕ × Bytes))
    → fresh code phrase cases ≡ true
    → is_empty phrase ≡ false
    → lookup_phrase other cases ≢ phrase
unfolding fresh is_empty
lookup_fresh code [] other [] f n e = cc
lookup_fresh code (b ∷ s) other [] f n e = cc
lookup_fresh code phrase other ((c, p) ∷ cases) f n e =
    ground (arith, same_refl phrase, lookup_fresh code phrase other cases)

lookup_injective :
    (cases : List (ℕ × Bytes)) (a b : ℕ)
    → all_fresh cases ≡ true
    → Listed a cases
    → lookup_phrase a cases ≡ lookup_phrase b cases
    → a ≡ b
unfolding all_fresh
lookup_injective [] a b f l e = elim l [ ]
lookup_injective ((c, p) ∷ cases) a b f l e =
    ground (arith, lookup_injective cases a b, lookup_fresh c p a cases, lookup_fresh c p b cases)

lookup-Listed : (cases : List (ℕ × Bytes)) (a : ℕ) → lookup_phrase a cases ≢ [] → Listed a cases
lookup-Listed [] a h = h refl
lookup-Listed ((c, p) ∷ cases) a h = elim (Bool-cases (a == c)) [
  | inl e ↦ inl ((==_iff a c).0 e)
  | inr e ↦ inr (lookup-Listed cases a (λ f. h (rw e f)))
]

-- A status code that has a reason phrase is known by it: no other code has the same phrase.
pub get_reason_phrase_injective :
    (a b : ℕ) → get_reason_phrase a ≢ [] → get_reason_phrase a ≡ get_reason_phrase b → a ≡ b
unfolding get_reason_phrase
get_reason_phrase_injective a b h e =
    lookup_injective reason_phrases a b reason_phrases_fresh (lookup-Listed reason_phrases a h) e
