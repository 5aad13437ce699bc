-- ===== src/Prelude/Assoc.antt =====
-- `std::map<std::string, …>` as an association list under byte strings.
use quicsy.Prelude.{
  ◌≡◌, ◌≢◌, ◌⊎◌, refl, sym, subst, ◌∙◌, ap, inl, inr, arith, Bool, true, false, Bytes, Option, none,
  some, List, [], ◌∷◌, ◌==◌, ◌&&◌, Bool-cases, Option-cases, if◌then◌else◌,
}
use mathlib.Core.Option.{none-ne-some}

unfoldable pub same : Bytes → Bytes → Bool
same [] [] = true
same [] (b ∷ t) = false
same (a ∷ s) [] = false
same (a ∷ s) (b ∷ t) = (a == b) && same s t

pub same→eq : (s t : Bytes) → same s t ≡ true → s ≡ t
unfolding same
same→eq [] [] h = refl
same→eq [] (b ∷ t) h = ground arith
same→eq (a ∷ s) [] h = ground arith
same→eq (a ∷ s) (b ∷ t) h = grind (arith, same→eq s t)

pub same_refl : (s : Bytes) → same s s ≡ true
unfolding same
same_refl [] = refl
same_refl (a ∷ s) = ground (arith, same_refl s)

pub same-cases : (s t : Bytes) → ((s ≡ t) × (same s t ≡ true)) ⊎ ((s ≢ t) × (same s t ≡ false))
same-cases s t = elim (Bool-cases (same s t)) [
  | inl e ↦ inl (same→eq s t e, e)
  | inr e ↦ inr (λ p. cc (e, same_refl s, p), e)
]

abbrev pub Table {ℓ} : Type ℓ → Type ℓ
Table V = List (Bytes × V)

module _ {ℓ} {V : Type ℓ} where
  abbrev pub find : Bytes → Table V → Option V
  find k [] = none
  find k ((j, v) ∷ m) = if same k j then some v else find k m

  -- `erase(key)`.
  abbrev pub erase : Bytes → Table V → Table V
  erase k [] = []
  erase k ((j, v) ∷ m) = let rest = erase k m in if same k j then rest else (j, v) ∷ rest

  abbrev pub add_if_missing : Bytes → V → Table V → Option V → Table V
  add_if_missing k v m none = (k, v) ∷ m
  add_if_missing k v m (some w) = m

  -- `emplace(key, value)`, which keeps the value of a key that is there.
  abbrev pub emplace : Bytes → V → Table V → Table V
  emplace k v m = add_if_missing k v m (find k m)

module _ {ℓ} {V : Type ℓ} where
  find-add :
      (j : Bytes) (v : V) (m : Table V) (o : Option V) (k : Bytes) {w : V}
      → find k (add_if_missing j v m o) ≡ some w
      → (find k m ≡ some w) ⊎ ((k ≡ j) × (w ≡ v))
  find-add j v m none k h = elim (same-cases k j) [
    | inl (p, e) ↦ inr (p, ground (arith, e, h))
    | inr (n, e) ↦ inl (ground (arith, e, h))
  ]
  find-add j v m (some u) k h = inl h

  pub find-emplace :
      (j : Bytes) (v : V) (m : Table V) (k : Bytes) {w : V}
      → find k (emplace j v m) ≡ some w
      → (find k m ≡ some w) ⊎ ((k ≡ j) × (w ≡ v))
  find-emplace j v m k h = find-add j v m (find j m) k h

  pub find-emplace_kept :
      (j : Bytes) (v : V) (m : Table V) (k : Bytes) {w : V}
      → find k m ≡ some w
      → find k (emplace j v m) ≡ some w
  find-emplace_kept j v m k h = elim (Option-cases (find j m)) [
    | inl e ↦ elim (same-cases k j) [
      | inl (p, q) ↦ absurd (cc (p, e, h))
      | inr (n, q) ↦ rw (e, q) h
    ]
    | inr (u, e) ↦ rw e h
  ]

  pub find-emplace_new :
      (j : Bytes) (v : V) (m : Table V) → find j m ≡ none → find j (emplace j v m) ≡ some v
  find-emplace_new j v m h = rw (h, same_refl j)

  pub find-erase_ne : (j : Bytes) (m : Table V) (k : Bytes) → k ≢ j → find k (erase j m) ≡ find k m
  find-erase_ne j [] k h = refl
  find-erase_ne j ((i, v) ∷ m) k h = elim (same-cases j i) [
    | inl (p, e) ↦ elim (same-cases k i) [
      | inl (q, f) ↦ absurd (h (cc (p, q)))
      | inr (q, f) ↦ rw (e, f, find-erase_ne j m k h)
    ]
    | inr (p, e) ↦ rw e (ap (λ r. if same k i then some v else r) (find-erase_ne j m k h))
  ]

  pub find-erase_self : (j : Bytes) (m : Table V) → find j (erase j m) ≡ none
  find-erase_self j [] = refl
  find-erase_self j ((i, v) ∷ m) = elim (same-cases j i) [
    | inl (p, e) ↦ rw e (find-erase_self j m)
    | inr (p, e) ↦ rw (e, e) (find-erase_self j m)
  ]

  pub find-erase :
      (j : Bytes) (m : Table V) (k : Bytes) {w : V}
      → find k (erase j m) ≡ some w
      → (find k m ≡ some w) × (k ≢ j)
  find-erase j m k {w = w} h = elim (same-cases k j) [
    | inl (p, e) ↦ absurd (
        none-ne-some w
          (sym (subst (λ x. find x (erase j m) ≡ none) (sym p) (find-erase_self j m)) ∙ h))
    | inr (n, e) ↦ (sym (find-erase_ne j m k n) ∙ h, n)
  ]

  -- After `emplace` the key is there, with the old value or the new one.
  pub find-emplace-some :
      (j : Bytes) (v : V) (m : Table V) → (w : V) × (find j (emplace j v m) ≡ some w)
  find-emplace-some j v m = elim (Option-cases (find j m)) [
    | inl e ↦ (v, find-emplace_new j v m e)
    | inr (w, e) ↦ (w, find-emplace_kept j v m j e)
  ]
