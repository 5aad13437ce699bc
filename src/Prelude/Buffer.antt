-- ===== src/Prelude/Buffer.antt =====
-- Writes one after the other into a buffer of a fixed size, `*p++ = v`.
use Prim.Native.Nat.{ℕ, suc, ◌+◌}
use mathlib.Core.List.{List, [], ◌∷◌, ◌++◌, append-nil, append_assoc}
use mathlib.Core.Path.{◌≡◌, refl, ap, ◌∙◌}
use native.Mathlib.Omega.{arith}
use quicsy.Prelude.Lists.{length, set, replicate, length-append}

module _ {ℓ} {A : Type ℓ} where
  -- The values from position `i` on. Writes beyond the end are lost.
  unfoldable pub write_at : List A → ℕ → List A → List A
  write_at buf i [] = buf
  write_at buf i (v ∷ vs) = write_at (set buf i v) (i + 1) vs

  set_next :
      (pre rest : List A) (i : ℕ) (x v : A)
      → i ≡ length pre
      → set (pre ++ x ∷ rest) i v ≡ (pre ++ v ∷ []) ++ rest
  set_next [] rest i x v h = rw h
  set_next (y ∷ pre) rest i x v h = rw h (ap (λ l. y ∷ l) (set_next pre rest (length pre) x v refl))

  -- Behind what is written, as much of the blank buffer is used up as there are values.
  pub write_at-replicate :
      (vs pre : List A) (i n : ℕ) (z : A)
      → i ≡ length pre
      → write_at (pre ++ replicate (length vs + n) z) i vs ≡ (pre ++ vs) ++ replicate n z
  unfolding write_at
  write_at-replicate [] pre i n z h = let e : 0 + n ≡ n = omega arith in rw (e, append-nil)
  write_at-replicate (v ∷ vs) pre i n z h =
      let e : suc (length vs) + n ≡ suc (length vs + n) = omega arith in
      rw e (
        rw (set_next pre (replicate (length vs + n) z) i z v h) (
          write_at-replicate vs (pre ++ v ∷ []) (i + 1) n z
            (omega (arith, length-append pre (v ∷ [])))
          ∙ ap (λ l. l ++ replicate n z) (append_assoc pre (v ∷ []) vs)))
