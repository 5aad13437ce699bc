-- ===== src/Abr/Replace/Correct.antt =====
-- `str_replace` replaces every occurrence, from left to right, and fills its buffer exactly.
use quicsy.Prelude.{
  ℕ, zero, suc, ◌+◌, ◌-◌, ◌*◌, ◌^◌, ◌≤◌, ◌<◌, ◌≡◌, ◌≢◌, refl, ap, sym, ◌∙◌, ◌⊎◌, inl, inr, Bool,
  true, [], ◌∷◌, ◌++◌, Bytes, Option, none, some, arith, length, take, drop, append_assoc,
  length-append, subst, Option-cases, ◌↔◌,
}
use quicsy.Prelude.Int.{
  ℤ, pos, negsuc, pos_part, neg_part, ◌+ℤ◌, ◌*ℤ◌, ◌-ℤ◌, int_laws, *ℤ_parts, -ℤ_parts, eq_of_parts,
}
use quicsy.Abr.Replace.{
  strstr, count_loop, splice, null, text, alloc_size, to_int, to_size, replace_found, str_replace,
}
use quicsy.Abr.Replace.Search.{
  Absent, NotBefore, Found, strstr-Absent, strstr-Found, strstr-Found_self,
}

-- `Replaces rep new s t n`: `t` is `s` with its `n` leftmost, disjoint occurrences of `rep` replaced,
-- and none is left behind them.
pub data Replaces (rep new : Bytes) : Bytes → Bytes → ℕ → Type 0 where
  rest : {s : Bytes} → Absent rep s → Replaces rep new s s zero
  hit :
      {s t back : Bytes} {n : ℕ} (front : Bytes)
      → s ≡ front ++ rep ++ back
      → NotBefore rep s (length front)
      → Replaces rep new back t n
      → Replaces rep new s (front ++ new ++ t) (suc n)

take_front : (front l : Bytes) → take (length front) (front ++ l) ≡ front
take_front [] l = refl
take_front (x ∷ front) l = ap (λ r. x ∷ r) (take_front front l)

drop_front : (front l : Bytes) (k : ℕ) → drop (length front + k) (front ++ l) ≡ drop k l
drop_front [] l k = ap (λ i. drop i l) (omega arith)
drop_front (x ∷ front) l k =
    let e : suc (length front) + k ≡ suc (length front + k) = omega arith in
    rw e (drop_front front l k)

module _ (rep new : Bytes) where
  -- The two loops from one position of the text on.
  record Runs (f : ℕ) (s : Bytes) : Type 0 where
    result : Bytes
    count : ℕ
    counted : (k : ℕ) → count_loop rep f (strstr s rep) k ≡ k + count
    spliced : (out : Bytes) → splice rep new count s out ≡ some (out ++ result)
    replaced : Replaces rep new s result count
    size : length result + count * length rep ≡ length s + count * length new
    few : count * length rep ≤ length s

  Runs-none : (f : ℕ) (s : Bytes) → strstr s rep ≡ none → Runs (suc f) s
  unfolding count_loop splice
  Runs-none f s e = record {
    result = s;
    count = 0;
    counted = λ k. rw e (omega arith);
    spliced = λ out. refl;
    replaced = rest (strstr-Absent s rep e);
    size = omega arith;
    few = omega arith;
  }

  module _ (s ins : Bytes) (e : strstr s rep ≡ some ins) (found : Found rep s ins) where
    open found use {front, back, splits, matches}

    after_rep : drop (length rep) ins ≡ back
    after_rep =
        rw matches (subst (λ k. drop k (rep ++ back) ≡ back) (omega arith) (drop_front rep back 0))

    offset : length s - length ins ≡ length front
    offset = omega (arith, ap length splits, length-append front ins)

    back_part : drop (length s - length ins + length rep) s ≡ back
    back_part = rw offset (rw splits (drop_front front ins (length rep) ∙ after_rep))

    front_part : take (length s - length ins) s ≡ front
    front_part = rw offset (rw splits (take_front front ins))

    sizes : length s ≡ length front + (length rep + length back)
    sizes = omega (
      arith,
      ap length splits,
      length-append front ins,
      ap length matches,
      length-append rep back,
    )

    counted_some :
        (f c : ℕ)
        → ((k : ℕ) → count_loop rep f (strstr back rep) k ≡ k + c)
        → (k : ℕ) → count_loop rep (suc f) (strstr s rep) k ≡ k + suc c
    unfolding count_loop
    counted_some f c h k = rw e (rw after_rep (h (k + 1) ∙ omega arith))

    spliced_some :
        (c : ℕ) (result : Bytes)
        → ((out : Bytes) → splice rep new c back out ≡ some (out ++ result))
        → (out : Bytes) → splice rep new (suc c) s out ≡ some (out ++ (front ++ new ++ result))
    unfolding splice
    spliced_some c result h out =
        rw e (rw (back_part, front_part) (h (out ++ front ++ new) ∙ ap some (simp append_assoc)))

    Runs-some : (f : ℕ) → Runs f back → Runs (suc f) s
    Runs-some f r = record {
      result = front ++ new ++ r.result;
      count = suc r.count;
      counted = counted_some f r.count r.counted;
      spliced = spliced_some r.count r.result r.spliced;
      replaced =
          hit front (splits ∙ ap (λ l. front ++ l) matches ∙ sym (append_assoc front rep back))
            found.leftmost r.replaced;
      size =
          omega
            (arith, sizes, r.size, length-append (front ++ new) r.result, length-append front new);
      few = omega (arith, sizes, r.few);
    }

  runs : (f : ℕ) (s : Bytes) → 0 < length rep → length s < f → Runs f s
  runs zero s p h = elim h [ ]
  runs (suc f) s p h = elim (Option-cases (strstr s rep)) [
    | inl e ↦ Runs-none f s e
    | inr (ins, e) ↦
        let found = strstr-Found s rep ins e in
        Runs-some s ins e found f (runs f found.back p (omega (arith, sizes s ins e found)))
  ]

  -- The branch of `str_replace` that builds the text.
  found_text :
      (orig ins : Bytes) (r : Runs (length orig + 1) orig)
      → strstr orig rep ≡ some ins
      → replace_found true orig rep new ins
        ≡ some (text (alloc_size (length orig) (length new) (length rep) r.count) r.result)
  unfolding replace_found
  found_text orig ins r e = rw counted_here (rw (r.spliced []))
    where
      counted_here : count_loop rep (length orig + 1) (strstr ins rep) 0 ≡ r.count
      counted_here =
          rw (strstr-Found_self (strstr-Found orig rep ins e))
            (rw (← e) (r.counted 0 ∙ omega arith))

  Replaces-zero : {s t : Bytes} {n : ℕ} → Replaces rep new s t n → n ≡ 0 → Absent rep s
  Replaces-zero (rest a) h = a
  Replaces-zero (hit front split first r) h = absurd (omega arith)

to_int-fits :
    (z : ℤ) (a b : ℕ) → pos_part z + b ≡ neg_part z + a → a < 2 ^ 31 → b < 2 ^ 31 → to_int z ≡ z
unfolding to_int
to_int-fits (pos n) a b h p q = ground (arith, h, p, q)
to_int-fits (negsuc n) a b h p q = ground (arith, h, p, q)

to_size-fits : (n : ℕ) → n < 2 ^ 64 → to_size (pos n) ≡ pos n
unfolding to_size
to_size-fits n h = ap pos (omega arith)

alloc_size-exact :
    (len_orig len_with len_rep count len : ℕ)
    → len + count * len_rep ≡ len_orig + count * len_with
    → len_orig < 2 ^ 31
    → len_with < 2 ^ 31
    → len_rep < 2 ^ 31
    → count < 2 ^ 31
    → len < 2 ^ 31
    → alloc_size len_orig len_with len_rep count ≡ pos (len + 1)
unfolding alloc_size
alloc_size-exact len_orig len_with len_rep count len h a b c d e =
    rw
      (
        to_int-fits (pos len_with) len_with 0 (omega arith) b (omega arith),
        to_int-fits (pos len_rep) len_rep 0 (omega arith) c (omega arith),
        to_int-fits (pos count) count 0 (omega arith) d (omega arith),
        to_int-fits (pos len_with -ℤ pos len_rep) len_with len_rep
            (omega (arith, -ℤ_parts (pos len_with) (pos len_rep))) b c,
        to_int-fits ((pos len_with -ℤ pos len_rep) *ℤ pos count) len len_orig product e a,
        total,
      )
      (to_size-fits (len + 1) (omega arith))
  where
    product :
        pos_part ((pos len_with -ℤ pos len_rep) *ℤ pos count) + len_orig
        ≡ neg_part ((pos len_with -ℤ pos len_rep) *ℤ pos count) + len
    product = omega (
      arith,
      h,
      *ℤ_parts (pos len_with -ℤ pos len_rep) (pos count),
      ap (λ (t : ℕ). t * count) (-ℤ_parts (pos len_with) (pos len_rep)),
    )

    total : pos len_orig +ℤ (pos len_with -ℤ pos len_rep) *ℤ pos count +ℤ pos 1 ≡ pos (len + 1)
    total = eq_of_parts _ _ (omega (int_laws, product))

-- The bounds follow from one on the two texts.
alloc_size-fits :
    (len_orig len_with len_rep count len : ℕ)
    → len + count * suc len_rep ≡ len_orig + count * len_with
    → count * suc len_rep ≤ len_orig
    → 0 < count
    → len_orig * (len_with + 1) < 2 ^ 31
    → alloc_size len_orig len_with (suc len_rep) count ≡ pos (len + 1)
alloc_size-fits len_orig len_with len_rep zero len size few some_hit fits = elim some_hit [ ]
alloc_size-fits zero len_with len_rep (suc c) len size few some_hit fits = absurd (omega arith)
alloc_size-fits (suc o) len_with len_rep (suc c) len size few some_hit fits =
    let fewer : c ≤ o = omega arith in
    let grown : c * len_with ≤ o * len_with = grind (arith, fewer) in
    alloc_size-exact (suc o) len_with (suc len_rep) (suc c) len size (omega arith) (omega arith)
      (omega arith) (omega arith) (omega (arith, grown))

-- On a text where a non-empty keyword occurs, with memory at hand and the length of the text times one
-- more than that of the replacement below 2 ^ 31, `str_replace` returns the text with all its leftmost,
-- disjoint occurrences replaced; the loop makes no null access, and the size that the `int` arithmetic
-- gives to `malloc` is exactly that of the text and its final NUL.
pub str_replace-Replaces :
    (orig rep new : Bytes)
    → rep ≢ []
    → ¬ Absent rep orig
    → length orig * (length new + 1) < 2 ^ 31
    → (t : Bytes) × (n : ℕ) × (str_replace true (some orig) (some rep) (some new)
        ≡ some (text (pos (length t + 1)) t))
      × Replaces rep new orig t n
      × (0 < n)
unfolding str_replace
str_replace-Replaces orig [] new h found fits = absurd (h refl)
str_replace-Replaces orig (x ∷ rep) new h found fits = elim (Option-cases (strstr orig (x ∷ rep))) [
  | inl e ↦ absurd (found (strstr-Absent orig (x ∷ rep) e))
  | inr (ins, e) ↦
      let r = runs (x ∷ rep) new (length orig + 1) orig (omega arith) (omega arith) in
      let some_hit : 0 < r.count =
        omega (arith, λ (z : r.count ≡ 0). found (Replaces-zero (x ∷ rep) new r.replaced z)) in
      (
        r.result,
        r.count,
        rw e (
            found_text (x ∷ rep) new orig ins r e
            ∙ ap (λ a. some (text a r.result))
                (alloc_size-fits (length orig) (length new) (length rep) r.count (length r.result)
                  r.size r.few some_hit fits)),
        r.replaced,
        some_hit,
      )
]

Absent-strstr : (s rep : Bytes) → Absent rep s → strstr s rep ≡ none
Absent-strstr s rep h = elim (Option-cases (strstr s rep)) [
  | inl e ↦ e
  | inr (ins, e) ↦
      let found = strstr-Found s rep ins e in
      absurd (
        h found.front found.back (
          found.splits
          ∙ ap (λ l. found.front ++ l) found.matches
          ∙ sym (append_assoc found.front rep found.back)))
]

Absent-answer :
    (malloc_ok : Bool) (orig rep : Bytes) (new : Option Bytes)
    → (rep ≡ []) ⊎ Absent rep orig
    → str_replace malloc_ok (some orig) (some rep) new ≡ some null
unfolding str_replace
Absent-answer malloc_ok orig [] new h = refl
Absent-answer malloc_ok orig (x ∷ rep) new (inl e) = absurd (cc)
Absent-answer malloc_ok orig (x ∷ rep) new (inr h) = rw (Absent-strstr orig (x ∷ rep) h)

-- With memory at hand and no null argument, `str_replace` returns NULL exactly when there is no
-- replacement to be made: the keyword is empty or does not occur.
pub str_replace-null_iff :
    (orig rep new : Bytes)
    → (str_replace true (some orig) (some rep) (some new) ≡ some null)
      ↔ ((rep ≡ []) ⊎ Absent rep orig)
unfolding str_replace
str_replace-null_iff orig [] new = (λ _. inl refl, λ _. refl)
str_replace-null_iff orig (x ∷ rep) new = (back, Absent-answer true orig (x ∷ rep) (some new))
  where
    back :
        str_replace true (some orig) (some (x ∷ rep)) (some new) ≡ some null
        → (x ∷ rep ≡ []) ⊎ Absent (x ∷ rep) orig
    back h = elim (Option-cases (strstr orig (x ∷ rep))) [
      | inl e ↦ inr (strstr-Absent orig (x ∷ rep) e)
      | inr (ins, e) ↦
          let r = runs (x ∷ rep) new (length orig + 1) orig (omega arith) (omega arith) in
          cc (h, e, found_text (x ∷ rep) new orig ins r e)
    ]
