-- ===== src/Abr/Replace/Search.antt =====
-- `strstr` finds the first occurrence, and misses none.
use quicsy.Prelude.{
  ℕ, suc, ◌≤◌, ◌≡◌, ◌≢◌, inl, inr, refl, ap, sym, true, false, [], ◌∷◌, ◌++◌, Bytes, none, some,
  arith, length, drop, subst, Bool-cases,
}
use quicsy.Abr.Replace.{is_prefix, strstr}

is_prefix-append : (rep post : Bytes) → is_prefix rep (rep ++ post) ≡ true
unfolding is_prefix
is_prefix-append [] post = refl
is_prefix-append (y ∷ rep) post = ground (arith, is_prefix-append rep post)

pub is_prefix-drop : (rep s : Bytes) → is_prefix rep s ≡ true → rep ++ drop (length rep) s ≡ s
unfolding is_prefix
is_prefix-drop [] s h = refl
is_prefix-drop (y ∷ rep) [] h = cc
is_prefix-drop (y ∷ rep) (x ∷ s) h = ground (arith, is_prefix-drop rep s)

-- `rep` stands nowhere in `s`.
abbrev pub Absent : Bytes → Bytes → Type 0
Absent rep s = (pre post : Bytes) → s ≢ pre ++ rep ++ post

-- No occurrence of `rep` in `s` stands before position `n`.
abbrev pub NotBefore : Bytes → Bytes → ℕ → Type 0
NotBefore rep s n = (pre post : Bytes) → s ≡ pre ++ rep ++ post → n ≤ length pre

-- What `strstr` answers: the text behind the shortest front.
pub record Found (rep s ins : Bytes) : Type 0 where
  pub front : Bytes
  pub back : Bytes
  pub splits : s ≡ front ++ ins
  pub matches : ins ≡ rep ++ back
  pub leftmost : NotBefore rep s (length front)

is_prefix_of_eq : (rep s post : Bytes) → s ≡ rep ++ post → is_prefix rep s ≡ true
is_prefix_of_eq rep s post e = rw e (is_prefix-append rep post)

pub strstr-Absent : (s rep : Bytes) → strstr s rep ≡ none → Absent rep s
unfolding strstr
strstr-Absent [] rep h [] post e = ground (arith, is_prefix_of_eq rep [] post e)
strstr-Absent [] rep h (x ∷ pre) post e = cc
strstr-Absent (x ∷ s) rep h [] post e = ground (arith, is_prefix_of_eq rep (x ∷ s) post e)
strstr-Absent (x ∷ s) rep h (y ∷ pre) post e = strstr-Absent s rep (ground arith) pre post (cc)

Found-here : (rep s : Bytes) → is_prefix rep s ≡ true → Found rep s s
Found-here rep s h = record {
  front = [];
  back = drop (length rep) s;
  splits = refl;
  matches = sym (is_prefix-drop rep s h);
  leftmost = λ pre post e. omega arith;
}

Found-later :
    (rep s ins : Bytes) (x : ℕ)
    → is_prefix rep (x ∷ s) ≡ false
    → Found rep s ins
    → Found rep (x ∷ s) ins
Found-later rep s ins x h f = record {
  front = x ∷ f.front;
  back = f.back;
  splits = ap (λ l. x ∷ l) f.splits;
  matches = f.matches;
  leftmost = later;
}
  where
    later : NotBefore rep (x ∷ s) (suc (length f.front))
    later [] post e = cc (is_prefix_of_eq rep (x ∷ s) post e)
    later (y ∷ pre) post e = omega (arith, f.leftmost pre post (cc))

pub strstr-Found : (s rep ins : Bytes) → strstr s rep ≡ some ins → Found rep s ins
unfolding strstr
strstr-Found [] rep ins h = elim (Bool-cases (is_prefix rep [])) [
  | inl e ↦ subst (Found rep []) (ground arith) (Found-here rep [] e)
  | inr e ↦ absurd (ground arith)
]
strstr-Found (x ∷ s) rep ins h = elim (Bool-cases (is_prefix rep (x ∷ s))) [
  | inl e ↦ subst (Found rep (x ∷ s)) (ground arith) (Found-here rep (x ∷ s) e)
  | inr e ↦ Found-later rep s ins x e (strstr-Found s rep ins (ground arith))
]

strstr_hit : (s rep : Bytes) → is_prefix rep s ≡ true → strstr s rep ≡ some s
unfolding strstr
strstr_hit [] rep h = ground arith
strstr_hit (x ∷ s) rep h = ground arith

-- The search from an occurrence on ends there.
pub strstr-Found_self : {s rep ins : Bytes} → Found rep s ins → strstr ins rep ≡ some ins
strstr-Found_self {rep} {ins} f = strstr_hit ins rep (is_prefix_of_eq rep ins f.back f.matches)
