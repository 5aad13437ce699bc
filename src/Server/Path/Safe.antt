-- ===== src/Server/Path/Safe.antt =====
-- No request leaves the document root, and what a request pushes is a path.
use quicsy.Prelude.{
  ℕ, zero, suc, ◌≤◌, ◌<◌, ◌≡◌, ◌⊎◌, inl, inr, refl, sym, ap, ◌∙◌, ◌||◌, not, ==_iff, codes, Bool,
  [], ◌∷◌, ◌++◌, List, Bytes, Option, none, some, All, arith, length, take, drop, ltb, ◌==◌,
  Bool-cases, take-append-drop, length-drop,
}
use quicsy.Prelude.Assoc.{same, same→eq}
use quicsy.Util.CaseCmp.{istarts_with}
use quicsy.Server.Path.{
  Url, until_amp, after_amp, add_push, go_on, push_loop, pushes_of, request_of, request_path,
  confine, resolve_path,
}

abbrev pub BeginsWithSlash : Bytes → Type 0
BeginsWithSlash p = (rest : Bytes) × (p ≡ b'/' ∷ rest)

add_push-All :
    (p : Bytes) (pushes : List Bytes)
    → All BeginsWithSlash pushes
    → All BeginsWithSlash (add_push p pushes)
unfolding add_push
add_push-All [] pushes h = h
add_push-All (c ∷ s) pushes h = elim (Bool-cases (c == b'/')) [
  | inl e ↦ rw e ((s, ap (λ x. x ∷ s) ((==_iff c b'/').0 e)), h)
  | inr e ↦ rw e h
]

go_on-All :
    (next : Bytes → List Bytes) (o : Option Bytes)
    → ((p : Bytes) → All BeginsWithSlash (next p))
    → All BeginsWithSlash (go_on next o)
unfolding go_on
go_on-All next none h = tt
go_on-All next (some p) h = h p

push_loop-All : (fuel : ℕ) (q : Bytes) → All BeginsWithSlash (push_loop fuel q)
unfolding push_loop
push_loop-All zero q = tt
push_loop-All (suc fuel) [] = tt
push_loop-All (suc fuel) (c ∷ s) = elim (Bool-cases (istarts_with (c ∷ s) (codes "push="))) [
  | inl e ↦ rw e (
      add_push-All (until_amp (drop 5 (c ∷ s)))
        (go_on (push_loop fuel) (after_amp (drop 5 (c ∷ s))))
        (go_on-All (push_loop fuel) (after_amp (drop 5 (c ∷ s))) (push_loop-All fuel)))
  | inr e ↦ rw e (go_on-All (push_loop fuel) (after_amp (c ∷ s)) (push_loop-All fuel))
]

-- Each round leaves less of the query.
after_amp-shorter : (s p : Bytes) → after_amp s ≡ some p → length p < length s
unfolding after_amp
after_amp-shorter [] p e = cc
after_amp-shorter (c ∷ s) p e = ground (arith, after_amp-shorter s p)

go_on-same :
    (n : ℕ) (next other : Bytes → List Bytes) (o : Option Bytes)
    → ((p : Bytes) → o ≡ some p → length p ≤ n)
    → ((p : Bytes) → length p ≤ n → next p ≡ other p)
    → go_on next o ≡ go_on other o
unfolding go_on
go_on-same n next other none h e = refl
go_on-same n next other (some p) h e = e p (h p refl)

-- The loop over the query gives the same with any fuel from the length of the query on.
pub push_loop_fuel :
    (f g : ℕ) (q : Bytes) → length q ≤ f → length q ≤ g → push_loop f q ≡ push_loop g q
unfolding push_loop
push_loop_fuel zero zero q hf hg = refl
push_loop_fuel zero (suc g) [] hf hg = refl
push_loop_fuel zero (suc g) (c ∷ s) hf hg = elim hf [ ]
push_loop_fuel (suc f) zero [] hf hg = refl
push_loop_fuel (suc f) zero (c ∷ s) hf hg = elim hg [ ]
push_loop_fuel (suc f) (suc g) [] hf hg = refl
push_loop_fuel (suc f) (suc g) (c ∷ s) hf hg =
    elim (Bool-cases (istarts_with (c ∷ s) (codes "push="))) [
      | inl e ↦ rw e (
          ap (add_push (until_amp (drop 4 s))) (
            go_on-same (length s) (push_loop f) (push_loop g) (after_amp (drop 4 s))
              (λ p h. omega (arith, after_amp-shorter (drop 4 s) p h, length-drop 4 s))
              (λ p h. push_loop_fuel f g p (omega arith) (omega arith))))
      | inr e ↦ rw e (
          go_on-same (length s) (push_loop f) (push_loop g) (after_amp (c ∷ s))
            (λ p h. omega (arith, after_amp-shorter (c ∷ s) p h))
            (λ p h. push_loop_fuel f g p (omega arith) (omega arith)))
    ]

confine-Within :
    (htdocs : Bytes) (o : Option Bytes)
    → (confine htdocs o ≡ []) ⊎ ((rest : Bytes) × (confine htdocs o ≡ htdocs ++ rest))
unfolding confine
confine-Within htdocs none = inl refl
confine-Within htdocs (some path) =
    elim (Bool-cases
      (ltb (length path) (length htdocs) || not (same (take (length htdocs) path) htdocs))) [
        | inl e ↦ inl (rw e refl)
        | inr e ↦
            let p : take (length htdocs) path ≡ htdocs =
              ground (arith, same→eq (take (length htdocs) path) htdocs) in
            inr (
              drop (length htdocs) path,
              rw e (
                  sym (take-append-drop (length htdocs) path)
                  ∙ ap (λ l. l ++ drop (length htdocs) path) p),
            )
      ]

-- The path of the file that a request leads to is empty, which the caller refuses, or is the document
-- root with a text behind it, whatever the operating system resolves the name to.
pub resolve_path-Within :
    (realpath : Bytes → Option Bytes) (htdocs req_path : Bytes)
    → (resolve_path realpath htdocs req_path ≡ [])
      ⊎ ((rest : Bytes) × (resolve_path realpath htdocs req_path ≡ htdocs ++ rest))
unfolding resolve_path
resolve_path-Within realpath htdocs req_path = confine-Within htdocs (realpath (htdocs ++ req_path))

pushes_of-All : (q : Option Bytes) → All BeginsWithSlash (pushes_of q)
unfolding pushes_of
pushes_of-All none = tt
pushes_of-All (some q) = push_loop-All (length q) q

request_of-All : (u : Option Url) → All BeginsWithSlash (request_of u).pushes
unfolding request_of
request_of-All none = tt
request_of-All (some u) = pushes_of-All u.query

-- Whatever the URL parser answers, every target that a request pushes begins with a slash.
pub request_path-pushes :
    (parse_url : Bytes → Bool → Option Url) (uri : Bytes) (is_connect : Bool)
    → All BeginsWithSlash (request_path parse_url uri is_connect).pushes
unfolding request_path
request_path-pushes parse_url uri is_connect = request_of-All (parse_url uri is_connect)
