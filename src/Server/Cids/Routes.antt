-- ===== src/Server/Cids/Routes.antt =====
-- The two maps of `Server` stay consistent: what `ctos_` names is in `handlers_`, and what `remove`
-- takes out cannot be reached.
use quicsy.Prelude.{
  ◌≡◌, ◌≢◌, ◌⊎◌, inl, inr, refl, sym, subst, ◌∙◌, ap, Bool, true, false, Bytes, none, some, List,
  [], ◌∷◌, ◌++◌,
}
use quicsy.Prelude.Assoc.{
  Table, find, emplace, erase, same_refl, same-cases, find-emplace, find-emplace_kept,
  find-emplace_new, find-erase, find-erase_ne,
}
use quicsy.Server.Cids.{
  Handler, Server, associate_cid, dissociate_cid, remove, accept, associate_all, associate_nonempty,
  erase_all,
}
use quicsy.Server.Cids.Steps.{
  World, In, without, with_issued, accepted, with_cid, without_cid, removed, Owns, IsConsistent,
}

Owns-grow :
    (w u : World) (h : Handler) (k : Bytes)
    → (In k (w.issued h.scid) → In k (u.issued h.scid))
    → Owns w h k
    → Owns u h k
Owns-grow w u h k f (inl e) = inl e
Owns-grow w u h k f (inr (inl e)) = inr (inl e)
Owns-grow w u h k f (inr (inr m)) = inr (inr (f m))

with_issued_self :
    (scid : Bytes) (cids : List Bytes) (issued : Bytes → List Bytes)
    → with_issued scid cids issued scid ≡ cids
with_issued_self scid cids issued = rw (same_refl scid)

with_issued-keeps :
    (scid : Bytes) (cids : List Bytes) (issued : Bytes → List Bytes) (v k : Bytes)
    → (v ≡ scid → In k (issued scid) → In k cids)
    → In k (issued v)
    → In k (with_issued scid cids issued v)
with_issued-keeps scid cids issued v k f m = elim (same-cases v scid) [
  | inl (p, e) ↦ rw e (f p (subst (λ x. In k (issued x)) p m))
  | inr (n, e) ↦ rw e m
]

In-without : (cid : Bytes) (l : List Bytes) (k : Bytes) → k ≢ cid → In k l → In k (without cid l)
In-without cid [] k n m = elim m [ ]
In-without cid (x ∷ l) k n (inl p) = elim (same-cases cid x) [
  | inl (q, e) ↦ absurd (n (cc (p, q)))
  | inr (q, e) ↦ rw e (inl p)
]
In-without cid (x ∷ l) k n (inr m) = elim (same-cases cid x) [
  | inl (q, e) ↦ rw e (In-without cid l k n m)
  | inr (q, e) ↦ rw e (inr (In-without cid l k n m))
]

pub issue-IsConsistent :
    (w : World) (cid : Bytes) (h : Handler)
    → find h.scid w.server.handlers ≡ some h
    → IsConsistent w
    → IsConsistent (with_cid w cid h)
unfolding associate_cid
issue-IsConsistent w cid h live c = record {
  keyed = c.keyed;
  routed = λ k v e. elim (find-emplace cid h.scid w.server.ctos k e) [
    | inl old ↦ elim (c.routed k v old) [
      | inl (g, found, owns) ↦ inl (
        g,
        found,
        Owns-grow w (with_cid w cid h) g k
            (with_issued-keeps h.scid (cid ∷ w.issued h.scid) w.issued g.scid k (λ _ m. inr m))
            owns,
      )
      | inr m ↦ inr m
    ]
    | inr (p, q) ↦ inl (
      h,
      subst (λ x. find x w.server.handlers ≡ some h) (sym q) live,
      inr (inr (rw (with_issued_self h.scid (cid ∷ w.issued h.scid) w.issued) (inl p))),
    )
  ];
}

pub retire-IsConsistent :
    (w : World) (cid : Bytes) (h : Handler) → IsConsistent w → IsConsistent (without_cid w cid h)
unfolding dissociate_cid
retire-IsConsistent w cid h c = record {
  keyed = c.keyed;
  routed = λ k v e.
      let (old, n) = find-erase cid w.server.ctos k e in
      elim (c.routed k v old) [
        | inl (g, found, owns) ↦ inl (
          g,
          found,
          Owns-grow w (without_cid w cid h) g k
              (with_issued-keeps h.scid (without cid (w.issued h.scid)) w.issued g.scid k
                (λ _ m. In-without cid (w.issued h.scid) k n m))
              owns,
        )
        | inr m ↦ inr m
      ];
}

not-Owns :
    (w : World) (h : Handler) (k : Bytes)
    → k ≢ h.rcid
    → k ≢ h.pscid
    → ¬ In k (w.issued h.scid)
    → ¬ Owns w h k
not-Owns w h k n1 n2 n3 (inl p) = n1 p
not-Owns w h k n1 n2 n3 (inr (inl p)) = n2 p
not-Owns w h k n1 n2 n3 (inr (inr m)) = n3 m

pub found-eq :
    (m : Table Handler) (v w : Bytes) (g h : Handler)
    → find v m ≡ some g
    → find w m ≡ some h
    → v ≡ w
    → g ≡ h
found-eq m v w g h e f p = cc (e, f, p)

erase_all_sound :
    (cids : List Bytes) (m : Table Bytes) (k : Bytes) {v : Bytes}
    → find k (erase_all cids m) ≡ some v
    → (find k m ≡ some v) × (¬ In k cids)
erase_all_sound [] m k e = (e, λ i. i)
erase_all_sound (cid ∷ cids) m k e =
    let (e', n) = erase_all_sound cids (erase cid m) k e in
    let (e'', n') = find-erase cid m k e' in (e'', λ i. elim i [ inl p ↦ n' p | inr i' ↦ n i' ])

pub remove-IsConsistent :
    (w : World) (cids : List Bytes) (h : Handler)
    → find h.scid w.server.handlers ≡ some h
    → ((k : Bytes) → In k (w.issued h.scid) → In k cids)
    → IsConsistent w
    → IsConsistent (removed w cids h)
unfolding remove
remove-IsConsistent w cids h live all c = record {
  keyed = λ k g e. c.keyed k g (find-erase h.scid w.server.handlers k e).0;
  routed = λ k v e.
      let (e1, n1) = erase_all_sound cids (erase h.pscid (erase h.rcid w.server.ctos)) k e in
      let (e2, n2) = find-erase h.pscid (erase h.rcid w.server.ctos) k e1 in
      let (e3, n3) = find-erase h.rcid w.server.ctos k e2 in
      elim (c.routed k v e3) [
        | inr m ↦ inr m
        | inl (g, found, owns) ↦ elim (same-cases v h.scid) [
          | inl (p, q) ↦ absurd (
              not-Owns w h k n3 n2 (λ i. n1 (all k i))
                (subst (λ x. Owns w x k) (found-eq w.server.handlers v h.scid g h found live p)
                  owns))
          | inr (p, q) ↦ inl (g, find-erase_ne h.scid w.server.handlers v p ∙ found, owns)
        ]
      ];
}

-- A new handler: what the first packet adds to `ctos_`, all of it under the handler's identifier.
associate_all-handlers :
    (cids : List Bytes) (h : Handler) (s : Server) → (associate_all cids h s).handlers ≡ s.handlers
unfolding associate_cid
associate_all-handlers [] h s = refl
associate_all-handlers (cid ∷ cids) h s = associate_all-handlers cids h (associate_cid cid h s)

associate_all_sound :
    (cids : List Bytes) (h : Handler) (s : Server) (k : Bytes) {v : Bytes}
    → find k (associate_all cids h s).ctos ≡ some v
    → (find k s.ctos ≡ some v) ⊎ (In k cids × (v ≡ h.scid))
unfolding associate_cid
associate_all_sound [] h s k e = inl e
associate_all_sound (cid ∷ cids) h s k e =
    elim (associate_all_sound cids h (associate_cid cid h s) k e) [
      | inl e' ↦ elim (find-emplace cid h.scid s.ctos k e') [
        | inl old ↦ inl old
        | inr (p, q) ↦ inr (inl p, q)
      ]
      | inr (i, q) ↦ inr (inr i, q)
    ]

associate_nonempty-handlers :
    (cid : Bytes) (h : Handler) (s : Server) → (associate_nonempty cid h s).handlers ≡ s.handlers
unfolding associate_cid
associate_nonempty-handlers [] h s = refl
associate_nonempty-handlers (b ∷ cid) h s = refl

associate_nonempty_sound :
    (cid : Bytes) (h : Handler) (s : Server) (k : Bytes) {v : Bytes}
    → find k (associate_nonempty cid h s).ctos ≡ some v
    → (find k s.ctos ≡ some v) ⊎ ((k ≡ cid) × (v ≡ h.scid))
unfolding associate_cid
associate_nonempty_sound [] h s k e = inl e
associate_nonempty_sound (b ∷ cid) h s k e = find-emplace (b ∷ cid) h.scid s.ctos k e

-- The record of a new handler leaves those of the others as they are, since its identifier is fresh.
fresh-Owns :
    (w : World) (ok : Bool) (cids : List Bytes) (h g : Handler) (v k : Bytes)
    → find h.scid w.server.handlers ≡ none
    → IsConsistent w
    → find v w.server.handlers ≡ some g
    → Owns w g k
    → Owns (accepted w ok cids h) g k
fresh-Owns w ok cids h g v k fresh c found owns =
    Owns-grow w (accepted w ok cids h) g k
      (with_issued-keeps h.scid cids w.issued g.scid k
        (λ p _. absurd (cc (p, c.keyed v g found, found, fresh))))
      owns

In-append : (k : Bytes) (l m : List Bytes) → In k l ⊎ In k m → In k (l ++ m)
In-append k [] m (inl i) = elim i [ ]
In-append k [] m (inr i) = i
In-append k (x ∷ l) m (inl (inl p)) = inl p
In-append k (x ∷ l) m (inl (inr i)) = inr (In-append k l m (inl i))
In-append k (x ∷ l) m (inr i) = inr (In-append k l m (inr i))

-- A handler that is dropped leaves its identifiers in `ctos_`.
pub reject-IsConsistent :
    (w : World) (cids : List Bytes) (h : Handler)
    → find h.scid w.server.handlers ≡ none
    → IsConsistent w
    → IsConsistent (accepted w false cids h)
unfolding accept
reject-IsConsistent w cids h fresh c =
    let kept = associate_all-handlers cids h w.server in
    record {
      keyed = λ k g e. c.keyed k g (subst (λ m. find k m ≡ some g) kept e);
      routed = λ k v e. elim (associate_all_sound cids h w.server k e) [
        | inr (i, q) ↦ inr (In-append k cids w.stale (inl i))
        | inl old ↦ elim (c.routed k v old) [
          | inr m ↦ inr (In-append k cids w.stale (inr m))
          | inl (g, found, owns) ↦ inl (
            g,
            subst (λ m. find v m ≡ some g) (sym kept) found,
            fresh-Owns w false cids h g v k fresh c found owns,
          )
        ]
      ];
    }

pub accept-handlers :
    (w : World) (cids : List Bytes) (h : Handler)
    → (accept true cids h w.server).handlers ≡ emplace h.scid h w.server.handlers
unfolding accept
accept-handlers w cids h =
    ap (emplace h.scid h)
      (associate_nonempty-handlers h.pscid h _ ∙ associate_all-handlers cids h w.server)

-- Where an identifier of `ctos_` comes from after a packet is accepted.
pub accept-ctos :
    (w : World) (cids : List Bytes) (h : Handler) (k : Bytes) {v : Bytes}
    → find k (accept true cids h w.server).ctos ≡ some v
    → (find k w.server.ctos ≡ some v) ⊎ (((k ≡ h.rcid) ⊎ (k ≡ h.pscid) ⊎ In k cids) × (v ≡ h.scid))
unfolding accept
accept-ctos w cids h k e = elim (associate_nonempty_sound h.pscid h _ k e) [
  | inr (p, q) ↦ inr (inr (inl p), q)
  | inl e1 ↦ elim (find-emplace h.rcid h.scid (associate_all cids h w.server).ctos k e1) [
    | inr (p, q) ↦ inr (inl p, q)
    | inl e2 ↦ elim (associate_all_sound cids h w.server k e2) [
      | inr (i, q) ↦ inr (inr (inr i), q)
      | inl old ↦ inl old
    ]
  ]
]

pub accept-IsConsistent :
    (w : World) (cids : List Bytes) (h : Handler)
    → find h.scid w.server.handlers ≡ none
    → IsConsistent w
    → IsConsistent (accepted w true cids h)
accept-IsConsistent w cids h fresh c = record {
  keyed = λ k g e.
      elim (find-emplace h.scid h w.server.handlers k
        (subst (λ m. find k m ≡ some g) (accept-handlers w cids h) e)) [
          | inl old ↦ c.keyed k g old
          | inr (p, q) ↦ ap (λ x. x.scid) q ∙ sym p
        ];
  routed = λ k v e. elim (accept-ctos w cids h k e) [
    | inl old ↦ elim (c.routed k v old) [
      | inr m ↦ inr m
      | inl (g, found, owns) ↦ inl (
        g,
        subst (λ m. find v m ≡ some g) (sym (accept-handlers w cids h))
            (find-emplace_kept h.scid h w.server.handlers v found),
        fresh-Owns w true cids h g v k fresh c found owns,
      )
    ]
    | inr (own, q) ↦ inl (
      h,
      subst (λ m. find v m ≡ some h) (sym (accept-handlers w cids h))
          (subst (λ x. find x (emplace h.scid h w.server.handlers) ≡ some h) (sym q)
            (find-emplace_new h.scid h w.server.handlers fresh)),
      rw (same_refl h.scid) own,
    )
  ];
}
