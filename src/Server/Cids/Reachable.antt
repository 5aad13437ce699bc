-- ===== src/Server/Cids/Reachable.antt =====
-- What a packet's destination identifier leads to, in every state that the server reaches.
use mathlib.Core.Option.{none-ne-some}
use quicsy.Prelude.{
  ◌≡◌, ◌≢◌, ◌⊎◌, inl, inr, sym, subst, ◌∙◌, ap, true, false, Bytes, none, some, List, [], ◌∷◌,
  Option-cases,
}
use quicsy.Prelude.Assoc.{
  find, find-emplace, find-emplace_kept, find-emplace_new, find-emplace-some, find-erase,
}
use quicsy.Server.Cids.{
  Handler, Server, accept, associate_nonempty, associate_all, associate_cid, remove, forwards,
  unknown, assertion_fails, route,
}
use quicsy.Server.Cids.Steps.{
  World, In, removed, Step, accepts, issues, retires, removes, Reach, here, next, no_connections,
  IsConsistent, Owns,
}
use quicsy.Server.Cids.Routes.{
  issue-IsConsistent, retire-IsConsistent, remove-IsConsistent, reject-IsConsistent,
  accept-IsConsistent, accept-handlers, accept-ctos,
}

Step-IsConsistent : {u v : World} → Step u v → IsConsistent u → IsConsistent v
Step-IsConsistent (accepts w true cids h new fresh) c = accept-IsConsistent w cids h fresh c
Step-IsConsistent (accepts w false cids h new fresh) c = reject-IsConsistent w cids h fresh c
Step-IsConsistent (issues w cid h live) c = issue-IsConsistent w cid h live c
Step-IsConsistent (retires w cid h live) c = retire-IsConsistent w cid h c
Step-IsConsistent (removes w cids h live all) c = remove-IsConsistent w cids h live all c

Reach-IsConsistent : {w : World} → Reach no_connections w → IsConsistent w
Reach-IsConsistent here = record {
  keyed = λ k h e. absurd (none-ne-some h e);
  routed = λ k v e. absurd (none-ne-some v e);
}
Reach-IsConsistent (next r s) = Step-IsConsistent s (Reach-IsConsistent r)

-- What `route` answers, by the two lookups.
route-direct :
    (s : Server) (k : Bytes) {h : Handler} → find k s.handlers ≡ some h → route k s ≡ forwards h
unfolding route
route-direct s k e = rw e

route-via :
    (s : Server) (k v : Bytes) {h : Handler}
    → find k s.handlers ≡ none
    → find k s.ctos ≡ some v
    → find v s.handlers ≡ some h
    → route k s ≡ forwards h
unfolding route
route-via s k v e f g = rw (e, f, g)

route-none :
    (s : Server) (k : Bytes) → find k s.handlers ≡ none → find k s.ctos ≡ none → route k s ≡ unknown
unfolding route
route-none s k e f = rw (e, f)

-- A consistent server answers `unknown`, or a handler that stands in the map, except for an identifier
-- of a handler that was dropped.
IsConsistent-route :
    (w : World) (k : Bytes)
    → IsConsistent w
    → ¬ In k w.stale
    → (route k w.server ≡ unknown)
      ⊎ ((v : Bytes) × (h : Handler) × (find v w.server.handlers ≡ some h)
          × (route k w.server ≡ forwards h))
IsConsistent-route w k c live = elim (Option-cases (find k w.server.handlers)) [
  | inr (h, e) ↦ inr (k, h, e, route-direct w.server k e)
  | inl e ↦ elim (Option-cases (find k w.server.ctos)) [
    | inl f ↦ inl (route-none w.server k e f)
    | inr (v, f) ↦ elim (c.routed k v f) [
      | inl (h, found, owns) ↦ inr (v, h, found, route-via w.server k v e f found)
      | inr m ↦ absurd (live m)
    ]
  ]
]

-- When the identifier of each new handler is not in use, and ngtcp2 answers all the identifiers of a
-- connection that is removed, then in every state that the server reaches, a packet makes the assertion
-- of `Server::on_read` fail only by an identifier that was issued for a handler which was dropped on its
-- first packet. Any other identifier is unknown, or leads to a handler in the map that has it.
pub Reach-route :
    {w : World} (k : Bytes)
    → Reach no_connections w
    → ¬ In k w.stale
    → (route k w.server ≡ unknown)
      ⊎ ((h : Handler) × (route k w.server ≡ forwards h)
          × (find h.scid w.server.handlers ≡ some h)
          × ((k ≡ h.scid) ⊎ Owns w h k))
Reach-route {w = w} k r live = elim (Option-cases (find k w.server.handlers)) [
  | inr (h, e) ↦
      let p = c.keyed k h e in
      inr (
        h,
        route-direct w.server k e,
        subst (λ x. find x w.server.handlers ≡ some h) (sym p) e,
        inl (sym p),
      )
  | inl e ↦ elim (Option-cases (find k w.server.ctos)) [
    | inl f ↦ inl (route-none w.server k e f)
    | inr (v, f) ↦ elim (c.routed k v f) [
      | inr m ↦ absurd (live m)
      | inl (h, found, owns) ↦ inr (
        h,
        route-via w.server k v e f found,
        subst (λ x. find x w.server.handlers ≡ some h) (sym (c.keyed v h found)) found,
        inr owns,
      )
    ]
  ]
]
  where
    c : IsConsistent w
    c = Reach-IsConsistent r

-- When the identifier of each new handler is not in use, and ngtcp2 answers all the identifiers of a
-- connection that is removed, then in every state that the server reaches, after `Server::remove` of a
-- connection no identifier leads to the handler that is freed, nor makes the assertion of
-- `Server::on_read` fail, except perhaps one that was issued for a handler which was dropped on its first
-- packet.
pub removed-route :
    {w : World} (cids : List Bytes) (h : Handler) (k : Bytes)
    → Reach no_connections w
    → find h.scid w.server.handlers ≡ some h
    → ((j : Bytes) → In j (w.issued h.scid) → In j cids)
    → ¬ In k w.stale
    → (route k (remove cids h w.server) ≢ forwards h)
      × (route k (remove cids h w.server) ≢ assertion_fails)
unfolding remove
removed-route {w = w} cids h k r live all known = (λ f. freed f, λ a. asserts a)
  where
    c : IsConsistent (removed w cids h)
    c = remove-IsConsistent w cids h live all (Reach-IsConsistent r)

    asserts : route k (removed w cids h).server ≢ assertion_fails
    asserts a = elim (IsConsistent-route (removed w cids h) k c known) [
      | inl e ↦ cc (a, e)
      | inr (v, g, found, e) ↦ cc (a, e)
    ]

    freed : route k (removed w cids h).server ≢ forwards h
    freed f = elim (IsConsistent-route (removed w cids h) k c known) [
      | inl e ↦ cc (f, e)
      | inr (v, g, found, e) ↦
          let p : g ≡ h = cc (e, f) in
          (find-erase h.scid w.server.handlers v found).1
            (sym (c.keyed v g found) ∙ ap (λ x. x.scid) p)
    ]

route-unknown :
    (s : Server) (k : Bytes)
    → route k s ≡ unknown
    → (find k s.handlers ≡ none) × (find k s.ctos ≡ none)
unfolding route
route-unknown s k u = elim (Option-cases (find k s.handlers)) [
  | inr (h, e) ↦ absurd (cc (u, route-direct s k e))
  | inl e ↦ elim (Option-cases (find k s.ctos)) [
    | inl f ↦ (e, f)
    | inr (v, f) ↦ elim (Option-cases (find v s.handlers)) [
      | inl g ↦ absurd (dangling e f g)
      | inr (h, g) ↦ absurd (cc (u, route-via s k v e f g))
    ]
  ]
]
  where
    dangling :
        {v : Bytes}
        → find k s.handlers ≡ none
        → find k s.ctos ≡ some v
        → find v s.handlers ≡ none
        → ⊥
    dangling e f g = let p : route k s ≡ assertion_fails = rw (e, f, g) in cc (u, p)

associate_nonempty-keeps :
    (cid : Bytes) (h : Handler) (s : Server) (k : Bytes) {v : Bytes}
    → find k s.ctos ≡ some v
    → find k (associate_nonempty cid h s).ctos ≡ some v
unfolding associate_cid
associate_nonempty-keeps [] h s k e = e
associate_nonempty-keeps (b ∷ cid) h s k e = find-emplace_kept (b ∷ cid) h.scid s.ctos k e

accept-rcid :
    (cids : List Bytes) (h : Handler) (s : Server)
    → (v : Bytes) × (find h.rcid (accept true cids h s).ctos ≡ some v)
unfolding accept
accept-rcid cids h s =
    let (v, e) = find-emplace-some h.rcid h.scid (associate_all cids h s).ctos in
    (v, associate_nonempty-keeps h.pscid h _ h.rcid e)

-- A packet for an unknown identifier that is accepted, with an identifier of the new handler that is not
-- in use, makes both lead to the new handler, whatever identifiers are issued on the way.
pub accept-route :
    (w : World) (cids : List Bytes) (h : Handler)
    → route h.rcid w.server ≡ unknown
    → find h.scid w.server.handlers ≡ none
    → (route h.scid (accept true cids h w.server) ≡ forwards h)
      × (route h.rcid (accept true cids h w.server) ≡ forwards h)
accept-route w cids h new fresh = (route-direct s h.scid own, by_rcid)
  where
    s : Server
    s = accept true cids h w.server

    own : find h.scid s.handlers ≡ some h
    own =
        subst (λ m. find h.scid m ≡ some h) (sym (accept-handlers w cids h))
          (find-emplace_new h.scid h w.server.handlers fresh)

    by_rcid : route h.rcid s ≡ forwards h
    by_rcid =
        let (out, unrouted) = route-unknown w.server h.rcid new in
        elim (Option-cases (find h.rcid s.handlers)) [
          | inr (g, e) ↦
              elim (find-emplace h.scid h w.server.handlers h.rcid
                (subst (λ m. find h.rcid m ≡ some g) (accept-handlers w cids h) e)) [
                  | inl old ↦ absurd (cc (old, out))
                  | inr (p, q) ↦ route-direct s h.rcid e ∙ ap forwards q
                ]
          | inl e ↦
              let (v, f) = accept-rcid cids h w.server in
              elim (accept-ctos w cids h h.rcid f) [
                | inl old ↦ absurd (cc (old, unrouted))
                | inr (o, q) ↦
                    route-via s h.rcid v e f (subst (λ x. find x s.handlers ≡ some h) (sym q) own)
              ]
        ]
