-- ===== src/Server/Cids/Tests.antt =====
-- The theorems on connection identifiers at concrete inputs.
use quicsy.Prelude.{◌≡◌, ◌≢◌, ◌⊎◌, inl, inr, refl, true, false, Bytes, some, List, [], ◌∷◌}
use quicsy.Prelude.Assoc.{same, find}
use quicsy.Server.Cids.{
  Handler, unknown, forwards, assertion_fails, route, accept, associate_cid, remove,
}
use quicsy.Server.Cids.Steps.{World, In, Owns, Reach, here, next, no_connections, accepted, accepts}
use quicsy.Server.Cids.Reachable.{Reach-route, removed-route, accept-route}

abbrev handler : Handler
handler = record { scid = 1 ∷ 2 ∷ []; pscid = []; rcid = 9 ∷ 9 ∷ [] }

abbrev one_issued : List Bytes
one_issued = (3 ∷ 4 ∷ []) ∷ []

-- A handler that was dropped on its first packet, when it had issued an identifier.
abbrev dropped : World
dropped = accepted no_connections false ((7 ∷ 7 ∷ []) ∷ []) (record handler { scid = 5 ∷ [] })

abbrev one_connection : World
one_connection = accepted dropped true one_issued handler

-- A client asks for a connection; the handler issues one identifier of its own at once.
one_connection-Reach : Reach no_connections one_connection
unfolding route accept associate_cid same
one_connection-Reach =
    next (next here (accepts no_connections false _ (record handler { scid = 5 ∷ [] }) refl refl))
      (accepts dropped true one_issued handler refl refl)

-- The identifier of the handler that was dropped is still in `ctos_`.
stale_asserts : route (7 ∷ 7 ∷ []) one_connection.server ≡ assertion_fails
unfolding route accept associate_cid same
stale_asserts = refl

not_stale : ¬ In (3 ∷ 4 ∷ []) one_connection.stale
not_stale m = elim m [ inl e ↦ cc (e) | inr e ↦ e ]

Reach-route_example :
    (route (3 ∷ 4 ∷ []) one_connection.server ≡ unknown)
    ⊎ ((h : Handler) × (route (3 ∷ 4 ∷ []) one_connection.server ≡ forwards h)
        × (find h.scid one_connection.server.handlers ≡ some h)
        × ((3 ∷ 4 ∷ [] ≡ h.scid) ⊎ Owns one_connection h (3 ∷ 4 ∷ [])))
Reach-route_example = Reach-route (3 ∷ 4 ∷ []) one_connection-Reach not_stale

removed-route_example :
    (route (3 ∷ 4 ∷ []) (remove one_issued handler one_connection.server) ≢ forwards handler)
    × (route (3 ∷ 4 ∷ []) (remove one_issued handler one_connection.server) ≢ assertion_fails)
unfolding accept associate_cid same
removed-route_example =
    removed-route one_issued handler (3 ∷ 4 ∷ []) one_connection-Reach refl (λ j m. m) not_stale

accept-route_example :
    (route (1 ∷ 2 ∷ []) (accept true one_issued handler no_connections.server) ≡ forwards handler)
    × (route (9 ∷ 9 ∷ []) (accept true one_issued handler no_connections.server) ≡ forwards handler)
unfolding route
accept-route_example = accept-route no_connections one_issued handler refl refl
