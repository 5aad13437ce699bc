-- ===== src/Server/Cids/Steps.antt =====
-- How `handlers_` and `ctos_` of the server change, as a step relation, and what keeps them consistent.
use quicsy.Prelude.{
  ◌≡◌, ◌⊎◌, Bool, true, false, ◌++◌, Bytes, none, some, List, [], ◌∷◌, if◌then◌else◌,
}
use quicsy.Prelude.Assoc.{find, same}
use quicsy.Server.Cids.{
  Handler, Server, associate_cid, dissociate_cid, remove, accept, unknown, route,
}

abbrev pub In : Bytes → List Bytes → Type 0
In k [] = ⊥
In k (x ∷ l) = (k ≡ x) ⊎ In k l

abbrev pub without : Bytes → List Bytes → List Bytes
without k [] = []
without k (x ∷ l) = let rest = without k l in if same k x then rest else x ∷ rest

-- The server, and for each connection, by its own identifier, those that ngtcp2 issued and did not
-- retire. `stale` has those that were issued for a handler that was dropped on its first packet.
pub record World : Type 0 where
  pub server : Server
  pub issued : Bytes → List Bytes
  pub stale : List Bytes

abbrev pub with_issued : Bytes → List Bytes → (Bytes → List Bytes) → Bytes → List Bytes
with_issued scid cids issued v = if same v scid then cids else issued v

abbrev pub stale_after : Bool → List Bytes → List Bytes → List Bytes
stale_after true cids stale = stale
stale_after false cids stale = cids ++ stale

abbrev pub accepted : World → Bool → List Bytes → Handler → World
accepted w ok cids h = record {
  server = accept ok cids h w.server;
  issued = with_issued h.scid cids w.issued;
  stale = stale_after ok cids w.stale;
}

abbrev pub with_cid : World → Bytes → Handler → World
with_cid w cid h = record {
  server = associate_cid cid h w.server;
  issued = with_issued h.scid (cid ∷ w.issued h.scid) w.issued;
  stale = w.stale;
}

abbrev pub without_cid : World → Bytes → Handler → World
without_cid w cid h = record {
  server = dissociate_cid cid w.server;
  issued = with_issued h.scid (without cid (w.issued h.scid)) w.issued;
  stale = w.stale;
}

abbrev pub removed : World → List Bytes → Handler → World
removed w cids h = record w { server = remove cids h w.server }

pub data Step : World → World → Type 0 where
  -- The identifiers of a new handler are random, so its own is not in use.
  accepts :
      (w : World) (ok : Bool) (cids : List Bytes) (h : Handler)
      → route h.rcid w.server ≡ unknown
      → find h.scid w.server.handlers ≡ none
      → Step w (accepted w ok cids h)
  -- The callback `get_new_connection_id` of a connection.
  issues :
      (w : World) (cid : Bytes) (h : Handler)
      → find h.scid w.server.handlers ≡ some h
      → Step w (with_cid w cid h)
  -- The callback `remove_connection_id`.
  retires :
      (w : World) (cid : Bytes) (h : Handler)
      → find h.scid w.server.handlers ≡ some h
      → Step w (without_cid w cid h)
  -- `ngtcp2_conn_get_scid` answers all the identifiers of the connection that are not retired.
  removes :
      (w : World) (cids : List Bytes) (h : Handler)
      → find h.scid w.server.handlers ≡ some h
      → ((k : Bytes) → In k (w.issued h.scid) → In k cids)
      → Step w (removed w cids h)

pub data Reach (w : World) : World → Type 0 where
  here : Reach w w
  next : {u v : World} → Reach w u → Step u v → Reach w v

abbrev pub no_connections : World
no_connections = record {
  server = record { handlers = []; ctos = [] };
  issued = λ v. [];
  stale = [];
}

-- The keys that a handler has in `ctos_`.
abbrev pub Owns : World → Handler → Bytes → Type 0
Owns w h k = (k ≡ h.rcid) ⊎ (k ≡ h.pscid) ⊎ In k (w.issued h.scid)

-- The handlers stand under their own identifiers, and an identifier in `ctos_` leads to a handler that
-- has it, or is one of a handler that was dropped.
pub record IsConsistent (w : World) : Type 0 where
  pub keyed : (k : Bytes) (h : Handler) → find k w.server.handlers ≡ some h → h.scid ≡ k
  pub routed :
      (k v : Bytes)
      → find k w.server.ctos ≡ some v
      → ((h : Handler) × (find v w.server.handlers ≡ some h) × Owns w h k) ⊎ In k w.stale
