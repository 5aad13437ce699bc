-- ===== src/Server/Cids.antt =====
-- The connection identifiers of the server: the maps `handlers_` and `ctos_` of `Server`, with
-- `Server::associate_cid`, `dissociate_cid`, `remove` and the part of `Server::on_read` that finds or
-- accepts the connection of a packet, of src/quicsy_server.cc.
pub mod Steps
pub mod Routes
pub mod Reachable
pub mod Tests
use quicsy.Prelude.{
  ℕ, ◌<◌, ◌≡◌, ◌≢◌, refl, Bool, true, false, ◌||◌, Bytes, Option, none, some, List, [], ◌∷◌,
  if◌then◌else◌, ltb, ◌==◌, not,
}
use quicsy.Prelude.Assoc.{Table, find, emplace, erase}

-- The identifiers of a `Handler`: its own, the one of the preferred address (perhaps empty) and the one
-- that the client chose. A key is what `util::make_cid_key` answers, the bytes themselves.
pub record Handler : Type 0 where
  pub scid : Bytes
  pub pscid : Bytes
  pub rcid : Bytes

pub record Server : Type 0 where
  pub handlers : Table Handler
  pub ctos : Table Bytes

unfoldable pub associate_cid : Bytes → Handler → Server → Server
associate_cid cid h s = record s { ctos = emplace cid h.scid s.ctos }

unfoldable pub dissociate_cid : Bytes → Server → Server
dissociate_cid cid s = record s { ctos = erase cid s.ctos }

abbrev pub erase_all : List Bytes → Table Bytes → Table Bytes
erase_all [] m = m
erase_all (cid ∷ cids) m = erase_all cids (erase cid m)

-- `cids` is what `ngtcp2_conn_get_scid` answers for the connection.
unfoldable pub remove : List Bytes → Handler → Server → Server
remove cids h s = record {
  handlers = erase h.scid s.handlers;
  ctos = erase_all cids (erase h.pscid (erase h.rcid s.ctos));
}

-- The connection of a packet, or that there is none, or the abort of
-- `assert(handler_it != std::end(handlers_))`.
pub data Route : Type 0 where
  forwards : Handler → Route
  unknown : Route
  assertion_fails : Route

abbrev pub via_ctos : Table Handler → Option Bytes → Route
via_ctos handlers none = unknown
via_ctos handlers (some scid) = found (find scid handlers)
  where
    found : Option Handler → Route
    found none = assertion_fails
    found (some h) = forwards h

unfoldable pub route : Bytes → Server → Route
route dcid_key s = direct (find dcid_key s.handlers)
  where
    direct : Option Handler → Route
    direct none = via_ctos s.handlers (find dcid_key s.ctos)
    direct (some h) = forwards h

abbrev pub associate_all : List Bytes → Handler → Server → Server
associate_all [] h s = s
associate_all (cid ∷ cids) h s = associate_all cids h (associate_cid cid h s)

-- `if (pscid->datalen)`.
abbrev pub associate_nonempty : Bytes → Handler → Server → Server
associate_nonempty [] h s = s
associate_nonempty (b ∷ cid) h s = associate_cid (b ∷ cid) h s

-- A packet for no known connection that `ngtcp2_accept` accepts: `init`, `on_read` and `on_write` of
-- the new handler associate `issued`, and `ok` tells whether they succeed. Else the handler is dropped.
unfoldable pub accept : Bool → List Bytes → Handler → Server → Server
accept ok issued h s = finish ok
  where
    tried : Server
    tried = associate_all issued h s

    registered : Server
    registered =
        associate_nonempty h.pscid h (record tried { ctos = emplace h.rcid h.scid tried.ctos })

    finish : Bool → Server
    finish true = record registered { handlers = emplace h.scid h registered.handlers }
    finish false = tried

-- The types of a first packet that the code tells apart.
pub data PacketType : Type 0 where
  initial : PacketType
  zero_rtt : PacketType
  other_type : PacketType

-- What `Server::on_read` does with it: a Retry packet, a stateless CONNECTION_CLOSE, or a new handler,
-- whose original connection identifier is read from the token or not.
pub data Admission : Type 0 where
  sends_retry : Admission
  sends_close : Admission
  admits : Bool → Admission

unfoldable pub admission : PacketType → Bool → ℕ → Bool → Admission
admission initial validate_addr tokenlen token_ok =
    if validate_addr || not (tokenlen == 0)
    then (if tokenlen == 0 then sends_retry else if token_ok then admits true else sends_close)
    else admits false
admission zero_rtt validate_addr tokenlen token_ok = sends_retry
admission other_type validate_addr tokenlen token_ok = admits false
