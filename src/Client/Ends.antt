-- ===== src/Client/Ends.antt =====
-- The client's `on_write` ends.
use quicsy.Prelude.{ℕ, ◌≢◌, ◌<◌}
use quicsy.Server.Conn.{Quic}
use quicsy.Server.Conn.Ends.{Finite}
use quicsy.Client.Write.{SendTo, Client, exhausted, Round, goes_on, stops}

module _ (q : Quic) (os : ℕ → SendTo) (internal max_pktlen bufsize now : ℕ)
    (finite : Finite q) where
  open q use {State}
  open finite use {left}

  -- A round that goes on has less than `n` left; one that stops has not run out of fuel.
  abbrev Shrinks : ℕ → Round q os internal max_pktlen bufsize now → Type 0
  Shrinks n (goes_on c pktcnt) = left c.quic < n
  Shrinks n (stops o) = o ≢ exhausted
