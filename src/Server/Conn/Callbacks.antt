-- ===== src/Server/Conn/Callbacks.antt =====
-- The callbacks that drive a connection: `writecb`, `timeoutcb`, `retransmitcb` and what
-- `Server::on_read` does with a packet of a known connection, in src/quicsy_server.cc.
use quicsy.Prelude.{ℕ, Bool, true, false, Bytes, none, if◌then◌else◌}
use quicsy.Server.Conn.{
  Quic, Conn, Outcome, returns, aborts, overruns, exhausted, ok, send_blocked, failed, fatal,
  close_wait, retry, start_draining_period, send_conn_close, on_read, handle_expiry, and_then,
}
use quicsy.Server.Conn.Write.{on_write}

-- The connection is kept, or removed from the server by `Server::remove`.
pub data Fate (S : Type 0) : Type 0 where
  kept removed : Conn S → Fate S
  crashes spins : Fate S

module _ (q : Quic) (gso : Bool) (max_pktlen bufsize now : ℕ) where
  open q use {State, in_closing}

  -- 0, NETWORK_ERR_CLOSE_WAIT and NETWORK_ERR_SEND_BLOCKED keep the connection.
  abbrev pub after_writecb : Outcome State → Fate State
  after_writecb (returns ok c) = kept c
  after_writecb (returns close_wait c) = kept c
  after_writecb (returns send_blocked c) = kept c
  after_writecb (returns failed c) = removed c
  after_writecb (returns fatal c) = removed c
  after_writecb (returns retry c) = removed c
  after_writecb aborts = crashes
  after_writecb overruns = crashes
  after_writecb exhausted = spins

  unfoldable pub writecb : ℕ → Conn State → Fate State
  unfolding on_write
  writecb fuel c =
      after_writecb (on_write q gso max_pktlen bufsize now fuel (record c { writing = false }))

  unfoldable pub timeoutcb : Conn State → Fate State
  unfolding start_draining_period
  timeoutcb c =
      if in_closing c.quic
      then removed c
      else if c.draining
      then removed c
      else kept (start_draining_period q c)

  -- The label `fail`, which stops the timer.
  abbrev pub after_retransmit : Outcome State → Fate State
  after_retransmit (returns ok c) = kept c
  after_retransmit (returns close_wait c) = kept (record c { rttimer = none })
  after_retransmit (returns send_blocked c) = kept (record c { rttimer = none })
  after_retransmit (returns failed c) = removed c
  after_retransmit (returns fatal c) = removed c
  after_retransmit (returns retry c) = removed c
  after_retransmit aborts = crashes
  after_retransmit overruns = crashes
  after_retransmit exhausted = spins

  unfoldable pub retransmitcb : ℕ → Conn State → Fate State
  unfolding handle_expiry on_write
  retransmitcb fuel c =
      after_retransmit
        (and_then q (on_write q gso max_pktlen bufsize now fuel) (handle_expiry q max_pktlen now c))

  -- Behind `send_conn_close` for a connection in its closing period.
  abbrev pub after_close_packet : Outcome State → Fate State
  after_close_packet (returns ok c) = kept c
  after_close_packet (returns send_blocked c) = kept c
  after_close_packet (returns failed c) = removed c
  after_close_packet (returns fatal c) = removed c
  after_close_packet (returns close_wait c) = removed c
  after_close_packet (returns retry c) = removed c
  after_close_packet aborts = crashes
  after_close_packet overruns = crashes
  after_close_packet exhausted = spins

  -- Behind `on_read`, with `signal_write`.
  abbrev pub after_received : Outcome State → Fate State
  after_received (returns ok c) = kept (record c { writing = true })
  after_received (returns close_wait c) = kept c
  after_received (returns send_blocked c) = removed c
  after_received (returns failed c) = removed c
  after_received (returns fatal c) = removed c
  after_received (returns retry c) = removed c
  after_received aborts = crashes
  after_received overruns = crashes
  after_received exhausted = spins

  unfoldable pub receive : Bytes → Conn State → Fate State
  unfolding send_conn_close on_read
  receive pkt c =
      if in_closing c.quic
      then after_close_packet (send_conn_close q c)
      else if c.draining
      then kept c
      else after_received (on_read q max_pktlen pkt now c)
