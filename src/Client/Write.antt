-- ===== src/Client/Write.antt =====
-- `send_packet`, `handle_error`, `disconnect`, `reset_idle_timer`, `schedule_retransmit`,
-- `write_streams` and `on_write` of `Client` in src/quicsy_client.cc.
use quicsy.Prelude.{
  ℕ, zero, suc, ◌+◌, ◌-◌, ◌&&◌, Bool, true, false, not, Bytes, Option, none, some, List, [], ◌∷◌,
  ltb, ◌==◌, ◌++◌, if◌then◌else◌, length,
}
use quicsy.Server.Conn.{
  ErrorType, transport_version_negotiation, QuicError, StreamChunk, NetworkPath, Wrote, packet,
  data_blocked, shut_wr, write_more, write_error, Quic, quic_err_transport, quic_err_app, Rv, ok,
  failed, fatal, send_blocked, close_wait, retry, timer_again,
}
use quicsy.Server.Conn.Write.{no_chunk}
use quicsy.Server.Conn.Traffic.{Addressed}

-- What `sendto` answers: the datagram is sent whole, EAGAIN, or another error. A datagram is never sent
-- in part, which is what the assertion of `send_packet` says.
pub data SendTo : Type 0 where
  all_sent would_block send_fails : SendTo

-- The fields of `Client`. `tries` counts the calls of `sendto`, `sent` has what they sent, latest first,
-- and `stopped` says that `disconnect` was called.
pub record Client (S : Type 0) : Type 0 where
  pub quic : S
  pub remote : Bytes
  pub last_error : QuicError
  pub sendbuf : Bytes
  pub timer : Option ℕ
  pub rttimer : Option ℕ
  pub wev : Bool
  pub should_exit : Bool
  pub stopped : Bool
  pub tries : ℕ
  pub sent : List Addressed

pub data Outcome (S : Type 0) : Type 0 where
  returns : Rv → Client S → Outcome S
  aborts overruns exhausted : Outcome S

abbrev pub is_nil : Bytes → Bool
is_nil [] = true
is_nil (b ∷ s) = false

abbrev pub is_version_error : ErrorType → Bool
is_version_error transport_version_negotiation = true
is_version_error _ = false

-- `os` answers the calls of `sendto`, `internal` is NGTCP2_ERR_INTERNAL, `bufsize` the size of
-- `sendbuf_`.
module _ (q : Quic) (os : ℕ → SendTo) (internal max_pktlen bufsize now : ℕ) where
  open q use {
    State, in_closing, expiry, idle_expiry, read_pkt, write_close, has_http, max_data_left,
    http_writev, writev, block_stream, add_write_offset,
  }

  abbrev pub tried : Client State → Client State
  tried c = record c { tries = c.tries + 1 }

  abbrev pub after_sendto : SendTo → Client State → Rv × Client State
  after_sendto all_sent c = (ok, record c { sendbuf = []; sent = (c.remote, c.sendbuf) ∷ c.sent })
  after_sendto would_block c = (send_blocked, c)
  after_sendto send_fails c = (fatal, c)

  -- `send_packet`, without the simulated loss.
  unfoldable pub send_packet : Client State → Rv × Client State
  send_packet c = after_sendto (os c.tries) (tried c)

  abbrev pub after_write_close :
      Option Bytes × NetworkPath × State → Client State → Rv × Client State
  after_write_close (none, path, s) c = (failed, record c { quic = s })
  after_write_close (some pkt, path, s) c =
      send_packet (record c { quic = s; sendbuf = pkt; remote = path.remote })

  -- `none` is the abort of the assertion that `max_pktlen` bytes fit into the empty `sendbuf_`.
  unfoldable pub handle_error : Client State → Option (Rv × Client State)
  unfolding send_packet
  handle_error c =
      if in_closing c.quic
      then some (ok, c)
      else if ltb bufsize max_pktlen
      then none
      else if is_version_error c.last_error.type
      then some (ok, record c { sendbuf = [] })
      else some
          (after_write_close (write_close c.last_error now c.quic) (record c { sendbuf = [] }))

  -- What `handle_error` returns is ignored.
  abbrev pub disconnected : Option (Rv × Client State) → Option (Client State)
  disconnected none = none
  disconnected (some (rv, c)) = some (record c { timer = none; rttimer = none; stopped = true })

  unfoldable pub disconnect : Client State → Option (Client State)
  unfolding handle_error
  disconnect c = disconnected (handle_error c)

  -- `return rv;` behind `disconnect`.
  abbrev pub return_after : Rv → Option (Client State) → Outcome State
  return_after rv none = aborts
  return_after rv (some c) = returns rv c

  -- `last_error_ = …; disconnect(); return -1;`
  abbrev pub fail_with : QuicError → Client State → Outcome State
  fail_with e c = return_after failed (disconnect (record c { last_error = e }))

  unfoldable pub reset_idle_timer : Client State → Client State
  reset_idle_timer c = record c {
    timer = timer_again (if ltb now (idle_expiry c.quic) then idle_expiry c.quic - now else 1);
  }

  unfoldable pub schedule_retransmit : Client State → Client State
  schedule_retransmit c = record c {
    rttimer = timer_again (if ltb (expiry c.quic) now then 1 else expiry c.quic - now);
  }

  -- A round of `write_streams` goes on, with `pktcnt`, or returns.
  pub data Round : Type 0 where
    goes_on : Client State → ℕ → Round
    stops : Outcome State → Round

  abbrev pub continue_unless : Option ℕ × State → Client State → ℕ → Round
  continue_unless (none, s) c pktcnt = goes_on (record c { quic = s }) pktcnt
  continue_unless (some e, s) c pktcnt =
      stops (fail_with (quic_err_app q e) (record c { quic = s }))

  abbrev pub stream_stuck : Bool → StreamChunk → Client State → ℕ → Round
  stream_stuck blocked chunk c pktcnt =
      if blocked && (max_data_left c.quic == 0)
      then stops (returns ok c)
      else continue_unless (block_stream chunk.stream_id c.quic) c pktcnt

  abbrev pub more_data : ℕ → StreamChunk → Client State → ℕ → Round
  more_data ndatalen chunk c pktcnt =
      if ltb 0 ndatalen
      then continue_unless (add_write_offset chunk.stream_id ndatalen c.quic) c pktcnt
      else stops aborts

  -- `if (++pktcnt == 10)`, behind a packet that is sent.
  abbrev pub after_send : Rv × Client State → ℕ → Round
  after_send (ok, c) pktcnt =
      if pktcnt + 1 == 10
      then stops (returns ok (record c { wev = true }))
      else goes_on c (pktcnt + 1)
  after_send (failed, c) pktcnt = stops (returns failed c)
  after_send (fatal, c) pktcnt = stops (returns fatal c)
  after_send (send_blocked, c) pktcnt = stops (returns send_blocked c)
  after_send (close_wait, c) pktcnt = stops (returns close_wait c)
  after_send (retry, c) pktcnt = stops (returns retry c)

  abbrev pub send_written : NetworkPath → Client State → ℕ → Round
  send_written path c pktcnt =
      after_send (send_packet (reset_idle_timer (record c { remote = path.remote }))) pktcnt

  abbrev pub offset_then_send : NetworkPath → Option ℕ × State → Client State → ℕ → Round
  offset_then_send path (none, s) c pktcnt = send_written path (record c { quic = s }) pktcnt
  offset_then_send path (some e, s) c pktcnt =
      stops (fail_with (quic_err_app q e) (record c { quic = s }))

  abbrev pub with_offset : Option ℕ → NetworkPath → StreamChunk → Client State → ℕ → Round
  with_offset none path chunk c pktcnt = send_written path c pktcnt
  with_offset (some n) path chunk c pktcnt =
      offset_then_send path (add_write_offset chunk.stream_id n c.quic) c pktcnt

  -- Behind `ngtcp2_conn_writev_stream`, with `sendbuf_.push(nwrite)`.
  abbrev pub after_writev : Wrote → StreamChunk → Client State → ℕ → Round
  after_writev (packet [] ndatalen path) chunk c pktcnt = stops (returns ok c)
  after_writev (packet (b ∷ s) ndatalen path) chunk c pktcnt =
      with_offset ndatalen path chunk (record c { sendbuf = c.sendbuf ++ (b ∷ s) }) pktcnt
  after_writev data_blocked chunk c pktcnt = stream_stuck true chunk c pktcnt
  after_writev shut_wr chunk c pktcnt = stream_stuck false chunk c pktcnt
  after_writev (write_more ndatalen) chunk c pktcnt = more_data ndatalen chunk c pktcnt
  after_writev (write_error e) chunk c pktcnt = stops (fail_with (quic_err_transport q e) c)

  -- The call may write `max_pktlen` bytes at `sendbuf_.wpos()`.
  abbrev pub write_chunk : StreamChunk → Client State → ℕ → Round
  write_chunk chunk c pktcnt =
      if ltb bufsize (length c.sendbuf + max_pktlen)
      then stops overruns
      else (let r = writev chunk now c.quic in
          after_writev r.0 chunk (record c { quic = r.1 }) pktcnt)

  abbrev pub after_http : Option ℕ × StreamChunk × State → Client State → ℕ → Round
  after_http (none, chunk, s) c pktcnt = write_chunk chunk (record c { quic = s }) pktcnt
  after_http (some e, chunk, s) c pktcnt =
      stops (fail_with (quic_err_app q e) (record c { quic = s }))

  unfoldable pub write_round : Client State → ℕ → Round
  unfolding send_packet disconnect reset_idle_timer
  write_round c pktcnt =
      if has_http c.quic && not (max_data_left c.quic == 0)
      then after_http (http_writev c.quic) c pktcnt
      else write_chunk no_chunk c pktcnt

  abbrev pub proceed : (Client State → ℕ → Outcome State) → Round → Outcome State
  proceed next (goes_on c pktcnt) = next c pktcnt
  proceed next (stops r) = r

  unfoldable pub write_loop : ℕ → Client State → ℕ → Outcome State
  unfolding write_round
  write_loop zero c pktcnt = exhausted
  write_loop (suc fuel) c pktcnt = proceed (write_loop fuel) (write_round c pktcnt)

  unfoldable pub write_streams : ℕ → Client State → Outcome State
  unfolding write_loop
  write_streams fuel c = write_loop fuel c 0

  -- The end of `on_write`, which closes the connection once all is done.
  abbrev pub after_streams : Outcome State → Outcome State
  after_streams (returns ok c) =
      if c.should_exit then fail_with (quic_err_app q 0) c else returns ok (schedule_retransmit c)
  after_streams (returns send_blocked c) = returns send_blocked (schedule_retransmit c)
  after_streams (returns failed c) = returns failed c
  after_streams (returns fatal c) = returns fatal c
  after_streams (returns close_wait c) = returns close_wait c
  after_streams (returns retry c) = returns retry c
  after_streams aborts = aborts
  after_streams overruns = overruns
  after_streams exhausted = exhausted

  -- Behind `assert(sendbuf_.left() >= max_pktlen_)`.
  abbrev pub streams_next : ℕ → Client State → Outcome State
  streams_next fuel c =
      if ltb bufsize (length c.sendbuf + max_pktlen)
      then aborts
      else after_streams (write_streams fuel c)

  -- Behind the packet that was blocked before.
  abbrev pub after_pending : ℕ → Rv × Client State → Outcome State
  after_pending fuel (ok, c) = streams_next fuel c
  after_pending fuel (send_blocked, c) = returns send_blocked c
  after_pending fuel (failed, c) =
      return_after failed (disconnect (record c { last_error = quic_err_transport q internal }))
  after_pending fuel (fatal, c) =
      return_after fatal (disconnect (record c { last_error = quic_err_transport q internal }))
  after_pending fuel (close_wait, c) =
      return_after close_wait (disconnect (record c { last_error = quic_err_transport q internal }))
  after_pending fuel (retry, c) =
      return_after retry (disconnect (record c { last_error = quic_err_transport q internal }))

  unfoldable pub on_write : ℕ → Client State → Outcome State
  unfolding send_packet disconnect write_streams schedule_retransmit
  on_write fuel c =
      if is_nil c.sendbuf then streams_next fuel c else after_pending fuel (send_packet c)
