-- ===== src/Client/Events.antt =====
-- `feed_data`, `on_read` and `handle_expiry` of `Client`, with `writecb`, `readcb`, `timeoutcb` and
-- `retransmitcb`, in src/quicsy_client.cc.
use quicsy.Prelude.{ℕ, true, false, Bytes, Option, none, some, List, [], ◌∷◌, ◌==◌, if◌then◌else◌}
use quicsy.Server.Conn.{
  Quic, quic_err_transport, quic_err_app, Rv, ok, failed, fatal, send_blocked, close_wait, retry,
  Read, read_ok, err_draining, err_retry, err_transport_param, err_other,
}
use quicsy.Client.Write.{
  SendTo, Client, Outcome, returns, aborts, overruns, exhausted, disconnect, return_after,
  reset_idle_timer, on_write,
}

-- `draining_error` and `retry_error` are the numbers of NGTCP2_ERR_DRAINING and NGTCP2_ERR_RETRY.
module _ (q : Quic) (os : ℕ → SendTo)
    (internal draining_error retry_error max_pktlen bufsize now : ℕ) where
  open q use {State, read_pkt, handle_expiry}

  abbrev pub fails : Client State → Outcome State
  fails c =
      return_after q os internal max_pktlen bufsize now failed
        (disconnect q os internal max_pktlen bufsize now c)

  -- `if (!last_error_.code) last_error_ = …`.
  abbrev pub error_if_unset : ℕ → Client State → Client State
  error_if_unset e c =
      if c.last_error.code == 0 then record c { last_error = quic_err_transport q e } else c

  abbrev pub after_read : Read → Client State → Outcome State
  after_read read_ok c = returns ok c
  after_read err_draining c = fails (error_if_unset draining_error c)
  after_read err_retry c = fails (error_if_unset retry_error c)
  after_read (err_transport_param e) c = fails (record c { last_error = quic_err_transport q e })
  after_read (err_other e) c = fails (error_if_unset e c)

  abbrev pub alert : Option quicsy.Server.Conn.QuicError → Client State → Client State
  alert none c = c
  alert (some e) c = record c { last_error = e }

  unfoldable pub feed_data : Bytes → Client State → Outcome State
  unfolding disconnect
  feed_data pkt c =
      let r = read_pkt pkt now c.quic in after_read r.0 (alert r.1 (record c { quic = r.2 }))

  -- The next step, when the one before returns 0.
  abbrev pub and_then : (Client State → Outcome State) → Outcome State → Outcome State
  and_then next (returns ok c) = next c
  and_then next (returns failed c) = returns failed c
  and_then next (returns fatal c) = returns fatal c
  and_then next (returns send_blocked c) = returns send_blocked c
  and_then next (returns close_wait c) = returns close_wait c
  and_then next (returns retry c) = returns retry c
  and_then next aborts = aborts
  and_then next overruns = overruns
  and_then next exhausted = exhausted

  -- Behind the loop of `on_read`.
  abbrev pub after_packets : Client State → Outcome State
  after_packets c =
      if c.should_exit
      then fails (record c { last_error = quic_err_app q 0 })
      else returns ok (reset_idle_timer q os internal max_pktlen bufsize now c)

  -- The packets are those that `recvfrom` gives before it fails.
  unfoldable pub on_read : List Bytes → Client State → Outcome State
  unfolding feed_data disconnect reset_idle_timer
  on_read [] c = after_packets c
  on_read (pkt ∷ pkts) c = and_then (on_read pkts) (feed_data pkt c)

  abbrev pub after_expiry : Option ℕ → Client State → Outcome State
  after_expiry none c = returns ok c
  after_expiry (some e) c = fails (record c { last_error = quic_err_transport q internal })

  unfoldable pub expire : Client State → Outcome State
  unfolding disconnect
  expire c = let r = handle_expiry now c.quic in after_expiry r.0 (record c { quic = r.1 })

  -- The `switch` of the callbacks; `start_wev` starts the watcher for a writable socket.
  abbrev pub watch_if_blocked : Outcome State → Outcome State
  watch_if_blocked (returns send_blocked c) = returns send_blocked (record c { wev = true })
  watch_if_blocked (returns ok c) = returns ok c
  watch_if_blocked (returns failed c) = returns failed c
  watch_if_blocked (returns fatal c) = returns fatal c
  watch_if_blocked (returns close_wait c) = returns close_wait c
  watch_if_blocked (returns retry c) = returns retry c
  watch_if_blocked aborts = aborts
  watch_if_blocked overruns = overruns
  watch_if_blocked exhausted = exhausted

  abbrev pub write : ℕ → Client State → Outcome State
  write fuel c = on_write q os internal max_pktlen bufsize now fuel c

  unfoldable pub writecb : ℕ → Client State → Outcome State
  unfolding on_write
  writecb fuel c = watch_if_blocked (write fuel (record c { wev = false }))

  unfoldable pub readcb : ℕ → List Bytes → Client State → Outcome State
  unfolding on_read on_write
  readcb fuel pkts c = and_then (λ d. watch_if_blocked (write fuel d)) (on_read pkts c)

  unfoldable pub timeoutcb : Client State → Outcome State
  unfolding disconnect
  timeoutcb c = fails c

  -- Behind the label `fail`.
  abbrev pub fail_or_watch : Outcome State → Outcome State
  fail_or_watch (returns ok c) = returns ok c
  fail_or_watch (returns send_blocked c) = returns send_blocked (record c { wev = true })
  fail_or_watch (returns failed c) = fails c
  fail_or_watch (returns fatal c) = fails c
  fail_or_watch (returns close_wait c) = fails c
  fail_or_watch (returns retry c) = fails c
  fail_or_watch aborts = aborts
  fail_or_watch overruns = overruns
  fail_or_watch exhausted = exhausted

  unfoldable pub retransmitcb : ℕ → Client State → Outcome State
  unfolding expire on_write disconnect
  retransmitcb fuel c = fail_or_watch (and_then (write fuel) (expire c))
