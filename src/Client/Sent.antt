-- ===== src/Client/Sent.antt =====
-- What the client sends: the packets that ngtcp2 writes, also when the socket blocks.
use quicsy.Prelude.{
  ℕ, zero, suc, ◌+◌, ◌≡◌, ◌≤◌, ◌<◌, ◌&&◌, refl, sym, subst, ◌∙◌, ap, arith, Bool, true, false, not,
  Bytes, Option, none, some, List, [], ◌∷◌, ◌++◌, Bool-cases, inl, inr, ltb, ◌==◌, if◌then◌else◌,
  length,
}
use quicsy.Server.Conn.{
  StreamChunk, NetworkPath, Wrote, packet, data_blocked, shut_wr, write_more, write_error, Quic, Rv,
  ok, failed, fatal, send_blocked, close_wait, retry,
}
use quicsy.Server.Conn.Write.{no_chunk}
use quicsy.Server.Conn.Traffic.{Addressed, Logged, Records}
use quicsy.Server.Conn.Written.{Fits}
use quicsy.Client.Write.{
  SendTo, all_sent, would_block, send_fails, Client, Outcome, returns, aborts, overruns, exhausted,
  return_after, disconnected, after_write_close, disconnect, handle_error, is_version_error, tried,
  after_sendto, send_packet, reset_idle_timer, schedule_retransmit, Round, goes_on, stops,
  continue_unless, stream_stuck, more_data, after_send, send_written, offset_then_send,
  after_writev, write_chunk, after_http, write_round, proceed, write_loop, write_streams,
  after_streams, streams_next, after_pending, is_nil, on_write,
}

module _ (q : Quic) (os : ℕ → SendTo) (internal max_pktlen bufsize now : ℕ)
    (log : Logged q max_pktlen) (fits : max_pktlen ≤ bufsize) where
  open q use {State}
  open log use {packets}

  -- The packet in `sendbuf_`.
  abbrev pub waiting : Bytes → Bytes → List Addressed
  waiting remote [] = []
  waiting remote (b ∷ s) = (remote, b ∷ s) ∷ []

  -- All packets are sent, but the one that waits.
  abbrev pub InOrder : Client State → Type 0
  InOrder c = packets c.quic ≡ waiting c.remote c.sendbuf ++ c.sent

  -- The result of a write that did not fail.
  abbrev pub Keeps : Outcome State → Type 0
  Keeps (returns ok c) = InOrder c
  Keeps (returns send_blocked c) = InOrder c
  Keeps (returns _ c) = Unit
  Keeps exhausted = Unit
  Keeps _ = ⊥

  -- Between two rounds nothing waits.
  abbrev Clear : Client State → Type 0
  Clear c = (c.sendbuf ≡ []) × (packets c.quic ≡ c.sent)

  abbrev Follows : Round q os internal max_pktlen bufsize now → Type 0
  Follows (goes_on c pktcnt) = Clear c
  Follows (stops o) = Keeps o

  Clear-InOrder : (c : Client State) → Clear c → InOrder c
  Clear-InOrder c (e, f) = rw e f

  moved :
      (s : State) (c : Client State)
      → packets s ≡ packets c.quic
      → Clear c
      → Clear (record c { quic = s })
  moved s c e (f, g) = (f, e ∙ g)

  -- With room for a packet the connection can be closed, and an error is not 0.
  disconnects :
      (c : Client State)
      → (d : Client State) × (disconnect q os internal max_pktlen bufsize now c ≡ some d)
  unfolding disconnect handle_error
  disconnects c =
      by_test (q.in_closing c.quic) (ltb bufsize max_pktlen) (is_version_error c.last_error.type)
        (ground arith)
    where
      cleared : Client State
      cleared = record c { sendbuf = [] }

      by_test :
          (a b v : Bool)
          → b ≡ false
          → (d : Client State) × (disconnected q os internal max_pktlen bufsize now (
                if a
                then some (ok, c)
                else if b
                then none
                else if v
                then some (ok, cleared)
                else some (
                    after_write_close q os internal max_pktlen bufsize now
                      (q.write_close c.last_error now c.quic)
                      cleared))
              ≡ some d)
      by_test true b v e = (_, refl)
      by_test false true v e = absurd (cc (e))
      by_test false false true e = (_, refl)
      by_test false false false e = (_, refl)

  stopped :
      (rv : Rv) (c : Client State)
      → ((d : Client State) → Keeps (returns rv d))
      → Keeps (
          return_after q os internal max_pktlen bufsize now rv
            (disconnect q os internal max_pktlen bufsize now c))
  stopped rv c error = let (d, e) = disconnects c in rw e (error d)

  continues :
      (r : Option ℕ × State) (c : Client State) (pktcnt : ℕ)
      → packets r.1 ≡ packets c.quic
      → Clear c
      → Follows (continue_unless q os internal max_pktlen bufsize now r c pktcnt)
  continues (none, s) c pktcnt e t = moved s c e t
  continues (some x, s) c pktcnt e t = stopped failed _ (λ d. tt)

  stuck :
      (blocked : Bool) (chunk : StreamChunk) (c : Client State) (pktcnt : ℕ)
      → Clear c
      → Follows (stream_stuck q os internal max_pktlen bufsize now blocked chunk c pktcnt)
  stuck blocked chunk c pktcnt t = elim (Bool-cases (blocked && (q.max_data_left c.quic == 0))) [
    | inl e ↦ rw e (Clear-InOrder c t)
    | inr e ↦ rw e (
        continues (q.block_stream chunk.stream_id c.quic) c pktcnt
          (log.blocks chunk.stream_id c.quic) t)
  ]

  more :
      (n : ℕ) (chunk : StreamChunk) (c : Client State) (pktcnt : ℕ)
      → 0 < n
      → Clear c
      → Follows (more_data q os internal max_pktlen bufsize now n chunk c pktcnt)
  more n chunk c pktcnt h t =
      let e : ltb 0 n ≡ true = ground arith in
      rw e (
        continues (q.add_write_offset chunk.stream_id n c.quic) c pktcnt
          (log.offsets chunk.stream_id n c.quic) t)

  -- A packet that is there and is handed to the socket.
  sends :
      (r : SendTo) (c : Client State) (b : ℕ) (s : Bytes) (pktcnt : ℕ)
      → c.sendbuf ≡ b ∷ s
      → packets c.quic ≡ (c.remote, b ∷ s) ∷ c.sent
      → Follows (
          after_send q os internal max_pktlen bufsize now
            (after_sendto q os internal max_pktlen bufsize now r c)
            pktcnt)
  sends all_sent c b s pktcnt e f = elim (Bool-cases (pktcnt + 1 == 10)) [
    | inl x ↦ rw x (f ∙ ap (λ t. (c.remote, t) ∷ c.sent) (sym e))
    | inr x ↦ rw x (refl, f ∙ ap (λ t. (c.remote, t) ∷ c.sent) (sym e))
  ]
  sends would_block c b s pktcnt e f = rw e f
  sends send_fails c b s pktcnt e f = tt

  written_one :
      (path : NetworkPath) (b : ℕ) (s : Bytes) (c : Client State) (pktcnt : ℕ)
      → c.sendbuf ≡ b ∷ s
      → packets c.quic ≡ (path.remote, b ∷ s) ∷ c.sent
      → Follows (send_written q os internal max_pktlen bufsize now path c pktcnt)
  unfolding send_packet reset_idle_timer
  written_one path b s c pktcnt e f = sends (os c.tries) _ b s pktcnt e f

  offset_one :
      (path : NetworkPath) (b : ℕ) (s : Bytes) (r : Option ℕ × State) (c : Client State)
      (pktcnt : ℕ)
      → c.sendbuf ≡ b ∷ s
      → packets r.1 ≡ (path.remote, b ∷ s) ∷ c.sent
      → Follows (offset_then_send q os internal max_pktlen bufsize now path r c pktcnt)
  offset_one path b s (none, u) c pktcnt e f =
      written_one path b s (record c { quic = u }) pktcnt e f
  offset_one path b s (some x, u) c pktcnt e f = stopped failed _ (λ d. tt)

  written :
      (r : Wrote) (chunk : StreamChunk) (u : State) (c : Client State) (pktcnt : ℕ)
      → Fits max_pktlen r
      → Records packets r c.quic u
      → Clear c
      → Follows
          (after_writev q os internal max_pktlen bufsize now r chunk (record c { quic = u }) pktcnt)
  written (packet [] n path) chunk u c pktcnt h e t =
      Clear-InOrder (record c { quic = u }) (moved u c e t)
  written (packet (b ∷ s) none path) chunk u c pktcnt h e t =
      written_one path b s (record c { quic = u; sendbuf = c.sendbuf ++ (b ∷ s) }) pktcnt
        (ap (λ g. g ++ (b ∷ s)) t.0) (e ∙ ap (λ ps. (path.remote, b ∷ s) ∷ ps) t.1)
  written (packet (b ∷ s) (some n) path) chunk u c pktcnt h e t =
      offset_one path b s (q.add_write_offset chunk.stream_id n u)
        (record c { quic = u; sendbuf = c.sendbuf ++ (b ∷ s) }) pktcnt (ap (λ g. g ++ (b ∷ s)) t.0)
        (log.offsets chunk.stream_id n u ∙ e ∙ ap (λ ps. (path.remote, b ∷ s) ∷ ps) t.1)
  written data_blocked chunk u c pktcnt h e t =
      stuck true chunk (record c { quic = u }) pktcnt (moved u c e t)
  written shut_wr chunk u c pktcnt h e t =
      stuck false chunk (record c { quic = u }) pktcnt (moved u c e t)
  written (write_more n) chunk u c pktcnt h e t =
      more n chunk (record c { quic = u }) pktcnt h (moved u c e t)
  written (write_error x) chunk u c pktcnt h e t = stopped failed _ (λ d. tt)

  room : (c : Client State) → c.sendbuf ≡ [] → ltb bufsize (length c.sendbuf + max_pktlen) ≡ false
  room c e = rw e (ground arith)

  writes_chunk :
      (chunk : StreamChunk) (c : Client State) (pktcnt : ℕ)
      → Clear c
      → Follows (write_chunk q os internal max_pktlen bufsize now chunk c pktcnt)
  writes_chunk chunk c pktcnt t =
      let r = q.writev chunk now c.quic in
      rw (room c t.0)
        (written r.0 chunk r.1 c pktcnt (log.fits chunk now c.quic) (log.writes chunk now c.quic) t)

  https :
      (r : Option ℕ × StreamChunk × State) (c : Client State) (pktcnt : ℕ)
      → packets r.2 ≡ packets c.quic
      → Clear c
      → Follows (after_http q os internal max_pktlen bufsize now r c pktcnt)
  https (none, chunk, u) c pktcnt e t =
      writes_chunk chunk (record c { quic = u }) pktcnt (moved u c e t)
  https (some x, chunk, u) c pktcnt e t = stopped failed _ (λ d. tt)

  rounds :
      (c : Client State) (pktcnt : ℕ)
      → Clear c
      → Follows (write_round q os internal max_pktlen bufsize now c pktcnt)
  unfolding write_round
  rounds c pktcnt t = elim (Bool-cases (q.has_http c.quic && not (q.max_data_left c.quic == 0))) [
    | inl e ↦ rw e (https (q.http_writev c.quic) c pktcnt (log.reads c.quic) t)
    | inr e ↦ rw e (writes_chunk no_chunk c pktcnt t)
  ]

  proceeds :
      (next : Client State → ℕ → Outcome State)
      → ((d : Client State) (n : ℕ) → Clear d → Keeps (next d n))
      → (r : Round q os internal max_pktlen bufsize now) → Follows r
      → Keeps (proceed q os internal max_pktlen bufsize now next r)
  proceeds next keep (goes_on d n) t = keep d n t
  proceeds next keep (stops o) t = t

  loops :
      (fuel : ℕ) (c : Client State) (pktcnt : ℕ)
      → Clear c
      → Keeps (write_loop q os internal max_pktlen bufsize now fuel c pktcnt)
  unfolding write_loop
  loops zero c pktcnt t = tt
  loops (suc fuel) c pktcnt t =
      proceeds (write_loop q os internal max_pktlen bufsize now fuel) (loops fuel)
        (write_round q os internal max_pktlen bufsize now c pktcnt) (rounds c pktcnt t)

  ended :
      (o : Outcome State) → Keeps o → Keeps (after_streams q os internal max_pktlen bufsize now o)
  unfolding schedule_retransmit
  ended (returns ok c) t = elim (Bool-cases c.should_exit) [
    | inl e ↦ rw e (stopped failed _ (λ d. tt))
    | inr e ↦ rw e t
  ]
  ended (returns send_blocked c) t = t
  ended (returns failed c) t = tt
  ended (returns fatal c) t = tt
  ended (returns close_wait c) t = tt
  ended (returns retry c) t = tt
  ended aborts t = t
  ended overruns t = t
  ended exhausted t = tt

  next_streams :
      (fuel : ℕ) (c : Client State)
      → Clear c
      → Keeps (streams_next q os internal max_pktlen bufsize now fuel c)
  unfolding write_streams
  next_streams fuel c t = rw (room c t.0) (ended _ (loops fuel c 0 t))

  pending :
      (fuel : ℕ) (r : SendTo) (c : Client State) (b : ℕ) (s : Bytes)
      → c.sendbuf ≡ b ∷ s
      → packets c.quic ≡ (c.remote, b ∷ s) ∷ c.sent
      → Keeps (
          after_pending q os internal max_pktlen bufsize now fuel
            (after_sendto q os internal max_pktlen bufsize now r c))
  pending fuel all_sent c b s e f =
      next_streams fuel _ (refl, f ∙ ap (λ t. (c.remote, t) ∷ c.sent) (sym e))
  pending fuel would_block c b s e f = rw e f
  pending fuel send_fails c b s e f = stopped fatal _ (λ d. tt)

  buffered :
      (fuel : ℕ) (buf : Bytes) (c : Client State)
      → c.sendbuf ≡ buf
      → InOrder c
      → Keeps (
          if is_nil buf
          then streams_next q os internal max_pktlen bufsize now fuel c
          else after_pending q os internal max_pktlen bufsize now fuel
              (send_packet q os internal max_pktlen bufsize now c))
  unfolding send_packet
  buffered fuel [] c e t =
      next_streams fuel c (e, subst (λ g. packets c.quic ≡ waiting c.remote g ++ c.sent) e t)
  buffered fuel (b ∷ s) c e t =
      pending fuel (os c.tries) (tried q os internal max_pktlen bufsize now c) b s e
        (subst (λ g. packets c.quic ≡ waiting c.remote g ++ c.sent) e t)

  -- Whatever the socket answers, as long as `on_write` returns 0 or NETWORK_ERR_SEND_BLOCKED, the
  -- packets that ngtcp2 has written are those that are sent, each once, in order and to its address,
  -- and at most one more that waits in `sendbuf_`; no assertion fails, and nothing is written beyond
  -- that buffer.
  pub on_write-Keeps :
      (fuel : ℕ) (c : Client State)
      → InOrder c
      → Keeps (on_write q os internal max_pktlen bufsize now fuel c)
  unfolding on_write
  on_write-Keeps fuel c t = buffered fuel c.sendbuf c refl t
