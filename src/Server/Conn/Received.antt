-- ===== src/Server/Conn/Received.antt =====
-- `feed_data`, `on_read` and `handle_expiry` come back, and only onward.
use quicsy.Prelude.{
  ℕ, ◌≡◌, refl, sym, subst, ◌∙◌, Bytes, Option, none, some, Bool-cases, inl, inr, ◌⊎◌, [], ◌∷◌,
  ◌==◌, if◌then◌else◌,
}
use quicsy.Server.Conn.{
  Quic, Conn, Outcome, returns, aborts, overruns, exhausted, ok, failed, fatal, send_blocked,
  close_wait, retry, QuicError, Read, read_ok, err_draining, err_retry, err_transport_param,
  err_other, start_draining_period, handle_error, after_read, feed_data, alerted, on_read, and_then,
  reset_idle_timer, after_expiry, handle_expiry, quic_err_transport,
}
use quicsy.Server.Conn.Closing.{
  Closes, IsReady, Onward, Proceeds, same-Onward, Onward-trans, error-Proceeds,
}

module _ (q : Quic) {max_pktlen : ℕ} (laws : Closes q max_pktlen) where
  open q use {State, in_closing}

  -- The fields that readiness is about are the same.
  pub same-IsReady :
      (c d : Conn State)
      → d.closebuf ≡ c.closebuf
      → d.sendbuf ≡ c.sendbuf
      → in_closing d.quic ≡ in_closing c.quic
      → IsReady q c
      → IsReady q d
  same-IsReady c d e f g r = record {
    ready = λ p.
        let (b, pkt, h, k) = r.ready (sym g ∙ p) in
        (b, pkt, e ∙ h, subst (λ s. (s ≡ []) ⊎ (s ≡ b ∷ pkt)) (sym f) k);
  }

  pub trans-Proceeds :
      (c d : Conn State) (o : Outcome State) → Onward q c d → Proceeds q d o → Proceeds q c o
  trans-Proceeds c d (returns rv k) g h = Onward-trans q c d k g h
  trans-Proceeds c d aborts g h = h
  trans-Proceeds c d overruns g h = h
  trans-Proceeds c d exhausted g h = h

  -- What follows a step that came back.
  pub then-Proceeds :
      (next : Conn State → Outcome State) (c : Conn State) (o : Outcome State)
      → ((d : Conn State) → Onward q c d → Proceeds q d (next d))
      → Proceeds q c o
      → Proceeds q c (and_then q next o)
  then-Proceeds next c (returns ok d) step g = trans-Proceeds c d (next d) g (step d g)
  then-Proceeds next c (returns failed d) step g = g
  then-Proceeds next c (returns fatal d) step g = g
  then-Proceeds next c (returns send_blocked d) step g = g
  then-Proceeds next c (returns close_wait d) step g = g
  then-Proceeds next c (returns retry d) step g = g
  then-Proceeds next c aborts step g = g
  then-Proceeds next c overruns step g = g
  then-Proceeds next c exhausted step g = g

  alerted-Onward :
      (c : Conn State) (s : State) (a : Option QuicError)
      → in_closing s ≡ in_closing c.quic
      → IsReady q c
      → Onward q c (alerted q a (record c { quic = s }))
  alerted-Onward c s none e r =
      same-Onward q c _ refl e (same-IsReady c (record c { quic = s }) refl refl e r)
  alerted-Onward c s (some a) e r =
      same-Onward q c _ refl e
        (same-IsReady c (record c { quic = s; last_error = a }) refl refl e r)

  errored-Proceeds :
      (now : ℕ) (e : QuicError) (c : Conn State)
      → IsReady q c
      → Proceeds q c (handle_error q max_pktlen now (record c { last_error = e }))
  errored-Proceeds now e c r =
      error-Proceeds q laws now c (record c { last_error = e }) r refl refl
        (same-IsReady c (record c { last_error = e }) refl refl refl r)

  read-Proceeds :
      (r : Read) (now : ℕ) (c : Conn State)
      → IsReady q c
      → Proceeds q c (after_read q max_pktlen r now c)
  unfolding start_draining_period
  read-Proceeds read_ok now c r = same-Onward q c c refl refl r
  read-Proceeds err_draining now c r = record {
    ready = same-IsReady c _ refl refl refl r;
    drains = λ p. refl;
    closes = λ p. p;
  }
  read-Proceeds err_retry now c r = same-Onward q c c refl refl r
  read-Proceeds (err_transport_param e) now c r = errored-Proceeds now _ c r
  read-Proceeds (err_other e) now c r = elim (Bool-cases (c.last_error.code == 0)) [
    | inl p ↦
        subst
          (λ b. Proceeds q c (
            handle_error q max_pktlen now
              (if b then record c { last_error = quic_err_transport q e } else c)))
          (sym p) (errored-Proceeds now (quic_err_transport q e) c r)
    | inr p ↦
        subst
          (λ b. Proceeds q c (
            handle_error q max_pktlen now
              (if b then record c { last_error = quic_err_transport q e } else c)))
          (sym p) (errored-Proceeds now c.last_error c r)
  ]

  feed_data-Proceeds :
      (pkt : Bytes) (now : ℕ) (c : Conn State)
      → IsReady q c
      → Proceeds q c (feed_data q max_pktlen pkt now c)
  unfolding feed_data
  feed_data-Proceeds pkt now c r =
      let t = q.read_pkt pkt now c.quic in
      let g = alerted-Onward c t.2 t.1 (laws.reads pkt now c.quic) r in
      trans-Proceeds c _ (after_read q max_pktlen t.0 now (alerted q t.1 (record c { quic = t.2 })))
        g (read-Proceeds t.0 now (alerted q t.1 (record c { quic = t.2 })) g.ready)

  pub on_read-Proceeds :
      (pkt : Bytes) (now : ℕ) (c : Conn State)
      → IsReady q c
      → Proceeds q c (on_read q max_pktlen pkt now c)
  unfolding on_read reset_idle_timer
  on_read-Proceeds pkt now c r =
      then-Proceeds _ c (feed_data q max_pktlen pkt now c)
        (λ d g. same-Onward q d _ refl refl (same-IsReady d _ refl refl refl g.ready))
        (feed_data-Proceeds pkt now c r)

  expired-Proceeds :
      (e : Option ℕ) (now : ℕ) (c : Conn State)
      → IsReady q c
      → Proceeds q c (after_expiry q max_pktlen e now c)
  expired-Proceeds none now c r = same-Onward q c c refl refl r
  expired-Proceeds (some e) now c r = errored-Proceeds now _ c r

  pub handle_expiry-Proceeds :
      (now : ℕ) (c : Conn State) → IsReady q c → Proceeds q c (handle_expiry q max_pktlen now c)
  unfolding handle_expiry
  handle_expiry-Proceeds now c r =
      let t = q.handle_expiry now c.quic in
      let d = record c { quic = t.1 } in
      let e = laws.expires now c.quic in
      let g = same-IsReady c d refl refl e r in
      trans-Proceeds c d (after_expiry q max_pktlen t.0 now d) (same-Onward q c d refl e g)
        (expired-Proceeds t.0 now d g)
