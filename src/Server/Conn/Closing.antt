-- ===== src/Server/Conn/Closing.antt =====
-- The closing period: its packet is there and is what is sent, so that no assertion fails.
use quicsy.Prelude.{
  ℕ, ◌*◌, ◌≤◌, ltb, arith, Bool, ◌≡◌, ◌≢◌, ◌⊎◌, refl, sym, subst, ◌∙◌, inl, inr, true, false, Bytes,
  Option, none, some, [], ◌∷◌, if◌then◌else◌,
}
use quicsy.Server.Conn.{
  Quic, Conn, Outcome, returns, aborts, overruns, exhausted, ok, QuicError, NetworkPath,
  start_closing_period, after_write_close, send_closebuf, send_conn_close, send_packet, then_wait,
  after_closing, handle_error, max_pktlen_ipv4, endpoint_is_there, update_path, timer_again,
}

-- What the code relies on: only the writing of a CONNECTION_CLOSE packet, which is not empty and comes
-- with a path that carries an endpoint, begins the closing period of ngtcp2, and `max_pktlen_` is at most
-- the size of `sendbuf_`.
pub record Closes (q : Quic) (max_pktlen : ℕ) : Type 0 where
  pub room : max_pktlen ≤ max_pktlen_ipv4
  pub enters :
      (e : QuicError) (now : ℕ) (s : q.State) (pkt : Bytes)
      → (q.write_close e now s).0 ≡ some pkt
      → (q.in_closing (q.write_close e now s).2 ≡ true)
        × (pkt ≢ [])
        × (endpoint_is_there (q.write_close e now s).1 ≡ true)
  pub stays_out :
      (e : QuicError) (now : ℕ) (s : q.State)
      → (q.write_close e now s).0 ≡ none
      → q.in_closing (q.write_close e now s).2 ≡ q.in_closing s
  pub reads :
      (pkt : Bytes) (now : ℕ) (s : q.State) → q.in_closing (q.read_pkt pkt now s).2 ≡ q.in_closing s
  pub expires : (now : ℕ) (s : q.State) → q.in_closing (q.handle_expiry now s).1 ≡ q.in_closing s

module _ (q : Quic) where
  open q use {State, in_closing}

  -- In the closing period `conn_closebuf_` has a packet, and so has `sendbuf_`, the same, or nothing.
  pub record IsReady (c : Conn State) : Type 0 where
    pub ready :
        in_closing c.quic ≡ true
        → (b : ℕ) × (pkt : Bytes) × (c.closebuf ≡ some (b ∷ pkt))
          × ((c.sendbuf ≡ []) ⊎ (c.sendbuf ≡ b ∷ pkt))

  -- Nothing goes back: closing and draining last.
  pub record Onward (c d : Conn State) : Type 0 where
    pub ready : IsReady d
    pub drains : c.draining ≡ true → d.draining ≡ true
    pub closes : in_closing c.quic ≡ true → in_closing d.quic ≡ true

  -- A function of the handler comes back, and only onward.
  abbrev pub Proceeds : Conn State → Outcome State → Type 0
  Proceeds c (returns rv d) = Onward c d
  Proceeds c aborts = ⊥
  Proceeds c overruns = ⊥
  Proceeds c exhausted = Unit

  pub not_closing : (c : Conn State) → in_closing c.quic ≡ false → IsReady c
  not_closing c e = record { ready = λ p. absurd (cc (e, p)) }

  -- Fields that do not matter here.
  pub same-Onward :
      (c d : Conn State)
      → d.draining ≡ c.draining
      → in_closing d.quic ≡ in_closing c.quic
      → IsReady d
      → Onward c d
  same-Onward c d e f r = record { ready = r; drains = λ p. e ∙ p; closes = λ p. f ∙ p }

  pub Onward-trans : (c d e : Conn State) → Onward c d → Onward d e → Onward c e
  Onward-trans c d e g h = record {
    ready = h.ready;
    drains = λ p. h.drains (g.drains p);
    closes = λ p. h.closes (g.closes p);
  }

  -- The packet goes out, and `sendbuf_` has it.
  close_packet :
      (c : Conn State) (b : ℕ) (pkt : Bytes)
      → c.closebuf ≡ some (b ∷ pkt)
      → (c.sendbuf ≡ []) ⊎ (c.sendbuf ≡ b ∷ pkt)
      → send_closebuf q c.closebuf c
        ≡ returns ok (send_packet (b ∷ pkt) 0 (record c { sendbuf = b ∷ pkt }))
  close_packet c b pkt e (inl f) = rw (e, f) refl
  close_packet c b pkt e (inr f) = rw (e, f) refl

  -- `send_conn_close` of a connection that is ready.
  pub sends_close :
      (c : Conn State) (b : ℕ) (pkt : Bytes)
      → c.closebuf ≡ some (b ∷ pkt)
      → (c.sendbuf ≡ []) ⊎ (c.sendbuf ≡ b ∷ pkt)
      → IsReady (send_packet (b ∷ pkt) 0 (record c { sendbuf = b ∷ pkt }))
  sends_close c b pkt e f = record { ready = λ p. (b, pkt, e, inr refl) }

  pub send_conn_close-Proceeds :
      (c : Conn State) → IsReady c → in_closing c.quic ≡ true → Proceeds c (send_conn_close q c)
  unfolding send_conn_close
  send_conn_close-Proceeds c r p =
      let (b, pkt, e, f) = r.ready p in
      subst (Proceeds c) (sym (close_packet c b pkt e f))
        (record { ready = sends_close c b pkt e f; drains = λ x. x; closes = λ x. x })

  module _ {max_pktlen : ℕ} (laws : Closes q max_pktlen) where
    -- A connection that begins to close: how its packet is sent.
    began :
        (now : ℕ) (c : Conn State) (r : Option Bytes × NetworkPath × State)
        → in_closing c.quic ≡ false
        → ((pkt : Bytes)
            → r.0 ≡ some pkt
            → (in_closing r.2 ≡ true) × (pkt ≢ []) × (endpoint_is_there r.1 ≡ true))
        → (r.0 ≡ none → in_closing r.2 ≡ in_closing c.quic)
        → (d : Conn State) → d.draining ≡ c.draining
        → d.sendbuf ≡ []
        → Proceeds c (after_closing q (after_write_close q r d))
    began now c (none, path, s) out enter stay d e f = record {
      ready = not_closing _ (stay refl ∙ out);
      drains = λ p. e ∙ p;
      closes = λ p. absurd (cc (p, out));
    }
    began now c (some [], path, s) out enter stay d e f = absurd ((enter [] refl).1 refl)
    began now c (some (b ∷ pkt), path, s) out enter stay d e f =
        let k = update_path path (record d { quic = s; closebuf = some (b ∷ pkt) }) in
        subst (λ t. Proceeds c (after_closing q (if t then returns ok k else aborts)))
          (sym ((enter (b ∷ pkt) refl).2))
          (subst (λ o. Proceeds c (then_wait q o)) (sym (close_packet k b pkt refl (inl f)))
            (record {
              ready = sends_close k b pkt refl (inl f);
              drains = λ p. e ∙ p;
              closes = λ p. (enter (b ∷ pkt) refl).0;
            }))

    -- `handle_error` never meets an assertion that fails.
    pub handle_error-Proceeds :
        (now : ℕ) (c : Conn State) → IsReady c → Proceeds c (handle_error q max_pktlen now c)
    unfolding handle_error start_closing_period
    handle_error-Proceeds now c r =
        by_test (in_closing c.quic) (ltb max_pktlen_ipv4 max_pktlen) refl refl
      where
        stopped : Conn State
        stopped = record c { rttimer = none; timer = timer_again (q.pto c.quic * 3); sendbuf = [] }

        by_test :
            (a b : Bool)
            → in_closing c.quic ≡ a
            → ltb max_pktlen_ipv4 max_pktlen ≡ b
            → Proceeds c (
                after_closing q (
                  if a
                  then returns ok c
                  else if b
                  then aborts
                  else after_write_close q (q.write_close c.last_error now c.quic) stopped))
        by_test true b p h =
            let (x, pkt, e, f) = r.ready p in
            subst (λ o. Proceeds c (then_wait q o)) (sym (close_packet c x pkt e f))
              (record { ready = sends_close c x pkt e f; drains = λ x. x; closes = λ x. x })
        by_test false true p h = absurd (ground (arith, laws.room, h))
        by_test false false p h =
            began now c (q.write_close c.last_error now c.quic) p
              (λ pkt. laws.enters c.last_error now c.quic pkt)
              (laws.stays_out c.last_error now c.quic) _ refl refl

    -- The same behind a change of fields that do not matter here.
    pub error-Proceeds :
        (now : ℕ) (c d : Conn State)
        → IsReady c
        → d.draining ≡ c.draining
        → in_closing d.quic ≡ in_closing c.quic
        → IsReady d
        → Proceeds c (handle_error q max_pktlen now d)
    error-Proceeds now c d r e f s =
        later (handle_error q max_pktlen now d) (same-Onward c d e f s)
          (handle_error-Proceeds now d s)
      where
        later : (o : Outcome State) → Onward c d → Proceeds d o → Proceeds c o
        later (returns rv k) g h = Onward-trans c d k g h
        later aborts g h = h
        later overruns g h = h
        later exhausted g h = h
