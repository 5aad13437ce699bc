-- ===== src/Server/Conn/Written.antt =====
-- `write_streams` stays within its buffer, and comes back only onward.
use quicsy.Prelude.{
  ℕ, zero, suc, ◌+◌, ◌*◌, ◌≡◌, ◌≤◌, ◌<◌, ◌&&◌, ◌||◌, refl, sym, subst, ◌∙◌, arith, Bool, true,
  false, not, Bytes, Option, none, some, [], ◌∷◌, ◌++◌, Bool-cases, inl, inr, ltb, ◌==◌,
  if◌then◌else◌, length, length-append,
}
use quicsy.Prelude.Assoc.{same}
use quicsy.Server.Conn.{
  Quic, Conn, Outcome, StreamChunk, NetworkPath, Wrote, packet, data_blocked, shut_wr, write_more,
  write_error, update_path, endpoint_is_there, quic_err_transport, quic_err_app, reset_idle_timer,
  handle_error, QuicError,
}
use quicsy.Server.Conn.Write.{
  Loop, Round, goes_on, stops, max_pktcnt, no_chunk, flush_gathered, continue_unless, stream_stuck,
  more_data, full_or_next, gather, send_each, take_packet, offset_then_take, after_writev,
  write_chunk, after_http, write_round, proceed, write_loop, write_streams,
}
use quicsy.Server.Conn.Closing.{Closes, Onward, Proceeds, error-Proceeds, not_closing}
use quicsy.Server.Conn.Received.{trans-Proceeds}

-- The length of a packet that `ngtcp2_conn_writev_stream` answers, and the data that it took.
abbrev pub Fits : ℕ → Wrote → Type 0
Fits max_pktlen (packet pkt ndatalen path) = length pkt ≤ max_pktlen
Fits max_pktlen (write_more ndatalen) = 0 < ndatalen
Fits max_pktlen data_blocked = Unit
Fits max_pktlen shut_wr = Unit
Fits max_pktlen (write_error e) = Unit

-- The endpoint in the path of a packet.
abbrev pub HasEndpoint : Wrote → Type 0
HasEndpoint (packet pkt ndatalen path) = endpoint_is_there path ≡ true
HasEndpoint (write_more ndatalen) = Unit
HasEndpoint data_blocked = Unit
HasEndpoint shut_wr = Unit
HasEndpoint (write_error e) = Unit

-- What `write_streams` relies on: writing does not begin the closing period, a packet fits into the
-- space that is given and comes with a path that carries an endpoint, and NGTCP2_ERR_WRITE_STREAM_MORE
-- comes with some data taken.
pub record Writes (q : Quic) (max_pktlen : ℕ) : Type 0 where
  pub fits :
      (chunk : StreamChunk) (now : ℕ) (s : q.State) → Fits max_pktlen (q.writev chunk now s).0
  pub endpoints :
      (chunk : StreamChunk) (now : ℕ) (s : q.State) → HasEndpoint (q.writev chunk now s).0
  pub writes :
      (chunk : StreamChunk) (now : ℕ) (s : q.State)
      → q.in_closing (q.writev chunk now s).1 ≡ q.in_closing s
  pub reads : (s : q.State) → q.in_closing (q.http_writev s).2 ≡ q.in_closing s
  pub blocks : (id : Option ℕ) (s : q.State) → q.in_closing (q.block_stream id s).1 ≡ q.in_closing s
  pub offsets :
      (id : Option ℕ) (n : ℕ) (s : q.State)
      → q.in_closing (q.add_write_offset id n s).1 ≡ q.in_closing s

room_more : {g p m : ℕ} (k : ℕ) → g ≤ k * m → p ≤ m → g + p ≤ (k + 1) * m
room_more k a b = grind arith

room_first : {g p m : ℕ} (k : ℕ) → (k == 0) ≡ true → g ≤ k * m → p ≤ m → g + p ≤ 1 * m
room_first zero e a b = omega arith
room_first (suc k) e a b = absurd (ground (arith, e))

-- With at most nine packets in the buffer there is room for one more.
room_left : {g m b : ℕ} (k : ℕ) → k < 10 → g ≤ k * m → m ≤ b → g + m ≤ b * 10
room_left k a r f = grind arith

module _ (q : Quic) (gso : Bool) (max_pktlen bufsize now : ℕ) (laws : Closes q max_pktlen)
    (c : Conn q.State) where
  open q use {State, in_closing}

  -- Between two rounds, from the connection `c`.
  pub record Within (l : Loop State) : Type 0 where
    pub out : in_closing l.conn.quic ≡ false
    pub drains : c.draining ≡ true → l.conn.draining ≡ true
    pub count : l.pktcnt < max_pktcnt
    pub room : length l.gathered ≤ l.pktcnt * max_pktlen

  abbrev pub Good : Round State → Type 0
  Good (goes_on m) = Within m
  Good (stops o) = Proceeds q c o

  -- The connection came from one that does not close.
  onward :
      (d : Conn State)
      → in_closing c.quic ≡ false
      → in_closing d.quic ≡ false
      → (c.draining ≡ true → d.draining ≡ true)
      → Onward q c d
  onward d e f g = record {
    ready = not_closing q d f;
    drains = g;
    closes = λ p. absurd (cc (e, p));
  }

  module _ (fits : max_pktlen ≤ bufsize) (writes : Writes q max_pktlen)
      (outside : in_closing c.quic ≡ false) where
    errors :
        (e : QuicError) (l : Loop State)
        → Within l
        → Good (stops (handle_error q max_pktlen now (record l.conn { last_error = e })))
    errors e l w =
        let d = record l.conn { last_error = e } in
        trans-Proceeds q laws c l.conn (handle_error q max_pktlen now d)
          (onward l.conn outside w.out w.drains)
          (error-Proceeds q laws now l.conn d (not_closing q l.conn w.out) refl refl
            (not_closing q d w.out))

    flushes :
        (gathered : Bytes) (l : Loop State)
        → Within l
        → Good (flush_gathered q gso max_pktlen bufsize now gathered l.conn)
    unfolding reset_idle_timer
    flushes [] l w = onward l.conn outside w.out w.drains
    flushes (b ∷ s) l w = onward _ outside w.out w.drains

    continues :
        (r : Option ℕ × State) (l : Loop State)
        → Within l
        → in_closing r.1 ≡ in_closing l.conn.quic
        → Good (continue_unless q gso max_pktlen bufsize now r l)
    continues (none, s) l w e = record {
      out = e ∙ w.out;
      drains = w.drains;
      count = w.count;
      room = w.room;
    }
    continues (some x, s) l w e =
        errors (quic_err_app q x) (record l { conn = record l.conn { quic = s } })
          (record { out = e ∙ w.out; drains = w.drains; count = w.count; room = w.room })

    stuck :
        (blocked : Bool) (chunk : StreamChunk) (l : Loop State)
        → Within l
        → Good (stream_stuck q gso max_pktlen bufsize now blocked chunk l)
    stuck blocked chunk l w = elim (Bool-cases (blocked && (q.max_data_left l.conn.quic == 0))) [
      | inl e ↦ rw e (flushes l.gathered l w)
      | inr e ↦ rw e (
          continues (q.block_stream chunk.stream_id l.conn.quic) l w
            (writes.blocks chunk.stream_id l.conn.quic))
    ]

    more :
        (n : ℕ) (chunk : StreamChunk) (l : Loop State)
        → 0 < n
        → Within l
        → Good (more_data q gso max_pktlen bufsize now n chunk l)
    more n chunk l h w =
        let e : ltb 0 n ≡ true = ground arith in
        rw e (
          continues (q.add_write_offset chunk.stream_id n l.conn.quic) l w
            (writes.offsets chunk.stream_id n l.conn.quic))

    -- A packet is gathered: the buffer is sent when it is full, else there is room for one more.
    full :
        (pkt : Bytes) (l : Loop State)
        → in_closing l.conn.quic ≡ false
        → (c.draining ≡ true → l.conn.draining ≡ true)
        → l.pktcnt ≤ max_pktcnt
        → length l.gathered ≤ l.pktcnt * max_pktlen
        → Good (full_or_next q gso max_pktlen bufsize now pkt l)
    unfolding reset_idle_timer
    full pkt l e d n r =
        elim (Bool-cases ((l.pktcnt == max_pktcnt) || ltb (length pkt) max_pktlen)) [
          | inl f ↦ rw f (onward _ outside e d)
          | inr f ↦ rw f (record { out = e; drains = d; count = ground (arith, f); room = r })
        ]

    gathers :
        (pkt : Bytes) (path : NetworkPath) (l : Loop State)
        → length pkt ≤ max_pktlen
        → endpoint_is_there path ≡ true
        → Within l
        → Good (gather q gso max_pktlen bufsize now pkt path l)
    unfolding reset_idle_timer
    gathers pkt path l h there w = elim (Bool-cases (l.pktcnt == 0)) [
      | inl e ↦
          rw (e, there)
            (full pkt
              (record { conn = update_path path l.conn; gathered = l.gathered ++ pkt; pktcnt = 1 })
              w.out w.drains (omega arith)
              (rw (length-append l.gathered pkt) (room_first l.pktcnt e w.room h)))
      | inr e ↦ rw e (elim (Bool-cases (same l.conn.path.remote path.remote)) [
        | inl f ↦ rw f (
            full pkt (record { conn = l.conn; gathered = l.gathered ++ pkt; pktcnt = l.pktcnt + 1 })
              w.out w.drains (omega (arith, w.count))
              (rw (length-append l.gathered pkt) (room_more l.pktcnt w.room h)))
        | inr f ↦ rw f (onward _ outside w.out w.drains)
      ])
    ]

    sends :
        (pkt : Bytes) (path : NetworkPath) (l : Loop State)
        → endpoint_is_there path ≡ true
        → Within l
        → Good (send_each q gso max_pktlen bufsize now pkt path l)
    unfolding reset_idle_timer
    sends pkt path l there w = elim (Bool-cases (l.pktcnt + 1 == max_pktcnt)) [
      | inl e ↦ rw (there, e) (onward _ outside w.out w.drains)
      | inr e ↦
          rw (there, e)
            (record {
              out = w.out;
              drains = w.drains;
              count = ground (arith, e, w.count);
              room = omega arith;
            })
    ]

    takes :
        (pkt : Bytes) (path : NetworkPath) (l : Loop State)
        → length pkt ≤ max_pktlen
        → endpoint_is_there path ≡ true
        → Within l
        → Good (take_packet q gso max_pktlen bufsize now pkt path l)
    takes pkt path l h there w = elim (Bool-cases gso) [
      | inl e ↦
          subst
            (λ b. Good (
              if b
              then gather q gso max_pktlen bufsize now pkt path l
              else send_each q gso max_pktlen bufsize now pkt path l))
            (sym e) (gathers pkt path l h there w)
      | inr e ↦
          subst
            (λ b. Good (
              if b
              then gather q gso max_pktlen bufsize now pkt path l
              else send_each q gso max_pktlen bufsize now pkt path l))
            (sym e) (sends pkt path l there w)
    ]

    moved :
        (s : State) (l : Loop State)
        → in_closing s ≡ in_closing l.conn.quic
        → Within l
        → Within (record l { conn = record l.conn { quic = s } })
    moved s l e w = record { out = e ∙ w.out; drains = w.drains; count = w.count; room = w.room }

    offsets :
        (pkt : Bytes) (path : NetworkPath) (r : Option ℕ × State) (l : Loop State)
        → length pkt ≤ max_pktlen
        → endpoint_is_there path ≡ true
        → in_closing r.1 ≡ in_closing l.conn.quic
        → Within l
        → Good (offset_then_take q gso max_pktlen bufsize now pkt path r l)
    offsets pkt path (none, s) l h there e w = takes pkt path _ h there (moved s l e w)
    offsets pkt path (some x, s) l h there e w =
        errors (quic_err_app q x) (record l { conn = record l.conn { quic = s } }) (moved s l e w)

    written :
        (r : Wrote) (chunk : StreamChunk) (l : Loop State)
        → Fits max_pktlen r
        → HasEndpoint r
        → Within l
        → Good (after_writev q gso max_pktlen bufsize now r chunk l)
    written (packet [] n path) chunk l h there w = flushes l.gathered l w
    written (packet (b ∷ s) none path) chunk l h there w = takes (b ∷ s) path l h there w
    written (packet (b ∷ s) (some n) path) chunk l h there w =
        offsets (b ∷ s) path (q.add_write_offset chunk.stream_id n l.conn.quic) l h there
          (writes.offsets chunk.stream_id n l.conn.quic) w
    written data_blocked chunk l h there w = stuck true chunk l w
    written shut_wr chunk l h there w = stuck false chunk l w
    written (write_more n) chunk l h there w = more n chunk l h w
    written (write_error e) chunk l h there w = errors (quic_err_transport q e) l w

    writes_chunk :
        (chunk : StreamChunk) (l : Loop State)
        → Within l
        → Good (write_chunk q gso max_pktlen bufsize now chunk l)
    writes_chunk chunk l w =
        let e : ltb (bufsize * max_pktcnt) (length l.gathered + max_pktlen) ≡ false =
          ground (arith, room_left l.pktcnt w.count w.room fits) in
        let r = q.writev chunk now l.conn.quic in
        rw e (
          written r.0 chunk _ (writes.fits chunk now l.conn.quic)
            (writes.endpoints chunk now l.conn.quic)
            (moved r.1 l (writes.writes chunk now l.conn.quic) w))

    https :
        (r : Option ℕ × StreamChunk × State) (l : Loop State)
        → in_closing r.2 ≡ in_closing l.conn.quic
        → Within l
        → Good (after_http q gso max_pktlen bufsize now r l)
    https (none, chunk, s) l e w = writes_chunk chunk _ (moved s l e w)
    https (some x, chunk, s) l e w =
        errors (quic_err_app q x) (record l { conn = record l.conn { quic = s } }) (moved s l e w)

    rounds : (l : Loop State) → Within l → Good (write_round q gso max_pktlen bufsize now l)
    unfolding write_round
    rounds l w =
        elim (Bool-cases (q.has_http l.conn.quic && not (q.max_data_left l.conn.quic == 0))) [
          | inl e ↦ rw e (https (q.http_writev l.conn.quic) l (writes.reads l.conn.quic) w)
          | inr e ↦ rw e (writes_chunk no_chunk l w)
        ]

    proceeds :
        (next : Loop State → Outcome State)
        → ((m : Loop State) → Within m → Proceeds q c (next m))
        → (r : Round State) → Good r
        → Proceeds q c (proceed q gso max_pktlen bufsize now next r)
    proceeds next keep (goes_on m) g = keep m g
    proceeds next keep (stops o) g = g

    loops :
        (fuel : ℕ) (l : Loop State)
        → Within l
        → Proceeds q c (write_loop q gso max_pktlen bufsize now fuel l)
    unfolding write_loop
    loops zero l w = tt
    loops (suc fuel) l w =
        proceeds (write_loop q gso max_pktlen bufsize now fuel) (loops fuel)
          (write_round q gso max_pktlen bufsize now l) (rounds l w)

    -- No packet is written beyond the buffer, and no assertion fails.
    pub write_streams-Proceeds :
        (fuel : ℕ) → Proceeds q c (write_streams q gso max_pktlen bufsize now fuel c)
    unfolding write_streams
    write_streams-Proceeds fuel =
        loops fuel (record { conn = c; gathered = []; pktcnt = 0 })
          (record { out = outside; drains = λ p. p; count = omega arith; room = omega arith })
