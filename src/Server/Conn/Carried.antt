-- ===== src/Server/Conn/Carried.antt =====
-- `write_streams` sends the packets that ngtcp2 writes, each once, in order, to its address.
use quicsy.Prelude.{
  ℕ, zero, suc, ◌+◌, ◌*◌, ◌≡◌, ◌≢◌, ◌≤◌, ◌&&◌, ◌||◌, ◌⊎◌, refl, sym, subst, ◌∙◌, ap, arith, Bool,
  true, false, not, Bytes, Option, none, some, List, [], ◌∷◌, ◌++◌, Bool-cases, inl, inr, ltb, ◌==◌,
  if◌then◌else◌, length,
}
use quicsy.Prelude.Assoc.{same, same→eq}
use quicsy.Server.Conn.{
  Quic, Conn, Outcome, returns, aborts, overruns, exhausted, ok, failed, fatal, send_blocked,
  close_wait, retry, StreamChunk, NetworkPath, Wrote, packet, data_blocked, shut_wr, write_more,
  write_error, send_packet, update_path, endpoint_is_there, reset_idle_timer, handle_error,
  after_closing, then_wait, start_closing_period, send_closebuf,
}
use quicsy.Server.Conn.Write.{
  Loop, Round, goes_on, stops, max_pktcnt, no_chunk, flush_gathered, continue_unless, stream_stuck,
  more_data, full_or_next, update_remote, gather, send_each, take_packet, offset_then_take,
  after_writev, write_chunk, after_http, write_round, proceed, write_loop, write_streams,
}
use quicsy.Server.Conn.Written.{Fits}
use quicsy.Server.Conn.Traffic.{
  Addressed, Full, no_packet, one_more, Segments, segments, whole, divided, Carried, nothing, more,
  Records, Logged, full-cases,
}

nil-ne-append : (g : Bytes) (b : ℕ) (s : Bytes) → g ++ (b ∷ s) ≡ [] → ⊥
nil-ne-append [] b s e = cc
nil-ne-append (x ∷ g) b s e = cc

-- An empty buffer has no packets.
full-nil :
    {n : ℕ} {remote : Bytes} {g : Bytes} {ps : List Addressed}
    → Full n remote g ps
    → g ≡ []
    → ps ≡ []
full-nil no_packet e = refl
full-nil (one_more {g = g} b s f e h) k = absurd (nil-ne-append g b s (sym h ∙ k))

module _ (q : Quic) (gso : Bool) (max_pktlen bufsize now : ℕ) (log : Logged q max_pktlen)
    (c : Conn q.State) where
  open q use {State}
  open log use {packets}

  abbrev Since : Conn State → List Addressed → Type 0
  Since d ps = Carried c.sent (packets c.quic) d.sent ps

  -- Between two rounds: `sent` are the packets that have gone out, `held` those in the buffer.
  pub record Tracked (l : Loop State) : Type 0 where
    pub gone : List Addressed
    pub held : List Addressed
    pub carried : Since l.conn gone
    pub full : Full max_pktlen l.conn.path.remote l.gathered held
    pub logged : packets l.conn.quic ≡ held ++ gone
    pub first : (l.pktcnt == 0) ≡ true → l.gathered ≡ []
    pub later : gso ≡ true → (l.pktcnt == 0) ≡ false → l.gathered ≢ []
    pub each : gso ≡ false → l.gathered ≡ []

  -- When `write_streams` returns 0, `sendmsg` was called with all the packets.
  abbrev pub AllCarried : Outcome State → Type 0
  AllCarried (returns ok d) = Since d (packets d.quic)
  AllCarried (returns _ d) = Unit
  AllCarried _ = Unit

  abbrev Follows : Round State → Type 0
  Follows (goes_on m) = Tracked m
  Follows (stops o) = AllCarried o

  -- An error never ends in 0.
  not_ok : (o : Outcome State) → AllCarried (then_wait q o)
  not_ok (returns ok d) = tt
  not_ok (returns failed d) = tt
  not_ok (returns fatal d) = tt
  not_ok (returns send_blocked d) = tt
  not_ok (returns close_wait d) = tt
  not_ok (returns retry d) = tt
  not_ok aborts = tt
  not_ok overruns = tt
  not_ok exhausted = tt

  closing_not_ok : (r : Outcome State) → AllCarried (after_closing q r)
  closing_not_ok (returns ok d) = not_ok (send_closebuf q d.closebuf d)
  closing_not_ok (returns failed d) = tt
  closing_not_ok (returns fatal d) = tt
  closing_not_ok (returns send_blocked d) = tt
  closing_not_ok (returns close_wait d) = tt
  closing_not_ok (returns retry d) = tt
  closing_not_ok aborts = tt
  closing_not_ok overruns = tt
  closing_not_ok exhausted = tt

  error_not_ok : (d : Conn State) → AllCarried (handle_error q max_pktlen now d)
  unfolding handle_error
  error_not_ok d = closing_not_ok (start_closing_period q max_pktlen now d)

  flushes :
      (g : Bytes) (d : Conn State) (gone held : List Addressed)
      → Since d gone
      → Full max_pktlen d.path.remote g held
      → packets d.quic ≡ held ++ gone
      → Follows (flush_gathered q gso max_pktlen bufsize now g d)
  unfolding reset_idle_timer
  flushes [] d gone held t f e =
      subst (Since d) (sym (e ∙ ap (λ ps. ps ++ gone) (full-nil f refl))) t
  flushes (b ∷ s) d gone held t f e = by_case (full-cases (b ∷ s) f)
    where
      by_case :
          ((b ∷ s ≡ []) × (held ≡ [])) ⊎ Segments max_pktlen d.path.remote (b ∷ s) held
          → Since (send_packet (b ∷ s) max_pktlen d) (packets d.quic)
      by_case (inl (x, y)) = cc
      by_case (inr g) = more _ t (divided g) e

  moved :
      (s : State) (l : Loop State)
      → packets s ≡ packets l.conn.quic
      → Tracked l
      → Tracked (record l { conn = record l.conn { quic = s } })
  moved s l e t = record {
    gone = t.gone;
    held = t.held;
    carried = t.carried;
    full = t.full;
    logged = e ∙ t.logged;
    first = t.first;
    later = t.later;
    each = t.each;
  }

  continues :
      (r : Option ℕ × State) (l : Loop State)
      → packets r.1 ≡ packets l.conn.quic
      → Tracked l
      → Follows (continue_unless q gso max_pktlen bufsize now r l)
  continues (none, s) l e t = moved s l e t
  continues (some x, s) l e t = error_not_ok _

  stuck :
      (blocked : Bool) (chunk : StreamChunk) (l : Loop State)
      → Tracked l
      → Follows (stream_stuck q gso max_pktlen bufsize now blocked chunk l)
  stuck blocked chunk l t = elim (Bool-cases (blocked && (q.max_data_left l.conn.quic == 0))) [
    | inl e ↦ rw e (flushes l.gathered l.conn t.gone t.held t.carried t.full t.logged)
    | inr e ↦ rw e (
        continues (q.block_stream chunk.stream_id l.conn.quic) l
          (log.blocks chunk.stream_id l.conn.quic) t)
  ]

  more_taken :
      (n : ℕ) (chunk : StreamChunk) (l : Loop State)
      → Tracked l
      → Follows (more_data q gso max_pktlen bufsize now n chunk l)
  more_taken n chunk l t = elim (Bool-cases (ltb 0 n)) [
    | inl e ↦ rw e (
        continues (q.add_write_offset chunk.stream_id n l.conn.quic) l
          (log.offsets chunk.stream_id n l.conn.quic) t)
    | inr e ↦ rw e tt
  ]

  -- The packet `b ∷ s` comes behind `g`.
  gathered_one :
      (b : ℕ) (s g : Bytes) (l : Loop State) (gone held : List Addressed)
      → Since l.conn gone
      → Full max_pktlen l.conn.path.remote g held
      → packets l.conn.quic ≡ (l.conn.path.remote, b ∷ s) ∷ held ++ gone
      → length (b ∷ s) ≤ max_pktlen
      → l.gathered ≡ g ++ (b ∷ s)
      → (l.pktcnt == 0) ≡ false
      → gso ≡ true
      → Follows (full_or_next q gso max_pktlen bufsize now (b ∷ s) l)
  unfolding reset_idle_timer
  gathered_one b s g l gone held t f e fits h count on =
      elim (Bool-cases ((l.pktcnt == max_pktcnt) || ltb (length (b ∷ s)) max_pktlen)) [
        | inl x ↦ rw x (more _ t (divided (segments b s f fits h)) e)
        | inr x ↦ rw x (record {
          gone = gone;
          held = (l.conn.path.remote, b ∷ s) ∷ held;
          carried = t;
          full = one_more b s f (ground (arith, x, fits)) h;
          logged = e;
          first = λ p. absurd (cc (p, count));
          later = λ p r k. nil-ne-append g b s (sym h ∙ k);
          each = λ p. absurd (cc (p, on));
        })
      ]

  not_both : gso ≡ false → gso ≡ true → ⊥
  not_both a b = cc

  -- The buffer is sent, and then a packet for another address.
  redirected :
      (b : ℕ) (s : Bytes) (path : NetworkPath) (l : Loop State) (gone held : List Addressed)
      → Since l.conn gone
      → Segments max_pktlen l.conn.path.remote l.gathered held
      → packets l.conn.quic ≡ (path.remote, b ∷ s) ∷ held ++ gone
      → length (b ∷ s) ≤ max_pktlen
      → Since
          (send_packet (b ∷ s) max_pktlen (
            update_remote q gso max_pktlen bufsize now path
              (send_packet l.gathered max_pktlen l.conn)))
          (packets l.conn.quic)
  redirected b s path l gone held t g e fits =
      more _ (more _ t (divided g) refl) (divided (segments b s no_packet fits refl)) e

  gathers :
      (b : ℕ) (s : Bytes) (path : NetworkPath) (l : Loop State) (gone held : List Addressed)
      → Since l.conn gone
      → Full max_pktlen l.conn.path.remote l.gathered held
      → packets l.conn.quic ≡ (path.remote, b ∷ s) ∷ held ++ gone
      → length (b ∷ s) ≤ max_pktlen
      → ((l.pktcnt == 0) ≡ true → l.gathered ≡ [])
      → ((l.pktcnt == 0) ≡ false → l.gathered ≢ [])
      → gso ≡ true
      → Follows (gather q gso max_pktlen bufsize now (b ∷ s) path l)
  unfolding reset_idle_timer
  gathers b s path l gone held t f e fits first later on = elim (Bool-cases (l.pktcnt == 0)) [
    | inl x ↦
        let none_held = full-nil f (first x) in
        elim (Bool-cases (endpoint_is_there path)) [
          | inr z ↦ rw (x, z) tt
          | inl z ↦
              rw (x, z)
                (gathered_one b s []
                  (record {
                    conn = update_path path l.conn;
                    gathered = l.gathered ++ (b ∷ s);
                    pktcnt = 1;
                  })
                  gone [] t no_packet (e ∙ ap (λ ps. (path.remote, b ∷ s) ∷ ps ++ gone) none_held)
                  fits (ap (λ g. g ++ (b ∷ s)) (first x)) refl on)
        ]
    | inr x ↦ rw x (elim (Bool-cases (same l.conn.path.remote path.remote)) [
      | inl y ↦
          let r = same→eq l.conn.path.remote path.remote y in
          rw y (
            gathered_one b s l.gathered
              (record { conn = l.conn; gathered = l.gathered ++ (b ∷ s); pktcnt = l.pktcnt + 1 })
              gone held t f (e ∙ ap (λ a. (a, b ∷ s) ∷ held ++ gone) (sym r)) fits refl
              (ground arith) on)
      | inr y ↦ rw y (by_case (full-cases l.gathered f) x)
    ])
  ]
    where
      by_case :
          ((l.gathered ≡ []) × (held ≡ [])) ⊎ Segments max_pktlen l.conn.path.remote l.gathered held
          → (l.pktcnt == 0) ≡ false
          → Since
              (send_packet (b ∷ s) max_pktlen (
                update_remote q gso max_pktlen bufsize now path
                  (send_packet l.gathered max_pktlen l.conn)))
              (packets l.conn.quic)
      by_case (inl (z, w)) x = absurd (later x z)
      by_case (inr g) x = redirected b s path l gone held t g e fits

  sends :
      (b : ℕ) (s : Bytes) (path : NetworkPath) (l : Loop State) (gone held : List Addressed)
      → Since l.conn gone
      → Full max_pktlen l.conn.path.remote l.gathered held
      → packets l.conn.quic ≡ (path.remote, b ∷ s) ∷ held ++ gone
      → l.gathered ≡ []
      → gso ≡ false
      → Follows (send_each q gso max_pktlen bufsize now (b ∷ s) path l)
  unfolding reset_idle_timer
  sends b s path l gone held t f e none_gathered off =
      let logged : packets l.conn.quic ≡ (path.remote, b ∷ s) ∷ gone =
        e ∙ ap (λ ps. (path.remote, b ∷ s) ∷ ps ++ gone) (full-nil f none_gathered) in
      let wire : (path.remote, b ∷ s) ∷ [] ≡ (path.remote, l.gathered ++ (b ∷ s)) ∷ [] =
        ap (λ g. (path.remote, g ++ (b ∷ s)) ∷ []) (sym none_gathered) in
      elim (Bool-cases (endpoint_is_there path)) [
        | inr z ↦ rw z tt
        | inl z ↦ elim (Bool-cases (l.pktcnt + 1 == max_pktcnt)) [
          | inl x ↦ rw (z, x) (more {rs = (path.remote, b ∷ s) ∷ []} _ t (whole refl wire) logged)
          | inr x ↦
              rw (z, x)
                (record {
                  gone = (path.remote, b ∷ s) ∷ gone;
                  held = [];
                  carried = more {rs = (path.remote, b ∷ s) ∷ []} _ t (whole refl wire) refl;
                  full = no_packet;
                  logged = logged;
                  first = λ p. refl;
                  later = λ p. absurd (not_both off p);
                  each = λ p. refl;
                })
        ]
      ]

  -- Behind the log of a packet: it is gathered or sent.
  takes :
      (b : ℕ) (s : Bytes) (path : NetworkPath) (l : Loop State) (gone held : List Addressed)
      → Since l.conn gone
      → Full max_pktlen l.conn.path.remote l.gathered held
      → packets l.conn.quic ≡ (path.remote, b ∷ s) ∷ held ++ gone
      → length (b ∷ s) ≤ max_pktlen
      → ((l.pktcnt == 0) ≡ true → l.gathered ≡ [])
      → (gso ≡ true → (l.pktcnt == 0) ≡ false → l.gathered ≢ [])
      → (gso ≡ false → l.gathered ≡ [])
      → Follows (take_packet q gso max_pktlen bufsize now (b ∷ s) path l)
  takes b s path l gone held t f e fits first later each = elim (Bool-cases gso) [
    | inl on ↦
        subst
          (λ g. Follows (
            if g
            then gather q gso max_pktlen bufsize now (b ∷ s) path l
            else send_each q gso max_pktlen bufsize now (b ∷ s) path l))
          (sym on) (gathers b s path l gone held t f e fits first (later on) on)
    | inr off ↦
        subst
          (λ g. Follows (
            if g
            then gather q gso max_pktlen bufsize now (b ∷ s) path l
            else send_each q gso max_pktlen bufsize now (b ∷ s) path l))
          (sym off) (sends b s path l gone held t f e (each off) off)
  ]

  -- A packet that is written on top of what was tracked.
  packet_written :
      (b : ℕ) (s : Bytes) (path : NetworkPath) (u : State) (l : Loop State)
      → Tracked l
      → packets u ≡ (path.remote, b ∷ s) ∷ packets l.conn.quic
      → length (b ∷ s) ≤ max_pktlen
      → Follows (
          take_packet q gso max_pktlen bufsize now
            (b ∷ s)
            path
            (record l { conn = record l.conn { quic = u } }))
  packet_written b s path u l t e fits =
      takes b s path (record l { conn = record l.conn { quic = u } }) t.gone t.held t.carried t.full
        (e ∙ ap (λ ps. (path.remote, b ∷ s) ∷ ps) t.logged) fits t.first t.later t.each

  offset_written :
      (b : ℕ) (s : Bytes) (path : NetworkPath) (r : Option ℕ × State) (l : Loop State)
      → Tracked l
      → packets r.1 ≡ (path.remote, b ∷ s) ∷ packets l.conn.quic
      → length (b ∷ s) ≤ max_pktlen
      → (u : State)
      → Follows (
          offset_then_take q gso max_pktlen bufsize now
            (b ∷ s)
            path
            r
            (record l { conn = record l.conn { quic = u } }))
  offset_written b s path (none, v) l t e fits u = packet_written b s path v l t e fits
  offset_written b s path (some x, v) l t e fits u = error_not_ok _

  written :
      (r : Wrote) (chunk : StreamChunk) (u : State) (l : Loop State)
      → Fits max_pktlen r
      → Records packets r l.conn.quic u
      → Tracked l
      → Follows (
          after_writev q gso max_pktlen bufsize now r chunk
            (record l { conn = record l.conn { quic = u } }))
  written (packet [] n path) chunk u l fits e t =
      flushes l.gathered (record l.conn { quic = u }) t.gone t.held t.carried t.full (e ∙ t.logged)
  written (packet (b ∷ s) none path) chunk u l fits e t = packet_written b s path u l t e fits
  written (packet (b ∷ s) (some n) path) chunk u l fits e t =
      offset_written b s path (q.add_write_offset chunk.stream_id n u) l t
        (log.offsets chunk.stream_id n u ∙ e) fits u
  written data_blocked chunk u l fits e t = stuck true chunk _ (moved u l e t)
  written shut_wr chunk u l fits e t = stuck false chunk _ (moved u l e t)
  written (write_more n) chunk u l fits e t = more_taken n chunk _ (moved u l e t)
  written (write_error x) chunk u l fits e t = error_not_ok _

  writes_chunk :
      (chunk : StreamChunk) (l : Loop State)
      → Tracked l
      → Follows (write_chunk q gso max_pktlen bufsize now chunk l)
  writes_chunk chunk l t =
      elim (Bool-cases (ltb (bufsize * max_pktcnt) (length l.gathered + max_pktlen))) [
        | inl e ↦ rw e tt
        | inr e ↦
            let r = q.writev chunk now l.conn.quic in
            rw e (
              written r.0 chunk r.1 l (log.fits chunk now l.conn.quic)
                (log.writes chunk now l.conn.quic) t)
      ]

  https :
      (r : Option ℕ × StreamChunk × State) (l : Loop State)
      → packets r.2 ≡ packets l.conn.quic
      → Tracked l
      → Follows (after_http q gso max_pktlen bufsize now r l)
  https (none, chunk, u) l e t = writes_chunk chunk _ (moved u l e t)
  https (some x, chunk, u) l e t = error_not_ok _

  rounds : (l : Loop State) → Tracked l → Follows (write_round q gso max_pktlen bufsize now l)
  unfolding write_round
  rounds l t =
      elim (Bool-cases (q.has_http l.conn.quic && not (q.max_data_left l.conn.quic == 0))) [
        | inl e ↦ rw e (https (q.http_writev l.conn.quic) l (log.reads l.conn.quic) t)
        | inr e ↦ rw e (writes_chunk no_chunk l t)
      ]

  proceeds :
      (next : Loop State → Outcome State)
      → ((m : Loop State) → Tracked m → AllCarried (next m))
      → (r : Round State) → Follows r
      → AllCarried (proceed q gso max_pktlen bufsize now next r)
  proceeds next keep (goes_on m) t = keep m t
  proceeds next keep (stops o) t = t

  loops :
      (fuel : ℕ) (l : Loop State)
      → Tracked l
      → AllCarried (write_loop q gso max_pktlen bufsize now fuel l)
  unfolding write_loop
  loops zero l t = tt
  loops (suc fuel) l t =
      proceeds (write_loop q gso max_pktlen bufsize now fuel) (loops fuel)
        (write_round q gso max_pktlen bufsize now l) (rounds l t)

  -- When `write_streams` returns 0, with UDP_SEGMENT or without, its calls of `sendmsg` hand over exactly
  -- those packets that ngtcp2 has written during the call: each once, in order, undivided, and to the
  -- address that ngtcp2 gave for it.
  pub write_streams-AllCarried :
      (fuel : ℕ) → AllCarried (write_streams q gso max_pktlen bufsize now fuel c)
  unfolding write_streams
  write_streams-AllCarried fuel =
      loops fuel (record { conn = c; gathered = []; pktcnt = 0 })
        (record {
          gone = packets c.quic;
          held = [];
          carried = nothing;
          full = no_packet;
          logged = refl;
          first = λ p. refl;
          later = λ p r. absurd (cc (r));
          each = λ p. refl;
        })
