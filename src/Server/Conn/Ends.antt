-- ===== src/Server/Conn/Ends.antt =====
-- The loop of `write_streams` ends.
use quicsy.Prelude.{
  ℕ, zero, suc, ◌+◌, ◌*◌, ◌≢◌, ◌≤◌, ◌<◌, ◌&&◌, ◌||◌, if◌then◌else◌, arith, Bool, true, false, not,
  Bytes, Option, none, some, [], ◌∷◌, ◌++◌, Bool-cases, inl, inr, ltb, ◌==◌, length,
}
use quicsy.Prelude.Assoc.{same}
use quicsy.Server.Conn.{
  Quic, Conn, Outcome, returns, aborts, overruns, exhausted, ok, failed, fatal, send_blocked,
  close_wait, retry, StreamChunk, NetworkPath, Wrote, packet, data_blocked, shut_wr, write_more,
  write_error, update_path, endpoint_is_there, after_write_close, max_pktlen_ipv4, timer_again,
  reset_idle_timer, handle_error, after_closing, then_wait, start_closing_period, send_closebuf,
}
use quicsy.Server.Conn.Write.{
  Loop, Round, goes_on, stops, max_pktcnt, no_chunk, flush_gathered, continue_unless, stream_stuck,
  more_data, full_or_next, gather, send_each, take_packet, offset_then_take, with_offset,
  after_writev, write_chunk, after_http, write_round, proceed, write_loop, write_streams,
}
use quicsy.Server.Conn.Traffic.{Logged}
use quicsy.Server.Conn.Carried.{AllCarried, write_streams-AllCarried}

-- A round that goes on takes something of what is to be written, `before`: a packet, stream data, or a
-- stream that nghttp3 sets aside as it is blocked or closed for writing.
abbrev pub Consumes : (q : Quic) → (q.State → ℕ) → StreamChunk → ℕ → Wrote → q.State → Type 0
Consumes q left chunk before (packet [] n path) s = Unit
Consumes q left chunk before (packet (b ∷ pkt) n path) s = left s < before
Consumes q left chunk before (write_more n) s = left s < before
Consumes q left chunk before data_blocked s = left (q.block_stream chunk.stream_id s).1 < before
Consumes q left chunk before shut_wr s = left (q.block_stream chunk.stream_id s).1 < before
Consumes q left chunk before (write_error e) s = Unit

pub Consumes-mono :
    (q : Quic) (left : q.State → ℕ) (chunk : StreamChunk) (before n : ℕ) (r : Wrote) (s : q.State)
    → before ≤ n
    → Consumes q left chunk before r s
    → Consumes q left chunk n r s
Consumes-mono q left chunk before n (packet [] o path) s h k = tt
Consumes-mono q left chunk before n (packet (b ∷ pkt) o path) s h k = omega arith
Consumes-mono q left chunk before n (write_more i) s h k = omega arith
Consumes-mono q left chunk before n data_blocked s h k = omega arith
Consumes-mono q left chunk before n shut_wr s h k = omega arith
Consumes-mono q left chunk before n (write_error e) s h k = tt

-- What is to be written is finite.
pub record Finite (q : Quic) : Type 0 where
  pub left : q.State → ℕ
  pub writes :
      (chunk : StreamChunk) (now : ℕ) (s : q.State)
      → Consumes q left chunk (left s) (q.writev chunk now s).0 (q.writev chunk now s).1
  pub reads : (s : q.State) → left (q.http_writev s).2 ≤ left s
  pub offsets : (id : Option ℕ) (n : ℕ) (s : q.State) → left (q.add_write_offset id n s).1 ≤ left s

module _ (q : Quic) (gso : Bool) (max_pktlen bufsize now : ℕ) (finite : Finite q) where
  open q use {State}
  open finite use {left}

  -- A round that goes on has less than `n` left; one that stops has not run out of fuel.
  abbrev Shrinks : ℕ → Round State → Type 0
  Shrinks n (goes_on m) = left m.conn.quic < n
  Shrinks n (stops o) = o ≢ exhausted

  waits : (o : Outcome State) → o ≢ exhausted → then_wait q o ≢ exhausted
  waits (returns ok d) h = λ e. cc
  waits (returns failed d) h = λ e. cc
  waits (returns fatal d) h = λ e. cc
  waits (returns send_blocked d) h = λ e. cc
  waits (returns close_wait d) h = λ e. cc
  waits (returns retry d) h = λ e. cc
  waits aborts h = λ e. cc
  waits overruns h = λ e. cc
  waits exhausted h = h

  pub sends_close : (o : Option Bytes) (c : Conn State) → send_closebuf q o c ≢ exhausted
  sends_close none c = λ e. cc
  sends_close (some []) c = λ e. cc
  sends_close (some (b ∷ s)) c = λ e. cc

  closes : (r : Outcome State) → r ≢ exhausted → after_closing q r ≢ exhausted
  closes (returns ok c) h = waits (send_closebuf q c.closebuf c) (sends_close c.closebuf c)
  closes (returns failed c) h = λ e. cc
  closes (returns fatal c) h = λ e. cc
  closes (returns send_blocked c) h = λ e. cc
  closes (returns close_wait c) h = λ e. cc
  closes (returns retry c) h = λ e. cc
  closes aborts h = λ e. cc
  closes overruns h = λ e. cc
  closes exhausted h = h

  writes_close :
      (r : Option Bytes × NetworkPath × State) (c : Conn State)
      → after_write_close q r c ≢ exhausted
  writes_close (none, path, s) c = λ e. cc
  writes_close (some pkt, path, s) c = elim (Bool-cases (endpoint_is_there path)) [
    | inl e ↦ rw e (λ x. cc)
    | inr e ↦ rw e (λ x. cc)
  ]

  pub starts_closing : (c : Conn State) → start_closing_period q max_pktlen now c ≢ exhausted
  unfolding start_closing_period
  starts_closing c = by_test (q.in_closing c.quic) (ltb max_pktlen_ipv4 max_pktlen)
    where
      by_test :
          (a b : Bool)
          → (if a
              then returns ok c
              else if b
              then aborts
              else after_write_close q (q.write_close c.last_error now c.quic) (record c {
                rttimer = none;
                timer = timer_again (q.pto c.quic * 3);
                sendbuf = [];
              }))
            ≢ exhausted
      by_test true b = λ e. cc
      by_test false true = λ e. cc
      by_test false false = writes_close (q.write_close c.last_error now c.quic) _

  pub errors : (c : Conn State) → handle_error q max_pktlen now c ≢ exhausted
  unfolding handle_error
  errors c = closes (start_closing_period q max_pktlen now c) (starts_closing c)

  flushes :
      (n : ℕ) (g : Bytes) (c : Conn State)
      → Shrinks n (flush_gathered q gso max_pktlen bufsize now g c)
  flushes n [] c = λ e. cc
  flushes n (b ∷ s) c = λ e. cc

  continues :
      (n : ℕ) (r : Option ℕ × State) (l : Loop State)
      → left r.1 < n
      → Shrinks n (continue_unless q gso max_pktlen bufsize now r l)
  continues n (none, s) l h = h
  continues n (some e, s) l h = errors _

  stuck :
      (n : ℕ) (blocked : Bool) (chunk : StreamChunk) (l : Loop State)
      → left (q.block_stream chunk.stream_id l.conn.quic).1 < n
      → Shrinks n (stream_stuck q gso max_pktlen bufsize now blocked chunk l)
  stuck n blocked chunk l h = elim (Bool-cases (blocked && (q.max_data_left l.conn.quic == 0))) [
    | inl e ↦ rw e (flushes n l.gathered l.conn)
    | inr e ↦ rw e (continues n (q.block_stream chunk.stream_id l.conn.quic) l h)
  ]

  takes_more :
      (n k : ℕ) (chunk : StreamChunk) (l : Loop State)
      → left l.conn.quic < n
      → Shrinks n (more_data q gso max_pktlen bufsize now k chunk l)
  takes_more n k chunk l h = elim (Bool-cases (ltb 0 k)) [
    | inl e ↦
        let d = finite.offsets chunk.stream_id k l.conn.quic in
        rw e (continues n (q.add_write_offset chunk.stream_id k l.conn.quic) l (omega arith))
    | inr e ↦ rw e (λ x. cc)
  ]

  fills :
      (n : ℕ) (pkt : Bytes) (l : Loop State)
      → left l.conn.quic < n
      → Shrinks n (full_or_next q gso max_pktlen bufsize now pkt l)
  fills n pkt l h = elim (Bool-cases ((l.pktcnt == max_pktcnt) || ltb (length pkt) max_pktlen)) [
    | inl e ↦ rw e (λ x. cc)
    | inr e ↦ rw e h
  ]

  gathers :
      (n : ℕ) (pkt : Bytes) (path : NetworkPath) (l : Loop State)
      → left l.conn.quic < n
      → Shrinks n (gather q gso max_pktlen bufsize now pkt path l)
  gathers n pkt path l h = elim (Bool-cases (l.pktcnt == 0)) [
    | inl e ↦ elim (Bool-cases (endpoint_is_there path)) [
      | inl there ↦
          rw (e, there)
            (fills n pkt
              (record { conn = update_path path l.conn; gathered = l.gathered ++ pkt; pktcnt = 1 })
              h)
      | inr missing ↦ rw (e, missing) (λ x. cc)
    ]
    | inr e ↦ rw e (elim (Bool-cases (same l.conn.path.remote path.remote)) [
      | inl k ↦ rw k (
          fills n pkt
            (record { conn = l.conn; gathered = l.gathered ++ pkt; pktcnt = l.pktcnt + 1 }) h)
      | inr k ↦ rw k (λ x. cc)
    ])
  ]

  sends :
      (n : ℕ) (pkt : Bytes) (path : NetworkPath) (l : Loop State)
      → left l.conn.quic < n
      → Shrinks n (send_each q gso max_pktlen bufsize now pkt path l)
  unfolding reset_idle_timer
  sends n pkt path l h = elim (Bool-cases (endpoint_is_there path)) [
    | inr missing ↦ rw missing (λ x. cc)
    | inl there ↦ elim (Bool-cases (l.pktcnt + 1 == max_pktcnt)) [
      | inl e ↦ rw (there, e) (λ x. cc)
      | inr e ↦ rw (there, e) h
    ]
  ]

  takes :
      (n : ℕ) (pkt : Bytes) (path : NetworkPath) (l : Loop State)
      → left l.conn.quic < n
      → Shrinks n (take_packet q gso max_pktlen bufsize now pkt path l)
  takes n pkt path l h = elim (Bool-cases gso) [
    | inl e ↦ rw e (gathers n pkt path l h)
    | inr e ↦ rw e (sends n pkt path l h)
  ]

  offset_taken :
      (n : ℕ) (pkt : Bytes) (path : NetworkPath) (r : Option ℕ × State) (l : Loop State)
      → left r.1 < n
      → Shrinks n (offset_then_take q gso max_pktlen bufsize now pkt path r l)
  offset_taken n pkt path (none, s) l h = takes n pkt path _ h
  offset_taken n pkt path (some e, s) l h = errors _

  with_offset_taken :
      (n : ℕ) (pkt : Bytes) (o : Option ℕ) (path : NetworkPath) (chunk : StreamChunk)
      (l : Loop State)
      → left l.conn.quic < n
      → Shrinks n (with_offset q gso max_pktlen bufsize now pkt o path chunk l)
  with_offset_taken n pkt none path chunk l h = takes n pkt path l h
  with_offset_taken n pkt (some k) path chunk l h =
      let d = finite.offsets chunk.stream_id k l.conn.quic in
      offset_taken n pkt path (q.add_write_offset chunk.stream_id k l.conn.quic) l (omega arith)

  written :
      (n : ℕ) (r : Wrote) (chunk : StreamChunk) (l : Loop State)
      → Consumes q left chunk n r l.conn.quic
      → Shrinks n (after_writev q gso max_pktlen bufsize now r chunk l)
  written n (packet [] o path) chunk l h = flushes n l.gathered l.conn
  written n (packet (b ∷ s) o path) chunk l h = with_offset_taken n (b ∷ s) o path chunk l h
  written n data_blocked chunk l h = stuck n true chunk l h
  written n shut_wr chunk l h = stuck n false chunk l h
  written n (write_more k) chunk l h = takes_more n k chunk l h
  written n (write_error e) chunk l h = errors _

  writes_chunk :
      (n : ℕ) (chunk : StreamChunk) (l : Loop State)
      → left l.conn.quic ≤ n
      → Shrinks n (write_chunk q gso max_pktlen bufsize now chunk l)
  writes_chunk n chunk l h =
      elim (Bool-cases (ltb (bufsize * max_pktcnt) (length l.gathered + max_pktlen))) [
        | inl e ↦ rw e (λ x. cc)
        | inr e ↦
            let r = q.writev chunk now l.conn.quic in
            rw e (
              written n r.0 chunk (record l { conn = record l.conn { quic = r.1 } })
                (Consumes-mono q left chunk (left l.conn.quic) n r.0 r.1 h
                  (finite.writes chunk now l.conn.quic)))
      ]

  https :
      (n : ℕ) (r : Option ℕ × StreamChunk × State) (l : Loop State)
      → left r.2 ≤ n
      → Shrinks n (after_http q gso max_pktlen bufsize now r l)
  https n (none, chunk, s) l h =
      writes_chunk n chunk (record l { conn = record l.conn { quic = s } }) h
  https n (some e, chunk, s) l h = errors _

  rounds :
      (l : Loop State) → Shrinks (left l.conn.quic) (write_round q gso max_pktlen bufsize now l)
  unfolding write_round
  rounds l =
      let n = left l.conn.quic in
      elim (Bool-cases (q.has_http l.conn.quic && not (q.max_data_left l.conn.quic == 0))) [
        | inl e ↦ rw e (https n (q.http_writev l.conn.quic) l (finite.reads l.conn.quic))
        | inr e ↦ rw e (writes_chunk n no_chunk l (omega arith))
      ]

  proceeds :
      (n : ℕ) (next : Loop State → Outcome State)
      → ((m : Loop State) → left m.conn.quic < n → next m ≢ exhausted)
      → (r : Round State) → Shrinks n r
      → proceed q gso max_pktlen bufsize now next r ≢ exhausted
  proceeds n next keep (goes_on m) h = keep m h
  proceeds n next keep (stops o) h = h

  loops :
      (fuel : ℕ) (l : Loop State)
      → left l.conn.quic < fuel
      → write_loop q gso max_pktlen bufsize now fuel l ≢ exhausted
  unfolding write_loop
  loops zero l h = absurd (let k : left l.conn.quic < 0 = h in omega arith)
  loops (suc fuel) l h =
      proceeds (left l.conn.quic) (write_loop q gso max_pktlen bufsize now fuel)
        (λ m k. loops fuel m (omega arith)) (write_round q gso max_pktlen bufsize now l) (rounds l)

  pub write_streams-ends :
      (fuel : ℕ) (c : Conn State)
      → left c.quic < fuel
      → write_streams q gso max_pktlen bufsize now fuel c ≢ exhausted
  unfolding write_streams
  write_streams-ends fuel c h = loops fuel (record { conn = c; gathered = []; pktcnt = 0 }) h

-- When what is to be written is finite, the loop of `write_streams` ends, with more fuel than there is to
-- write. When it returns 0 and no packet of ngtcp2 is longer than `max_pktlen_`, with UDP_SEGMENT or
-- without, its calls of `sendmsg`, whether they succeed or not, hand over exactly those packets that
-- ngtcp2 has written during the call: each once, in order, undivided, and to the address that ngtcp2 gave
-- for it. The simulated loss is off.
pub write_streams-carries :
    (q : Quic) (gso : Bool) (max_pktlen bufsize now : ℕ) (log : Logged q max_pktlen)
    (finite : Finite q) (fuel : ℕ) (c : Conn q.State)
    → finite.left c.quic < fuel
    → (write_streams q gso max_pktlen bufsize now fuel c ≢ exhausted)
      × AllCarried q gso max_pktlen bufsize now log c
          (write_streams q gso max_pktlen bufsize now fuel c)
write_streams-carries q gso max_pktlen bufsize now log finite fuel c h = (
  write_streams-ends q gso max_pktlen bufsize now finite fuel c h,
  write_streams-AllCarried q gso max_pktlen bufsize now log c fuel,
)
