-- ===== src/Server/Conn/Phases.antt =====
-- The life of a connection as a diagram of phases, and that every callback follows it.
use quicsy.Prelude.{ℕ, ◌≡◌, ◌≤◌, ◌||◌, refl, Bool, true, false, Bytes, List, [], ◌∷◌, if◌then◌else◌}
use quicsy.Server.Conn.{
  Quic, Conn, Outcome, returns, aborts, overruns, exhausted, ok, send_blocked, failed, fatal,
  close_wait, retry, start_draining_period, send_conn_close, on_read, handle_expiry,
  schedule_retransmit,
}
use quicsy.Server.Conn.Write.{write_streams, rescheduled, on_write}
use quicsy.Server.Conn.Callbacks.{
  Fate, kept, removed, crashes, spins, after_writecb, writecb, timeoutcb, after_retransmit,
  retransmitcb, after_close_packet, after_received, receive,
}
use quicsy.Server.Conn.Closing.{
  Closes, IsReady, Onward, Proceeds, same-Onward, Onward-trans, send_conn_close-Proceeds,
}
use quicsy.Server.Conn.Received.{
  same-IsReady, trans-Proceeds, then-Proceeds, on_read-Proceeds, handle_expiry-Proceeds,
}
use quicsy.Server.Conn.Written.{Writes, write_streams-Proceeds}

-- The specification.
pub data Phase : Type 0 where
  active draining closing : Phase

infix 40 ◌⟶◌ ◌⟶*◌
pub data ◌⟶◌ : Phase → Phase → Type 0 where
  work : active ⟶ active
  drain : active ⟶ draining
  close : active ⟶ closing
  wait : draining ⟶ draining
  close_late : draining ⟶ closing
  again : closing ⟶ closing

pub data ◌⟶*◌ : Phase → Phase → Type 0 where
  here : {p : Phase} → p ⟶* p
  step : {p r s : Phase} → p ⟶ r → r ⟶* s → p ⟶* s

abbrev pub phase_of : Bool → Bool → Phase
phase_of true drains = closing
phase_of false true = draining
phase_of false false = active

edge :
    (a b c d : Bool) → (a ≡ true → c ≡ true) → (b ≡ true → d ≡ true) → phase_of a b ⟶ phase_of c d
edge true b true d f g = again
edge true b false d f g = absurd (cc (f refl))
edge false true true d f g = close_late
edge false true false true f g = wait
edge false true false false f g = absurd (cc (g refl))
edge false false true d f g = close
edge false false false true f g = drain
edge false false false false f g = work

-- What can happen to a connection, at a time; fuel for the loop of `write_streams`.
pub data Event : Type 0 where
  packet_arrives : Bytes → ℕ → Event
  idle_timeout : Event
  retransmit_timeout writable : ℕ → ℕ → Event

module _ (q : Quic) (gso : Bool) (max_pktlen bufsize : ℕ) where
  open q use {State, in_closing, in_draining}

  unfoldable pub run_event : Event → Conn State → Fate State
  unfolding receive timeoutcb retransmitcb writecb
  run_event (packet_arrives pkt now) c = receive q gso max_pktlen bufsize now pkt c
  run_event idle_timeout c = timeoutcb q gso max_pktlen bufsize 0 c
  run_event (retransmit_timeout fuel now) c = retransmitcb q gso max_pktlen bufsize now fuel c
  run_event (writable fuel now) c = writecb q gso max_pktlen bufsize now fuel c

  abbrev pub follow : (Conn State → Fate State) → Fate State → Fate State
  follow next (kept c) = next c
  follow next (removed c) = removed c
  follow next crashes = crashes
  follow next spins = spins

  -- Events in turn, until the connection is removed.
  unfoldable pub run_all : List Event → Conn State → Fate State
  run_all [] c = kept c
  run_all (e ∷ es) c = follow (run_all es) (run_event e c)

  abbrev pub phase : Conn State → Phase
  phase c = phase_of (in_closing c.quic) c.draining

  module _ (laws : Closes q max_pktlen) (writes : Writes q max_pktlen)
      (fits : max_pktlen ≤ bufsize) where
    abbrev pub Sound : Conn State → Fate State → Type 0
    Sound c (kept d) = Onward q c d
    Sound c (removed d) = Unit
    Sound c crashes = ⊥
    Sound c spins = Unit

    rescheduled-Proceeds :
        (now : ℕ) (c : Conn State) (o : Outcome State)
        → Proceeds q c o
        → Proceeds q c (rescheduled q gso max_pktlen bufsize now o)
    unfolding schedule_retransmit
    rescheduled-Proceeds now c (returns ok d) g =
        Onward-trans q c d _ g
          (same-Onward q d _ refl refl (same-IsReady q laws d _ refl refl refl g.ready))
    rescheduled-Proceeds now c (returns send_blocked d) g =
        Onward-trans q c d _ g
          (same-Onward q d _ refl refl (same-IsReady q laws d _ refl refl refl g.ready))
    rescheduled-Proceeds now c (returns failed d) g = g
    rescheduled-Proceeds now c (returns fatal d) g = g
    rescheduled-Proceeds now c (returns close_wait d) g = g
    rescheduled-Proceeds now c (returns retry d) g = g
    rescheduled-Proceeds now c aborts g = g
    rescheduled-Proceeds now c overruns g = g
    rescheduled-Proceeds now c exhausted g = g

    on_write-Proceeds :
        (fuel now : ℕ) (c : Conn State)
        → IsReady q c
        → Proceeds q c (on_write q gso max_pktlen bufsize now fuel c)
    unfolding on_write
    on_write-Proceeds fuel now c r = by_test (in_closing c.quic) (in_draining c.quic) refl
      where
        by_test :
            (a b : Bool)
            → in_closing c.quic ≡ a
            → Proceeds q c (
                if a || b
                then returns ok c
                else rescheduled q gso max_pktlen bufsize now
                    (write_streams q gso max_pktlen bufsize now fuel c))
        by_test true b e = same-Onward q c c refl refl r
        by_test false true e = same-Onward q c c refl refl r
        by_test false false e =
            rescheduled-Proceeds now c _
              (write_streams-Proceeds q gso max_pktlen bufsize now laws c fits writes e fuel)

    written-Sound :
        (now : ℕ) (c : Conn State) (o : Outcome State)
        → Proceeds q c o
        → Sound c (after_writecb q gso max_pktlen bufsize now o)
    written-Sound now c (returns ok d) g = g
    written-Sound now c (returns close_wait d) g = g
    written-Sound now c (returns send_blocked d) g = g
    written-Sound now c (returns failed d) g = tt
    written-Sound now c (returns fatal d) g = tt
    written-Sound now c (returns retry d) g = tt
    written-Sound now c aborts g = g
    written-Sound now c overruns g = g
    written-Sound now c exhausted g = tt

    retransmitted-Sound :
        (now : ℕ) (c : Conn State) (o : Outcome State)
        → Proceeds q c o
        → Sound c (after_retransmit q gso max_pktlen bufsize now o)
    retransmitted-Sound now c (returns ok d) g = g
    retransmitted-Sound now c (returns close_wait d) g =
        Onward-trans q c d _ g
          (same-Onward q d _ refl refl (same-IsReady q laws d _ refl refl refl g.ready))
    retransmitted-Sound now c (returns send_blocked d) g =
        Onward-trans q c d _ g
          (same-Onward q d _ refl refl (same-IsReady q laws d _ refl refl refl g.ready))
    retransmitted-Sound now c (returns failed d) g = tt
    retransmitted-Sound now c (returns fatal d) g = tt
    retransmitted-Sound now c (returns retry d) g = tt
    retransmitted-Sound now c aborts g = g
    retransmitted-Sound now c overruns g = g
    retransmitted-Sound now c exhausted g = tt

    repeated-Sound :
        (now : ℕ) (c : Conn State) (o : Outcome State)
        → Proceeds q c o
        → Sound c (after_close_packet q gso max_pktlen bufsize now o)
    repeated-Sound now c (returns ok d) g = g
    repeated-Sound now c (returns send_blocked d) g = g
    repeated-Sound now c (returns close_wait d) g = tt
    repeated-Sound now c (returns failed d) g = tt
    repeated-Sound now c (returns fatal d) g = tt
    repeated-Sound now c (returns retry d) g = tt
    repeated-Sound now c aborts g = g
    repeated-Sound now c overruns g = g
    repeated-Sound now c exhausted g = tt

    received-Sound :
        (now : ℕ) (c : Conn State) (o : Outcome State)
        → Proceeds q c o
        → Sound c (after_received q gso max_pktlen bufsize now o)
    received-Sound now c (returns ok d) g =
        Onward-trans q c d _ g
          (same-Onward q d _ refl refl (same-IsReady q laws d _ refl refl refl g.ready))
    received-Sound now c (returns close_wait d) g = g
    received-Sound now c (returns send_blocked d) g = tt
    received-Sound now c (returns failed d) g = tt
    received-Sound now c (returns fatal d) g = tt
    received-Sound now c (returns retry d) g = tt
    received-Sound now c aborts g = g
    received-Sound now c overruns g = g
    received-Sound now c exhausted g = tt

    receive-Sound :
        (pkt : Bytes) (now : ℕ) (c : Conn State)
        → IsReady q c
        → Sound c (receive q gso max_pktlen bufsize now pkt c)
    unfolding receive
    receive-Sound pkt now c r = by_test (in_closing c.quic) c.draining refl
      where
        by_test :
            (a b : Bool)
            → in_closing c.quic ≡ a
            → Sound c (
                if a
                then after_close_packet q gso max_pktlen bufsize now (send_conn_close q c)
                else if b
                then kept c
                else after_received q gso max_pktlen bufsize now (on_read q max_pktlen pkt now c))
        by_test true b e = repeated-Sound now c _ (send_conn_close-Proceeds q c r e)
        by_test false true e = same-Onward q c c refl refl r
        by_test false false e = received-Sound now c _ (on_read-Proceeds q laws pkt now c r)

    timeout-Sound :
        (c : Conn State) → IsReady q c → Sound c (timeoutcb q gso max_pktlen bufsize 0 c)
    unfolding timeoutcb start_draining_period
    timeout-Sound c r = by_test (in_closing c.quic) c.draining
      where
        by_test :
            (a b : Bool)
            → Sound c
                (if a then removed c else if b then removed c else kept (start_draining_period q c))
        by_test true b = tt
        by_test false true = tt
        by_test false false = record {
          ready = same-IsReady q laws c _ refl refl refl r;
          drains = λ p. refl;
          closes = λ p. p;
        }

    run-Sound : (e : Event) (c : Conn State) → IsReady q c → Sound c (run_event e c)
    unfolding run_event writecb retransmitcb
    run-Sound (packet_arrives pkt now) c r = receive-Sound pkt now c r
    run-Sound idle_timeout c r = timeout-Sound c r
    run-Sound (retransmit_timeout fuel now) c r = retransmitted-Sound now c _ (
        then-Proceeds q laws (on_write q gso max_pktlen bufsize now fuel) c
          (handle_expiry q max_pktlen now c) (λ d g. on_write-Proceeds fuel now d g.ready)
          (handle_expiry-Proceeds q laws now c r))
    run-Sound (writable fuel now) c r =
        let d = record c { writing = false } in
        let g = same-IsReady q laws c d refl refl refl r in
        written-Sound now c (on_write q gso max_pktlen bufsize now fuel d) (
          trans-Proceeds q laws c d _ (same-Onward q c d refl refl g)
            (on_write-Proceeds fuel now d g))

    -- A run_event that keeps the connection follows the diagram; none meets an assertion that fails.
    abbrev pub Refines : Conn State → Fate State → Type 0
    Refines c (kept d) = IsReady q d × (phase c ⟶* phase d)
    Refines c (removed d) = Unit
    Refines c crashes = ⊥
    Refines c spins = Unit

    followed :
        (next : Conn State → Fate State) (c : Conn State) (f : Fate State)
        → Sound c f
        → ((d : Conn State) → IsReady q d → Refines d (next d))
        → Refines c (follow next f)
    followed next c (kept d) g keep = onward (next d) (keep d g.ready)
      where
        onward : (f : Fate State) → Refines d f → Refines c f
        onward (kept e) (r, path) = (
          r,
          step
              (edge (in_closing c.quic) c.draining (in_closing d.quic) d.draining g.closes g.drains)
              path,
        )
        onward (removed e) h = h
        onward crashes h = h
        onward spins h = h
    followed next c (removed d) g keep = tt
    followed next c crashes g keep = g
    followed next c spins g keep = tt

    -- Under `Closes` and `Writes`, when packets fit into the space given, whatever packets arrive and timers expire, in any order, a
    -- connection that is not closing or has its closing packet ready never meets an assertion that
    -- fails nor a write beyond the buffer, and as long as it is kept it moves only from active over
    -- draining to closing, where the packet is ready.
    pub run_all-Refines :
        (es : List Event) (c : Conn State) → IsReady q c → Refines c (run_all es c)
    unfolding run_all
    run_all-Refines [] c r = (r, here)
    run_all-Refines (e ∷ es) c r =
        followed (run_all es) c (run_event e c) (run-Sound e c r) (run_all-Refines es)
