-- ===== src/Server/Conn/Running.antt =====
-- No callback of a connection runs forever.
use quicsy.Prelude.{
  ℕ, ◌≡◌, ◌≢◌, ◌≤◌, ◌<◌, ◌||◌, refl, Bool, true, false, Bytes, Option, none, some, List, [], ◌∷◌,
  Bool-cases, inl, inr, if◌then◌else◌,
}
use quicsy.Server.Conn.{
  Quic, Conn, Outcome, returns, aborts, overruns, exhausted, ok, failed, fatal, send_blocked,
  close_wait, retry, Read, read_ok, err_draining, err_retry, err_transport_param, err_other,
  quic_err_transport, then_wait, after_closing, start_closing_period, send_closebuf,
  send_conn_close, handle_error, error_if_unset, after_read, alerted, feed_data, and_then, on_read,
  reset_idle_timer, start_draining_period, after_expiry, handle_expiry,
}
use quicsy.Server.Conn.Write.{write_streams, rescheduled, on_write}
use quicsy.Server.Conn.Callbacks.{
  Fate, kept, removed, crashes, spins, after_writecb, writecb, timeoutcb, after_retransmit,
  retransmitcb, after_close_packet, after_received, receive,
}
use quicsy.Server.Conn.Closing.{Closes, IsReady}
use quicsy.Server.Conn.Written.{Writes}
use quicsy.Server.Conn.Ends.{Finite, sends_close, starts_closing, write_streams-ends}
use quicsy.Server.Conn.Phases.{
  Event, packet_arrives, idle_timeout, retransmit_timeout, writable, run_event, follow, run_all,
  Refines, run_all-Refines,
}

module _ (q : Quic) (gso : Bool) (max_pktlen bufsize : ℕ) (finite : Finite q) where
  open q use {State, in_closing, in_draining}
  open finite use {left}

  reschedules :
      (now : ℕ) (o : Outcome State)
      → o ≢ exhausted
      → rescheduled q gso max_pktlen bufsize now o ≢ exhausted
  reschedules now (returns ok c) h = λ e. cc
  reschedules now (returns close_wait c) h = λ e. cc
  reschedules now (returns send_blocked c) h = λ e. cc
  reschedules now (returns failed c) h = λ e. cc
  reschedules now (returns fatal c) h = λ e. cc
  reschedules now (returns retry c) h = λ e. cc
  reschedules now aborts h = λ e. cc
  reschedules now overruns h = λ e. cc
  reschedules now exhausted h = h

  on_write-ends :
      (now fuel : ℕ) (c : Conn State)
      → left c.quic < fuel
      → on_write q gso max_pktlen bufsize now fuel c ≢ exhausted
  unfolding on_write
  on_write-ends now fuel c h = elim (Bool-cases (in_closing c.quic || in_draining c.quic)) [
    | inl e ↦ rw e (λ x. cc)
    | inr e ↦ rw e (
        reschedules now (write_streams q gso max_pktlen bufsize now fuel c)
          (write_streams-ends q gso max_pktlen bufsize now finite fuel c h))
  ]

  -- An error is not followed by the next step.
  abbrev IsError : Outcome State → Type 0
  IsError (returns ok c) = ⊥
  IsError exhausted = ⊥
  IsError _ = Unit

  waits : (o : Outcome State) → o ≢ exhausted → IsError (then_wait q o)
  waits (returns ok c) h = tt
  waits (returns close_wait c) h = tt
  waits (returns send_blocked c) h = tt
  waits (returns failed c) h = tt
  waits (returns fatal c) h = tt
  waits (returns retry c) h = tt
  waits aborts h = tt
  waits overruns h = tt
  waits exhausted h = h refl

  closes-IsError : (r : Outcome State) → r ≢ exhausted → IsError (after_closing q r)
  closes-IsError (returns failed c) h = tt
  closes-IsError (returns fatal c) h = tt
  closes-IsError (returns send_blocked c) h = tt
  closes-IsError (returns close_wait c) h = tt
  closes-IsError (returns retry c) h = tt
  closes-IsError aborts h = tt
  closes-IsError overruns h = tt
  closes-IsError exhausted h = h refl
  closes-IsError (returns ok c) h =
      waits (send_closebuf q c.closebuf c)
        (sends_close q gso max_pktlen bufsize 0 finite c.closebuf c)

  handle_error-IsError : (now : ℕ) (c : Conn State) → IsError (handle_error q max_pktlen now c)
  unfolding handle_error
  handle_error-IsError now c =
      closes-IsError (start_closing_period q max_pktlen now c)
        (starts_closing q gso max_pktlen bufsize now finite c)

  then-ends :
      (next : Conn State → Outcome State) (o : Outcome State)
      → IsError o
      → and_then q next o ≢ exhausted
  then-ends next (returns ok c) h = absurd h
  then-ends next (returns close_wait c) h = λ e. cc
  then-ends next (returns send_blocked c) h = λ e. cc
  then-ends next (returns failed c) h = λ e. cc
  then-ends next (returns fatal c) h = λ e. cc
  then-ends next (returns retry c) h = λ e. cc
  then-ends next aborts h = λ e. cc
  then-ends next overruns h = λ e. cc
  then-ends next exhausted h = absurd h

  expiry-ends :
      (now fuel : ℕ) (r : Option ℕ) (c : Conn State)
      → left c.quic < fuel
      → and_then q (on_write q gso max_pktlen bufsize now fuel) (after_expiry q max_pktlen r now c)
        ≢ exhausted
  expiry-ends now fuel none c h = on_write-ends now fuel c h
  expiry-ends now fuel (some e) c h =
      then-ends (on_write q gso max_pktlen bufsize now fuel) _
        (handle_error-IsError now (record c { last_error = quic_err_transport q e }))

  read-ends :
      (now : ℕ) (r : Read) (c : Conn State)
      → and_then q (λ d. returns ok (reset_idle_timer q now d)) (after_read q max_pktlen r now c)
        ≢ exhausted
  read-ends now read_ok c = λ e. cc
  read-ends now err_draining c = λ e. cc
  read-ends now err_retry c = λ e. cc
  read-ends now (err_transport_param x) c =
      then-ends _ _ (handle_error-IsError now (record c { last_error = quic_err_transport q x }))
  read-ends now (err_other x) c = then-ends _ _ (handle_error-IsError now (error_if_unset q x c))

  written :
      (now : ℕ) (o : Outcome State)
      → o ≢ exhausted
      → after_writecb q gso max_pktlen bufsize now o ≢ spins
  written now (returns ok c) h = λ e. cc
  written now (returns close_wait c) h = λ e. cc
  written now (returns send_blocked c) h = λ e. cc
  written now (returns failed c) h = λ e. cc
  written now (returns fatal c) h = λ e. cc
  written now (returns retry c) h = λ e. cc
  written now aborts h = λ e. cc
  written now overruns h = λ e. cc
  written now exhausted h = absurd (h refl)

  retransmitted :
      (now : ℕ) (o : Outcome State)
      → o ≢ exhausted
      → after_retransmit q gso max_pktlen bufsize now o ≢ spins
  retransmitted now (returns ok c) h = λ e. cc
  retransmitted now (returns close_wait c) h = λ e. cc
  retransmitted now (returns send_blocked c) h = λ e. cc
  retransmitted now (returns failed c) h = λ e. cc
  retransmitted now (returns fatal c) h = λ e. cc
  retransmitted now (returns retry c) h = λ e. cc
  retransmitted now aborts h = λ e. cc
  retransmitted now overruns h = λ e. cc
  retransmitted now exhausted h = absurd (h refl)

  repeated :
      (now : ℕ) (o : Outcome State)
      → o ≢ exhausted
      → after_close_packet q gso max_pktlen bufsize now o ≢ spins
  repeated now (returns ok c) h = λ e. cc
  repeated now (returns close_wait c) h = λ e. cc
  repeated now (returns send_blocked c) h = λ e. cc
  repeated now (returns failed c) h = λ e. cc
  repeated now (returns fatal c) h = λ e. cc
  repeated now (returns retry c) h = λ e. cc
  repeated now aborts h = λ e. cc
  repeated now overruns h = λ e. cc
  repeated now exhausted h = absurd (h refl)

  received :
      (now : ℕ) (o : Outcome State)
      → o ≢ exhausted
      → after_received q gso max_pktlen bufsize now o ≢ spins
  received now (returns ok c) h = λ e. cc
  received now (returns close_wait c) h = λ e. cc
  received now (returns send_blocked c) h = λ e. cc
  received now (returns failed c) h = λ e. cc
  received now (returns fatal c) h = λ e. cc
  received now (returns retry c) h = λ e. cc
  received now aborts h = λ e. cc
  received now overruns h = λ e. cc
  received now exhausted h = absurd (h refl)

  on_read-ends :
      (pkt : Bytes) (now : ℕ) (c : Conn State) → on_read q max_pktlen pkt now c ≢ exhausted
  unfolding on_read feed_data
  on_read-ends pkt now c =
      let r = q.read_pkt pkt now c.quic in
      read-ends now r.0 (alerted q r.1 (record c { quic = r.2 }))

  receive-ends :
      (pkt : Bytes) (now : ℕ) (c : Conn State) → receive q gso max_pktlen bufsize now pkt c ≢ spins
  unfolding receive send_conn_close
  receive-ends pkt now c = elim (Bool-cases (in_closing c.quic)) [
    | inl e ↦ rw e (
        repeated now (send_closebuf q c.closebuf c)
          (sends_close q gso max_pktlen bufsize now finite c.closebuf c))
    | inr e ↦ rw e (undrained c.draining)
  ]
    where
      undrained :
          (b : Bool)
          → (if b
              then kept c
              else after_received q gso max_pktlen bufsize now (on_read q max_pktlen pkt now c))
            ≢ spins
      undrained true = λ e. cc
      undrained false = received now (on_read q max_pktlen pkt now c) (on_read-ends pkt now c)

  timeout-ends : (c : Conn State) → timeoutcb q gso max_pktlen bufsize 0 c ≢ spins
  unfolding timeoutcb
  timeout-ends c = by_test (in_closing c.quic) c.draining
    where
      by_test :
          (a b : Bool)
          → (if a then removed c else if b then removed c else kept (start_draining_period q c))
            ≢ spins
      by_test true b = λ e. cc
      by_test false true = λ e. cc
      by_test false false = λ e. cc

  -- The fuel of an event is more than there is to write.
  abbrev pub HasFuel : Event → Conn State → Type 0
  HasFuel (packet_arrives pkt now) c = Unit
  HasFuel idle_timeout c = Unit
  HasFuel (retransmit_timeout fuel now) c = left (q.handle_expiry now c.quic).1 < fuel
  HasFuel (writable fuel now) c = left c.quic < fuel

  -- Every event that is reached has it.
  abbrev pub AllHaveFuel : List Event → Conn State → Type 0
  AllHaveFuel [] c = Unit
  AllHaveFuel (e ∷ es) c =
      HasFuel e c
      × ((d : Conn State) → run_event q gso max_pktlen bufsize e c ≡ kept d → AllHaveFuel es d)

  run_event-ends :
      (e : Event) (c : Conn State) → HasFuel e c → run_event q gso max_pktlen bufsize e c ≢ spins
  unfolding run_event writecb retransmitcb handle_expiry
  run_event-ends (packet_arrives pkt now) c h = receive-ends pkt now c
  run_event-ends idle_timeout c h = timeout-ends c
  run_event-ends (retransmit_timeout fuel now) c h =
      let r = q.handle_expiry now c.quic in
      retransmitted now _ (expiry-ends now fuel r.0 (record c { quic = r.1 }) h)
  run_event-ends (writable fuel now) c h =
      written now _ (on_write-ends now fuel (record c { writing = false }) h)

  followed :
      (next : Conn State → Fate State) (f : Fate State)
      → f ≢ spins
      → ((d : Conn State) → f ≡ kept d → next d ≢ spins)
      → follow q gso max_pktlen bufsize next f ≢ spins
  followed next (kept d) h k = k d refl
  followed next (removed d) h k = λ e. cc
  followed next crashes h k = λ e. cc
  followed next spins h k = h

  run_all-ends :
      (es : List Event) (c : Conn State)
      → AllHaveFuel es c
      → run_all q gso max_pktlen bufsize es c ≢ spins
  unfolding run_all
  run_all-ends [] c h = λ e. cc
  run_all-ends (e ∷ es) c h =
      followed (run_all q gso max_pktlen bufsize es) (run_event q gso max_pktlen bufsize e c)
        (run_event-ends e c h.0) (λ d k. run_all-ends es d (h.1 d k))

-- When what is to be written is finite and each event of a run brings more fuel than that, no event runs
-- forever. If only the writing of a CONNECTION_CLOSE packet, which is not empty, begins the closing period
-- of ngtcp2, the packets of ngtcp2 fit into the space given and come with a path that carries an
-- endpoint, NGTCP2_ERR_WRITE_STREAM_MORE comes with some data taken, and `max_pktlen_` is at most the
-- sizes of `sendbuf_` and of a packet of `buf`, then whatever packets arrive and timers expire, in any
-- order, a connection that is not closing or has its closing packet ready never meets an assertion that
-- fails in `update_endpoint`, `start_closing_period`, `send_conn_close` or `write_streams`, nor a write
-- beyond the buffer, and as long as it is kept it moves only from active over draining to closing, where
-- the packet is ready.
pub run_all-runs :
    (q : Quic) (gso : Bool) (max_pktlen bufsize : ℕ) (laws : Closes q max_pktlen)
    (writes : Writes q max_pktlen) (finite : Finite q) (fits : max_pktlen ≤ bufsize)
    (es : List Event) (c : Conn q.State)
    → AllHaveFuel q gso max_pktlen bufsize finite es c
    → IsReady q c
    → (run_all q gso max_pktlen bufsize es c ≢ spins)
      × Refines q gso max_pktlen bufsize laws writes fits c (run_all q gso max_pktlen bufsize es c)
run_all-runs q gso max_pktlen bufsize laws writes finite fits es c h r = (
  run_all-ends q gso max_pktlen bufsize finite es c h,
  run_all-Refines q gso max_pktlen bufsize laws writes fits es c r,
)
