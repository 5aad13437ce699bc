-- ===== src/Server/Conn.antt =====
-- The life of a connection: the timers, `start_draining_period`, `start_closing_period`,
-- `handle_error`, `send_conn_close`, `feed_data`, `on_read`, `handle_expiry` and `on_write` of `Handler`
-- in src/quicsy_server.cc, with the error constructors of src/shared.cc.
pub mod Write
pub mod Callbacks
pub mod Written
pub mod Phases
pub mod Closing
pub mod Received
pub mod Traffic
pub mod Carried
pub mod Ends
pub mod Running
pub mod Tests
use quicsy.Prelude.{
  ℕ, ◌+◌, ◌-◌, ◌*◌, ◌≡◌, ◌≢◌, ◌&&◌, ◌||◌, Bool, true, false, not, Bytes, Option, none, some, List,
  [], ◌∷◌, ltb, ◌==◌, if◌then◌else◌,
}

-- QUICErrorType.
pub data ErrorType : Type 0 where
  application transport transport_version_negotiation : ErrorType

pub record QuicError : Type 0 where
  pub type : ErrorType
  pub code : ℕ

-- What `ngtcp2_conn_read_pkt` answers, with the errors that the code tells apart. The number of an
-- error of a library is the one behind its sign.
pub data Read : Type 0 where
  read_ok err_draining err_retry : Read
  err_transport_param err_other : ℕ → Read

-- The vectors of `nghttp3_conn_writev_stream`, joined, with the stream (none for -1) and `fin`.
pub record StreamChunk : Type 0 where
  pub stream_id : Option ℕ
  pub fin : Bool
  pub contents : Bytes

-- `local` is the endpoint that the address carries as `user_data`, by its own address, or `none` for a
-- null pointer.
pub record NetworkPath : Type 0 where
  pub local : Option Bytes
  pub remote : Bytes

-- What `ngtcp2_conn_writev_stream` answers: a packet, empty where congestion forbids one, with
-- `ndatalen` (none for -1) and the path, or an error.
pub data Wrote : Type 0 where
  packet : Bytes → Option ℕ → NetworkPath → Wrote
  data_blocked shut_wr : Wrote
  write_more : ℕ → Wrote
  write_error : ℕ → Wrote

-- ngtcp2 and nghttp3 over a state of their own. An error is `some` with its number. The callbacks that
-- `read_pkt` makes can set `last_error_`.
pub record Quic : Type 1 where
  pub State : Type 0
  pub in_closing : State → Bool
  pub in_draining : State → Bool
  pub pto : State → ℕ
  pub expiry : State → ℕ
  pub idle_expiry : State → ℕ
  pub read_pkt : Bytes → ℕ → State → Read × Option QuicError × State
  pub handle_expiry : ℕ → State → Option ℕ × State
  pub write_close : QuicError → ℕ → State → Option Bytes × NetworkPath × State
  pub has_http : State → Bool
  pub max_data_left : State → ℕ
  pub http_writev : State → Option ℕ × StreamChunk × State
  pub writev : StreamChunk → ℕ → State → Wrote × State
  pub block_stream : Option ℕ → State → Option ℕ × State
  pub add_write_offset : Option ℕ → ℕ → State → Option ℕ × State
  pub infer_transport : ℕ → ℕ
  pub infer_app : ℕ → ℕ
  pub is_version_negotiation : ℕ → Bool

-- The values of an `int` that the functions return: 0, -1 and the NETWORK_ERR codes.
pub data Rv : Type 0 where
  ok failed fatal send_blocked close_wait retry : Rv

-- A call of `sendmsg`; a `gso_size` of 0 is none.
pub record Datagram : Type 0 where
  pub path : NetworkPath
  pub payload : Bytes
  pub gso_size : ℕ

-- The fields of `Handler`; a timer is its `repeat` in nanoseconds, or stopped. `sent` has the latest
-- datagram first.
pub record Conn (S : Type 0) : Type 0 where
  pub quic : S
  pub path : NetworkPath
  pub last_error : QuicError
  pub draining : Bool
  pub closebuf : Option Bytes
  pub sendbuf : Bytes
  pub timer : Option ℕ
  pub rttimer : Option ℕ
  pub writing : Bool
  pub sent : List Datagram

-- `aborts` is an assertion that fails, `overruns` a write beyond the buffer of `write_streams`, and
-- `exhausted` says that the fuel of its loop ran out.
pub data Outcome (S : Type 0) : Type 0 where
  returns : Rv → Conn S → Outcome S
  aborts overruns exhausted : Outcome S

-- `ev_timer_again`: a timer with `repeat` 0 is stopped.
abbrev pub timer_again : ℕ → Option ℕ
timer_again repeat = if repeat == 0 then none else some repeat

-- `Server::send_packet` with a `tx_loss_prob` of 0. It returns NETWORK_ERR_OK also when `sendmsg` fails,
-- so that `sent` says what `sendmsg` was called with, and not what has left the host.
abbrev pub send_packet : {S : Type 0} → Bytes → ℕ → Conn S → Conn S
send_packet payload gso_size c = record c {
  sent = record { path = c.path; payload = payload; gso_size = gso_size } ∷ c.sent;
}

-- NGTCP2_MAX_PKTLEN_IPV4, the size of `sendbuf_`.
abbrev pub max_pktlen_ipv4 : ℕ
max_pktlen_ipv4 = 1252

abbrev pub is_given : Option Bytes → Bool
is_given none = false
is_given (some b) = true

-- The condition of `assert(endpoint_)` in `update_endpoint`, which every caller of `update_path` tests.
abbrev pub endpoint_is_there : NetworkPath → Bool
endpoint_is_there path = is_given path.local

-- `update_endpoint` and `update_remote_addr`.
abbrev pub update_path : {S : Type 0} → NetworkPath → Conn S → Conn S
update_path path c = record c { path = path }

module _ (q : Quic) where
  open q use {
    State, in_closing, in_draining, pto, expiry, idle_expiry, read_pkt, write_close,
    infer_transport, infer_app, is_version_negotiation,
  }

  abbrev pub quic_err_transport : ℕ → QuicError
  quic_err_transport liberr =
      if is_version_negotiation liberr
      then record { type = transport_version_negotiation; code = 0 }
      else record { type = transport; code = infer_transport liberr }

  abbrev pub quic_err_app : ℕ → QuicError
  quic_err_app liberr = record { type = application; code = infer_app liberr }

  -- 1e-9 seconds where the time is up.
  unfoldable pub reset_idle_timer : ℕ → Conn State → Conn State
  reset_idle_timer now c = record c {
    timer = timer_again (if ltb now (idle_expiry c.quic) then idle_expiry c.quic - now else 1);
  }

  unfoldable pub schedule_retransmit : ℕ → Conn State → Conn State
  schedule_retransmit now c = record c {
    rttimer = timer_again (if ltb (expiry c.quic) now then 1 else expiry c.quic - now);
  }

  unfoldable pub start_draining_period : Conn State → Conn State
  start_draining_period c = record c {
    draining = true;
    rttimer = none;
    timer = timer_again (pto c.quic * 3);
  }

  -- Behind `ngtcp2_conn_write_connection_close` or `ngtcp2_conn_write_application_close`: `conn_closebuf_`
  -- is new, and stays empty when the call fails.
  abbrev pub after_write_close : Option Bytes × NetworkPath × State → Conn State → Outcome State
  after_write_close (none, path, s) c = returns failed (record c { quic = s; closebuf = some [] })
  after_write_close (some pkt, path, s) c =
      if endpoint_is_there path
      then returns ok (update_path path (record c { quic = s; closebuf = some pkt }))
      else aborts

  -- The connection `conn_` is there. The assertion is that `max_pktlen` bytes fit into `sendbuf_`.
  unfoldable pub start_closing_period : ℕ → ℕ → Conn State → Outcome State
  start_closing_period max_pktlen now c =
      if in_closing c.quic
      then returns ok c
      else if ltb max_pktlen_ipv4 max_pktlen
      then aborts
      else after_write_close (write_close c.last_error now c.quic)
          (record c { rttimer = none; timer = timer_again (pto c.quic * 3); sendbuf = [] })

  abbrev pub is_empty : Bytes → Bool
  is_empty [] = true
  is_empty (b ∷ s) = false

  -- The copy into `sendbuf_`, when that is empty, and the packet.
  abbrev pub send_closebuf : Option Bytes → Conn State → Outcome State
  send_closebuf none c = aborts
  send_closebuf (some []) c = aborts
  send_closebuf (some (b ∷ pkt)) c =
      let buffer = if is_empty c.sendbuf then b ∷ pkt else c.sendbuf in
      returns ok (send_packet buffer 0 (record c { sendbuf = buffer }))

  unfoldable pub send_conn_close : Conn State → Outcome State
  send_conn_close c = send_closebuf c.closebuf c

  -- The end of `handle_error`.
  abbrev pub then_wait : Outcome State → Outcome State
  then_wait (returns ok c) = returns close_wait c
  then_wait (returns rv c) = returns rv c
  then_wait aborts = aborts
  then_wait overruns = overruns
  then_wait exhausted = exhausted

  abbrev pub after_closing : Outcome State → Outcome State
  after_closing (returns ok c) = then_wait (send_closebuf c.closebuf c)
  after_closing (returns rv c) = returns failed c
  after_closing aborts = aborts
  after_closing overruns = overruns
  after_closing exhausted = exhausted

  unfoldable pub handle_error : ℕ → ℕ → Conn State → Outcome State
  unfolding start_closing_period
  handle_error max_pktlen now c = after_closing (start_closing_period max_pktlen now c)

  abbrev pub alerted : Option QuicError → Conn State → Conn State
  alerted none c = c
  alerted (some e) c = record c { last_error = e }

  -- `if (!last_error_.code) last_error_ = …`.
  abbrev pub error_if_unset : ℕ → Conn State → Conn State
  error_if_unset liberr c =
      if c.last_error.code == 0 then record c { last_error = quic_err_transport liberr } else c

  -- The `switch` over what `ngtcp2_conn_read_pkt` answers.
  abbrev pub after_read : ℕ → Read → ℕ → Conn State → Outcome State
  after_read max_pktlen read_ok now c = returns ok c
  after_read max_pktlen err_draining now c = returns close_wait (start_draining_period c)
  after_read max_pktlen err_retry now c = returns retry c
  after_read max_pktlen (err_transport_param e) now c =
      handle_error max_pktlen now (record c { last_error = quic_err_transport e })
  after_read max_pktlen (err_other e) now c = handle_error max_pktlen now (error_if_unset e c)

  unfoldable pub feed_data : ℕ → Bytes → ℕ → Conn State → Outcome State
  unfolding start_draining_period handle_error
  feed_data max_pktlen pkt now c =
      let r = read_pkt pkt now c.quic in
      after_read max_pktlen r.0 now (alerted r.1 (record c { quic = r.2 }))

  -- The next step, when the one before returns 0.
  abbrev pub and_then : (Conn State → Outcome State) → Outcome State → Outcome State
  and_then next (returns ok c) = next c
  and_then next (returns failed c) = returns failed c
  and_then next (returns fatal c) = returns fatal c
  and_then next (returns send_blocked c) = returns send_blocked c
  and_then next (returns close_wait c) = returns close_wait c
  and_then next (returns retry c) = returns retry c
  and_then next aborts = aborts
  and_then next overruns = overruns
  and_then next exhausted = exhausted

  unfoldable pub on_read : ℕ → Bytes → ℕ → Conn State → Outcome State
  unfolding feed_data reset_idle_timer
  on_read max_pktlen pkt now c =
      and_then (λ d. returns ok (reset_idle_timer now d)) (feed_data max_pktlen pkt now c)

  abbrev pub after_expiry : ℕ → Option ℕ → ℕ → Conn State → Outcome State
  after_expiry max_pktlen none now c = returns ok c
  after_expiry max_pktlen (some e) now c =
      handle_error max_pktlen now (record c { last_error = quic_err_transport e })

  unfoldable pub handle_expiry : ℕ → ℕ → Conn State → Outcome State
  unfolding handle_error
  handle_expiry max_pktlen now c =
      let r = q.handle_expiry now c.quic in
      after_expiry max_pktlen r.0 now (record c { quic = r.1 })
