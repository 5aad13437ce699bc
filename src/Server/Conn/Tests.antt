-- ===== src/Server/Conn/Tests.antt =====
-- The theorems on a connection over a small library.
use quicsy.Prelude.{
  ℕ, zero, suc, ◌+◌, ◌≡◌, ◌≢◌, ◌<◌, refl, subst, ap, arith, Bool, true, false, Bytes, none, some,
  List, [], ◌∷◌,
}
use quicsy.Prelude.Assoc.{same}
use quicsy.Server.Conn.{
  Quic, Conn, returns, exhausted, StreamChunk, ok, transport, Read, read_ok, err_other, NetworkPath,
  Wrote, packet, handle_error, on_read, send_conn_close, reset_idle_timer, schedule_retransmit,
}
use quicsy.Server.Conn.Write.{no_chunk, write_streams}
use quicsy.Server.Conn.Closing.{Closes, not_closing}
use quicsy.Server.Conn.Written.{Writes, Fits, HasEndpoint}
use quicsy.Server.Conn.Callbacks.{Fate, kept, removed, crashes, spins}
use quicsy.Server.Conn.Running.{HasFuel, AllHaveFuel, run_all-runs}
use quicsy.Server.Conn.Traffic.{Addressed, Logged, Records}
use quicsy.Server.Conn.Carried.{AllCarried}
use quicsy.Server.Conn.Ends.{Consumes, Finite, write_streams-carries}
use quicsy.Server.Conn.Phases.{Refines, run_event, run_all, packet_arrives, writable, Event}

-- `left` packets can be written; a received packet that is empty is refused.
pub record Small : Type 0 where
  pub closing : Bool
  pub left : ℕ
  pub log : List Addressed

abbrev small_path : NetworkPath
small_path = record { local = some (1 ∷ []); remote = 2 ∷ [] }

abbrev small_read : Bytes → Read
small_read [] = err_other 5
small_read (b ∷ pkt) = read_ok

abbrev write_one : ℕ → Small → Wrote × Small
write_one zero s = (packet [] none small_path, s)
write_one (suc n) s = (
  packet (n ∷ 9 ∷ []) none small_path,
  record s { left = n; log = (small_path.remote, n ∷ 9 ∷ []) ∷ s.log },
)

abbrev pub small : Quic
small = record {
  State = Small;
  in_closing = λ s. s.closing;
  in_draining = λ s. false;
  pto = λ s. 10;
  expiry = λ s. 100;
  idle_expiry = λ s. 200;
  read_pkt = λ pkt now s. (small_read pkt, none, s);
  handle_expiry = λ now s. (none, s);
  write_close = λ e now s. (some (7 ∷ []), small_path, record s { closing = true });
  has_http = λ s. true;
  max_data_left = λ s. 1;
  http_writev = λ s. (none, no_chunk, s);
  writev = λ chunk now s. write_one s.left s;
  block_stream = λ id s. (none, s);
  add_write_offset = λ id n s. (none, s);
  infer_transport = λ e. e + 1;
  infer_app = λ e. e;
  is_version_negotiation = λ e. false;
}

small-Closes : Closes small 2
small-Closes = record {
  room = omega arith;
  enters = λ e now s pkt h. (refl, λ k. cc, refl);
  stays_out = λ e now s h. cc;
  reads = λ pkt now s. refl;
  expires = λ now s. refl;
}

pub one-Fits : (n : ℕ) (s : Small) → Fits 2 (write_one n s).0
one-Fits zero s = omega arith
one-Fits (suc n) s = omega arith

one-stays : (n : ℕ) (s : Small) → (write_one n s).1.closing ≡ s.closing
one-stays zero s = refl
one-stays (suc n) s = refl

pub one-Records :
    (n : ℕ) (s : Small) → Records (λ (t : Small). t.log) (write_one n s).0 s (write_one n s).1
one-Records zero s = refl
one-Records (suc n) s = refl

one-HasEndpoint : (n : ℕ) (s : Small) → HasEndpoint (write_one n s).0
one-HasEndpoint zero s = refl
one-HasEndpoint (suc n) s = refl

small-Writes : Writes small 2
small-Writes = record {
  fits = λ chunk now s. one-Fits s.left s;
  endpoints = λ chunk now s. one-HasEndpoint s.left s;
  writes = λ chunk now s. one-stays s.left s;
  reads = λ s. refl;
  blocks = λ id s. refl;
  offsets = λ id n s. refl;
}

unfoldable pub small-Logged : Logged small 2
small-Logged = record {
  packets = λ s. s.log;
  fits = λ chunk now s. one-Fits s.left s;
  writes = λ chunk now s. one-Records s.left s;
  reads = λ s. refl;
  blocks = λ id s. refl;
  offsets = λ id n s. refl;
}

abbrev three_left : Conn Small
three_left = record {
  quic = record { closing = false; left = 3; log = [] };
  path = record { local = none; remote = [] };
  last_error = record { type = transport; code = 0 };
  draining = false;
  closebuf = none;
  sendbuf = [];
  timer = none;
  rttimer = none;
  writing = false;
  sent = [];
}

-- The three packets leave in one datagram.
sent_together : (c : Conn Small) × (write_streams small true 2 2 50 5 three_left ≡ returns ok c)
unfolding write_streams reset_idle_timer same
sent_together = (_, refl)

pub one-Consumes :
    (chunk : StreamChunk) (n : ℕ) (s : Small)
    → s.left ≡ n
    → Consumes small (λ (t : Small). t.left) chunk s.left (write_one n s).0 (write_one n s).1
one-Consumes chunk zero s e = tt
one-Consumes chunk (suc n) s e = omega arith

unfoldable pub small-Finite : Finite small
small-Finite = record {
  left = λ s. s.left;
  writes = λ chunk now s. one-Consumes chunk s.left s refl;
  reads = λ s. omega arith;
  offsets = λ id n s. omega arith;
}

three_to_write : small-Finite.left three_left.quic < 5
unfolding small-Finite
three_to_write = omega arith

write_streams-carries_example :
    (write_streams small true 2 2 50 5 three_left ≢ exhausted)
    × AllCarried small true 2 2 50 small-Logged three_left
        (write_streams small true 2 2 50 5 three_left)
write_streams-carries_example =
    write_streams-carries small true 2 2 50 small-Logged small-Finite 5 three_left three_to_write

-- A packet, a write, a packet that is refused, and one in the closing period.
abbrev events : List Event
events =
    packet_arrives (1 ∷ []) 40
    ∷ writable 9 50
    ∷ packet_arrives [] 60
    ∷ packet_arrives (1 ∷ []) 70
    ∷ []

abbrev kept_or : Conn Small → Fate Small → Conn Small
kept_or c (kept d) = d
kept_or c (removed d) = c
kept_or c crashes = c
kept_or c spins = c

abbrev state_after : Event → Conn Small → Conn Small
state_after e c = kept_or c (run_event small true 2 2 e c)

fueled :
    (e : Event) (es : List Event) (c : Conn Small)
    → HasFuel small true 2 2 small-Finite e c
    → AllHaveFuel small true 2 2 small-Finite es (state_after e c)
    → AllHaveFuel small true 2 2 small-Finite (e ∷ es) c
fueled e es c h r =
    (h, λ d k. subst (AllHaveFuel small true 2 2 small-Finite es) (ap (kept_or c) k) r)

after_first : Conn Small
after_first = state_after (packet_arrives (1 ∷ []) 40) three_left

enough_to_write : small-Finite.left after_first.quic < 9
unfolding small-Finite after_first run_event on_read reset_idle_timer
enough_to_write = omega arith

events-AllHaveFuel : AllHaveFuel small true 2 2 small-Finite events three_left
unfolding after_first
events-AllHaveFuel =
    let second = state_after (writable 9 50) after_first in
    let third = state_after (packet_arrives [] 60) second in
    fueled (packet_arrives (1 ∷ []) 40)
      (writable 9 50 ∷ packet_arrives [] 60 ∷ packet_arrives (1 ∷ []) 70 ∷ []) three_left tt
      (fueled (writable 9 50) (packet_arrives [] 60 ∷ packet_arrives (1 ∷ []) 70 ∷ []) after_first
        enough_to_write
        (fueled (packet_arrives [] 60) (packet_arrives (1 ∷ []) 70 ∷ []) second tt
          (fueled (packet_arrives (1 ∷ []) 70) [] third tt tt)))

run_all-runs_example :
    (run_all small true 2 2 events three_left ≢ spins)
    × Refines small true 2 2 small-Closes small-Writes
        (omega arith)
        three_left
        (run_all small true 2 2 events three_left)
run_all-runs_example =
    run_all-runs small true 2 2 small-Closes small-Writes small-Finite (omega arith) events
      three_left events-AllHaveFuel (not_closing small three_left refl)

closes_twice : (c : Conn Small) × (run_all small true 2 2 events three_left ≡ kept c)
unfolding run_all run_event on_read handle_error send_conn_close write_streams reset_idle_timer same
    schedule_retransmit
closes_twice = (_, refl)
