-- ===== src/Client/Tests.antt =====
-- The theorems on the client at concrete inputs.
use quicsy.Prelude.{
  ℕ, zero, suc, ◌+◌, ◌≡◌, ◌↔◌, refl, arith, true, false, Bytes, codes, Option, none, some, [], ◌∷◌,
  map, List, length, ◌⊎◌, inl, inr, ◌==◌, Bool, if◌then◌else◌,
}
use quicsy.Server.Conn.{transport, send_blocked}
use quicsy.Server.Conn.Tests.{Small, small}
use quicsy.Client.Write.{
  SendTo, all_sent, would_block, Client, returns, send_packet, reset_idle_timer, write_streams,
  schedule_retransmit, on_write,
}
use quicsy.Client.Params.{Params, write_transport_params, read_transport_params}
use quicsy.Client.Params.RoundTrip.{read_transport_params-write}
use quicsy.Client.Download.{Request, Stream, new_stream, opened, open_file}
use quicsy.Client.Download.Inside.{Downloads, open_file-Downloads}
use quicsy.Client.Received.{Session, find_stream}
use quicsy.Client.Received.Saved.{Receptions, receive_all, WritesTo, AreApart, receive_all-saved}
use quicsy.Client.Requests.{
  Opening, stream_id, id_blocked, Http, Config, make_stream_early, on_extend_max_streams,
  open_streams, submit_http_request,
}
use quicsy.Client.Requests.InTurn.{Served, turns, one_stream, all_streams, open-Served}

-- The second packet meets a full socket.
abbrev second_blocks : ℕ → SendTo
second_blocks zero = all_sent
second_blocks (suc zero) = would_block
second_blocks (suc (suc n)) = all_sent

abbrev starting : Client Small
starting = record {
  quic = record { closing = false; left = 3; log = [] };
  remote = [];
  last_error = record { type = transport; code = 0 };
  sendbuf = [];
  timer = none;
  rttimer = none;
  wev = false;
  should_exit = false;
  stopped = false;
  tries = 0;
  sent = [];
}

-- The first packet is sent, the second waits.
one_waits :
    (c : Client Small) × (on_write small second_blocks 1 2 2 50 5 starting ≡ returns send_blocked c)
    × (c.sendbuf ≡ 1 ∷ 9 ∷ [])
unfolding on_write write_streams send_packet reset_idle_timer schedule_retransmit
one_waits = (_, refl, refl)

abbrev kept_params : Params
kept_params = record {
  initial_max_streams_bidi = 100;
  initial_max_streams_uni = 3;
  initial_max_stream_data_bidi_local = 262144;
  initial_max_stream_data_bidi_remote = 0;
  initial_max_stream_data_uni = 18446744073709551615;
  initial_max_data = 1048576;
}

abbrev no_params : Params
no_params = record {
  initial_max_streams_bidi = 0;
  initial_max_streams_uni = 0;
  initial_max_stream_data_bidi_local = 0;
  initial_max_stream_data_bidi_remote = 0;
  initial_max_stream_data_uni = 0;
  initial_max_data = 0;
}

read_transport_params-write_example :
    read_transport_params (some (write_transport_params kept_params)) no_params ≡ some kept_params
read_transport_params-write_example =
    read_transport_params-write kept_params no_params
      (omega arith, omega arith, omega arith, omega arith, omega arith, omega arith)

abbrev get_index : Request
get_index = record {
  scheme = codes "https";
  authority = codes "localhost";
  path = codes "/a/../index.html";
}

abbrev get_other : Request
get_other = record { scheme = codes "https"; authority = codes "localhost"; path = codes "/" }

-- Every file can be opened.
abbrev opens_all : Bytes → Option ℕ
opens_all fname = some 5

abbrev index_stream : Stream
index_stream = record { req = get_index; stream_id = 4; fd = some 5 }

open_file-Downloads_example :
    (open_file opens_all (codes "dl") get_index.path (new_stream get_index 4) ≡ opened index_stream)
    ↔ ((b : Bytes) × Downloads opens_all
          (codes "dl")
          get_index.path
          (new_stream get_index 4)
          b
          index_stream)
open_file-Downloads_example =
    open_file-Downloads opens_all (codes "dl") get_index.path (new_stream get_index 4) index_stream
      refl

index_opened :
    open_file opens_all (codes "dl") get_index.path (new_stream get_index 4) ≡ opened index_stream
unfolding open_file
index_opened = refl

-- `n` is the number of the next stream; ten are allowed.
abbrev counting : Http
counting = record {
  State = ℕ;
  open_bidi_stream = λ n. (stream_id n, n + 4);
  setup_httpconn = λ n. (true, n);
  submit_request = λ id hs d n. (true, n);
}

abbrev two_requests : Config
two_requests = record {
  http_method = codes "GET";
  fd = none;
  datalen = 0;
  download = codes "dl";
  requests = get_index ∷ get_other ∷ [];
  nstreams = 3;
}

abbrev before : quicsy.Client.Requests.Client ℕ
before = record {
  http = 0;
  delayed = false;
  nstreams_done = 0;
  streams = [];
  submitted = [];
  failures = [];
}

nothing_asked : map (λ e. e.1) before.submitted ≡ turns counting opens_all two_requests 0
unfolding turns
nothing_asked = refl

open-Served_example :
    Served counting opens_all two_requests
      (one_stream counting opens_all two_requests before)
      []
      (make_stream_early counting opens_all two_requests before)
    × Served counting opens_all two_requests
        (all_streams counting opens_all two_requests before)
        []
        (on_extend_max_streams counting opens_all two_requests before)
open-Served_example =
    open-Served counting opens_all two_requests before (nothing_asked, omega arith)

-- Three streams carry the two requests in turn.
three_turns :
    (c : quicsy.Client.Requests.Client ℕ) × (on_extend_max_streams counting opens_all two_requests
        before
      ≡ quicsy.Client.Requests.returns c)
    × (c.nstreams_done ≡ 3)
    × (map (λ e. e.0) c.submitted ≡ 8 ∷ 4 ∷ 0 ∷ [])
unfolding on_extend_max_streams open_streams submit_http_request open_file
three_turns = (_, refl, refl, refl)

abbrev other_stream : Stream
other_stream = record { req = get_other; stream_id = 8; fd = some 6 }

abbrev two_streams : List Stream
two_streams = index_stream ∷ other_stream ∷ []

abbrev receiving : Session
receiving = record {
  streams = two_streams;
  files = λ n. [];
  writes = 0;
  stream_credit = λ n. 0;
  offset_credit = 0;
  uni_credit = 0;
  should_exit = false;
  closed = [];
  app_error = none;
}

abbrev takes_all : ℕ → Bytes → ℕ
takes_all n b = length b

-- The two responses are interleaved.
abbrev two_responses : Receptions
two_responses = (4, 1 ∷ 2 ∷ []) ∷ (8, 7 ∷ []) ∷ (4, 3 ∷ []) ∷ []

first_writes : WritesTo two_streams 4 5
unfolding find_stream
first_writes = (index_stream, refl, refl)

chosen_fd :
    (a b : Bool) (fd : ℕ) (stream : Stream)
    → (if a then some index_stream else if b then some other_stream else none) ≡ some stream
    → stream.fd ≡ some fd
    → ((a ≡ true) × (fd ≡ 5)) ⊎ ((b ≡ true) × (fd ≡ 6))
chosen_fd true b fd stream f e = inl (refl, cc (f, e))
chosen_fd false true fd stream f e = inr (refl, cc (f, e))
chosen_fd false false fd stream f e = absurd (cc f)

one_of_two :
    (i fd : ℕ)
    → WritesTo two_streams i fd
    → (((4 == i) ≡ true) × (fd ≡ 5)) ⊎ (((8 == i) ≡ true) × (fd ≡ 6))
unfolding find_stream
one_of_two i fd (stream, f, e) = chosen_fd (4 == i) (8 == i) fd stream f e

two-AreApart : AreApart two_streams
two-AreApart i j fd w v = ground (arith, one_of_two i fd w, one_of_two j fd v)

receive_all-saved_example : (receive_all takes_all two_responses receiving).files 5 ≡ 1 ∷ 2 ∷ 3 ∷ []
receive_all-saved_example =
    receive_all-saved takes_all (λ n b. refl) two_responses receiving 4 5 first_writes two-AreApart
