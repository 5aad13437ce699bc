-- ===== src/Server/Streams.antt =====
-- The streams of a connection: `Handler::streams_` with `on_stream_open`, `push_content`,
-- `start_response`, the callbacks of nghttp3 for a request, the acknowledgements and the two ways in
-- which a stream is closed, of src/quicsy_server.cc.
pub mod Steps
pub mod Held
pub mod Answers
pub mod Free
pub mod Reachable
pub mod Keeps
pub mod Contents
pub mod Ends
pub mod Credit
pub mod Tests
use quicsy.Prelude.{
  ℕ, zero, suc, ◌%◌, ◌/◌, ◌+◌, ◌-◌, ◌≡◌, ◌&&◌, Bool, true, false, not, Bytes, codes, Option, none,
  some, List, [], ◌∷◌, ltb, leb, ◌==◌, if◌then◌else◌,
}
use quicsy.Server.Dyn
use quicsy.Server.Dyn.{handler_acked}
use quicsy.Server.Response.{
  Stream, new_stream, Call, unmapped, closed, push_promise, open_uni_stream, bind_push_stream,
  set_user_data, submit_response, Config, Outside, Work, call, Answer, failed, done, aborts,
  dangles, exhausted, Prepared, answered, ready, prepare, Reader, read_data, dyn_read_data,
  finish_response, submit, response_headers, request_of_stream, is_empty,
}

-- `streams_`, the calls made so far, and how many streams the peer was granted by
-- `ngtcp2_conn_extend_max_streams_bidi`.
pub record Streams : Type 0 where
  pub streams : ℕ → Option Stream
  pub calls : List Call
  pub granted : ℕ

abbrev pub put : ℕ → Option Stream → (ℕ → Option Stream) → ℕ → Option Stream
put id o m i = if i == id then o else m i

-- The stream in work goes back into the map.
abbrev pub store : ℕ → Work → Streams → Streams
store id w h = record h { streams = put id (some w.stream) h.streams; calls = w.calls }

abbrev pub work_on : Stream → Streams → Work
work_on s h = record { stream = s; calls = h.calls }

-- `ngtcp2_is_bidi_stream`: bit 1 is clear.
unfoldable pub is_bidi_stream : ℕ → Bool
is_bidi_stream id = (id / 2) % 2 == 0

-- `emplace`, which keeps a stream that is there.
abbrev pub emplace_stream : ℕ → Stream → Option Stream → Streams → Streams
emplace_stream id s none h = record h { streams = put id (some s) h.streams }
emplace_stream id s (some t) h = h

-- `none` is the abort of `assert(it == std::end(streams_))`.
abbrev pub open_new : ℕ → Option Stream → Streams → Option Streams
open_new id none h = some (record h { streams = put id (some (new_stream id)) h.streams })
open_new id (some t) h = none

unfoldable pub on_stream_open : ℕ → Streams → Option Streams
unfolding is_bidi_stream
on_stream_open id h = if not (is_bidi_stream id) then some h else open_new id (h.streams id) h

-- `Stream::~Stream`.
abbrev pub close_fd : Option ℕ → List Call → List Call
close_fd none calls = calls
close_fd (some fd) calls = closed fd ∷ calls

unfoldable pub destroy : Stream → List Call → List Call
destroy s calls = close_fd s.fd (if s.mmapped then unmapped s.datalen ∷ calls else calls)

-- What a push of nghttp3 or a new stream of ngtcp2 answers: an identifier, that none is left, or
-- another error.
pub data Issue : Type 0 where
  issued : ℕ → Issue
  blocked : Issue
  refused : Issue

pub record Push : Type 0 where
  pub promise : List Call → ℕ → Issue
  pub open_uni : List Call → Issue

abbrev pub note : Call → Streams → Streams
note c h = record h { calls = c ∷ h.calls }

module _ (out : Outside) (cfg : Config) (p : Push) where
  open out use {succeeds}

  -- The end of `start_response`, behind the pushes.
  unfoldable pub send_ready : ℕ → Bytes → Reader → Work → Answer × Work
  unfolding submit finish_response
  send_ready content_length content_type read_data =
      submit out cfg (response_headers (codes "200") content_type content_length) read_data
        (finish_response out cfg)
  send_ready content_length content_type dyn_read_data =
      submit out cfg (response_headers (codes "200") content_type content_length) dyn_read_data
        (λ w. (done, w))

  abbrev pub finish : ℕ → Answer × Work → Streams → Answer × Streams
  finish id r h = (r.0, store id r.1 h)

  -- A stream that the pushes leave in the map; it is never gone, since nothing is erased meanwhile.
  abbrev pub resume : ℕ → ℕ → Bytes → Reader → Option Stream → Streams → Answer × Streams
  resume id content_length content_type reader none h = (failed, h)
  resume id content_length content_type reader (some s) h =
      finish id (send_ready content_length content_type reader (work_on s h)) h

  -- `return -1` when a push fails.
  abbrev pub continue_after : (Streams → Answer × Streams) → Answer × Streams → Answer × Streams
  continue_after next (done, h) = next h
  continue_after next (failed, h) = (failed, h)
  continue_after next (aborts, h) = (aborts, h)
  continue_after next (dangles, h) = (dangles, h)
  continue_after next (exhausted, h) = (exhausted, h)

  -- `for (const auto &push : req.pushes)`, with `push_content` as `push`.
  abbrev pub push_all :
      (Bytes → Streams → Answer × Streams) → List Bytes → Streams → Answer × Streams
  push_all push [] h = (done, h)
  push_all push (path ∷ paths) h = continue_after (push_all push paths) (push path h)

  -- `if ((stream_id & 0x3) == 0 && !authority.empty())`.
  abbrev pub wants_pushes : Stream → Bool
  wants_pushes s = s.stream_id % 4 == 0 && not (is_empty s.authority)

  abbrev pub pushes_of_stream : Stream → List Bytes
  pushes_of_stream s = if wants_pushes s then (request_of_stream out cfg s).pushes else []

  -- `Stream::start_response` behind its first half, with the stream back in the map.
  abbrev pub after_prepare :
      (Bytes → Streams → Answer × Streams) → ℕ → List Bytes → Prepared → Streams → Answer × Streams
  after_prepare push id pushes (answered a) h = (a, h)
  after_prepare push id pushes (ready content_length content_type reader) h =
      continue_after (λ k. resume id content_length content_type reader (k.streams id) k)
        (push_all push pushes h)

  -- `push_content` ignores what `start_response` returns.
  abbrev pub ignore_failure : Answer × Streams → Answer × Streams
  ignore_failure (failed, h) = (done, h)
  ignore_failure (done, h) = (done, h)
  ignore_failure (aborts, h) = (aborts, h)
  ignore_failure (dangles, h) = (dangles, h)
  ignore_failure (exhausted, h) = (exhausted, h)

  abbrev pub pushed_stream : ℕ → Bytes → Bytes → Stream
  pushed_stream id authority path = record (new_stream id) {
    uri = path;
    method = codes "GET";
    authority = authority;
  }

  -- Behind `nghttp3_conn_bind_push_stream`. `start` is `start_response` of the new stream.
  abbrev pub start_pushed :
      (ℕ → Streams → Answer × Streams) → ℕ → Bytes → Bytes → Bool → Streams → Answer × Streams
  start_pushed start id authority path false h = (failed, h)
  start_pushed start id authority path true h = ignore_failure (
      start id (
        note (set_user_data id)
          (record h { streams = put id (some (pushed_stream id authority path)) h.streams })))

  -- Behind the new stream in the map; where `emplace` finds one there, the pointer `stream` dangles.
  abbrev pub bind_pushed :
      (ℕ → Streams → Answer × Streams)
      → ℕ
      → ℕ
      → Bytes
      → Bytes
      → Option Stream
      → Streams
      → Answer × Streams
  bind_pushed start push_id id authority path (some s) h = (dangles, h)
  bind_pushed start push_id id authority path none h =
      start_pushed start id authority path (succeeds h.calls (bind_push_stream push_id id)) (
        note (bind_push_stream push_id id)
          (record h { streams = put id (some (new_stream id)) h.streams }))

  abbrev pub with_push_stream :
      (ℕ → Streams → Answer × Streams) → ℕ → Bytes → Bytes → Issue → Streams → Answer × Streams
  with_push_stream start push_id authority path (issued id) h =
      bind_pushed start push_id id authority path (h.streams id) h
  with_push_stream start push_id authority path blocked h = (done, h)
  with_push_stream start push_id authority path refused h = (failed, h)

  abbrev pub with_promise :
      (ℕ → Streams → Answer × Streams) → Bytes → Bytes → Issue → Streams → Answer × Streams
  with_promise start authority path (issued push_id) h =
      with_push_stream start push_id authority path (p.open_uni h.calls) (note open_uni_stream h)
  with_promise start authority path blocked h = (done, h)
  with_promise start authority path refused h = (failed, h)

  unfoldable pub push_content :
      (ℕ → Streams → Answer × Streams) → ℕ → Bytes → Bytes → Streams → Answer × Streams
  push_content start stream_id authority path h =
      with_promise start authority path (p.promise h.calls stream_id)
        (note (push_promise stream_id authority path) h)

  abbrev pub start_found :
      (ℕ → Streams → Answer × Streams) → ℕ → Option Stream → Streams → Answer × Streams
  start_found start id none h = (aborts, h)
  start_found start id (some s) h =
      let r = prepare out cfg (work_on s h) in
      after_prepare (push_content start id s.authority) id (pushes_of_stream s) r.0 (store id r.1 h)

  -- `Handler::start_response`. A pushed stream pushes nothing, so fuel 2 is enough for a request.
  unfoldable pub start_response : ℕ → ℕ → Streams → Answer × Streams
  unfolding push_content send_ready
  start_response zero id h = (exhausted, h)
  start_response (suc fuel) id h = start_found (start_response fuel) id (h.streams id) h

  -- `Handler::http_end_request_headers` and `Handler::http_end_stream`.
  unfoldable pub http_end_request_headers : ℕ → Streams → Answer × Streams
  unfolding start_response
  http_end_request_headers id h = if cfg.early_response then start_response 2 id h else (done, h)

  unfoldable pub http_end_stream : ℕ → Streams → Answer × Streams
  unfolding start_response
  http_end_stream id h = if cfg.early_response then (done, h) else start_response 2 id h

abbrev is_some : Option ℕ → Bool
is_some none = false
is_some (some fd) = true

-- The header fields that the code keeps of a request.
pub data Token : Type 0 where
  path method authority other_token : Token

abbrev pub set_header : Token → Bytes → Stream → Stream
set_header path v s = record s { uri = v }
set_header method v s = record s { method = v }
set_header authority v s = record s { authority = v }
set_header other_token v s = s

-- `none` is the abort of `assert(it != std::end(streams_))`, here and below.
abbrev pub update : (Stream → Stream) → ℕ → Option Stream → Streams → Option Streams
update f id none h = none
update f id (some s) h = some (record h { streams = put id (some (f s)) h.streams })

unfoldable pub http_recv_request_header : ℕ → Token → Bytes → Streams → Option Streams
http_recv_request_header id token v h = update (set_header token v) id (h.streams id) h

abbrev pub set_data : ℕ → Option Stream → Streams → Option Streams
set_data id none h = none
set_data id (some s) h = some (note (set_user_data id) h)

unfoldable pub http_begin_request_headers : ℕ → Streams → Option Streams
http_begin_request_headers id h = set_data id (h.streams id) h

-- The fields of a stream that the flow of generated bytes moves.
abbrev pub flow_of : Stream → Dyn.Stream
flow_of s = record {
  fd_open = is_some s.fd;
  dynresp = s.dynresp;
  dyndataleft = s.dyndataleft;
  dynbuflen = s.dynbuflen;
}

abbrev pub with_flow : Stream → Dyn.Stream → Stream
with_flow s f = record s { dyndataleft = f.dyndataleft; dynbuflen = f.dynbuflen }

-- `Handler::http_acked_stream_data`, with the Boolean for the call of `nghttp3_conn_resume_stream`.
abbrev pub acked_flow : ℕ → Stream → Option (Dyn.Stream × Bool) → Streams → Option (Streams × Bool)
acked_flow id s none h = none
acked_flow id s (some (f, b)) h =
    some (record h { streams = put id (some (with_flow s f)) h.streams }, b)

abbrev pub acked_found : ℕ → Option Stream → ℕ → Streams → Option (Streams × Bool)
acked_found id none datalen h = none
acked_found id (some s) datalen h = acked_flow id s (handler_acked (flow_of s) datalen) h

unfoldable pub http_acked_stream_data : ℕ → ℕ → Streams → Option (Streams × Bool)
unfolding handler_acked
http_acked_stream_data id datalen h = acked_found id (h.streams id) datalen h

-- Behind the lookup of `http_stream_close`: the stream is destroyed, and a stream of the client is
-- granted anew. `none` is the abort of `assert(!ngtcp2_conn_is_local_stream(…))`: bit 0 is set for a
-- stream that the server opened.
abbrev pub grant : ℕ → Streams → Option Streams
grant id h =
    if not (is_bidi_stream id)
    then some h
    else if id % 2 == 0
    then some (record h { granted = h.granted + 1 })
    else none

abbrev pub close_found : ℕ → Option Stream → Streams → Option Streams
close_found id none h = some h
close_found id (some s) h =
    grant id (record h { streams = put id none h.streams; calls = destroy s h.calls })

unfoldable pub http_stream_close : ℕ → Streams → Option Streams
unfolding destroy is_bidi_stream
http_stream_close id h = close_found id (h.streams id) h

-- What `nghttp3_conn_close_stream` answers: 0, when it has called `http_stream_close` for the stream or
-- not, NGHTTP3_ERR_STREAM_NOT_FOUND, or another error.
pub data Closing : Type 0 where
  closes : Bool → Closing
  not_found : Closing
  close_fails : Closing

-- What a callback that can fail answers: 0 or -1 with the state, or an abort.
pub data Outcome : Type 0 where
  ok fails : Streams → Outcome
  stopped : Outcome

abbrev pub ok_or_stopped : Option Streams → Outcome
ok_or_stopped none = stopped
ok_or_stopped (some h) = ok h

unfoldable pub on_stream_close : Closing → ℕ → Streams → Outcome
unfolding http_stream_close is_bidi_stream
on_stream_close (closes true) id h = ok_or_stopped (http_stream_close id h)
on_stream_close (closes false) id h = ok h
on_stream_close not_found id h = ok_or_stopped (grant id h)
on_stream_close close_fails id h = fails h
