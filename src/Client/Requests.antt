-- ===== src/Client/Requests.antt =====
-- `make_stream_early`, `on_extend_max_streams` and `submit_http_request` of `Client` in
-- src/quicsy_client.cc. `Http` has the calls of ngtcp2 and nghttp3.
pub mod InTurn
use quicsy.Prelude.{
  ℕ, zero, suc, ◌+◌, ◌-◌, ◌%◌, Bool, true, false, Bytes, codes, Option, none, some, List, [], ◌∷◌,
  ◌++◌, ◌==◌, ltb, if◌then◌else◌, length, get_elem?,
}
use quicsy.Util.Number.{format_uint}
use quicsy.Server.Response.{Header}
use quicsy.Client.Download.{
  Request, Stream, new_stream, Opened, opened, not_opened, already_open, open_file,
}

-- `ngtcp2_conn_open_bidi_stream`: the number of the stream, NGTCP2_ERR_STREAM_ID_BLOCKED, or another
-- error.
pub data Opening : Type 0 where
  stream_id : ℕ → Opening
  id_blocked open_error : Opening

-- `submit_request` answers whether the call succeeds; its Boolean is the presence of a data reader.
pub record Http : Type 1 where
  pub State : Type 0
  pub open_bidi_stream : State → Opening × State
  pub setup_httpconn : State → Bool × State
  pub submit_request : ℕ → List Header → Bool → State → Bool × State

pub record Config : Type 0 where
  pub http_method : Bytes
  pub fd : Option ℕ
  pub datalen : ℕ
  pub download : Bytes
  pub requests : List Request
  pub nstreams : ℕ

-- The calls that fail.
pub data Failure : Type 0 where
  open_blocked open_failed setup_failed submit_failed : Failure

-- `submitted` has the requests that nghttp3 took, and `failures` the calls that failed, latest first.
pub record Client (S : Type 0) : Type 0 where
  pub http : S
  pub delayed : Bool
  pub nstreams_done : ℕ
  pub streams : List Stream
  pub submitted : List (ℕ × List Header)
  pub failures : List Failure

-- `divides_by_zero`: `% config.requests.size()` without a request.
pub data Outcome (S : Type 0) : Type 0 where
  returns aborts : Client S → Outcome S
  divides_by_zero : Outcome S

-- A stream is made, or the function is left.
pub data Attempt (S : Type 0) : Type 0 where
  made : Client S → Attempt S
  left : Outcome S → Attempt S

-- `config.requests[n % config.requests.size()]`.
abbrev pub request_at : List Request → ℕ → Option Request
request_at [] n = none
request_at (r ∷ rs) n = get_elem? (r ∷ rs) (n % length (r ∷ rs))

abbrev pub has_stream : ℕ → List Stream → Bool
has_stream id [] = false
has_stream id (s ∷ ss) = if s.stream_id == id then true else has_stream id ss

-- `streams_.emplace`.
abbrev pub emplace : Stream → List Stream → List Stream
emplace s ss = if has_stream s.stream_id ss then ss else s ∷ ss

abbrev pub length_header : Option ℕ → ℕ → List Header
length_header none datalen = []
length_header (some fd) datalen = (codes "content-length", format_uint datalen) ∷ []

abbrev pub has_data : Option ℕ → Bool
has_data none = false
has_data (some fd) = true

abbrev pub request_headers : Config → Request → List Header
request_headers cfg req =
    (codes ":method", cfg.http_method)
    ∷ (codes ":scheme", req.scheme)
    ∷ (codes ":authority", req.authority)
    ∷ (codes ":path", req.path)
    ∷ (codes "user-agent", codes "nghttp3/ngtcp2 client")
    ∷ length_header cfg.fd cfg.datalen

module _ (h : Http) (open_fd : Bytes → Option ℕ) (cfg : Config) where
  open h use {State, open_bidi_stream, setup_httpconn, submit_request}

  abbrev pub fail : Failure → Client State → Client State
  fail f c = record c { failures = f ∷ c.failures }

  abbrev pub after_submit : Bool × State → Stream → Client State → Bool × Client State
  after_submit (false, s) stream c = (false, fail submit_failed (record c { http = s }))
  after_submit (true, s) stream c = (
    true,
    record c {
      http = s;
      submitted = (stream.stream_id, request_headers cfg stream.req) ∷ c.submitted;
    },
  )

  unfoldable pub submit_http_request : Stream → Client State → Bool × Client State
  submit_http_request stream c =
      after_submit
        (submit_request stream.stream_id (request_headers cfg stream.req) (has_data cfg.fd) c.http)
        stream c

  abbrev pub after_open : Opened → Client State → Attempt State
  after_open (opened stream) c = made (record c { streams = emplace stream c.streams })
  after_open (not_opened stream) c = made (record c { streams = emplace stream c.streams })
  after_open already_open c = left (aborts c)

  -- `if (!config.download.empty()) { stream->open_file(…); }`
  abbrev pub download_to : Bytes → Stream → Opened
  download_to [] stream = not_opened stream
  download_to (b ∷ dir) stream = open_file open_fd (b ∷ dir) stream.req.path stream

  abbrev pub if_submitted : Bool × Client State → Stream → Attempt State
  if_submitted (false, c) stream = left (returns c)
  if_submitted (true, c) stream = after_open (download_to cfg.download stream) c

  abbrev pub serve : Option Request → ℕ → Client State → Attempt State
  serve none id c = left divides_by_zero
  serve (some req) id c =
      if_submitted (submit_http_request (new_stream req id) c) (new_stream req id)

  -- The body of the loop, behind `ngtcp2_conn_open_bidi_stream`.
  abbrev pub open_next : Opening × State → Client State → Attempt State
  open_next (id_blocked, s) c = left (returns (fail open_blocked (record c { http = s })))
  open_next (open_error, s) c = left (aborts (fail open_failed (record c { http = s })))
  open_next (stream_id id, s) c =
      serve (request_at cfg.requests c.nstreams_done) id (record c { http = s })

  abbrev pub count_one : Client State → Client State
  count_one c = record c { nstreams_done = c.nstreams_done + 1 }

  abbrev pub go_on : (Client State → Outcome State) → Attempt State → Outcome State
  go_on next (made c) = next (count_one c)
  go_on next (left r) = r

  -- The loop of `on_extend_max_streams`, with the rounds that are to come.
  unfoldable pub open_streams : ℕ → Client State → Outcome State
  unfolding submit_http_request open_file
  open_streams zero c = returns c
  open_streams (suc rounds) c = go_on (open_streams rounds) (open_next (open_bidi_stream c.http) c)

  unfoldable pub on_extend_max_streams : Client State → Outcome State
  unfolding open_streams
  on_extend_max_streams c =
      if c.delayed then returns c else open_streams (cfg.nstreams - c.nstreams_done) c

  -- `if (setup_httpconn() != 0) { return; }`
  abbrev pub if_set_up : Bool × State → ℕ → Client State → Attempt State
  if_set_up (false, s) id c = left (returns (fail setup_failed (record c { http = s })))
  if_set_up (true, s) id c =
      serve (request_at cfg.requests c.nstreams_done) id (record c { http = s })

  abbrev pub open_first : Opening × State → Client State → Attempt State
  open_first (stream_id id, s) c = if_set_up (setup_httpconn s) id (record c { http = s })
  open_first (id_blocked, s) c = left (returns (fail open_blocked (record c { http = s })))
  open_first (open_error, s) c = left (returns (fail open_failed (record c { http = s })))

  unfoldable pub make_stream_early : Client State → Outcome State
  unfolding submit_http_request open_file
  make_stream_early c =
      if ltb c.nstreams_done cfg.nstreams
      then go_on returns (open_first (open_bidi_stream c.http) c)
      else returns c
