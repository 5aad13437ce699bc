-- ===== src/Server/Streams/Steps.antt =====
-- The steps of a connection's streams: each callback of ngtcp2 and nghttp3, in any order.
use quicsy.Prelude.{ℕ, ◌%◌, ◌==◌, ◌≡◌, if◌then◌else◌, Bool, true, false, Bytes, none, some, []}
use quicsy.Server.Response.{Config, Outside}
use quicsy.Server.Streams.{
  Streams, Push, on_stream_open, http_begin_request_headers, http_recv_request_header, Token,
  http_end_request_headers, http_end_stream, http_acked_stream_data, Closing, ok, fails,
  on_stream_close,
}

abbrev pub no_streams : Streams
no_streams = record { streams = λ id. none; calls = []; granted = 0 }

-- The streams, and for which of them nghttp3 has reported the end of the headers and of the request.
pub record Progress : Type 0 where
  pub served : Streams
  pub headers_ended : ℕ → Bool
  pub request_ended : ℕ → Bool

abbrev pub mark : ℕ → (ℕ → Bool) → ℕ → Bool
mark id m i = if i == id then true else m i

abbrev pub move : Progress → Streams → Progress
move r k = record r { served = k }

-- Requests come on the streams that the client opens in both directions, whose identifiers are the
-- multiples of 4, and for each of them, nghttp3 reports the end of the headers once and the end of the
-- request once.
pub data Step (out : Outside) (cfg : Config) (p : Push) : Progress → Progress → Type 0 where
  opens :
      {r : Progress} {k : Streams} (id : ℕ)
      → on_stream_open id r.served ≡ some k
      → Step out cfg p r (move r k)
  begins :
      {r : Progress} {k : Streams} (id : ℕ)
      → http_begin_request_headers id r.served ≡ some k
      → Step out cfg p r (move r k)
  header :
      {r : Progress} {k : Streams} (id : ℕ) (t : Token) (v : Bytes)
      → http_recv_request_header id t v r.served ≡ some k
      → Step out cfg p r (move r k)
  headers_end :
      {r : Progress} (id : ℕ)
      → id % 4 ≡ 0
      → r.headers_ended id ≡ false
      → Step out cfg p r (record r {
        served = (http_end_request_headers out cfg p id r.served).1;
        headers_ended = mark id r.headers_ended;
      })
  request_ends :
      {r : Progress} (id : ℕ)
      → id % 4 ≡ 0
      → r.request_ended id ≡ false
      → Step out cfg p r (record r {
        served = (http_end_stream out cfg p id r.served).1;
        request_ended = mark id r.request_ended;
      })
  acked :
      {r : Progress} {k : Streams} (id datalen : ℕ) (b : Bool)
      → http_acked_stream_data id datalen r.served ≡ some (k, b)
      → Step out cfg p r (move r k)
  closes :
      {r : Progress} {k : Streams} (c : Closing) (id : ℕ)
      → on_stream_close c id r.served ≡ ok k
      → Step out cfg p r (move r k)
  close_fails :
      {r : Progress} {k : Streams} (c : Closing) (id : ℕ)
      → on_stream_close c id r.served ≡ fails k
      → Step out cfg p r (move r k)

abbrev pub begin : Progress
begin = record { served = no_streams; headers_ended = λ id. false; request_ended = λ id. false }

pub data Reach (out : Outside) (cfg : Config) (p : Push) : Progress → Type 0 where
  start : Reach out cfg p begin
  next : {r t : Progress} → Reach out cfg p r → Step out cfg p r t → Reach out cfg p t
