-- ===== src/Server/Dyn.antt =====
-- Responses of generated bytes: `Stream::find_dyn_length`, `dyn_read_data`,
-- `Stream::http_acked_stream_data` and `Handler::http_acked_stream_data` of src/quicsy_server.cc.
pub mod Length
pub mod Flow
use quicsy.Prelude.{
  ℕ, ◌+◌, ◌-◌, ◌*◌, ◌/◌, ◌^◌, ◌&&◌, ◌||◌, ◌≡◌, refl, Bool, true, false, not, [], ◌∷◌, Bytes, codes,
  Option, none, some, ltb, leb, ◌==◌, if◌then◌else◌,
}
use Prim.Native.Nat.{min}

-- `for (auto it = std::begin(path) + 1; …)`, with `none` for -1.
unfoldable pub dyn_digits : ℕ → Bytes → ℕ → Option ℕ
dyn_digits max_dyn_length [] n = some n
dyn_digits max_dyn_length (c ∷ s) n =
    let next = dyn_digits max_dyn_length s (n * 10 + (c - b'0')) in
    if ltb c b'0' || ltb b'9' c
    then none
    else if ltb ((2 ^ 62 - 1 - (c - b'0')) / 10) n
    then none
    else if ltb max_dyn_length (n * 10 + (c - b'0'))
    then none
    else next

-- `assertion_fails` is the abort of `assert(path[0] == '/')`.
pub data DynLength : Type 0 where
  assertion_fails : DynLength
  not_dynamic : DynLength
  length_of : ℕ → DynLength

abbrev pub answer : Option ℕ → DynLength
answer none = not_dynamic
answer (some n) = length_of n

unfoldable pub find_dyn_length : ℕ → Bytes → DynLength
unfolding dyn_digits
find_dyn_length max_dyn_length [] = assertion_fails
find_dyn_length max_dyn_length (c ∷ s) =
    if c == b'/' then answer (dyn_digits max_dyn_length s 0) else assertion_fails

-- MAX_DYNBUFLEN, and the size of `dyn_buf`.
abbrev pub max_dynbuflen : ℕ
max_dynbuflen = 1024 * 1024

abbrev pub dyn_buf_size : ℕ
dyn_buf_size = 16 * 1024

-- The fields of `Stream` that the flow of a dynamic response uses.
pub record Stream : Type 0 where
  pub fd_open : Bool
  pub dynresp : Bool
  pub dyndataleft : ℕ
  pub dynbuflen : ℕ

-- What `dyn_read_data` answers to nghttp3: NGHTTP3_ERR_WOULDBLOCK, one vector of `len` bytes with or
-- without NGHTTP3_DATA_FLAG_EOF, or NGHTTP3_ERR_CALLBACK_FAILURE.
pub data Chunk : Type 0 where
  would_block : Chunk
  chunk : ℕ → Bool → Chunk
  callback_failure : Chunk

-- `trailers_ok` tells whether `nghttp3_conn_submit_trailers` returns 0.
unfoldable pub dyn_read_data : Bool → Stream → Chunk × Stream
dyn_read_data trailers_ok s =
    if ltb max_dynbuflen s.dynbuflen
    then (would_block, s)
    else (let len = min dyn_buf_size s.dyndataleft in
        let s' = record s { dynbuflen = s.dynbuflen + len; dyndataleft = s.dyndataleft - len } in
        if not (s.dyndataleft - len == 0)
        then (chunk len false, s')
        else if trailers_ok
        then (chunk len true, s')
        else (callback_failure, s'))

-- `Stream::http_acked_stream_data`; `none` is the abort of `assert(dynbuflen >= datalen)`.
unfoldable pub stream_acked : Stream → ℕ → Option Stream
stream_acked s datalen =
    if not s.dynresp
    then some s
    else if leb datalen s.dynbuflen
    then some (record s { dynbuflen = s.dynbuflen - datalen })
    else none

-- Whether `Handler::http_acked_stream_data` calls `nghttp3_conn_resume_stream`.
unfoldable pub resumes : Stream → Bool
resumes s = not s.fd_open && ltb s.dynbuflen (max_dynbuflen - 16384)

-- The lookup of the stream is the caller's; the Boolean is the call of `nghttp3_conn_resume_stream`.
unfoldable pub handler_acked : Stream → ℕ → Option (Stream × Bool)
unfolding stream_acked resumes
handler_acked s datalen = answer_acked (stream_acked s datalen)
  where
    answer_acked : Option Stream → Option (Stream × Bool)
    answer_acked none = none
    answer_acked (some t) = some (t, resumes t)

million : find_dyn_length (1024 * 1024) (codes "/1000000") ≡ length_of 1000000
unfolding find_dyn_length
million = refl
