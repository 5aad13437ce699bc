-- ===== src/Client/Received.antt =====
-- What `Client` does with received data and closed streams, in src/quicsy_client.cc:
-- `http_recv_data`, `http_consume`, `http_write_data`, `http_stream_close` and `on_stream_close`.
pub mod Saved
use quicsy.Prelude.{
  ℕ, suc, ◌+◌, ◌/◌, ◌%◌, Bool, true, false, not, Bytes, Option, none, some, List, [], ◌∷◌, ◌++◌,
  ◌==◌, if◌then◌else◌, length, take,
}
use quicsy.Client.Download.{Stream}

-- `files` has the bytes written at each descriptor, and `writes` counts the calls of `write`. The
-- credits are what the calls of `ngtcp2_conn_extend_max_…` sum up to; `closed` has the descriptors that
-- are closed, and `app_error` is the number that `quic_err_app` makes `last_error_` of.
pub record Session : Type 0 where
  pub streams : List Stream
  pub files : ℕ → Bytes
  pub writes : ℕ
  pub stream_credit : ℕ → ℕ
  pub offset_credit : ℕ
  pub uni_credit : ℕ
  pub should_exit : Bool
  pub closed : List ℕ
  pub app_error : Option ℕ

-- `streams_.find`.
unfoldable pub find_stream : ℕ → List Stream → Option Stream
find_stream id [] = none
find_stream id (s ∷ ss) = let rest = find_stream id ss in if s.stream_id == id then some s else rest

abbrev pub erase_stream : ℕ → List Stream → List Stream
erase_stream id [] = []
erase_stream id (s ∷ ss) = if s.stream_id == id then ss else s ∷ erase_stream id ss

abbrev pub append_at : ℕ → Bytes → (ℕ → Bytes) → ℕ → Bytes
append_at fd bytes files n = if n == fd then files n ++ bytes else files n

abbrev pub add_at : ℕ → ℕ → (ℕ → ℕ) → ℕ → ℕ
add_at id n credit k = if k == id then credit k + n else credit k

unfoldable pub http_consume : ℕ → ℕ → Session → Session
http_consume id nconsumed s = record s {
  stream_credit = add_at id nconsumed s.stream_credit;
  offset_credit = s.offset_credit + nconsumed;
}

-- `accepts` is the number of bytes that the loop of `http_write_data` writes: what the first call of
-- `write` takes that is not interrupted (EINTR), 0 when it fails.
module _ (accepts : ℕ → Bytes → ℕ) where
  abbrev pub write_at : Option ℕ → Bytes → Session → Session
  write_at none contents s = s
  write_at (some fd) contents s = record s {
    files = append_at fd (take (accepts s.writes contents) contents) s.files;
    writes = s.writes + 1;
  }

  abbrev pub write_found : Option Stream → Bytes → Session → Session
  write_found none contents s = s
  write_found (some stream) contents s = write_at stream.fd contents s

  unfoldable pub http_write_data : ℕ → Bytes → Session → Session
  unfolding find_stream
  http_write_data id contents s = write_found (find_stream id s.streams) contents s

  unfoldable pub http_recv_data : ℕ → Bytes → Session → Session
  unfolding http_consume http_write_data
  http_recv_data id contents s = http_write_data id contents (http_consume id (length contents) s)

-- `ngtcp2_is_bidi_stream` and, for a client, `ngtcp2_conn_is_local_stream`.
abbrev pub is_bidi : ℕ → Bool
is_bidi id = id / 2 % 2 == 0

abbrev pub is_local : ℕ → Bool
is_local id = id % 2 == 0

-- `none` where the assertion fails, that a stream in one direction is the server's.
abbrev pub grant_uni : ℕ → Session → Option Session
grant_uni id s =
    if is_bidi id
    then some s
    else if is_local id
    then none
    else some (record s { uni_credit = s.uni_credit + 1 })

-- `Stream::~Stream`.
abbrev pub close_fd : Option ℕ → List ℕ → List ℕ
close_fd none fds = fds
close_fd (some fd) fds = fd ∷ fds

abbrev pub close_found : Option Stream → List ℕ → List ℕ
close_found none fds = fds
close_found (some stream) fds = close_fd stream.fd fds

abbrev pub closed_stream : ℕ → Option Session → Option Session
closed_stream id none = none
closed_stream id (some s) = some (record s {
  streams = erase_stream id s.streams;
  closed = close_found (find_stream id s.streams) s.closed;
})

-- `exit_first` is `config.exit_on_first_stream_close`.
unfoldable pub http_stream_close : Bool → ℕ → Session → Option Session
unfolding find_stream
http_stream_close exit_first id s =
    closed_stream id
      (grant_uni id (record s { should_exit = if exit_first then true else s.should_exit }))

-- What `nghttp3_conn_close_stream` answers: 0, with a call of `http_stream_close` or without,
-- NGHTTP3_ERR_STREAM_NOT_FOUND, or another error.
pub data Closing : Type 0 where
  closes : Bool → Closing
  not_found : Closing
  close_fails : ℕ → Closing

-- With false for -1.
abbrev pub close_ok : Option Session → Option (Bool × Session)
close_ok none = none
close_ok (some s) = some (true, s)

-- `httpconn` is the answer of nghttp3, when there is an HTTP connection.
unfoldable pub on_stream_close : Option Closing → Bool → ℕ → Session → Option (Bool × Session)
unfolding http_stream_close
on_stream_close none exit_first id s = some (true, s)
on_stream_close (some (closes true)) exit_first id s = close_ok (http_stream_close exit_first id s)
on_stream_close (some (closes false)) exit_first id s = some (true, s)
on_stream_close (some not_found) exit_first id s = close_ok (grant_uni id s)
on_stream_close (some (close_fails e)) exit_first id s =
    some (false, record s { app_error = some e })
