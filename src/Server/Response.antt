-- ===== src/Server/Response.antt =====
-- The answer to a request: `make_status_body`, `Stream::open_file`, `Stream::map_file`,
-- `Stream::send_status_response`, `Stream::send_redirect_response` and `Stream::start_response` up to
-- the pushes of src/quicsy_server.cc.
pub mod Announced
pub mod Files
use quicsy.Prelude.{
  ℕ, ◌+◌, ◌-◌, ◌≡◌, Bool, true, false, not, ◌||◌, Bytes, codes, Option, none, some, List, [], ◌∷◌,
  ◌++◌, length, drop, ◌==◌, if◌then◌else◌,
}
use mathlib.Core.List.{reverse}
use quicsy.Prelude.Assoc.{Table, find, same}
use quicsy.Util.Number.{format_uint}
use quicsy.Server.Http.{get_reason_phrase}
use quicsy.Server.Path
use quicsy.Server.Path.{Url, request_path, resolve_path}
use quicsy.Server.Dyn.{DynLength, assertion_fails, not_dynamic, length_of, find_dyn_length}

abbrev pub Header : Type 0
Header = Bytes × Bytes

-- The `read_data` of an `nghttp3_data_reader`.
pub data Reader : Type 0 where
  read_data dyn_read_data : Reader

-- What the pointer `Stream::data` points to.
pub data Source : Type 0 where
  null mapping status_body : Source

pub record Stream : Type 0 where
  pub stream_id : ℕ
  pub uri : Bytes
  pub method : Bytes
  pub authority : Bytes
  pub status_resp_body : Bytes
  pub fd : Option ℕ
  pub source : Source
  pub datalen : ℕ
  pub dynresp : Bool
  pub dyndataleft : ℕ
  pub dynbuflen : ℕ
  pub mmapped : Bool

-- `Stream::Stream`.
abbrev pub new_stream : ℕ → Stream
new_stream id = record {
  stream_id = id;
  uri = [];
  method = [];
  authority = [];
  status_resp_body = [];
  fd = none;
  source = null;
  datalen = 0;
  dynresp = false;
  dyndataleft = 0;
  dynbuflen = 0;
  mmapped = false;
}

-- The calls of the system, of nghttp3 and of ngtcp2 that the code makes.
pub data Call : Type 0 where
  opened closed unmapped : ℕ → Call
  mapped : ℕ → ℕ → Call
  submit_response : ℕ → List Header → Reader → Call
  submit_trailers shutdown_read : ℕ → Call
  push_promise : ℕ → Bytes → Bytes → Call
  open_uni_stream : Call
  bind_push_stream : ℕ → ℕ → Call
  set_user_data : ℕ → Call

-- `config`, as far as it is read here.
pub record Config : Type 0 where
  pub htdocs : Bytes
  pub port : ℕ
  pub mime_types : Table Bytes
  pub max_dyn_length : ℕ
  pub early_response : Bool

-- The code outside: each call is answered from the calls before it, latest first. `fstat` has S_IFDIR
-- and the size, and `succeeds` tells whether a call that can fail returns 0.
pub record Outside : Type 0 where
  pub parse_url : Bytes → Bool → Option Url
  pub realpath : Bytes → Option Bytes
  pub open_read : List Call → Bytes → Option ℕ
  pub fstat : List Call → ℕ → Option (Bool × ℕ)
  pub mmap_succeeds : List Call → ℕ → ℕ → Bool
  pub succeeds : List Call → Call → Bool

-- A stream with the calls made so far, latest first.
pub record Work : Type 0 where
  pub stream : Stream
  pub calls : List Call

abbrev pub call : Call → Work → Work
call c w = record w { calls = c ∷ w.calls }

abbrev pub server_name : Bytes
server_name = codes "nghttp3/ngtcp2 server"

unfoldable pub make_status_body : ℕ → ℕ → Bytes
make_status_body port status_code =
    let line = format_uint status_code ++ (b' ' ∷ get_reason_phrase status_code) in
    codes "<html><head><title>"
    ++ (line
        ++ (codes "</title></head><body><h1>"
            ++ (line
                ++ (codes "</h1><hr><address>"
                    ++ (server_name
                        ++ (codes " at port "
                            ++ (format_uint port
                                ++ (codes "</address>" ++ codes "</body></html>"))))))))

-- The four headers that every response has.
abbrev pub response_headers : Bytes → Bytes → ℕ → List Header
response_headers status content_type content_length =
    (codes ":status", status)
    ∷ (codes "server", server_name)
    ∷ (codes "content-type", content_type)
    ∷ (codes "content-length", format_uint content_length)
    ∷ []

-- What an answer comes to: `failed` is -1, `done` is 0, `aborts` an assertion that fails or an exception, `dangles`
-- the use of a stream that is freed, and `exhausted` says that the model's fuel ran out.
pub data Answer : Type 0 where
  failed done aborts dangles exhausted : Answer

-- What the first half of `start_response` comes to: the answer of a status response, or a response
-- that is ready, with its length, its type and its reader.
pub data Prepared : Type 0 where
  answered : Answer → Prepared
  ready : ℕ → Bytes → Reader → Prepared

-- `send_status_response(…); return 0;`
abbrev pub and_return : Answer × Work → Prepared × Work
and_return r = (answered done, r.1)

-- `return send_status_response(…);`
abbrev pub return_it : Answer × Work → Prepared × Work
return_it r = (answered r.0, r.1)

abbrev pub is_empty : Bytes → Bool
is_empty [] = true
is_empty (c ∷ s) = false

-- The loop over `ext`, from the last byte of the path: its extension behind a dot that no slash
-- follows. The first byte of the path ends the loop.
unfoldable pub extension_of : Bytes → Bytes → Option Bytes
extension_of [] ext = none
extension_of (c ∷ []) ext = if c == b'.' then some ext else none
extension_of (c ∷ d ∷ s) ext =
    let rest = extension_of (d ∷ s) (c ∷ ext) in
    if c == b'.' then some ext else if c == b'/' then none else rest

abbrev pub found_type : Option Bytes → Bytes
found_type none = codes "text/plain"
found_type (some t) = t

module _ (out : Outside) (cfg : Config) where
  open out use {parse_url, realpath, open_read, fstat, mmap_succeeds, succeeds}
  open cfg use {htdocs, port, mime_types, max_dyn_length}

  -- `nghttp3_conn_submit_trailers`, then `shutdown_read`.
  unfoldable pub finish_response : Work → Answer × Work
  finish_response w =
      let trailers = submit_trailers w.stream.stream_id in
      if succeeds w.calls trailers
      then (done, call (shutdown_read w.stream.stream_id) (call trailers w))
      else (failed, call trailers w)

  unfoldable pub submit : List Header → Reader → (Work → Answer × Work) → Work → Answer × Work
  submit headers reader next w =
      let response = submit_response w.stream.stream_id headers reader in
      if succeeds w.calls response then next (call response w) else (failed, call response w)

  unfoldable pub send_status_response : ℕ → List Header → Work → Answer × Work
  unfolding submit finish_response
  send_status_response status_code extra_headers w =
      let body = make_status_body port status_code in
      submit
        (response_headers (format_uint status_code) (codes "text/html; charset=utf-8") (length body)
          ++ extra_headers)
        read_data finish_response
        (record w {
          stream = record w.stream {
            status_resp_body = body;
            source = status_body;
            datalen = length body;
          };
        })

  unfoldable pub send_redirect_response : ℕ → Bytes → Work → Answer × Work
  unfolding send_status_response
  send_redirect_response status_code path =
      send_status_response status_code ((codes "location", path) ∷ [])

  abbrev pub type_of_extension : Option Bytes → Bytes
  type_of_extension none = codes "text/plain"
  type_of_extension (some ext) = found_type (find ext mime_types)

  unfoldable pub content_type_of : Bytes → Bytes
  unfolding extension_of
  content_type_of path = type_of_extension (extension_of (reverse path) [])

  -- `map_file`, with `true` for 0.
  unfoldable pub map_file : ℕ → ℕ → Work → Bool × Work
  map_file fd len w =
      if len == 0
      then (true, w)
      else if mmap_succeeds w.calls fd len
      then (
        true,
        call (mapped fd len) (record w {
          stream = record w.stream { source = mapping; datalen = len; mmapped = true };
        }),
      )
      else (false, w)

  -- `(ready …)`, or the status 500.
  abbrev pub after_map : Bytes → ℕ → Bool × Work → Prepared × Work
  after_map req_path size (true, w) = (ready size (content_type_of req_path) read_data, w)
  after_map req_path size (false, w) = and_return (send_status_response 500 [] w)

  -- `if (method == "HEAD")`.
  unfoldable pub with_size : Bytes → ℕ → ℕ → Work → Prepared × Work
  unfolding map_file
  with_size req_path fd size w =
      if same w.stream.method (codes "HEAD")
      then (
        ready size (content_type_of req_path) read_data,
        call (closed fd) (record w { stream = record w.stream { fd = none } }),
      )
      else after_map req_path size (map_file fd size w)

  -- `substr` throws for a position behind the end, which `htdocs.size() - 1` is when `htdocs` is empty.
  unfoldable pub with_stat : Bytes → Bytes → ℕ → Option (Bool × ℕ) → Work → Prepared × Work
  unfolding with_size send_status_response send_redirect_response
  with_stat req_path path fd none w = and_return (send_status_response 404 [] w)
  with_stat req_path path fd (some (is_dir, size)) w =
      if is_dir
      then (if is_empty htdocs
          then (answered aborts, w)
          else and_return
              (send_redirect_response 308 (drop (length htdocs - 1) path ++ (b'/' ∷ [])) w))
      else with_size req_path fd size w

  -- Behind `open_file`, which has set `fd`.
  unfoldable pub with_fd : Bytes → Bytes → Option ℕ → Work → Prepared × Work
  unfolding with_stat send_status_response
  with_fd req_path path none w = and_return (send_status_response 404 [] w)
  with_fd req_path path (some fd) w =
      let opened_work = call (opened fd) (record w { stream = record w.stream { fd = some fd } }) in
      with_stat req_path path fd (fstat opened_work.calls fd) opened_work

  -- `if (path.empty() || open_file(path) != 0)`.
  unfoldable pub with_path : Bytes → Bytes → Work → Prepared × Work
  unfolding with_fd send_status_response
  with_path req_path [] w = and_return (send_status_response 404 [] w)
  with_path req_path (c ∷ path) w = with_fd req_path (c ∷ path) (open_read w.calls (c ∷ path)) w

  unfoldable pub with_length : Bytes → DynLength → Work → Prepared × Work
  unfolding with_path
  with_length req_path assertion_fails w = (answered aborts, w)
  with_length req_path not_dynamic w = with_path req_path (resolve_path realpath htdocs req_path) w
  with_length req_path (length_of n) w = (
    ready n (codes "application/octet-stream") dyn_read_data,
    record w { stream = record w.stream { datalen = n; dynresp = true; dyndataleft = n } },
  )

  unfoldable pub with_request : Bytes → Work → Prepared × Work
  unfolding with_length send_status_response
  with_request [] w = return_it (send_status_response 400 [] w)
  with_request (c ∷ path) w = with_length (c ∷ path) (find_dyn_length max_dyn_length (c ∷ path)) w

  -- The request that `start_response` reads from its stream.
  abbrev pub request_of_stream : Stream → Path.Request
  request_of_stream s = request_path parse_url s.uri (same s.method (codes "CONNECT"))

  -- `Stream::start_response` up to the pushes.
  unfoldable pub prepare : Work → Prepared × Work
  unfolding with_request send_status_response
  prepare w =
      if is_empty w.stream.uri || is_empty w.stream.method
      then return_it (send_status_response 400 [] w)
      else with_request (request_of_stream w.stream).path w
