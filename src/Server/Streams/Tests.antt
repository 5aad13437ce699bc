-- ===== src/Server/Streams/Tests.antt =====
-- The theorems on streams at concrete inputs.
use quicsy.Prelude.{
  ◌≡◌, refl, arith, true, false, codes, none, some, [], ◌==◌, if◌then◌else◌, Bool-cases, inl, inr,
}
use quicsy.Prelude.Assoc.{same}
use quicsy.Util.CaseCmp.{istarts_with, lowcase}
use quicsy.Server.Dyn.{find_dyn_length}
use quicsy.Server.Path.{request_path, resolve_path}
use quicsy.Server.Response.{
  Stream, new_stream, Config, Outside, done, prepare, submit, finish_response,
}
use quicsy.Server.Response.Files.{is_open, IsFresh}
use quicsy.Server.Streams.{
  Streams, Push, issued, on_stream_open, http_recv_request_header, path, method, put,
  http_end_stream, start_response, not_found, on_stream_close, ok,
}
use quicsy.Server.Streams.Steps.{
  opens, header, request_ends, Reach, start, next, no_streams, Progress, begin, move, mark,
}
use quicsy.Server.Streams.Held.{IsHeld, fd_of}
use quicsy.Server.Streams.Reachable.{Reach-IsHeld}
use quicsy.Server.Streams.Contents.{IsAnswered, start_response-IsAnswered}
use quicsy.Server.Streams.Ends.{Ends, OpensServerUni, start_response-Ends}
use quicsy.Server.Streams.Credit.{IsGranted, unknown, on_stream_close-grants}

-- A system with one descriptor, where every path is a file of 5 bytes, and libraries that agree.
abbrev outside : Outside
outside = record {
  parse_url = λ uri connect. some (record { path = some uri; query = some (codes "push=/b.css") });
  realpath = λ p. some p;
  open_read = λ calls p. if is_open 3 calls then none else some 3;
  fstat = λ calls fd. some (false, 5);
  mmap_succeeds = λ calls fd len. true;
  succeeds = λ calls c. true;
}

outside-IsFresh : IsFresh outside
outside-IsFresh calls p fd e = elim (Bool-cases (is_open 3 calls)) [
  | inl f ↦ ground (arith, f, e)
  | inr f ↦ ground (arith, f, e)
]

abbrev settings : Config
settings = record {
  htdocs = codes "/srv/";
  port = 443;
  mime_types = [];
  max_dyn_length = 100;
  early_response = false;
}

abbrev pushes : Push
pushes = record { promise = λ calls id. issued 0; open_uni = λ calls. issued 15 }

abbrev requested : Stream
requested = record (new_stream 0) {
  uri = codes "/a.txt";
  method = codes "GET";
  authority = codes "host";
}

abbrev with_request : Streams
with_request = record {
  streams = λ i. if i == 0 then some requested else none;
  calls = [];
  granted = 0;
}

answered_once : (start_response outside settings pushes 2 0 with_request).0 ≡ done
unfolding start_response prepare submit finish_response find_dyn_length resolve_path request_path
    istarts_with same lowcase
answered_once = refl

-- The request is answered, and the stream 15 that is pushed finds no descriptor left.
pushed_fd : fd_of ((start_response outside settings pushes 2 0 with_request).1.streams 15) ≡ none
unfolding start_response prepare submit finish_response find_dyn_length resolve_path request_path
    istarts_with same lowcase
pushed_fd = refl

start_response-IsAnswered_example :
    IsAnswered outside settings pushes 0 (start_response outside settings pushes 2 0 with_request).1
unfolding start_response prepare submit finish_response find_dyn_length resolve_path request_path
    istarts_with same lowcase
start_response-IsAnswered_example =
    start_response-IsAnswered outside settings pushes 2 0 requested with_request refl refl refl refl

pushes-OpensServerUni : OpensServerUni pushes
pushes-OpensServerUni calls id e = ground arith

start_response-Ends_example : Ends (start_response outside settings pushes 2 0 with_request).0
start_response-Ends_example =
    start_response-Ends outside settings pushes pushes-OpensServerUni 0 0 with_request

abbrev after_open : Streams
after_open = record no_streams { streams = put 0 (some (new_stream 0)) no_streams.streams }

abbrev named : Stream
named = record (new_stream 0) { uri = codes "/a.txt" }

abbrev asked : Stream
asked = record named { method = codes "GET" }

abbrev after_path : Streams
after_path = record after_open { streams = put 0 (some named) after_open.streams }

abbrev after_method : Streams
after_method = record after_path { streams = put 0 (some asked) after_path.streams }

abbrev after_end : Progress
after_end = record (move begin (http_end_stream outside settings pushes 0 after_method).1) {
  request_ended = mark 0 begin.request_ended;
}

-- A request for a file, to its end.
short_run : Reach outside settings pushes after_end
unfolding on_stream_open http_recv_request_header
short_run =
    next
      (next
        (next (next start (opens {k = after_open} 0 refl))
          (header {r = move begin after_open} {k = after_path} 0 path (codes "/a.txt") refl))
        (header {r = move begin after_path} {k = after_method} 0 method (codes "GET") refl))
      (request_ends {r = move begin after_method} 0 refl refl)

-- The answer has opened the file.
opened_file : fd_of (after_end.served.streams 0) ≡ some 3
unfolding http_end_stream start_response prepare submit finish_response find_dyn_length resolve_path
    request_path istarts_with same lowcase
opened_file = refl

Reach-IsHeld_example : IsHeld after_end.served
Reach-IsHeld_example =
    Reach-IsHeld outside settings pushes outside-IsFresh pushes-OpensServerUni short_run

on_stream_close-grants_example :
    (k : Streams) × (on_stream_close not_found 0 with_request ≡ ok k)
    × IsGranted not_found 0 requested with_request k
on_stream_close-grants_example =
    on_stream_close-grants not_found 0 requested with_request unknown refl refl
