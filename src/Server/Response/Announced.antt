-- ===== src/Server/Response/Announced.antt =====
-- What the headers of a response announce, against what its reader delivers.
use quicsy.Prelude.{
  ℕ, ◌≡◌, ◌⊎◌, refl, arith, Bool, true, false, Bytes, codes, Option, none, some, List, [], ◌∷◌,
  ◌++◌, length, Bool-cases, Option-cases, inl, inr, ◌==◌, ◌||◌, if◌then◌else◌,
}
use quicsy.Prelude.Assoc.{same, find}
use quicsy.Util.Number.{format_uint}
use quicsy.Server.Dyn.{DynLength, assertion_fails, not_dynamic, length_of, find_dyn_length}
use quicsy.Server.Path.{resolve_path}
use quicsy.Server.Response.{
  Header, Stream, Reader, read_data, dyn_read_data, status_body, Call, submit_response, Work,
  Outside, Config, Answer, done, failed, aborts, dangles, exhausted, Prepared, answered, ready,
  make_status_body, send_status_response, send_redirect_response, finish_response, submit, map_file,
  with_size, with_stat, with_fd, with_path, with_length, with_request, prepare, is_empty,
  request_of_stream, opened, call, after_map, submit_trailers, response_headers, return_it,
}

-- The latest response submitted for a stream.
abbrev pub last_response : ℕ → List Call → Option (List Header × Reader)
last_response id [] = none
last_response id (submit_response i headers reader ∷ calls) =
    if i == id then some (headers, reader) else last_response id calls
last_response id (c ∷ calls) = last_response id calls

-- The bytes that a reader hands out in all.
abbrev pub deliverable : Reader → Stream → ℕ
deliverable read_data s = s.datalen
deliverable dyn_read_data s = s.dyndataleft

-- A status page: its body is the text for the status that the headers name, and has the length that
-- they announce.
pub record IsStatusPage (port : ℕ) (s : Stream) (calls : List Call) : Type 0 where
  pub code : ℕ
  pub headers : List Header
  pub submitted : last_response s.stream_id calls ≡ some (headers, read_data)
  pub status : find (codes ":status") headers ≡ some (format_uint code)
  pub announced : find (codes "content-length") headers ≡ some (format_uint s.datalen)
  pub body : s.status_resp_body ≡ make_status_body port code
  pub whole : s.datalen ≡ length s.status_resp_body
  pub source : s.source ≡ status_body

-- A response with contents: the headers announce the bytes that its reader delivers.
pub record IsContent (s : Stream) (calls : List Call) : Type 0 where
  pub headers : List Header
  pub reader : Reader
  pub submitted : last_response s.stream_id calls ≡ some (headers, reader)
  pub status : find (codes ":status") headers ≡ some (codes "200")
  pub announced : find (codes "content-length") headers ≡ some (format_uint (deliverable reader s))

-- What `prepare` leaves of the stream `s`, when it does not abort.
abbrev pub IsPrepared : ℕ → Stream → Prepared × Work → Type 0
IsPrepared port s (answered done, w) = IsStatusPage port w.stream w.calls
IsPrepared port s (answered failed, w) = IsStatusPage port w.stream w.calls
IsPrepared port s (answered aborts, w) = Unit
IsPrepared port s (answered dangles, w) = ⊥
IsPrepared port s (answered exhausted, w) = ⊥
IsPrepared port s (ready n content_type reader, w) =
    s.datalen ≡ 0 → same s.method (codes "HEAD") ≡ false → n ≡ deliverable reader w.stream

module _ (out : Outside) (cfg : Config) where
  -- A response followed by its trailers leaves the stream, and is the latest one submitted for it.
  pub submit-last :
      (headers : List Header) (reader : Reader) (w : Work)
      → ((submit out cfg headers reader (finish_response out cfg) w).1.stream ≡ w.stream)
        × (last_response w.stream.stream_id
              (submit out cfg headers reader (finish_response out cfg) w).1.calls
            ≡ some (headers, reader))
        × (((submit out cfg headers reader (finish_response out cfg) w).0 ≡ done)
            ⊎ ((submit out cfg headers reader (finish_response out cfg) w).0 ≡ failed))
  unfolding submit finish_response
  submit-last headers reader w =
      elim (Bool-cases (out.succeeds w.calls (submit_response w.stream.stream_id headers reader))) [
        | inl e ↦
            rw e
              (elim (Bool-cases (
                out.succeeds (submit_response w.stream.stream_id headers reader ∷ w.calls)
                  (submit_trailers w.stream.stream_id))) [
                    | inl f ↦ rw f (refl, ground arith, inl refl)
                    | inr f ↦ rw f (refl, ground arith, inr refl)
                  ])
        | inr e ↦ rw e (refl, ground arith, inr refl)
      ]

  pub status_page :
      (code : ℕ) (extra : List Header) (w : Work)
      → IsStatusPage cfg.port
          (send_status_response out cfg code extra w).1.stream
          (send_status_response out cfg code extra w).1.calls
        × (((send_status_response out cfg code extra w).0 ≡ done)
            ⊎ ((send_status_response out cfg code extra w).0 ≡ failed))
  unfolding send_status_response same
  status_page code extra w =
      let body = make_status_body cfg.port code in
      let headers =
        response_headers (format_uint code) (codes "text/html; charset=utf-8") (length body)
        ++ extra in
      let v = record w {
        stream = record w.stream {
          status_resp_body = body;
          source = status_body;
          datalen = length body;
        };
      } in
      let h = submit-last headers read_data v in
      (
        record {
          code = code;
          headers = headers;
          submitted = rw (h.0) (h.1);
          status = refl;
          announced = rw (h.0) refl;
          body = rw (h.0) refl;
          whole = rw (h.0) refl;
          source = rw (h.0) refl;
        },
        h.2,
      )

  returned :
      (s : Stream) (r : Answer × Work)
      → IsStatusPage cfg.port r.1.stream r.1.calls
      → (r.0 ≡ done) ⊎ (r.0 ≡ failed)
      → IsPrepared cfg.port s (return_it r)
  returned s (done, w) page h = page
  returned s (failed, w) page h = page
  returned s (aborts, w) page (inl e) = cc
  returned s (aborts, w) page (inr e) = cc
  returned s (dangles, w) page (inl e) = cc
  returned s (dangles, w) page (inr e) = cc
  returned s (exhausted, w) page (inl e) = cc
  returned s (exhausted, w) page (inr e) = cc

  mapped-IsPrepared :
      (s : Stream) (req_path : Bytes) (fd size : ℕ) (w : Work)
      → w.stream.datalen ≡ s.datalen
      → IsPrepared cfg.port s (after_map out cfg req_path size (map_file out cfg fd size w))
  unfolding map_file
  mapped-IsPrepared s req_path fd size w k = elim (Bool-cases (size == 0)) [
    | inl e ↦ rw e (λ z m. ground arith)
    | inr e ↦ rw e (elim (Bool-cases (out.mmap_succeeds w.calls fd size)) [
      | inl f ↦ rw f (λ z m. refl)
      | inr f ↦ rw f ((status_page 500 [] w).0)
    ])
  ]

  stat-IsPrepared :
      (req_path path : Bytes) (fd : ℕ) (o : Option (Bool × ℕ)) (s : Stream) (w : Work)
      → w.stream.datalen ≡ s.datalen
      → w.stream.method ≡ s.method
      → IsPrepared cfg.port s (with_stat out cfg req_path path fd o w)
  unfolding with_stat with_size send_redirect_response
  stat-IsPrepared req_path path fd none s w k l = (status_page 404 [] w).0
  stat-IsPrepared req_path path fd (some (true, size)) s w k l =
      elim (Bool-cases (is_empty cfg.htdocs)) [
        | inl e ↦ rw e tt
        | inr e ↦ rw e ((status_page 308 _ w).0)
      ]
  stat-IsPrepared req_path path fd (some (false, size)) s w k l =
      elim (Bool-cases (same w.stream.method (codes "HEAD"))) [
        | inl e ↦ rw e (λ z m. cc (e, m, l))
        | inr e ↦ rw e (mapped-IsPrepared s req_path fd size w k)
      ]

  path-IsPrepared :
      (req_path path : Bytes) (w : Work)
      → IsPrepared cfg.port w.stream (with_path out cfg req_path path w)
  unfolding with_path with_fd
  path-IsPrepared req_path [] w = (status_page 404 [] w).0
  path-IsPrepared req_path (c ∷ path) w = elim (Option-cases (out.open_read w.calls (c ∷ path))) [
    | inl e ↦ rw e ((status_page 404 [] w).0)
    | inr (fd, e) ↦ rw e (
        stat-IsPrepared req_path (c ∷ path) fd (out.fstat (opened fd ∷ w.calls) fd) w.stream
          (call (opened fd) (record w { stream = record w.stream { fd = some fd } })) refl refl)
  ]

  length-IsPrepared :
      (req_path : Bytes) (n : DynLength) (w : Work)
      → IsPrepared cfg.port w.stream (with_length out cfg req_path n w)
  unfolding with_length
  length-IsPrepared req_path assertion_fails w = tt
  length-IsPrepared req_path not_dynamic w =
      path-IsPrepared req_path (resolve_path out.realpath cfg.htdocs req_path) w
  length-IsPrepared req_path (length_of n) w = λ z m. refl

  request-IsPrepared :
      (req_path : Bytes) (w : Work) → IsPrepared cfg.port w.stream (with_request out cfg req_path w)
  unfolding with_request
  request-IsPrepared [] w =
      let page = status_page 400 [] w in
      returned w.stream (send_status_response out cfg 400 [] w) page.0 page.1
  request-IsPrepared (c ∷ path) w =
      length-IsPrepared (c ∷ path) (find_dyn_length cfg.max_dyn_length (c ∷ path)) w

  pub prepare-IsPrepared : (w : Work) → IsPrepared cfg.port w.stream (prepare out cfg w)
  unfolding prepare
  prepare-IsPrepared w = elim (Bool-cases (is_empty w.stream.uri || is_empty w.stream.method)) [
    | inl e ↦
        let page = status_page 400 [] w in
        rw e (returned w.stream (send_status_response out cfg 400 [] w) page.0 page.1)
    | inr e ↦ rw e (request-IsPrepared (request_of_stream out cfg w.stream).path w)
  ]
