-- ===== src/Server/Streams/Contents.antt =====
-- `start_response` with its pushes: the response that it submits for the stream itself.
use quicsy.Prelude.{
  ℕ, zero, suc, ◌≡◌, ◌⊎◌, refl, subst, ap, arith, false, Bytes, codes, Option, some, List, ==_iff,
  Bool-cases, inl, inr,
}
use quicsy.Prelude.Assoc.{same}
use quicsy.Server.Response.{
  Stream, submit_response, Config, Outside, Work, Answer, failed, done, aborts, dangles, exhausted,
  Prepared, answered, ready, prepare, Reader, read_data, dyn_read_data, response_headers,
}
use quicsy.Server.Response.Announced.{
  IsStatusPage, IsContent, IsPrepared, deliverable, submit-last, prepare-IsPrepared,
}
use quicsy.Server.Streams.Keeps.{
  some-Apart, push_all-keeps, push_content-keeps, start_response-keeps,
}
use quicsy.Server.Streams.{
  Streams, Push, put, store, work_on, send_ready, resume, continue_after, push_all,
  pushes_of_stream, after_prepare, push_content, start_found, start_response,
}

pub put_self : (id : ℕ) (o : Option Stream) (m : ℕ → Option Stream) → put id o m id ≡ o
put_self id o m = rw ((==_iff id id).1 refl) refl

module _ (out : Outside) (cfg : Config) (p : Push) where
  -- A response with contents announces what its reader delivers, and leaves the stream.
  content :
      (n : ℕ) (content_type : Bytes) (reader : Reader) (w : Work)
      → n ≡ deliverable reader w.stream
      → IsContent
          (send_ready out cfg p n content_type reader w).1.stream
          (send_ready out cfg p n content_type reader w).1.calls
  unfolding send_ready same
  content n content_type read_data w e =
      let headers = response_headers (codes "200") content_type n in
      let h = submit-last out cfg headers read_data w in
      record {
        headers = headers;
        reader = read_data;
        submitted = rw (h.0) (h.1);
        status = refl;
        announced = rw (h.0, e) refl;
      }
  content n content_type dyn_read_data w e =
      let headers = response_headers (codes "200") content_type n in
      elim (Bool-cases
        (out.succeeds w.calls (submit_response w.stream.stream_id headers dyn_read_data))) [
          | inl f ↦ rw f (record {
            headers = headers;
            reader = dyn_read_data;
            submitted = ground arith;
            status = refl;
            announced = rw e refl;
          })
          | inr f ↦ rw f (record {
            headers = headers;
            reader = dyn_read_data;
            submitted = ground arith;
            status = refl;
            announced = rw e refl;
          })
        ]

  go_on-done :
      (next : Streams → Answer × Streams) (r : Answer × Streams) {k : Streams}
      → continue_after out cfg p next r ≡ (done, k)
      → (r.0 ≡ done) × (next r.1 ≡ (done, k))
  go_on-done next (done, h) e = (refl, e)
  go_on-done next (failed, h) e = cc
  go_on-done next (aborts, h) e = cc
  go_on-done next (dangles, h) e = cc
  go_on-done next (exhausted, h) e = cc

  -- What the stream `id` has once it is answered.
  abbrev pub IsAnswered : ℕ → Streams → Type 0
  IsAnswered id k =
      (t : Stream) × (k.streams id ≡ some t)
      × (IsStatusPage cfg.port t k.calls ⊎ IsContent t k.calls)

  stored :
      (id : ℕ) (w : Work) (h : Streams)
      → IsStatusPage cfg.port w.stream w.calls ⊎ IsContent w.stream w.calls
      → IsAnswered id (store id w h)
  stored id w h e = (w.stream, put_self id (some w.stream) h.streams, e)

  resumed :
      (id n : ℕ) (content_type : Bytes) (reader : Reader) (s : Stream) (h : Streams) {k : Streams}
      → n ≡ deliverable reader s
      → resume out cfg p id n content_type reader (some s) h ≡ (done, k)
      → IsAnswered id k
  resumed id n content_type reader s h e q =
      subst (IsAnswered id) (ap (λ (r : Answer × Streams). r.1) q) (
        stored id (send_ready out cfg p n content_type reader (work_on s h)).1 h
          (inr (content n content_type reader (work_on s h) e)))

  prepared :
      (push : Bytes → Streams → Answer × Streams)
      → (id : ℕ) (pushes : List Bytes) (s : Stream) (r : Prepared) (w : Work) (h : Streams)
        {k : Streams}
      → s.datalen ≡ 0
      → same s.method (codes "HEAD") ≡ false
      → ((path : Bytes) (g : Streams)
          → g.streams id ≡ some w.stream
          → (push path g).1.streams id ≡ some w.stream)
      → IsPrepared cfg.port s (r, w)
      → after_prepare out cfg p push id pushes r (store id w h) ≡ (done, k)
      → IsAnswered id k
  prepared push id pushes s (answered done) w h z m keep page q =
      subst (IsAnswered id) (ap (λ (r : Answer × Streams). r.1) q) (stored id w h (inl page))
  prepared push id pushes s (answered failed) w h z m keep page q = cc
  prepared push id pushes s (answered aborts) w h z m keep page q = cc
  prepared push id pushes s (answered dangles) w h z m keep page q = cc
  prepared push id pushes s (answered exhausted) w h z m keep page q = cc
  prepared push id pushes s (ready n content_type reader) w h {k} z m keep e q =
      let pushed = push_all out cfg p push pushes (store id w h) in
      let kept =
        push_all-keeps out cfg p id (some w.stream) (some-Apart out cfg p id w.stream) push keep
          pushes (store id w h) (put_self id (some w.stream) h.streams) in
      let f = (go_on-done _ pushed q).1 in
      resumed id n content_type reader w.stream pushed.1 (e z m)
        (subst (λ o. resume out cfg p id n content_type reader o pushed.1 ≡ (done, k)) kept f)

  found :
      (fuel id : ℕ) (s : Stream) (h k : Streams)
      → s.datalen ≡ 0
      → same s.method (codes "HEAD") ≡ false
      → h.streams id ≡ some s
      → start_found out cfg p (start_response out cfg p fuel) id (some s) h ≡ (done, k)
      → IsAnswered id k
  found fuel id s h k z m e q =
      let r = prepare out cfg (work_on s h) in
      prepared (push_content out cfg p (start_response out cfg p fuel) id s.authority) id
        (pushes_of_stream out cfg p s) s r.0 r.1 h z m
        (push_content-keeps out cfg p id (some r.1.stream) (some-Apart out cfg p id r.1.stream)
          (start_response out cfg p fuel)
          (start_response-keeps out cfg p id (some r.1.stream) (some-Apart out cfg p id r.1.stream)
            fuel)
          id s.authority)
        (prepare-IsPrepared out cfg (work_on s h)) q

  -- When `start_response` returns 0 for a stream of the map that has no data yet and whose method is not
  -- HEAD, then, whatever it pushed meanwhile, the latest response submitted for that stream is a status
  -- page, whose body is the text for its status and has the announced length, or a response of
  -- status 200 that announces exactly the number of bytes that its reader delivers.
  pub start_response-IsAnswered :
      (fuel id : ℕ) (s : Stream) (h : Streams) {k : Streams}
      → s.datalen ≡ 0
      → same s.method (codes "HEAD") ≡ false
      → h.streams id ≡ some s
      → start_response out cfg p fuel id h ≡ (done, k)
      → IsAnswered id k
  unfolding start_response
  start_response-IsAnswered zero id s h z m e q = cc
  start_response-IsAnswered (suc fuel) id s h {k} z m e q =
      found fuel id s h k z m e
        (subst (λ o. start_found out cfg p (start_response out cfg p fuel) id o h ≡ (done, k)) e q)
