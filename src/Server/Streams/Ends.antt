-- ===== src/Server/Streams/Ends.antt =====
-- Pushed streams push nothing, so the answer to a request ends.
use quicsy.Prelude.{
  ℕ, suc, ◌%◌, ◌≡◌, ◌⊎◌, refl, codes, sym, subst, Bool, true, false, Bytes, Option, none, some,
  List, [], ◌∷◌, Bool-cases, inl, inr,
}
use quicsy.Server.Response.{
  Stream, new_stream, Call, open_uni_stream, bind_push_stream, set_user_data, submit_response,
  Config, Outside, Work, Answer, failed, done, aborts, dangles, exhausted, Prepared, answered,
  ready, prepare, Reader, read_data, dyn_read_data, response_headers,
}
use quicsy.Server.Response.Announced.{IsPrepared, prepare-IsPrepared, submit-last}
use quicsy.Server.Streams.{
  Streams, Push, Issue, issued, blocked, refused, put, store, work_on, note, send_ready, resume,
  continue_after, push_all, pushes_of_stream, after_prepare, ignore_failure, pushed_stream,
  start_pushed, bind_pushed, with_push_stream, with_promise, push_content, start_found,
  start_response,
}
use quicsy.Server.Streams.Contents.{put_self}

-- The fuel was enough.
abbrev pub Ends : Answer → Type 0
Ends exhausted = ⊥
Ends _ = Unit

-- The streams that the server opens towards the client have identifiers of the form 4 k + 3.
abbrev pub OpensServerUni : Push → Type 0
OpensServerUni p = (calls : List Call) (id : ℕ) → p.open_uni calls ≡ issued id → id % 4 ≡ 3

module _ (out : Outside) (cfg : Config) (p : Push) (uni : OpensServerUni p) where
  go_on-Ends :
      (next : Streams → Answer × Streams)
      → ((h : Streams) → Ends (next h).0)
      → (r : Answer × Streams) → Ends r.0
      → Ends (continue_after out cfg p next r).0
  go_on-Ends next keep (done, h) e = keep h
  go_on-Ends next keep (failed, h) e = tt
  go_on-Ends next keep (aborts, h) e = tt
  go_on-Ends next keep (dangles, h) e = tt
  go_on-Ends next keep (exhausted, h) e = e

  ignored-Ends : (r : Answer × Streams) → Ends r.0 → Ends (ignore_failure out cfg p r).0
  ignored-Ends (done, h) e = tt
  ignored-Ends (failed, h) e = tt
  ignored-Ends (aborts, h) e = tt
  ignored-Ends (dangles, h) e = tt
  ignored-Ends (exhausted, h) e = e

  answers-Ends : (a : Answer) → (a ≡ done) ⊎ (a ≡ failed) → Ends a
  answers-Ends a (inl e) = subst Ends (sym e) tt
  answers-Ends a (inr e) = subst Ends (sym e) tt

  send_ready-Ends :
      (n : ℕ) (content_type : Bytes) (reader : Reader) (w : Work)
      → Ends (send_ready out cfg p n content_type reader w).0
  unfolding send_ready
  send_ready-Ends n content_type read_data w =
      answers-Ends _ ((submit-last out cfg _ read_data w).2)
  send_ready-Ends n content_type dyn_read_data w =
      let headers = response_headers (codes "200") content_type n in
      elim (Bool-cases
        (out.succeeds w.calls (submit_response w.stream.stream_id headers dyn_read_data))) [
          | inl e ↦ rw e tt
          | inr e ↦ rw e tt
        ]

  resume-Ends :
      (id n : ℕ) (content_type : Bytes) (reader : Reader) (o : Option Stream) (h : Streams)
      → Ends (resume out cfg p id n content_type reader o h).0
  resume-Ends id n content_type reader none h = tt
  resume-Ends id n content_type reader (some s) h =
      send_ready-Ends n content_type reader (work_on s h)

  push_all-Ends :
      (push : Bytes → Streams → Answer × Streams)
      → ((path : Bytes) (h : Streams) → Ends (push path h).0)
      → (paths : List Bytes) (h : Streams) → Ends (push_all out cfg p push paths h).0
  push_all-Ends push keep [] h = tt
  push_all-Ends push keep (path ∷ paths) h =
      go_on-Ends _ (push_all-Ends push keep paths) (push path h) (keep path h)

  prepared-Ends :
      (push : Bytes → Streams → Answer × Streams)
      → (id : ℕ) (pushes : List Bytes) (s : Stream) (r : Prepared) (w : Work) (h : Streams)
      → ((k : Streams) → Ends (push_all out cfg p push pushes k).0)
      → IsPrepared cfg.port s (r, w)
      → Ends (after_prepare out cfg p push id pushes r h).0
  prepared-Ends push id pushes s (answered done) w h keep e = tt
  prepared-Ends push id pushes s (answered failed) w h keep e = tt
  prepared-Ends push id pushes s (answered aborts) w h keep e = tt
  prepared-Ends push id pushes s (answered dangles) w h keep e = tt
  prepared-Ends push id pushes s (answered exhausted) w h keep e = e
  prepared-Ends push id pushes s (ready n content_type reader) w h keep e =
      go_on-Ends _ (λ k. resume-Ends id n content_type reader (k.streams id) k)
        (push_all out cfg p push pushes h) (keep h)

  no_pushes : (s : Stream) → s.stream_id % 4 ≡ 3 → pushes_of_stream out cfg p s ≡ []
  no_pushes s u = rw u refl

  start_found-Ends :
      (start : ℕ → Streams → Answer × Streams)
      → (id : ℕ) (s : Stream) (h : Streams)
      → ((k : Streams)
          → Ends
              (push_all out cfg p
                (push_content out cfg p start id s.authority)
                (pushes_of_stream out cfg p s)
                k).0)
      → Ends (start_found out cfg p start id (some s) h).0
  start_found-Ends start id s h keep =
      let r = prepare out cfg (work_on s h) in
      prepared-Ends (push_content out cfg p start id s.authority) id (pushes_of_stream out cfg p s)
        s r.0 r.1 (store id r.1 h) keep (prepare-IsPrepared out cfg (work_on s h))

  -- A stream of the server is answered without any push.
  pushed-Ends :
      (fuel id : ℕ) (s : Stream) (h : Streams)
      → h.streams id ≡ some s
      → s.stream_id % 4 ≡ 3
      → Ends (start_response out cfg p (suc fuel) id h).0
  unfolding start_response
  pushed-Ends fuel id s h e u =
      subst (λ o. Ends (start_found out cfg p (start_response out cfg p fuel) id o h).0) (sym e)
        (start_found-Ends (start_response out cfg p fuel) id s h (λ k. rw (no_pushes s u) tt))

  started-Ends :
      (fuel id : ℕ) (authority path : Bytes) (b : Bool) (h : Streams)
      → id % 4 ≡ 3
      → Ends (start_pushed out cfg p (start_response out cfg p (suc fuel)) id authority path b h).0
  started-Ends fuel id authority path false h u = tt
  started-Ends fuel id authority path true h u =
      let s = pushed_stream out cfg p id authority path in
      let k = note (set_user_data id) (record h { streams = put id (some s) h.streams }) in
      ignored-Ends (start_response out cfg p (suc fuel) id k)
        (pushed-Ends fuel id s k (put_self id (some s) h.streams) u)

  bound-Ends :
      (fuel push_id id : ℕ) (authority path : Bytes) (o : Option Stream) (h : Streams)
      → id % 4 ≡ 3
      → Ends
          (bind_pushed out cfg p
            (start_response out cfg p (suc fuel))
            push_id
            id
            authority
            path
            o
            h).0
  bound-Ends fuel push_id id authority path (some t) h u = tt
  bound-Ends fuel push_id id authority path none h u =
      started-Ends fuel id authority path (out.succeeds h.calls (bind_push_stream push_id id))
        (note (bind_push_stream push_id id)
          (record h { streams = put id (some (new_stream id)) h.streams }))
        u

  opened-Ends :
      (fuel push_id : ℕ) (authority path : Bytes) (i : Issue) (h : Streams)
      → ((id : ℕ) → i ≡ issued id → id % 4 ≡ 3)
      → Ends
          (with_push_stream out cfg p
            (start_response out cfg p (suc fuel))
            push_id
            authority
            path
            i
            h).0
  opened-Ends fuel push_id authority path (issued id) h u =
      bound-Ends fuel push_id id authority path (h.streams id) h (u id refl)
  opened-Ends fuel push_id authority path blocked h u = tt
  opened-Ends fuel push_id authority path refused h u = tt

  promised-Ends :
      (fuel : ℕ) (authority path : Bytes) (i : Issue) (h : Streams)
      → Ends (with_promise out cfg p (start_response out cfg p (suc fuel)) authority path i h).0
  promised-Ends fuel authority path (issued push_id) h =
      opened-Ends fuel push_id authority path (p.open_uni h.calls) (note open_uni_stream h)
        (uni h.calls)
  promised-Ends fuel authority path blocked h = tt
  promised-Ends fuel authority path refused h = tt

  found-Ends :
      (fuel id : ℕ) (o : Option Stream) (h : Streams)
      → Ends (start_found out cfg p (start_response out cfg p (suc fuel)) id o h).0
  unfolding push_content
  found-Ends fuel id none h = tt
  found-Ends fuel id (some s) h = start_found-Ends (start_response out cfg p (suc fuel)) id s h (
      push_all-Ends (push_content out cfg p (start_response out cfg p (suc fuel)) id s.authority)
        (λ path k. promised-Ends fuel s.authority path _ _) (pushes_of_stream out cfg p s))

  -- If ngtcp2 opens unidirectional streams with the identifiers that QUIC reserves for a server, then
  -- `start_response` of any stream ends: a pushed stream pushes nothing in turn, so that a depth of two
  -- calls is never exceeded.
  pub start_response-Ends :
      (fuel id : ℕ) (h : Streams) → Ends (start_response out cfg p (suc (suc fuel)) id h).0
  unfolding start_response
  start_response-Ends fuel id h = found-Ends fuel id (h.streams id) h
