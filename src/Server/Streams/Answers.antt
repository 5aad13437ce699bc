-- ===== src/Server/Streams/Answers.antt =====
-- `start_response` with its pushes: what it keeps of the descriptors.
use quicsy.Prelude.{
  ℕ, zero, suc, ◌≡◌, refl, sym, subst, ◌∙◌, ap, arith, Bool, true, false, Bytes, codes, Option,
  none, some, List, [], ◌∷◌, Bool-cases, inl, inr,
}
use quicsy.Server.Response.{
  Stream, new_stream, Call, push_promise, open_uni_stream, bind_push_stream, set_user_data,
  submit_response, Config, Outside, Work, Answer, failed, done, aborts, dangles, exhausted,
  Prepared, answered, ready, prepare, Reader, read_data, dyn_read_data, response_headers,
}
use quicsy.Server.Response.Files.{is_open, IsFresh, SameFiles, submit-SameFiles, prepare-Gains}
use quicsy.Server.Streams.{
  Streams, Push, Issue, issued, blocked, refused, put, store, work_on, note, send_ready, resume,
  continue_after, push_all, pushes_of_stream, after_prepare, ignore_failure, pushed_stream,
  start_pushed, bind_pushed, with_push_stream, with_promise, push_content, start_found,
  start_response,
}
use quicsy.Server.Streams.Held.{IsHeld, same-IsHeld, store-IsHeld, fd_of, IdOk, same-Owns}

module _ (out : Outside) (cfg : Config) (p : Push) (fresh : IsFresh out) where
  send_ready-SameFiles :
      (n : ℕ) (content_type : Bytes) (reader : Reader) (w : Work)
      → SameFiles w (send_ready out cfg p n content_type reader w).1
  unfolding send_ready
  send_ready-SameFiles n content_type read_data w = submit-SameFiles out cfg _ read_data w
  send_ready-SameFiles n content_type dyn_read_data w =
      let headers = response_headers (codes "200") content_type n in
      elim (Bool-cases
        (out.succeeds w.calls (submit_response w.stream.stream_id headers dyn_read_data))) [
          | inl e ↦ rw e (record { id = refl; fd = refl; files = λ n. refl })
          | inr e ↦ rw e (record { id = refl; fd = refl; files = λ n. refl })
        ]

  resume-IsHeld :
      (id n : ℕ) (content_type : Bytes) (reader : Reader) (o : Option Stream) (h : Streams)
      → h.streams id ≡ o
      → IsHeld h
      → IsHeld (resume out cfg p id n content_type reader o h).1
  resume-IsHeld id n content_type reader none h e held = held
  resume-IsHeld id n content_type reader (some s) h e held =
      let k = send_ready-SameFiles n content_type reader (work_on s h) in
      same-IsHeld id _ h (k.id ∙ subst (IdOk id) e (held.keys id)) (ap fd_of e ∙ sym k.fd) k.files
        held

  go_on-IsHeld :
      (next : Streams → Answer × Streams)
      → ((h : Streams) → IsHeld h → IsHeld (next h).1)
      → (r : Answer × Streams) → IsHeld r.1
      → IsHeld (continue_after out cfg p next r).1
  go_on-IsHeld next keep (done, h) held = keep h held
  go_on-IsHeld next keep (failed, h) held = held
  go_on-IsHeld next keep (aborts, h) held = held
  go_on-IsHeld next keep (dangles, h) held = held
  go_on-IsHeld next keep (exhausted, h) held = held

  ignored-IsHeld : (r : Answer × Streams) → IsHeld r.1 → IsHeld (ignore_failure out cfg p r).1
  ignored-IsHeld (done, h) held = held
  ignored-IsHeld (failed, h) held = held
  ignored-IsHeld (aborts, h) held = held
  ignored-IsHeld (dangles, h) held = held
  ignored-IsHeld (exhausted, h) held = held

  push_all-IsHeld :
      (push : Bytes → Streams → Answer × Streams)
      → ((path : Bytes) (h : Streams) → IsHeld h → IsHeld (push path h).1)
      → (paths : List Bytes) (h : Streams) → IsHeld h
      → IsHeld (push_all out cfg p push paths h).1
  push_all-IsHeld push keep [] h held = held
  push_all-IsHeld push keep (path ∷ paths) h held =
      go_on-IsHeld _ (push_all-IsHeld push keep paths) (push path h) (keep path h held)

  -- `start` keeps the invariant at a stream without a file.
  abbrev KeepsHeld : (ℕ → Streams → Answer × Streams) → Type 0
  KeepsHeld start =
      (id : ℕ) (h : Streams) → fd_of (h.streams id) ≡ none → IsHeld h → IsHeld (start id h).1

  note-IsHeld :
      (c : Call) (h : Streams)
      → ((n : ℕ) → is_open n (c ∷ h.calls) ≡ is_open n h.calls)
      → IsHeld h
      → IsHeld (note c h)
  note-IsHeld c h files held = record {
    keys = held.keys;
    owns = same-Owns (λ i. refl) files held.owns;
  }

  -- A stream without a file is put where there was none.
  put-IsHeld :
      (id : ℕ) (s : Stream) (h : Streams)
      → s.stream_id ≡ id
      → s.fd ≡ none
      → fd_of (h.streams id) ≡ none
      → IsHeld h
      → IsHeld (record h { streams = put id (some s) h.streams })
  put-IsHeld id s h e f free held = same-IsHeld id (work_on s h) h e (free ∙ sym f) (λ n. refl) held

  start_pushed-IsHeld :
      (start : ℕ → Streams → Answer × Streams)
      → KeepsHeld start
      → (id : ℕ) (authority path : Bytes) (ok : Bool) (h : Streams) → fd_of (h.streams id) ≡ none
      → IsHeld h
      → IsHeld (start_pushed out cfg p start id authority path ok h).1
  start_pushed-IsHeld start keep id authority path false h free held = held
  start_pushed-IsHeld start keep id authority path true h free held =
      let s = pushed_stream out cfg p id authority path in
      let k = record h { streams = put id (some s) h.streams } in
      ignored-IsHeld _ (
        keep id (note (set_user_data id) k) (ground arith)
          (note-IsHeld (set_user_data id) k (λ n. refl) (put-IsHeld id s h refl refl free held)))

  bind_pushed-IsHeld :
      (start : ℕ → Streams → Answer × Streams)
      → KeepsHeld start
      → (push_id id : ℕ) (authority path : Bytes) (o : Option Stream) (h : Streams)
      → h.streams id ≡ o
      → IsHeld h
      → IsHeld (bind_pushed out cfg p start push_id id authority path o h).1
  bind_pushed-IsHeld start keep push_id id authority path (some s) h e held = held
  bind_pushed-IsHeld start keep push_id id authority path none h e held =
      let k = record h { streams = put id (some (new_stream id)) h.streams } in
      start_pushed-IsHeld start keep id authority path _ (note (bind_push_stream push_id id) k)
        (ground arith)
        (note-IsHeld (bind_push_stream push_id id) k (λ n. refl)
          (put-IsHeld id (new_stream id) h refl refl (ap fd_of e) held))

  push_content-IsHeld :
      (start : ℕ → Streams → Answer × Streams)
      → KeepsHeld start
      → (stream_id : ℕ) (authority path : Bytes) (h : Streams) → IsHeld h
      → IsHeld (push_content out cfg p start stream_id authority path h).1
  unfolding push_content
  push_content-IsHeld start keep stream_id authority path h held =
      promised (p.promise h.calls stream_id) (note (push_promise stream_id authority path) h)
        (note-IsHeld _ h (λ n. refl) held)
    where
      opened_uni :
          (push_id : ℕ) (i : Issue) (k : Streams)
          → IsHeld k
          → IsHeld (with_push_stream out cfg p start push_id authority path i k).1
      opened_uni push_id (issued id) k kept =
          bind_pushed-IsHeld start keep push_id id authority path (k.streams id) k refl kept
      opened_uni push_id blocked k kept = kept
      opened_uni push_id refused k kept = kept

      promised :
          (i : Issue) (k : Streams)
          → IsHeld k
          → IsHeld (with_promise out cfg p start authority path i k).1
      promised (issued push_id) k kept =
          opened_uni push_id (p.open_uni k.calls) (note open_uni_stream k)
            (note-IsHeld open_uni_stream k (λ n. refl) kept)
      promised blocked k kept = kept
      promised refused k kept = kept

  prepared-IsHeld :
      (push : Bytes → Streams → Answer × Streams)
      → ((path : Bytes) (h : Streams) → IsHeld h → IsHeld (push path h).1)
      → (id : ℕ) (pushes : List Bytes) (r : Prepared) (h : Streams) → IsHeld h
      → IsHeld (after_prepare out cfg p push id pushes r h).1
  prepared-IsHeld push keep id pushes (answered a) h held = held
  prepared-IsHeld push keep id pushes (ready n content_type reader) h held =
      go_on-IsHeld _ (λ k. resume-IsHeld id n content_type reader (k.streams id) k refl)
        (push_all out cfg p push pushes h) (push_all-IsHeld push keep pushes h held)

  start_found-IsHeld :
      (start : ℕ → Streams → Answer × Streams)
      → KeepsHeld start
      → (id : ℕ) (o : Option Stream) (h : Streams) → h.streams id ≡ o
      → fd_of o ≡ none
      → IsHeld h
      → IsHeld (start_found out cfg p start id o h).1
  start_found-IsHeld start keep id none h e free held = held
  start_found-IsHeld start keep id (some s) h e free held =
      let g = prepare-Gains out cfg (work_on s h) fresh free in
      prepared-IsHeld (push_content out cfg p start id s.authority)
        (push_content-IsHeld start keep id s.authority) id (pushes_of_stream out cfg p s)
        (prepare out cfg (work_on s h)).0 (store id (prepare out cfg (work_on s h)).1 h)
        (store-IsHeld id _ h (g.id ∙ subst (IdOk id) e (held.keys id)) (ap fd_of e ∙ free) g.takes
          held)

  -- The answer to a request for a stream without a file keeps the descriptors owned.
  pub start_response-IsHeld : (fuel : ℕ) → KeepsHeld (start_response out cfg p fuel)
  unfolding start_response
  start_response-IsHeld zero id h free held = held
  start_response-IsHeld (suc fuel) id h free held =
      start_found-IsHeld (start_response out cfg p fuel) (start_response-IsHeld fuel) id
        (h.streams id) h refl free held
