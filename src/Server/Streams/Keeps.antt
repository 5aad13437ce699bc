-- ===== src/Server/Streams/Keeps.antt =====
-- `start_response` with its pushes leaves the other streams of the map as they are.
use quicsy.Prelude.{
  ℕ, zero, suc, ◌≡◌, ◌≢◌, refl, ◌∙◌, Bool, true, false, Bytes, Option, none, some, List, [], ◌∷◌,
  ◌==◌, ==_iff, Bool-cases, inl, inr,
}
use quicsy.Server.Response.{
  Stream, Call, new_stream, push_promise, open_uni_stream, bind_push_stream, set_user_data, Config,
  Outside, Answer, failed, done, aborts, dangles, exhausted, Prepared, answered, ready, prepare,
  Reader,
}
use quicsy.Server.Streams.{
  Streams, Push, Issue, issued, blocked, refused, put, store, work_on, note, resume, continue_after,
  push_all, pushes_of_stream, after_prepare, ignore_failure, pushed_stream, start_pushed,
  bind_pushed, with_push_stream, with_promise, push_content, start_found, start_response,
}

pub put_other :
    (j : ℕ) (o : Option Stream) (m : ℕ → Option Stream) (i : ℕ) → i ≢ j → put j o m i ≡ m i
put_other j o m i n = elim (Bool-cases (i == j)) [
  | inl e ↦ absurd (n ((==_iff i j).0 e))
  | inr e ↦ rw e refl
]

module _ (out : Outside) (cfg : Config) (p : Push) where
  -- A stream that the server opens, and that is not in the map, is not the stream `i`.
  abbrev pub Apart : ℕ → Option Stream → Type 0
  Apart i was =
      (calls : List Call) (id : ℕ) (h : Streams)
      → p.open_uni calls ≡ issued id
      → h.streams id ≡ none
      → h.streams i ≡ was
      → i ≢ id

  pub some-Apart : (i : ℕ) (s : Stream) → Apart i (some s)
  some-Apart i s calls id h u f e q = cc (q, f, e)

  module _ (i : ℕ) (was : Option Stream) (apart : Apart i was) where
    -- The stream `i` is left as it is, by a start of another one.
    abbrev KeepsOther : (ℕ → Streams → Answer × Streams) → Type 0
    KeepsOther start =
        (j : ℕ) (h : Streams) → i ≢ j → h.streams i ≡ was → (start j h).1.streams i ≡ was

    go_on-keeps :
        (next : Streams → Answer × Streams)
        → ((h : Streams) → h.streams i ≡ was → (next h).1.streams i ≡ was)
        → (r : Answer × Streams) → r.1.streams i ≡ was
        → (continue_after out cfg p next r).1.streams i ≡ was
    go_on-keeps next keep (done, h) e = keep h e
    go_on-keeps next keep (failed, h) e = e
    go_on-keeps next keep (aborts, h) e = e
    go_on-keeps next keep (dangles, h) e = e
    go_on-keeps next keep (exhausted, h) e = e

    ignored-keeps :
        (r : Answer × Streams)
        → r.1.streams i ≡ was
        → (ignore_failure out cfg p r).1.streams i ≡ was
    ignored-keeps (done, h) e = e
    ignored-keeps (failed, h) e = e
    ignored-keeps (aborts, h) e = e
    ignored-keeps (dangles, h) e = e
    ignored-keeps (exhausted, h) e = e

    pub push_all-keeps :
        (push : Bytes → Streams → Answer × Streams)
        → ((path : Bytes) (h : Streams) → h.streams i ≡ was → (push path h).1.streams i ≡ was)
        → (paths : List Bytes) (h : Streams) → h.streams i ≡ was
        → (push_all out cfg p push paths h).1.streams i ≡ was
    push_all-keeps push keep [] h e = e
    push_all-keeps push keep (path ∷ paths) h e =
        go_on-keeps _ (push_all-keeps push keep paths) (push path h) (keep path h e)

    start_pushed-keeps :
        (start : ℕ → Streams → Answer × Streams)
        → KeepsOther start
        → (id : ℕ) (authority path : Bytes) (b : Bool) (h : Streams) → i ≢ id
        → h.streams i ≡ was
        → (start_pushed out cfg p start id authority path b h).1.streams i ≡ was
    start_pushed-keeps start keep id authority path false h other e = e
    start_pushed-keeps start keep id authority path true h other e =
        let t = pushed_stream out cfg p id authority path in
        let k = note (set_user_data id) (record h { streams = put id (some t) h.streams }) in
        ignored-keeps (start id k) (keep id k other (put_other id (some t) h.streams i other ∙ e))

    bind_pushed-keeps :
        (start : ℕ → Streams → Answer × Streams)
        → KeepsOther start
        → (push_id id : ℕ) (authority path : Bytes) (o : Option Stream) (h : Streams)
        → (calls : List Call) → p.open_uni calls ≡ issued id
        → h.streams id ≡ o
        → h.streams i ≡ was
        → (bind_pushed out cfg p start push_id id authority path o h).1.streams i ≡ was
    bind_pushed-keeps start keep push_id id authority path (some t) h calls u f e = e
    bind_pushed-keeps start keep push_id id authority path none h calls u f e =
        let other : i ≢ id = apart calls id h u f e in
        start_pushed-keeps start keep id authority path
          (out.succeeds h.calls (bind_push_stream push_id id))
          (note (bind_push_stream push_id id)
            (record h { streams = put id (some (new_stream id)) h.streams }))
          other (put_other id (some (new_stream id)) h.streams i other ∙ e)

    pub push_content-keeps :
        (start : ℕ → Streams → Answer × Streams)
        → KeepsOther start
        → (stream_id : ℕ) (authority path : Bytes) (h : Streams) → h.streams i ≡ was
        → (push_content out cfg p start stream_id authority path h).1.streams i ≡ was
    unfolding push_content
    push_content-keeps start keep stream_id authority path h e =
        promised (p.promise h.calls stream_id) (note (push_promise stream_id authority path) h) e
      where
        opened_uni :
            (push_id : ℕ) (o : Issue) (k : Streams) (calls : List Call)
            → p.open_uni calls ≡ o
            → k.streams i ≡ was
            → (with_push_stream out cfg p start push_id authority path o k).1.streams i ≡ was
        opened_uni push_id (issued id) k calls u g =
            bind_pushed-keeps start keep push_id id authority path (k.streams id) k calls u refl g
        opened_uni push_id blocked k calls u g = g
        opened_uni push_id refused k calls u g = g

        promised :
            (o : Issue) (k : Streams)
            → k.streams i ≡ was
            → (with_promise out cfg p start authority path o k).1.streams i ≡ was
        promised (issued push_id) k g =
            opened_uni push_id (p.open_uni k.calls) (note open_uni_stream k) k.calls refl g
        promised blocked k g = g
        promised refused k g = g

    resume-keeps :
        (id n : ℕ) (content_type : Bytes) (reader : Reader) (o : Option Stream) (h : Streams)
        → i ≢ id
        → h.streams i ≡ was
        → (resume out cfg p id n content_type reader o h).1.streams i ≡ was
    resume-keeps id n content_type reader none h other e = e
    resume-keeps id n content_type reader (some t) h other e = put_other id _ h.streams i other ∙ e

    prepared-keeps :
        (push : Bytes → Streams → Answer × Streams)
        → ((path : Bytes) (h : Streams) → h.streams i ≡ was → (push path h).1.streams i ≡ was)
        → (id : ℕ) (pushes : List Bytes) (r : Prepared) (h : Streams) → i ≢ id
        → h.streams i ≡ was
        → (after_prepare out cfg p push id pushes r h).1.streams i ≡ was
    prepared-keeps push keep id pushes (answered a) h other e = e
    prepared-keeps push keep id pushes (ready n content_type reader) h other e =
        go_on-keeps _ (λ k. resume-keeps id n content_type reader (k.streams id) k other)
          (push_all out cfg p push pushes h) (push_all-keeps push keep pushes h e)

    start_found-keeps :
        (start : ℕ → Streams → Answer × Streams)
        → KeepsOther start
        → (id : ℕ) (o : Option Stream) (h : Streams) → i ≢ id
        → h.streams i ≡ was
        → (start_found out cfg p start id o h).1.streams i ≡ was
    start_found-keeps start keep id none h other e = e
    start_found-keeps start keep id (some t) h other e =
        let r = prepare out cfg (work_on t h) in
        prepared-keeps (push_content out cfg p start id t.authority)
          (push_content-keeps start keep id t.authority) id (pushes_of_stream out cfg p t) r.0
          (store id r.1 h) other (put_other id (some r.1.stream) h.streams i other ∙ e)

    -- An answer to one request leaves the other streams of the map as they are.
    pub start_response-keeps : (fuel : ℕ) → KeepsOther (start_response out cfg p fuel)
    unfolding start_response
    start_response-keeps zero id h other e = e
    start_response-keeps (suc fuel) id h other e =
        start_found-keeps (start_response out cfg p fuel) (start_response-keeps fuel) id
          (h.streams id) h other e
