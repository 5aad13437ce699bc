-- ===== src/Server/Streams/Reachable.antt =====
-- The descriptors along every run of the callbacks.
use quicsy.Prelude.{
  ℕ, ◌%◌, ◌≡◌, ◌≢◌, arith, refl, sym, ◌∙◌, ap, Bool, true, false, Bytes, Option, none, some, ◌==◌,
  Bool-cases, inl, inr, if◌then◌else◌, subst,
}
use quicsy.Server.Dyn
use quicsy.Server.Dyn.{handler_acked}
use quicsy.Server.Response.{Stream, new_stream, done, Config, Outside}
use quicsy.Server.Response.Files.{IsFresh}
use quicsy.Server.Streams.{
  Streams, Push, put, work_on, is_bidi_stream, open_new, on_stream_open, destroy, flow_of,
  with_flow, acked_flow, acked_found, http_acked_stream_data, Token, path, method, authority,
  other_token, set_header, update, http_recv_request_header, set_data, http_begin_request_headers,
  start_response, http_end_request_headers, http_end_stream, grant, close_found, http_stream_close,
  Closing, closes, not_found, close_fails, on_stream_close,
}
use quicsy.Server.Streams.Steps
use quicsy.Server.Streams.Steps.{
  Step, opens, begins, header, headers_end, request_ends, acked, Reach, start, next, Progress,
  begin, move, mark,
}
use quicsy.Server.Streams.Held.{IsHeld, same-IsHeld, erase-IsHeld, same-Owns, fd_of, IdOk}
use quicsy.Server.Streams.Answers.{start_response-IsHeld}
use quicsy.Server.Streams.Ends.{OpensServerUni}
use quicsy.Server.Streams.Free.{
  Every, every, EveryOutcome, as_outcome, StaysFree, opened-StaysFree, begun-StaysFree,
  header-StaysFree, acked-StaysFree, close-StaysFree, others_free,
}

open_new-IsHeld :
    (id : ℕ) (o : Option Stream) (h : Streams)
    → h.streams id ≡ o
    → IsHeld h
    → Every IsHeld (open_new id o h)
open_new-IsHeld id none h e held =
    same-IsHeld id (work_on (new_stream id) h) h refl (ap fd_of e) (λ n. refl) held
open_new-IsHeld id (some s) h e held = tt

opened-IsHeld : (id : ℕ) (h : Streams) → IsHeld h → Every IsHeld (on_stream_open id h)
unfolding on_stream_open
opened-IsHeld id h held = elim (Bool-cases (is_bidi_stream id)) [
  | inl e ↦ rw e (open_new-IsHeld id (h.streams id) h refl held)
  | inr e ↦ rw e held
]

-- A stream changed in the fields that are neither its identifier nor its descriptor.
changed-IsHeld :
    (f : Stream → Stream) (id : ℕ) (s : Stream) (h : Streams)
    → (f s).stream_id ≡ s.stream_id
    → (f s).fd ≡ s.fd
    → h.streams id ≡ some s
    → IsHeld h
    → IsHeld (record h { streams = put id (some (f s)) h.streams })
changed-IsHeld f id s h same_id same_fd e held =
    same-IsHeld id (work_on (f s) h) h (same_id ∙ subst (IdOk id) e (held.keys id))
      (ap fd_of e ∙ sym same_fd) (λ n. refl) held

header-IsHeld :
    (id : ℕ) (t : Token) (v : Bytes) (o : Option Stream) (h : Streams)
    → h.streams id ≡ o
    → IsHeld h
    → Every IsHeld (update (set_header t v) id o h)
header-IsHeld id t v none h e held = tt
header-IsHeld id path v (some s) h e held =
    changed-IsHeld (set_header path v) id s h refl refl e held
header-IsHeld id method v (some s) h e held =
    changed-IsHeld (set_header method v) id s h refl refl e held
header-IsHeld id authority v (some s) h e held =
    changed-IsHeld (set_header authority v) id s h refl refl e held
header-IsHeld id other_token v (some s) h e held =
    changed-IsHeld (set_header other_token v) id s h refl refl e held

begun-IsHeld :
    (id : ℕ) (o : Option Stream) (h : Streams) → IsHeld h → Every IsHeld (set_data id o h)
begun-IsHeld id none h held = tt
begun-IsHeld id (some s) h held = record {
  keys = held.keys;
  owns = same-Owns (λ i. refl) (λ n. refl) held.owns;
}

grant-IsHeld : (id : ℕ) (h : Streams) → IsHeld h → Every IsHeld (grant id h)
grant-IsHeld id h held = elim (Bool-cases (is_bidi_stream id)) [
  | inl e ↦ rw e (elim (Bool-cases (id % 2 == 0)) [
    | inl f ↦ rw f (record { keys = held.keys; owns = held.owns })
    | inr f ↦ rw f tt
  ])
  | inr e ↦ rw e held
]

closed-IsHeld :
    (id : ℕ) (o : Option Stream) (h : Streams)
    → h.streams id ≡ o
    → IsHeld h
    → Every IsHeld (close_found id o h)
closed-IsHeld id none h e held = held
closed-IsHeld id (some s) h e held =
    grant-IsHeld id (record h { streams = put id none h.streams; calls = destroy s h.calls })
      (erase-IsHeld id s h e held)

close-IsHeld :
    (c : Closing) (id : ℕ) (h : Streams) → IsHeld h → EveryOutcome IsHeld (on_stream_close c id h)
unfolding on_stream_close http_stream_close
close-IsHeld (closes true) id h held =
    as_outcome IsHeld (close_found id (h.streams id) h)
      (closed-IsHeld id (h.streams id) h refl held)
close-IsHeld (closes false) id h held = held
close-IsHeld not_found id h held = as_outcome IsHeld (grant id h) (grant-IsHeld id h held)
close-IsHeld close_fails id h held = held

flow-IsHeld :
    (id : ℕ) (s : Stream) (o : Option (Dyn.Stream × Bool)) (h : Streams) {k : Streams} {b : Bool}
    → h.streams id ≡ some s
    → acked_flow id s o h ≡ some (k, b)
    → IsHeld h
    → IsHeld k
flow-IsHeld id s none h e q held = cc
flow-IsHeld id s (some (f, c)) h e q held =
    subst IsHeld (cc) (changed-IsHeld (λ t. with_flow t f) id s h refl refl e held)

acked-IsHeld :
    (id : ℕ) (o : Option Stream) (datalen : ℕ) (h : Streams) {k : Streams} {b : Bool}
    → h.streams id ≡ o
    → acked_found id o datalen h ≡ some (k, b)
    → IsHeld h
    → IsHeld k
acked-IsHeld id none datalen h e q held = cc
acked-IsHeld id (some s) datalen h e q held =
    flow-IsHeld id s (handler_acked (flow_of s) datalen) h e q held

-- Whether the response was begun.
abbrev begun : Bool → Progress → ℕ → Bool
begun early r i = if early then r.headers_ended i else r.request_ended i

-- The descriptors are owned, and a request that is not answered yet has none.
record IsSafe (early : Bool) (r : Progress) : Type 0 where
  held : IsHeld r.served
  free : (i : ℕ) → i % 4 ≡ 0 → begun early r i ≡ false → fd_of (r.served.streams i) ≡ none

moved-IsSafe :
    (early : Bool) (r : Progress) (k : Streams)
    → IsHeld k
    → StaysFree r.served k
    → IsSafe early r
    → IsSafe early (move r k)
moved-IsSafe true r k held stays safe = record {
  held = held;
  free = λ i z e. stays i (safe.free i z e);
}
moved-IsSafe false r k held stays safe = record {
  held = held;
  free = λ i z e. stays i (safe.free i z e);
}

unmarked : (id : ℕ) (m : ℕ → Bool) (i : ℕ) → mark id m i ≡ false → (i ≢ id) × (m i ≡ false)
unmarked id m i e = elim (Bool-cases (i == id)) [
  | inl p ↦ absurd (ground (arith, p, e))
  | inr p ↦ (λ q. absurd (ground (arith, p, q)), ground (arith, p, e))
]

module _ (out : Outside) (cfg : Config) (p : Push) (fresh : IsFresh out)
    (uni : OpensServerUni p) where
  answered-IsHeld :
      (id : ℕ) (h : Streams)
      → fd_of (h.streams id) ≡ none
      → IsHeld h
      → IsHeld (start_response out cfg p 2 id h).1
  answered-IsHeld id h free held = start_response-IsHeld out cfg p fresh 2 id h free held

  headers-IsSafe :
      (early : Bool) (r : Progress) (id : ℕ)
      → id % 4 ≡ 0
      → r.headers_ended id ≡ false
      → IsSafe early r
      → IsSafe early (record r {
        served = (if early then start_response out cfg p 2 id r.served else (done, r.served)).1;
        headers_ended = mark id r.headers_ended;
      })
  headers-IsSafe true r id z e safe = record {
    held = answered-IsHeld id r.served (safe.free id z e) safe.held;
    free = λ i w f.
        let (other, unanswered) = unmarked id r.headers_ended i f in
        others_free out cfg p uni id i r.served w other (safe.free i w unanswered);
  }
  headers-IsSafe false r id z e safe = record { held = safe.held; free = safe.free }

  request-IsSafe :
      (early : Bool) (r : Progress) (id : ℕ)
      → id % 4 ≡ 0
      → r.request_ended id ≡ false
      → IsSafe early r
      → IsSafe early (record r {
        served = (if early then (done, r.served) else start_response out cfg p 2 id r.served).1;
        request_ended = mark id r.request_ended;
      })
  request-IsSafe false r id z e safe = record {
    held = answered-IsHeld id r.served (safe.free id z e) safe.held;
    free = λ i w f.
        let (other, unanswered) = unmarked id r.request_ended i f in
        others_free out cfg p uni id i r.served w other (safe.free i w unanswered);
  }
  request-IsSafe true r id z e safe = record { held = safe.held; free = safe.free }

  moves :
      (r : Progress) (o : Option Streams) {k : Streams}
      → Every IsHeld o
      → Every (StaysFree r.served) o
      → o ≡ some k
      → IsSafe cfg.early_response r
      → IsSafe cfg.early_response (move r k)
  moves r o {k} a b q safe =
      moved-IsSafe cfg.early_response r k (every IsHeld o a q) (every (StaysFree r.served) o b q)
        safe

  step-IsSafe :
      {r t : Progress}
      → Step out cfg p r t
      → IsSafe cfg.early_response r
      → IsSafe cfg.early_response t
  unfolding http_end_request_headers http_end_stream http_recv_request_header
      http_begin_request_headers http_acked_stream_data
  step-IsSafe {r} (opens id q) safe =
      let h = r.served in
      moves r (on_stream_open id h) (opened-IsHeld id h safe.held) (opened-StaysFree id h) q safe
  step-IsSafe {r} (begins id q) safe =
      let h = r.served in
      moves r (set_data id (h.streams id) h) (begun-IsHeld id (h.streams id) h safe.held)
        (begun-StaysFree id (h.streams id) h) q safe
  step-IsSafe {r} (header id t v q) safe =
      let h = r.served in
      moves r (update (set_header t v) id (h.streams id) h)
        (header-IsHeld id t v (h.streams id) h refl safe.held)
        (header-StaysFree id t v (h.streams id) h refl) q safe
  step-IsSafe {r} (headers_end id z e) safe = headers-IsSafe cfg.early_response r id z e safe
  step-IsSafe {r} (request_ends id z e) safe = request-IsSafe cfg.early_response r id z e safe
  step-IsSafe {r} (acked {k = k} id datalen b q) safe =
      let h = r.served in
      moved-IsSafe cfg.early_response r k
        (acked-IsHeld id (h.streams id) datalen h refl q safe.held)
        (acked-StaysFree id (h.streams id) datalen h refl q) safe
  step-IsSafe {r} (Steps.closes {k = k} c id q) safe =
      let h = r.served in
      moved-IsSafe cfg.early_response r k
        (subst (EveryOutcome IsHeld) q (close-IsHeld c id h safe.held))
        (subst (EveryOutcome (StaysFree h)) q (close-StaysFree c id h)) safe
  step-IsSafe {r} (Steps.close_fails {k = k} c id q) safe =
      let h = r.served in
      moved-IsSafe cfg.early_response r k
        (subst (EveryOutcome IsHeld) q (close-IsHeld c id h safe.held))
        (subst (EveryOutcome (StaysFree h)) q (close-StaysFree c id h)) safe

  begin-IsSafe : IsSafe cfg.early_response begin
  begin-IsSafe = record {
    held = record {
      keys = λ i. tt;
      owns = record {
        held = λ i n e. absurd (cc (e));
        owned = λ n e. absurd (cc (e));
        unique = λ i j n e f. absurd (cc (e));
      };
    };
    free = λ i z e. refl;
  }

  reach-IsSafe : {r : Progress} → Reach out cfg p r → IsSafe cfg.early_response r
  reach-IsSafe start = begin-IsSafe
  reach-IsSafe (next w s) = step-IsSafe s (reach-IsSafe w)

  -- If `open` never answers a descriptor that is open, requests come on streams whose identifiers are
  -- multiples of 4, those that the server opens are of the form 4 k + 3, and nghttp3 reports the end of
  -- the headers and the end of the request once for each stream, then in every state that the callbacks
  -- can reach each stream stands under its own identifier, and the open descriptors are exactly those
  -- that the streams of the map hold, each by one stream: none leaks, and none is shared or used when
  -- closed.
  pub Reach-IsHeld : {r : Progress} → Reach out cfg p r → IsHeld r.served
  Reach-IsHeld w = (reach-IsSafe w).held
