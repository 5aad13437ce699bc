-- ===== src/Server/Streams/Free.antt =====
-- A stream of a request holds no descriptor until its response is begun.
use quicsy.Prelude.{
  ℕ, ◌%◌, ◌≡◌, ◌≢◌, refl, sym, ◌∙◌, ap, subst, arith, Bool, true, false, Bytes, Option, none, some,
  ◌==◌, ==_iff, Bool-cases, inl, inr,
}
use quicsy.Server.Dyn
use quicsy.Server.Dyn.{handler_acked}
use quicsy.Server.Response.{Stream, new_stream, Config, Outside}
use quicsy.Server.Streams.{
  Streams, Push, put, is_bidi_stream, open_new, on_stream_open, destroy, flow_of, with_flow,
  acked_flow, acked_found, Token, path, method, authority, other_token, set_header, update,
  set_data, start_response, grant, close_found, http_stream_close, Closing, closes, not_found,
  close_fails, Outcome, ok, fails, stopped, ok_or_stopped, on_stream_close,
}
use quicsy.Server.Streams.Held.{fd_of}
use quicsy.Server.Streams.Ends.{OpensServerUni}
use quicsy.Server.Streams.Keeps.{Apart, start_response-keeps}

-- A property of every result.
abbrev pub Every : (Streams → Type 0) → Option Streams → Type 0
Every P none = Unit
Every P (some h) = P h

pub every : (P : Streams → Type 0) (o : Option Streams) {h : Streams} → Every P o → o ≡ some h → P h
every P (some k) e q = subst P (cc) e
every P none e q = cc

-- A property of the state of every result of a callback.
abbrev pub EveryOutcome : (Streams → Type 0) → Outcome → Type 0
EveryOutcome P (ok h) = P h
EveryOutcome P (fails h) = P h
EveryOutcome P stopped = Unit

pub as_outcome :
    (P : Streams → Type 0) (o : Option Streams) → Every P o → EveryOutcome P (ok_or_stopped o)
as_outcome P none e = tt
as_outcome P (some h) e = e

-- The streams without a descriptor still have none.
abbrev pub StaysFree : Streams → Streams → Type 0
StaysFree h k = (i : ℕ) → fd_of (h.streams i) ≡ none → fd_of (k.streams i) ≡ none

put-free :
    (id : ℕ) (o : Option Stream) (m : ℕ → Option Stream)
    → (fd_of (m id) ≡ none → fd_of o ≡ none)
    → (i : ℕ) → fd_of (m i) ≡ none
    → fd_of (put id o m i) ≡ none
put-free id o m f i e = elim (Bool-cases (i == id)) [
  | inl p ↦ rw p (f (subst (λ j. fd_of (m j) ≡ none) ((==_iff i id).0 p) e))
  | inr p ↦ rw p e
]

open_new-StaysFree :
    (id : ℕ) (o : Option Stream) (h : Streams) → Every (StaysFree h) (open_new id o h)
open_new-StaysFree id none h = put-free id (some (new_stream id)) h.streams (λ e. refl)
open_new-StaysFree id (some s) h = tt

pub opened-StaysFree : (id : ℕ) (h : Streams) → Every (StaysFree h) (on_stream_open id h)
unfolding on_stream_open
opened-StaysFree id h = elim (Bool-cases (is_bidi_stream id)) [
  | inl e ↦ rw e (open_new-StaysFree id (h.streams id) h)
  | inr e ↦ rw e (λ i f. f)
]

set_header-fd : (t : Token) (v : Bytes) (s : Stream) → (set_header t v s).fd ≡ s.fd
set_header-fd path v s = refl
set_header-fd method v s = refl
set_header-fd authority v s = refl
set_header-fd other_token v s = refl

pub header-StaysFree :
    (id : ℕ) (t : Token) (v : Bytes) (o : Option Stream) (h : Streams)
    → h.streams id ≡ o
    → Every (StaysFree h) (update (set_header t v) id o h)
header-StaysFree id t v none h e = tt
header-StaysFree id t v (some s) h e =
    put-free id (some (set_header t v s)) h.streams
      (λ f. set_header-fd t v s ∙ sym (ap fd_of e) ∙ f)

pub begun-StaysFree :
    (id : ℕ) (o : Option Stream) (h : Streams) → Every (StaysFree h) (set_data id o h)
begun-StaysFree id none h = tt
begun-StaysFree id (some s) h = λ i f. f

flow-StaysFree :
    (id : ℕ) (s : Stream) (o : Option (Dyn.Stream × Bool)) (h : Streams) {k : Streams} {b : Bool}
    → h.streams id ≡ some s
    → acked_flow id s o h ≡ some (k, b)
    → StaysFree h k
flow-StaysFree id s none h e q = cc
flow-StaysFree id s (some (f, c)) h {k} e q = λ i free.
    let moved : record h { streams = put id (some (with_flow s f)) h.streams } ≡ k = cc in
    subst (λ (t : Streams). fd_of (t.streams i) ≡ none) moved
      (put-free id (some (with_flow s f)) h.streams (λ g. sym (ap fd_of e) ∙ g) i free)

pub acked-StaysFree :
    (id : ℕ) (o : Option Stream) (datalen : ℕ) (h : Streams) {k : Streams} {b : Bool}
    → h.streams id ≡ o
    → acked_found id o datalen h ≡ some (k, b)
    → StaysFree h k
acked-StaysFree id none datalen h e q = cc
acked-StaysFree id (some s) datalen h e q =
    flow-StaysFree id s (handler_acked (flow_of s) datalen) h e q

grant-StaysFree : (id : ℕ) (h k : Streams) → StaysFree h k → Every (StaysFree h) (grant id k)
grant-StaysFree id h k f = elim (Bool-cases (is_bidi_stream id)) [
  | inl e ↦ rw e (elim (Bool-cases (id % 2 == 0)) [ inl g ↦ rw g f | inr g ↦ rw g tt ])
  | inr e ↦ rw e f
]

closed-StaysFree :
    (id : ℕ) (o : Option Stream) (h : Streams) → Every (StaysFree h) (close_found id o h)
closed-StaysFree id none h = λ i f. f
closed-StaysFree id (some s) h =
    grant-StaysFree id h (record h { streams = put id none h.streams; calls = destroy s h.calls })
      (put-free id none h.streams (λ e. refl))

pub close-StaysFree :
    (c : Closing) (id : ℕ) (h : Streams) → EveryOutcome (StaysFree h) (on_stream_close c id h)
unfolding on_stream_close http_stream_close
close-StaysFree (closes true) id h =
    as_outcome (StaysFree h) (close_found id (h.streams id) h)
      (closed-StaysFree id (h.streams id) h)
close-StaysFree (closes false) id h = λ i f. f
close-StaysFree not_found id h =
    as_outcome (StaysFree h) (grant id h) (grant-StaysFree id h h (λ i f. f))
close-StaysFree close_fails id h = λ i f. f

-- An answer gives no descriptor to the stream of another request.
module _ (out : Outside) (cfg : Config) (p : Push) (uni : OpensServerUni p) where
  uni-Apart : (i : ℕ) (was : Option Stream) → i % 4 ≡ 0 → Apart out cfg p i was
  uni-Apart i was z calls id h u f g q = absurd (omega (arith, uni calls id u, q, z))

  pub others_free :
      (id i : ℕ) (h : Streams)
      → i % 4 ≡ 0
      → i ≢ id
      → fd_of (h.streams i) ≡ none
      → fd_of ((start_response out cfg p 2 id h).1.streams i) ≡ none
  others_free id i h z other e =
      ap fd_of (
        start_response-keeps out cfg p i (h.streams i) (uni-Apart i (h.streams i) z) 2 id h other
          refl)
      ∙ e
