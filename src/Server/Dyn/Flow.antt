-- ===== src/Server/Dyn/Flow.antt =====
-- The flow control of a response of generated bytes: how the reads of nghttp3 and its
-- acknowledgements move the counters of `Stream`.
use quicsy.Prelude.{
  ℕ, ◌+◌, ◌-◌, ◌≤◌, ◌<◌, ◌≡◌, ◌⊎◌, inr, Bool, true, false, ◌||◌, ◌>>=◌, arith, Option, some, ltb,
  List, [], ◌∷◌,
}
use quicsy.Server.Dyn.{
  max_dynbuflen, dyn_buf_size, Stream, Chunk, would_block, chunk, callback_failure, dyn_read_data,
  stream_acked, resumes, handler_acked,
}

-- The bytes that a read hands to nghttp3.
abbrev pub sent_by : Chunk → ℕ
sent_by would_block = 0
sent_by (chunk len eof) = len
sent_by callback_failure = 0

-- A stream, with the bytes handed to nghttp3 and those of them that are acknowledged.
pub record Flow : Type 0 where
  pub stream : Stream
  pub sent : ℕ
  pub acked : ℕ

-- A read that fails ends the connection; nghttp3 acknowledges only bytes that it was given.
pub data Step : Flow → Flow → Type 0 where
  read :
      (f : Flow)
      → Step f (record f {
        stream = (dyn_read_data true f.stream).1;
        sent = f.sent + sent_by (dyn_read_data true f.stream).0;
      })
  ack :
      (f : Flow) (n : ℕ) {s : Stream} {b : Bool}
      → f.acked + n ≤ f.sent
      → handler_acked f.stream n ≡ some (s, b)
      → Step f (record f { stream = s; acked = f.acked + n })

pub data Reach (f : Flow) : Flow → Type 0 where
  here : Reach f f
  next : {g h : Flow} → Reach f g → Step g h → Reach f h

-- The flow when a request for `total` generated bytes has just been answered.
abbrev pub start : ℕ → Flow
start total = record {
  stream = record { fd_open = false; dynresp = true; dyndataleft = total; dynbuflen = 0 };
  sent = 0;
  acked = 0;
}

-- Nothing is lost, `dynbuflen` counts the bytes in flight, and they stay within the limit and one
-- buffer more.
abbrev pub IsAccounted : ℕ → Flow → Type 0
IsAccounted total f =
    (f.stream.fd_open ≡ false)
    × (f.stream.dynresp ≡ true)
    × (f.sent + f.stream.dyndataleft ≡ total)
    × (f.acked + f.stream.dynbuflen ≡ f.sent)
    × (f.stream.dynbuflen ≤ max_dynbuflen + dyn_buf_size)

read-IsAccounted :
    (total : ℕ) (f : Flow)
    → IsAccounted total f
    → IsAccounted total (record f {
      stream = (dyn_read_data true f.stream).1;
      sent = f.sent + sent_by (dyn_read_data true f.stream).0;
    })
unfolding dyn_read_data
read-IsAccounted total f h = ground arith

ack-IsAccounted :
    (total : ℕ) (f : Flow) (n : ℕ) (s : Stream) (b : Bool)
    → f.acked + n ≤ f.sent
    → handler_acked f.stream n ≡ some (s, b)
    → IsAccounted total f
    → IsAccounted total (record f { stream = s; acked = f.acked + n })
unfolding handler_acked stream_acked
ack-IsAccounted total f n s b fits e h = ground arith

-- Whatever the order of reads and acknowledgements, the bytes sent and the bytes left make up the
-- whole response, `dynbuflen` is the number of bytes in flight, and it is at most MAX_DYNBUFLEN and
-- the 16 K of one more buffer.
pub Reach-IsAccounted : (total : ℕ) {f : Flow} → Reach (start total) f → IsAccounted total f
Reach-IsAccounted total here = ground arith
Reach-IsAccounted total (next r (read g)) = read-IsAccounted total g (Reach-IsAccounted total r)
Reach-IsAccounted total (next r (ack g n fits e)) =
    ack-IsAccounted total g n _ _ fits e (Reach-IsAccounted total r)

handler_acked-live :
    (s : Stream) (n : ℕ)
    → s.fd_open ≡ false
    → s.dynresp ≡ true
    → n ≤ s.dynbuflen
    → handler_acked s n
      ≡ some
          (record s { dynbuflen = s.dynbuflen - n }, ltb (s.dynbuflen - n) (max_dynbuflen - 16384))
unfolding handler_acked stream_acked resumes
handler_acked-live s n closed dyn h = ground arith

-- Acknowledgements in turn: whether one of them resumes the stream, `none` for an abort.
abbrev pub resumed : List ℕ → Stream → Bool → Option Bool
resumed [] s b = some b
resumed (n ∷ ns) s b = handler_acked s n >>= λ r. resumed ns r.0 (b || r.1)

abbrev pub sum : List ℕ → ℕ
sum [] = 0
sum (n ∷ ns) = n + sum ns

resumed-last :
    (ns : List ℕ) (s : Stream) (b : Bool)
    → s.fd_open ≡ false
    → s.dynresp ≡ true
    → sum ns ≡ s.dynbuflen
    → (b ≡ true) ⊎ (0 < s.dynbuflen)
    → resumed ns s b ≡ some true
resumed-last [] s b closed dyn total h = ground arith
resumed-last (n ∷ ns) s b closed dyn total h =
    rw (handler_acked-live s n closed dyn (omega arith)) (
      resumed-last ns (record s { dynbuflen = s.dynbuflen - n })
        (b || ltb (s.dynbuflen - n) (max_dynbuflen - 16384)) closed dyn (omega arith)
        (ground arith))

-- A stream that a read finds blocked does not hang: once the bytes in flight are acknowledged, in
-- pieces of any sizes, no acknowledgement aborts and at least one of them resumes the stream.
pub blocked-resumed :
    (total : ℕ) {f : Flow} (ns : List ℕ)
    → Reach (start total) f
    → (dyn_read_data true f.stream).0 ≡ would_block
    → f.acked + sum ns ≡ f.sent
    → resumed ns f.stream false ≡ some true
unfolding dyn_read_data
blocked-resumed total {f = f} ns r blocked e =
    let h = Reach-IsAccounted total r in
    resumed-last ns f.stream false h.0 h.1 (omega arith) (inr (ground arith))
