-- ===== src/Server/Streams/Credit.antt =====
-- The streams that a client may open anew when one is closed.
use quicsy.Prelude.{ℕ, ◌+◌, ◌%◌, ◌/◌, ◌≡◌, ◌≢◌, refl, arith, true, none, some}
use quicsy.Server.Response.{Stream}
use quicsy.Server.Streams.{
  Streams, put, is_bidi_stream, destroy, grant, http_stream_close, Closing, closes, not_found, ok,
  on_stream_close,
}
use quicsy.Server.Streams.Contents.{put_self}
use quicsy.Server.Streams.Keeps.{put_other}

-- nghttp3 reports a closed stream, with its callback called or as one that it never knew.
pub data Reports : Closing → Type 0 where
  reported : Reports (closes true)
  unknown : Reports not_found

-- One more stream is granted; `c` tells whether the stream left the map.
pub record IsGranted (c : Closing) (id : ℕ) (s : Stream) (h k : Streams) : Type 0 where
  pub granted : k.granted ≡ h.granted + 1
  pub gone : c ≡ closes true → k.streams id ≡ none
  pub left : c ≡ not_found → k.streams id ≡ some s
  pub others : (j : ℕ) → j ≢ id → k.streams j ≡ h.streams j

granted-once :
    (id : ℕ) (h : Streams) → id % 4 ≡ 0 → grant id h ≡ some (record h { granted = h.granted + 1 })
unfolding is_bidi_stream
granted-once id h e =
    let a : (id / 2) % 2 ≡ 0 = omega arith in let b : id % 2 ≡ 0 = omega arith in rw (a, b) refl

-- When a stream that a client opened in both directions is closed and nghttp3 reports it, by its
-- callback or as unknown, the client is granted exactly one stream more, and the other streams stay.
-- After the callback the stream is gone from the map; an unknown one is left in it.
pub on_stream_close-grants :
    (c : Closing) (id : ℕ) (s : Stream) (h : Streams)
    → Reports c
    → h.streams id ≡ some s
    → id % 4 ≡ 0
    → (k : Streams) × (on_stream_close c id h ≡ ok k) × IsGranted c id s h k
unfolding on_stream_close http_stream_close
on_stream_close-grants _ id s h reported e z =
    let g = record h { streams = put id none h.streams; calls = destroy s h.calls } in
    (
      record g { granted = h.granted + 1 },
      rw (e, granted-once id g z) refl,
      record {
        granted = refl;
        gone = λ q. put_self id none h.streams;
        left = λ q. absurd (cc (q));
        others = λ j n. put_other id none h.streams j n;
      },
    )
on_stream_close-grants _ id s h unknown e z = (
  record h { granted = h.granted + 1 },
  rw (granted-once id h z) refl,
  record { granted = refl; gone = λ q. absurd (cc (q)); left = λ q. e; others = λ j n. refl },
)
