-- ===== src/Streaming/Transcode/Encode.antt =====
-- `encode_video` and `encode_audio` as a whole: what is written, and that an error leaks a packet.
use quicsy.Prelude.{
  ℕ, ◌+◌, ◌*◌, ◌/◌, ◌<◌, ◌≡◌, ap, ◌∙◌, ◌⊎◌, inl, inr, true, false, List, ◌++◌, map, Option, some,
  arith, length, take, drop, ltb, ◌^◌, ◌==◌,
}
use quicsy.Prelude.Int.{ℤ}
use quicsy.Streaming.Outcome.{Outcome, returns, M, ok, failure}
use quicsy.Streaming.Av.{AvLib, Packet, Rational}
use quicsy.Streaming.Context.{StreamingContext}
use quicsy.Streaming.Transcode.{
  encode_loop, encode_with, encode_video, encode_audio, finish_video, finish_audio, clear_type,
}
use quicsy.Streaming.Transcode.Drain.{FifoEncoder, encode_loop-Drained}

not_zero : (n : ℕ) → 0 < n → (n == 0) ≡ false
not_zero n h = ground arith

fits_int : (n : ℕ) → n < 2 ^ 31 → ltb n (2 ^ 31) ≡ true
fits_int n h = ground arith

module _ (av : AvLib) where
  open av use {
    World, Format, Context, Stream, Frame, stream_time_base, avg_frame_rate, packet_alloc,
    rescale_ts, send_frame,
  }

  module _ {ctx : Context} {f : Format} (enc : FifoEncoder av ctx f) where
    open enc use {queue, output, refused, live, alloc_counts, send_keeps}

    -- The result of a whole call that writes `map g` of the packets `ps`: the first `count` of them are
    -- written, and the write of the next one, if there is one, has failed.
    pub record Encoded (g : Packet → Packet) (ps : List Packet) (w : World) (run : Outcome World ℤ)
        : Type 0 where
      pub code : ℤ
      pub end : World
      pub count : ℕ
      pub returned : run ≡ returns code end
      pub wrote : output end ≡ output w ++ map g (take count ps)
      pub tried : refused end ≡ refused w ++ map g (take 1 (drop count ps))
      pub verdict :
          ((code ≡ ok) × (count ≡ length ps) × (live end ≡ live w))
          ⊎ ((code ≡ failure) × (count < length ps) × (live end ≡ live w + 1))

    module _ (w : World) (pkt : Packet) (frame : Option Frame) (ps : List Packet)
        (allocated : (packet_alloc w).0 ≡ some pkt)
        (sent : (send_frame ctx frame (packet_alloc w).1).0 ≡ ok)
        (holds : queue (send_frame ctx frame (packet_alloc w).1).1 ≡ ps) where
      abbrev w_sent : World
      w_sent = (send_frame ctx frame (packet_alloc w).1).1

      encode_with-encode_loop :
          (finish : Packet → M World Packet) (fuel : ℕ)
          → encode_with av (some ctx) (some f) finish fuel frame w
            ≡ encode_loop av ctx (some f) finish fuel ok pkt w_sent
      unfolding encode_with
      encode_with-encode_loop finish fuel =
          rw allocated (ap (λ c. encode_loop av ctx (some f) finish fuel c pkt w_sent) sent)

      encode_with-Encoded :
          (finish : Packet → M World Packet) (g : Packet → Packet)
          → ((p : Packet) (v : World) → finish p v ≡ returns (g p) v)
          → (fuel : ℕ) → length ps < fuel
          → Encoded g ps w (encode_with av (some ctx) (some f) finish fuel frame w)
      encode_with-Encoded finish g finishes fuel h =
          let d = encode_loop-Drained av ctx f enc finish g finishes ps fuel w_sent pkt holds h in
          let (out_a, live_a, ref_a) = alloc_counts w in
          let (out_s, live_s, ref_s) = send_keeps (packet_alloc w).1 frame in
          record {
            code = d.code;
            end = d.end;
            count = d.count;
            returned = encode_with-encode_loop finish fuel ∙ d.returned;
            wrote = d.wrote ∙ ap (λ l. l ++ map g (take d.count ps)) (out_s ∙ out_a);
            tried = d.tried ∙ ap (λ l. l ++ map g (take 1 (drop d.count ps))) (ref_s ∙ ref_a);
            verdict = elim d.verdict [
              | inl (c, n, l) ↦ inl (c, n, omega arith)
              | inr (c, n, l) ↦ inr (c, n, omega arith)
            ];
          }

  -- The streams of both contexts, whose time bases and frame rate do not change while packets are
  -- written, with no zero divisor and no overflow in the duration of a packet.
  pub record VideoStreams (decoder encoder : StreamingContext av) : Type 0 where
    pub from : Stream
    pub to : Stream
    pub from_tb : Rational
    pub to_tb : Rational
    pub rate : Rational
    pub decodes : decoder.video_avs ≡ some from
    pub encodes : encoder.video_avs ≡ some to
    pub from_base : (w : World) → stream_time_base from w ≡ from_tb
    pub to_base : (w : World) → stream_time_base to w ≡ to_tb
    pub from_rate : (w : World) → avg_frame_rate from w ≡ rate
    pub base_not_zero : 0 < to_tb.num
    pub rate_not_zero : 0 < rate.num
    pub duration_fits : to_tb.den / to_tb.num / rate.num * rate.den < 2 ^ 31

  -- A packet of the encoder as it reaches the output file.
  abbrev pub video_packet :
      {decoder encoder : StreamingContext av} → VideoStreams decoder encoder → Packet → Packet
  video_packet {decoder} s p =
      rescale_ts
        (record p {
          stream_index = decoder.video_index;
          duration = s.to_tb.den / s.to_tb.num / s.rate.num * s.rate.den;
        })
        s.from_tb s.to_tb

  finish_video-video_packet :
      {decoder encoder : StreamingContext av} (s : VideoStreams decoder encoder) (p : Packet)
      (w : World)
      → finish_video av decoder encoder p w ≡ returns (video_packet s p) w
  unfolding finish_video
  finish_video-video_packet s p w = rw (s.encodes) (
      rw (s.to_base w) (
        rw (s.decodes) (
          rw (s.from_rate w) (
            rw (not_zero s.to_tb.num s.base_not_zero) (
              rw (not_zero s.rate.num s.rate_not_zero) (
                rw (fits_int (s.to_tb.den / s.to_tb.num / s.rate.num * s.rate.den) s.duration_fits)
                  (rw (s.from_base w))))))))

  module _ {ctx : Context} {f : Format} (enc : FifoEncoder av ctx f)
      {decoder encoder : StreamingContext av} (s : VideoStreams decoder encoder)
      (codec : encoder.video_avcc ≡ some ctx) (file : encoder.avfc ≡ some f) where
    -- Over an encoder that hands out its packets in order and a file that appends a packet or refuses it,
    -- `encode_video`, given a packet and an encoder that takes the frame, returns whenever its fuel is
    -- above the number of packets that the encoder then holds. It appends these packets to the output in
    -- their order, each with the decoder's stream index, the duration of a frame and rescaled time
    -- stamps: all of them, and then no write has failed, it returns 0 and as many packets are allocated
    -- as before the call; or those before the first write that fails, which is that of the next packet,
    -- and then it returns -1 and its own packet is leaked. The divisors of the duration, the numerators
    -- of the time base and the frame rate, are not 0, and the duration fits an int.
    pub encode_video-Encoded :
        (w : World) (pkt : Packet) (frame : Option Frame) (ps : List Packet)
        → (packet_alloc w).0 ≡ some pkt
        → (send_frame ctx (clear_type av frame) (packet_alloc w).1).0 ≡ ok
        → enc.queue (send_frame ctx (clear_type av frame) (packet_alloc w).1).1 ≡ ps
        → (fuel : ℕ) → length ps < fuel
        → Encoded enc (video_packet s) ps w (encode_video av fuel decoder encoder frame w)
    unfolding encode_video
    encode_video-Encoded w pkt frame ps allocated sent holds fuel h = rw (codec) (
        rw (file) (
          encode_with-Encoded enc w pkt (clear_type av frame) ps allocated sent holds
            (finish_video av decoder encoder) (video_packet s) (finish_video-video_packet s) fuel
            h))

  -- The audio streams of both contexts, whose time bases do not change while packets are written.
  pub record AudioStreams (decoder encoder : StreamingContext av) : Type 0 where
    pub from : Stream
    pub to : Stream
    pub from_tb : Rational
    pub to_tb : Rational
    pub decodes : decoder.audio_avs ≡ some from
    pub encodes : encoder.audio_avs ≡ some to
    pub from_base : (w : World) → stream_time_base from w ≡ from_tb
    pub to_base : (w : World) → stream_time_base to w ≡ to_tb

  abbrev pub audio_packet :
      {decoder encoder : StreamingContext av} → AudioStreams decoder encoder → Packet → Packet
  audio_packet {decoder} s p =
      rescale_ts (record p { stream_index = decoder.audio_index }) s.from_tb s.to_tb

  finish_audio-audio_packet :
      {decoder encoder : StreamingContext av} (s : AudioStreams decoder encoder) (p : Packet)
      (w : World)
      → finish_audio av decoder encoder p w ≡ returns (audio_packet s p) w
  unfolding finish_audio
  finish_audio-audio_packet s p w =
      rw (s.decodes) (rw (s.from_base w) (rw (s.encodes) (rw (s.to_base w))))

  module _ {ctx : Context} {f : Format} (enc : FifoEncoder av ctx f)
      {decoder encoder : StreamingContext av} (s : AudioStreams decoder encoder)
      (codec : encoder.audio_avcc ≡ some ctx) (file : encoder.avfc ≡ some f) where
    -- Over an encoder that hands out its packets in order and a file that appends a packet or refuses it,
    -- `encode_audio`, given a packet and an encoder that takes the frame, returns whenever its fuel is
    -- above the number of packets that the encoder then holds. It appends these packets to the output in
    -- their order, each with the decoder's stream index and rescaled time stamps: all of them, and then no
    -- write has failed, it returns 0 and as many packets are allocated as before the call; or those before
    -- the first write that fails, which is that of the next packet, and then it returns -1 and its own
    -- packet is leaked.
    pub encode_audio-Encoded :
        (w : World) (pkt : Packet) (frame : Option Frame) (ps : List Packet)
        → (packet_alloc w).0 ≡ some pkt
        → (send_frame ctx frame (packet_alloc w).1).0 ≡ ok
        → enc.queue (send_frame ctx frame (packet_alloc w).1).1 ≡ ps
        → (fuel : ℕ) → length ps < fuel
        → Encoded enc (audio_packet s) ps w (encode_audio av fuel decoder encoder frame w)
    unfolding encode_audio
    encode_audio-Encoded w pkt frame ps allocated sent holds fuel h = rw (codec) (
        rw (file) (
          encode_with-Encoded enc w pkt frame ps allocated sent holds
            (finish_audio av decoder encoder) (audio_packet s) (finish_audio-audio_packet s) fuel
            h))
