-- ===== src/Streaming/Transcode.antt =====
-- `remux`, `encode_video`, `encode_audio`, `transcode_audio` and `transcode_video` of
-- streaming/transcoder.c. Each loop takes fuel.
pub mod Drain
pub mod Encode
use quicsy.Prelude.{
  ℕ, zero, suc, ◌*◌, ◌^◌, ltb, Bool, true, false, ◌||◌, not, Option, none, some, if◌then◌else◌,
}
use quicsy.Prelude.Int.{ℤ, pos}
use quicsy.Streaming.Outcome.{
  M, returns, crashes, out_of_fuel, ◌>>=◌, ◌>>◌, pure, act, call, read, deref, divide, is_neg, eq_ℤ,
  ok, failure,
}
use quicsy.Streaming.Av.{AvLib, Rational, Packet}
use quicsy.Streaming.Context.{StreamingContext}

module _ (av : AvLib) where
  open av use {
    World, Format, Context, Stream, Frame, again, eof, stream_time_base, avg_frame_rate,
    packet_alloc, packet_unref, packet_free, frame_unref, clear_pict_type, rescale_ts, send_frame,
    receive_packet, send_packet, receive_frame, interleaved_write_frame,
  }

  -- `response == AVERROR(EAGAIN) || response == AVERROR_EOF`.
  unfoldable pub no_more : ℤ → Bool
  no_more response = eq_ℤ response again || eq_ℤ response eof

  unfoldable pub remux : Packet → Option Format → Rational → Rational → M World ℤ
  remux pkt avfc decoder_tb encoder_tb = do
    f ← deref avfc
    written ← call (interleaved_write_frame f (rescale_ts pkt decoder_tb encoder_tb))
    pure (if is_neg written then failure else ok)

  -- `av_packet_unref` and `av_packet_free` behind the loop.
  release : Packet → M World ℤ
  release pkt = do act (packet_unref pkt); act (packet_free pkt); pure ok

  -- Behind `av_interleaved_write_frame`: the test of its response, and the next round.
  after_write : (ℤ → Packet → M World ℤ) → Packet → ℤ → Bool → M World ℤ
  after_write next out response true = next response out
  after_write next out response false = pure failure

  write_packet : Option Format → (ℤ → Packet → M World ℤ) → Packet → M World ℤ
  unfolding after_write
  write_packet output next out = do
    f ← deref output
    written ← call (interleaved_write_frame f out)
    after_write next out written (eq_ℤ written ok)

  -- Behind `avcodec_receive_packet`: the tests for the end and for an error, in this order.
  after_receive :
      Option Format
      → (Packet → M World Packet)
      → (ℤ → Packet → M World ℤ)
      → Packet
      → Bool
      → Bool
      → M World ℤ
  unfolding release write_packet
  after_receive output finish next pkt true negative = release pkt
  after_receive output finish next pkt false true = pure failure
  after_receive output finish next pkt false false = do
    out ← finish pkt
    write_packet output next out

  encode_round :
      Context
      → Option Format
      → (Packet → M World Packet)
      → (ℤ → Packet → M World ℤ)
      → Packet
      → Bool
      → M World ℤ
  unfolding after_receive
  encode_round ctx output finish next pkt true = release pkt
  encode_round ctx output finish next pkt false = do
    got ← call (receive_packet ctx pkt)
    after_receive output finish next got.1 (no_more got.0) (is_neg got.0)

  -- `while (response >= 0)` of `encode_audio` and `encode_video`; `finish` is what either does to a
  -- packet before it is written.
  unfoldable pub encode_loop :
      Context → Option Format → (Packet → M World Packet) → ℕ → ℤ → Packet → M World ℤ
  unfolding encode_round
  encode_loop ctx output finish zero response pkt = λ w. out_of_fuel
  encode_loop ctx output finish (suc fuel) response pkt =
      encode_round ctx output finish (encode_loop ctx output finish fuel) pkt (is_neg response)

  -- A product that overflows an int is undefined.
  abbrev in_int : ℕ → M World ℕ
  in_int n w = if ltb n (2 ^ 31) then returns n w else crashes

  -- den / num / rate.num * rate.den in int: each quotient is an integer, and a zero divisor traps.
  unfoldable pub packet_duration : Rational → Rational → M World ℕ
  packet_duration tb rate = do
    ticks ← divide tb.den tb.num
    frames ← divide ticks rate.num
    in_int (frames * rate.den)

  -- The stream index, the duration and the time stamps of a packet of `encode_video`.
  unfoldable pub finish_video : StreamingContext av → StreamingContext av → Packet → M World Packet
  unfolding packet_duration
  finish_video decoder encoder pkt = do
    to ← deref encoder.video_avs
    tb ← read (stream_time_base to)
    from ← deref decoder.video_avs
    rate ← read (avg_frame_rate from)
    duration ← packet_duration tb rate
    from_tb ← read (stream_time_base from)
    pure (
        rescale_ts (record pkt { stream_index = decoder.video_index; duration = duration }) from_tb
          tb)

  -- The stream index and the time stamps of a packet of `encode_audio`.
  unfoldable pub finish_audio : StreamingContext av → StreamingContext av → Packet → M World Packet
  finish_audio decoder encoder pkt = do
    from ← deref decoder.audio_avs
    from_tb ← read (stream_time_base from)
    to ← deref encoder.audio_avs
    to_tb ← read (stream_time_base to)
    pure (rescale_ts (record pkt { stream_index = decoder.audio_index }) from_tb to_tb)

  encode_allocated :
      Option Context
      → Option Format
      → (Packet → M World Packet)
      → ℕ
      → Option Frame
      → Option Packet
      → M World ℤ
  unfolding encode_loop
  encode_allocated avcc output finish fuel frame none = pure failure
  encode_allocated avcc output finish fuel frame (some pkt) = do
    ctx ← deref avcc
    response ← call (send_frame ctx frame)
    encode_loop ctx output finish fuel response pkt

  -- The common text of `encode_video` and `encode_audio`, from the allocation of the packet on.
  encode_with :
      Option Context → Option Format → (Packet → M World Packet) → ℕ → Option Frame → M World ℤ
  unfolding encode_allocated
  encode_with avcc output finish fuel frame = do
    pkt ← call packet_alloc
    encode_allocated avcc output finish fuel frame pkt

  unfoldable pub clear_type : Option Frame → Option Frame
  clear_type none = none
  clear_type (some f) = some (clear_pict_type f)

  unfoldable pub encode_video :
      ℕ → StreamingContext av → StreamingContext av → Option Frame → M World ℤ
  unfolding encode_with finish_video clear_type
  encode_video fuel decoder encoder frame =
      encode_with encoder.video_avcc encoder.avfc (finish_video decoder encoder) fuel
        (clear_type frame)

  unfoldable pub encode_audio :
      ℕ → StreamingContext av → StreamingContext av → Option Frame → M World ℤ
  unfolding encode_with finish_audio
  encode_audio fuel decoder encoder frame =
      encode_with encoder.audio_avcc encoder.avfc (finish_audio decoder encoder) fuel frame

  -- Behind the encoder: `if (encode_video(…)) return -1;`, and the next round.
  after_encode : (ℤ → Frame → M World ℤ) → ℤ → Frame → Bool → M World ℤ
  after_encode next response frame true = do act (frame_unref frame); next response frame
  after_encode next response frame false = pure failure

  -- Behind `avcodec_receive_frame`.
  after_frame :
      (Option Frame → M World ℤ) → (ℤ → Frame → M World ℤ) → ℤ → Frame → Bool → Bool → M World ℤ
  unfolding after_encode
  after_frame encode next response frame true negative = pure ok
  after_frame encode next response frame false true = pure response
  after_frame encode next response frame false false = do
    encoded ← encode (some frame)
    after_encode next response frame (eq_ℤ encoded ok)

  decode_round :
      Context → (Option Frame → M World ℤ) → (ℤ → Frame → M World ℤ) → Frame → Bool → M World ℤ
  unfolding after_frame
  decode_round ctx encode next frame true = pure ok
  decode_round ctx encode next frame false = do
    got ← call (receive_frame ctx frame)
    after_frame encode next got.0 got.1 (no_more got.0) (is_neg got.0)

  -- `while (response >= 0)` of `transcode_audio` and `transcode_video`; `encode` is either encoder.
  unfoldable pub decode_loop : Context → (Option Frame → M World ℤ) → ℕ → ℤ → Frame → M World ℤ
  unfolding decode_round
  decode_loop ctx encode zero response frame = λ w. out_of_fuel
  decode_loop ctx encode (suc fuel) response frame =
      decode_round ctx encode (decode_loop ctx encode fuel) frame (is_neg response)

  transcode_with : Option Context → (Option Frame → M World ℤ) → ℕ → Packet → Frame → M World ℤ
  unfolding decode_loop
  transcode_with avcc encode fuel pkt frame = do
    ctx ← deref avcc
    response ← call (send_packet ctx pkt)
    if is_neg response then pure response else decode_loop ctx encode fuel response frame

  -- `encode_fuel` bounds each encoder loop, `fuel` the decoder loop.
  unfoldable pub transcode_video :
      ℕ → ℕ → StreamingContext av → StreamingContext av → Packet → Frame → M World ℤ
  unfolding transcode_with encode_video
  transcode_video encode_fuel fuel decoder encoder pkt frame =
      transcode_with decoder.video_avcc (encode_video encode_fuel decoder encoder) fuel pkt frame

  unfoldable pub transcode_audio :
      ℕ → ℕ → StreamingContext av → StreamingContext av → Packet → Frame → M World ℤ
  unfolding transcode_with encode_audio
  transcode_audio encode_fuel fuel decoder encoder pkt frame =
      transcode_with decoder.audio_avcc (encode_audio encode_fuel decoder encoder) fuel pkt frame
