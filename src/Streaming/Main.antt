-- ===== src/Streaming/Main.antt =====
-- `main` of streaming/transcoder.c: the set-up of input and output, the loop over the packets of the
-- input, the flush of the video encoder and the release of everything.
pub mod Packets
use quicsy.Prelude.{
  ℕ, zero, suc, Bool, true, false, List, [], ◌∷◌, Bytes, codes, Option, none, some, not,
  if◌then◌else◌, ◌++◌,
}
use quicsy.Prelude.Int.{ℤ}
use quicsy.Streaming.Outcome.{
  M, out_of_fuel, ◌>>=◌, ◌>>◌, pure, act, call, read, deref, is_neg, eq_ℤ, ok, failure,
}
use quicsy.Streaming.Av.{AvLib, Packet, MediaType, video, audio, other}
use quicsy.Streaming.Context.{StreamingParams, StreamingContext, calloc_context}
use quicsy.Streaming.Setup.{open_media, prepare_decoder}
use quicsy.Streaming.Encoders.{prepare_video_encoder, prepare_audio_encoder, prepare_copy}
use quicsy.Streaming.Transcode.{remux, encode_video, transcode_video, transcode_audio}

-- `StreamingParams sp = {0}` and the assignments behind it.
abbrev pub main_params : StreamingParams
main_params = record {
  copy_video = false;
  copy_audio = true;
  output_extension = none;
  muxer_opt_key = none;
  muxer_opt_value = none;
  video_codec = codes "libx264";
  audio_codec = [];
  codec_priv_key = some (codes "x264-params");
  codec_priv_value = some (codes "keyint=60:min-keyint=60:scenecut=0:slices=1:force-cfr=1");
}

-- `strcat(encoder->filename, sp.output_extension)`.
abbrev with_extension : Option Bytes → Option Bytes → Option Bytes
with_extension name none = name
with_extension name (some ext) = append_to name
  where
    append_to : Option Bytes → Option Bytes
    append_to none = none
    append_to (some s) = some (s ++ ext)

abbrev muxer_opts : Option Bytes → Option Bytes → List (Bytes × Bytes)
muxer_opts none value = []
muxer_opts (some key) none = []
muxer_opts (some key) (some value) = (key, value) ∷ []

module _ (av : AvLib) where
  open av use {
    World, Format, Codec, Context, Stream, Params, Frame, codecpar, codec_type, stream_at,
    alloc_output, audio_rate, guess_frame_rate, stream_time_base, packet_alloc, packet_unref,
    packet_free, wants_global_header, set_global_header, without_file, avio_open, write_header,
    frame_alloc, read_frame, write_trailer, frame_free, close_input, free_format, free_context,
  }

  -- The result of `prepare_video_encoder` is not tested.
  unfoldable pub prepare_video_output :
      Bool
      → StreamingParams
      → StreamingContext av
      → StreamingContext av
      → M World (ℤ × StreamingContext av)
  prepare_video_output false sp decoder encoder = do
    f ← deref decoder.avfc
    s ← deref decoder.video_avs
    rate ← read (guess_frame_rate f s)
    r ← prepare_video_encoder av encoder decoder.video_avcc rate sp
    pure (ok, r.1)
  prepare_video_output true sp decoder encoder = do
    s ← deref decoder.video_avs
    par ← read (codecpar s)
    f ← deref encoder.avfc
    r ← prepare_copy av f par
    pure (r.0, record encoder { video_avs = r.1 })

  unfoldable pub prepare_audio_output :
      Bool
      → StreamingParams
      → StreamingContext av
      → StreamingContext av
      → M World (ℤ × StreamingContext av)
  prepare_audio_output false sp decoder encoder = do
    c ← deref decoder.audio_avcc
    rate ← read (audio_rate c)
    prepare_audio_encoder av encoder rate sp
  prepare_audio_output true sp decoder encoder = do
    s ← deref decoder.audio_avs
    par ← read (codecpar s)
    f ← deref encoder.avfc
    r ← prepare_copy av f par
    pure (r.0, record encoder { audio_avs = r.1 })

  open_file : Bool → Format → Option Bytes → M World ℤ
  open_file true f name = pure ok
  open_file false f name = do
    opened ← call (avio_open f name)
    pure (if is_neg opened then failure else ok)

  write_start : Format → StreamingParams → Bool → M World ℤ
  write_start f sp false = pure failure
  write_start f sp true = do
    written ← call (write_header f (muxer_opts sp.muxer_opt_key sp.muxer_opt_value))
    pure (if is_neg written then failure else ok)

  -- From the flags of the output format to `avformat_write_header`.
  unfoldable pub start_output : StreamingContext av → StreamingParams → M World ℤ
  unfolding open_file write_start
  start_output encoder sp = do
    f ← deref encoder.avfc
    header ← read (wants_global_header f)
    act (if header then set_global_header f else (λ w. w))
    no_file ← read (without_file f)
    opened ← open_file no_file f encoder.filename
    write_start f sp (eq_ℤ opened ok)

  -- `if (transcode_…(…)) return -1; av_packet_unref(input_packet);`
  finish_transcode : Packet → Bool → M World ℤ
  finish_transcode pkt false = pure failure
  finish_transcode pkt true = do act (packet_unref pkt); pure ok

  -- `if (remux(…)) return -1;`
  remux_between : Option Stream → Option Stream → Option Format → Packet → M World ℤ
  remux_between from to output pkt = do
    s ← deref from
    from_tb ← read (stream_time_base s)
    t ← deref to
    to_tb ← read (stream_time_base t)
    remux av pkt output from_tb to_tb

  video_packet :
      Bool → ℕ → ℕ → StreamingContext av → StreamingContext av → Packet → Frame → M World ℤ
  unfolding finish_transcode remux_between
  video_packet true encode_fuel fuel decoder encoder pkt frame =
      remux_between decoder.video_avs encoder.video_avs encoder.avfc pkt
  video_packet false encode_fuel fuel decoder encoder pkt frame = do
    code ← transcode_video av encode_fuel fuel decoder encoder pkt frame
    finish_transcode pkt (eq_ℤ code ok)

  audio_packet :
      Bool → ℕ → ℕ → StreamingContext av → StreamingContext av → Packet → Frame → M World ℤ
  unfolding finish_transcode remux_between
  audio_packet true encode_fuel fuel decoder encoder pkt frame =
      remux_between decoder.audio_avs encoder.audio_avs encoder.avfc pkt
  audio_packet false encode_fuel fuel decoder encoder pkt frame = do
    code ← transcode_audio av encode_fuel fuel decoder encoder pkt frame
    finish_transcode pkt (eq_ℤ code ok)

  -- The body of the loop, by the type of the packet's stream.
  unfoldable pub handle_packet :
      MediaType
      → StreamingParams
      → ℕ
      → ℕ
      → StreamingContext av
      → StreamingContext av
      → Packet
      → Frame
      → M World ℤ
  unfolding video_packet audio_packet
  handle_packet video sp encode_fuel fuel decoder encoder pkt frame =
      video_packet sp.copy_video encode_fuel fuel decoder encoder pkt frame
  handle_packet audio sp encode_fuel fuel decoder encoder pkt frame =
      audio_packet sp.copy_audio encode_fuel fuel decoder encoder pkt frame
  handle_packet other sp encode_fuel fuel decoder encoder pkt frame = pure ok

  after_packet : (Packet → M World (ℤ × Packet)) → Packet → Bool → M World (ℤ × Packet)
  after_packet next pkt true = next pkt
  after_packet next pkt false = pure (failure, pkt)

  -- Behind `av_read_frame`: the test, and a round.
  packet_round :
      Format
      → (MediaType → Packet → M World ℤ)
      → (Packet → M World (ℤ × Packet))
      → Packet
      → Bool
      → M World (ℤ × Packet)
  unfolding after_packet
  packet_round input handle next pkt true = pure (ok, pkt)
  packet_round input handle next pkt false = do
    s ← read (stream_at input pkt.stream_index)
    t ← read (codec_type s)
    code ← handle t pkt
    after_packet next pkt (eq_ℤ code ok)

  -- `while (av_read_frame(decoder->avfc, input_packet) >= 0)`.
  unfoldable pub packet_loop :
      Format → (MediaType → Packet → M World ℤ) → ℕ → Packet → M World (ℤ × Packet)
  unfolding packet_round
  packet_loop input handle zero pkt = λ w. out_of_fuel
  packet_loop input handle (suc fuel) pkt = do
    got ← call (read_frame input pkt)
    packet_round input handle (packet_loop input handle fuel) got.1 (is_neg got.0)

  free_if : Option Context → World → World
  free_if none w = w
  free_if (some c) w = free_context c w

  -- From `av_write_trailer` on.
  release_all : Format → Format → StreamingContext av → Packet → Frame → M World ℤ
  unfolding free_if
  release_all input output decoder pkt frame = do
    act (write_trailer output)
    act (frame_free frame)
    act (packet_free pkt)
    act (close_input input)
    act (free_format input)
    act (free_format output)
    act (free_if decoder.video_avcc)
    act (free_if decoder.audio_avcc)
    pure ok

  flushed : Format → Format → StreamingContext av → Packet → Frame → Bool → M World ℤ
  unfolding release_all
  flushed input output decoder pkt frame false = pure failure
  flushed input output decoder pkt frame true = release_all input output decoder pkt frame

  -- Behind the loop: `encode_video` with no frame flushes the video encoder.
  after_loop :
      ℕ
      → Format
      → Format
      → StreamingContext av
      → StreamingContext av
      → Frame
      → Packet
      → Bool
      → M World ℤ
  unfolding flushed
  after_loop encode_fuel input output decoder encoder frame pkt false = pure failure
  after_loop encode_fuel input output decoder encoder frame pkt true = do
    code ← encode_video av encode_fuel decoder encoder none
    flushed input output decoder pkt frame (eq_ℤ code ok)

  -- With the frame and the packet that are allocated.
  with_packet :
      StreamingParams
      → ℕ
      → ℕ
      → StreamingContext av
      → StreamingContext av
      → Frame
      → Option Packet
      → M World ℤ
  unfolding after_loop
  with_packet sp encode_fuel fuel decoder encoder frame none = pure failure
  with_packet sp encode_fuel fuel decoder encoder frame (some pkt) = do
    input ← deref decoder.avfc
    output ← deref encoder.avfc
    r ←
        packet_loop input (λ t p. handle_packet t sp encode_fuel fuel decoder encoder p frame) fuel
          pkt
    after_loop encode_fuel input output decoder encoder frame r.1 (eq_ℤ r.0 ok)

  with_frame :
      StreamingParams → ℕ → ℕ → StreamingContext av → StreamingContext av → Option Frame → M World ℤ
  unfolding with_packet
  with_frame sp encode_fuel fuel decoder encoder none = pure failure
  with_frame sp encode_fuel fuel decoder encoder (some frame) = do
    pkt ← call packet_alloc
    with_packet sp encode_fuel fuel decoder encoder frame pkt

  started : StreamingParams → ℕ → ℕ → StreamingContext av → StreamingContext av → Bool → M World ℤ
  unfolding with_frame
  started sp encode_fuel fuel decoder encoder false = pure failure
  started sp encode_fuel fuel decoder encoder true = do
    frame ← call frame_alloc
    with_frame sp encode_fuel fuel decoder encoder frame

  with_audio_output :
      StreamingParams → ℕ → ℕ → StreamingContext av → StreamingContext av → Bool → M World ℤ
  unfolding started
  with_audio_output sp encode_fuel fuel decoder encoder false = pure failure
  with_audio_output sp encode_fuel fuel decoder encoder true = do
    code ← start_output encoder sp
    started sp encode_fuel fuel decoder encoder (eq_ℤ code ok)

  with_video_output :
      StreamingParams → ℕ → ℕ → StreamingContext av → StreamingContext av → Bool → M World ℤ
  unfolding with_audio_output
  with_video_output sp encode_fuel fuel decoder encoder false = pure failure
  with_video_output sp encode_fuel fuel decoder encoder true = do
    r ← prepare_audio_output sp.copy_audio sp decoder encoder
    with_audio_output sp encode_fuel fuel decoder r.1 (eq_ℤ r.0 ok)

  with_output :
      StreamingParams
      → ℕ
      → ℕ
      → StreamingContext av
      → StreamingContext av
      → Option Format
      → M World ℤ
  unfolding with_video_output
  with_output sp encode_fuel fuel decoder encoder none = pure failure
  with_output sp encode_fuel fuel decoder encoder (some f) = do
    r ← prepare_video_output sp.copy_video sp decoder (record encoder { avfc = some f })
    with_video_output sp encode_fuel fuel decoder r.1 (eq_ℤ r.0 ok)

  with_decoder :
      StreamingParams → ℕ → ℕ → StreamingContext av → StreamingContext av → Bool → M World ℤ
  unfolding with_output
  with_decoder sp encode_fuel fuel decoder encoder false = pure failure
  with_decoder sp encode_fuel fuel decoder encoder true = do
    output ← call (alloc_output encoder.filename)
    with_output sp encode_fuel fuel decoder encoder output

  with_media :
      StreamingParams → ℕ → ℕ → StreamingContext av → StreamingContext av → Bool → M World ℤ
  unfolding with_decoder
  with_media sp encode_fuel fuel decoder encoder false = pure failure
  with_media sp encode_fuel fuel decoder encoder true = do
    r ← prepare_decoder av fuel decoder
    with_decoder sp encode_fuel fuel r.1 encoder (eq_ℤ r.0 ok)

  -- The program with its parameters: `argv[1]`, and `argv[2]`, which is null when it is not given.
  unfoldable pub run : StreamingParams → ℕ → ℕ → Bytes → Option Bytes → M World ℤ
  unfolding with_media
  run sp encode_fuel fuel input output = do
    r ← open_media av input
    with_media sp encode_fuel fuel (record (calloc_context av (some input)) { avfc = r.1 })
        (calloc_context av (with_extension output sp.output_extension)) (eq_ℤ r.0 ok)

  -- `argv` behind the name of the program. `fuel` bounds every loop but those of the encoder.
  unfoldable pub main : ℕ → ℕ → List Bytes → M World ℤ
  main encode_fuel fuel [] = pure failure
  main encode_fuel fuel (input ∷ []) = run main_params encode_fuel fuel input none
  main encode_fuel fuel (input ∷ output ∷ more) =
      run main_params encode_fuel fuel input (some output)
