-- ===== src/Streaming/Encoders.antt =====
-- The output: `prepare_video_encoder`, `prepare_audio_encoder` and `prepare_copy` of
-- streaming/transcoder.c.
use quicsy.Prelude.{ℕ, ◌*◌, Bytes, codes, Option, none, some, if◌then◌else◌}
use quicsy.Prelude.Int.{ℤ}
use quicsy.Streaming.Outcome.{M, ◌>>=◌, ◌>>◌, pure, act, call, read, deref, is_neg, ok, failure}
use quicsy.Streaming.Av.{AvLib, Rational, Setting}
use quicsy.Streaming.Context.{StreamingParams, StreamingContext}

module _ (av : AvLib) where
  open av use {
    World, Format, Codec, Context, Stream, Params, codecpar, find_decoder, alloc_context,
    parameters_to_context, open_codec, alloc_format, open_input, find_stream_info, nb_streams,
    stream_at, codec_type, new_stream, find_encoder_by_name, configure, parameters_from_context,
    parameters_copy, set_stream_time_base, pix_fmts, sample_fmts, picture_height, picture_width,
    picture_aspect, picture_format, default_channel_layout, experimental,
  }

  -- `av_opt_set(…, sp.codec_priv_key, sp.codec_priv_value, 0)`, when both are given.
  set_private : Context → Option Bytes → Option Bytes → World → World
  set_private ctx (some key) (some value) w = configure ctx (Setting.option key value) w
  set_private ctx (some key) none w = w
  set_private ctx none value w = w

  pixel_format : Option ℕ → ℕ → ℕ
  pixel_format none fallback = fallback
  pixel_format (some p) fallback = p

  -- The assignments to `video_avcc` and to the stream's time base, in their order.
  set_up_video :
      Codec → Context → Context → Stream → Rational → StreamingParams → M World (Unit {0})
  unfolding set_private pixel_format
  set_up_video avc ctx dec avs rate sp = do
    act (configure ctx (Setting.option (codes "preset") (codes "fast")))
    act (set_private ctx sp.codec_priv_key sp.codec_priv_value)
    height ← read (picture_height dec)
    act (configure ctx (Setting.height height))
    width ← read (picture_width dec)
    act (configure ctx (Setting.width width))
    aspect ← read (picture_aspect dec)
    act (configure ctx (Setting.sample_aspect_ratio aspect))
    offered ← read (pix_fmts avc)
    own ← read (picture_format dec)
    act (configure ctx (Setting.pix_fmt (pixel_format offered own)))
    act (configure ctx (Setting.bit_rate (2 * 1000 * 1000)))
    act (configure ctx (Setting.rc_buffer_size (4 * 1000 * 1000)))
    act (configure ctx (Setting.rc_max_rate (2 * 1000 * 1000)))
    act (configure ctx (Setting.rc_min_rate 2500000))
    let inverse : Rational = record { num = rate.den; den = rate.num }
    act (configure ctx (Setting.time_base inverse))
    act (set_stream_time_base avs inverse)

  -- `avcodec_open2` and `avcodec_parameters_from_context` behind the settings.
  open_encoder : Context → Codec → Stream → M World ℤ
  open_encoder ctx avc avs = do
    opened ← call (open_codec ctx avc)
    if is_neg opened then pure failure else (do act (parameters_from_context avs ctx); pure ok)

  video_context :
      StreamingContext av
      → Codec
      → Option Context
      → Option Context
      → Rational
      → StreamingParams
      → M World (ℤ × StreamingContext av)
  unfolding set_up_video open_encoder
  video_context sc avc none dec rate sp = pure (failure, record sc { video_avcc = none })
  video_context sc avc (some ctx) dec rate sp = do
    decoder_ctx ← deref dec
    avs ← deref sc.video_avs
    set_up_video avc ctx decoder_ctx avs rate sp
    code ← open_encoder ctx avc avs
    pure (code, record sc { video_avcc = some ctx })

  video_codec_found :
      StreamingContext av
      → Option Codec
      → Option Context
      → Rational
      → StreamingParams
      → M World (ℤ × StreamingContext av)
  unfolding video_context
  video_codec_found sc none dec rate sp = pure (failure, record sc { video_avc = none })
  video_codec_found sc (some avc) dec rate sp = do
    ctx ← call (alloc_context avc)
    video_context (record sc { video_avc = some avc }) avc ctx dec rate sp

  unfoldable pub prepare_video_encoder :
      StreamingContext av
      → Option Context
      → Rational
      → StreamingParams
      → M World (ℤ × StreamingContext av)
  unfolding video_codec_found
  prepare_video_encoder sc dec rate sp = do
    f ← deref sc.avfc
    avs ← call (new_stream f)
    avc ← read (find_encoder_by_name sp.video_codec)
    video_codec_found (record sc { video_avs = avs }) avc dec rate sp

  -- The assignments to `audio_avcc` and to the stream's time base.
  set_up_audio : Codec → Context → Stream → ℕ → M World (Unit {0})
  set_up_audio avc ctx avs rate = do
    act (configure ctx (Setting.channels 2))
    act (configure ctx (Setting.channel_layout (default_channel_layout 2)))
    act (configure ctx (Setting.sample_rate rate))
    formats ← read (sample_fmts avc)
    format ← deref formats
    act (configure ctx (Setting.sample_fmt format))
    act (configure ctx (Setting.bit_rate 196000))
    let base : Rational = record { num = 1; den = rate }
    act (configure ctx (Setting.time_base base))
    act (configure ctx (Setting.compliance experimental))
    act (set_stream_time_base avs base)

  audio_context :
      StreamingContext av → Codec → Option Context → ℕ → M World (ℤ × StreamingContext av)
  unfolding set_up_audio open_encoder
  audio_context sc avc none rate = pure (failure, record sc { audio_avcc = none })
  audio_context sc avc (some ctx) rate = do
    avs ← deref sc.audio_avs
    set_up_audio avc ctx avs rate
    code ← open_encoder ctx avc avs
    pure (code, record sc { audio_avcc = some ctx })

  audio_codec_found : StreamingContext av → Option Codec → ℕ → M World (ℤ × StreamingContext av)
  unfolding audio_context
  audio_codec_found sc none rate = pure (failure, record sc { audio_avc = none })
  audio_codec_found sc (some avc) rate = do
    ctx ← call (alloc_context avc)
    audio_context (record sc { audio_avc = some avc }) avc ctx rate

  unfoldable pub prepare_audio_encoder :
      StreamingContext av → ℕ → StreamingParams → M World (ℤ × StreamingContext av)
  unfolding audio_codec_found
  prepare_audio_encoder sc rate sp = do
    f ← deref sc.avfc
    avs ← call (new_stream f)
    avc ← read (find_encoder_by_name sp.audio_codec)
    audio_codec_found (record sc { audio_avs = avs }) avc rate

  -- `*avs` is the new stream; it is dereferenced unchecked.
  unfoldable pub prepare_copy : Format → Params → M World (ℤ × Option Stream)
  prepare_copy f par = do
    avs ← call (new_stream f)
    s ← deref avs
    act (parameters_copy s par)
    pure (ok, avs)
