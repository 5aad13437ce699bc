-- ===== src/Streaming/Setup.antt =====
-- The input: `fill_stream_info`, `open_media` and `prepare_decoder` of streaming/transcoder.c. What a
-- function writes through its pointer arguments is part of its result.
pub mod Fill
pub mod Select
use quicsy.Prelude.{
  ℕ, zero, suc, ◌+◌, ◌*◌, Bool, true, false, not, ◌&&◌, Bytes, codes, Option, none, some, ltb,
  if◌then◌else◌,
}
use quicsy.Prelude.Int.{ℤ, pos}
use quicsy.Streaming.Outcome.{
  M, out_of_fuel, ◌>>=◌, ◌>>◌, pure, act, call, read, deref, is_neg, eq_ℤ, ok, failure,
}
use quicsy.Streaming.Av.{AvLib, Rational, MediaType, video, audio, other, Setting}
use quicsy.Streaming.Context.{StreamingParams, StreamingContext}

module _ (av : AvLib) where
  open av use {
    World, Format, Codec, Context, Stream, Params, codecpar, find_decoder, alloc_context,
    parameters_to_context, open_codec, alloc_format, open_input, find_stream_info, nb_streams,
    stream_at, codec_type, new_stream, find_encoder_by_name, configure, parameters_from_context,
    parameters_copy, set_stream_time_base, pix_fmts, sample_fmts, picture_height, picture_width,
    picture_aspect, picture_format, default_channel_layout, experimental,
  }

  -- What `fill_stream_info` leaves in `*avc` and `*avcc`, behind its code.
  pub record Filled : Type 0 where
    pub code : ℤ
    pub avc : Option Codec
    pub avcc : Option Context

  fill_context : Stream → Codec → Context → M World Filled
  fill_context avs c ctx = do
    par ← read (codecpar avs)
    filled ← call (parameters_to_context ctx par)
    if is_neg filled then pure (record { code = failure; avc = some c; avcc = some ctx }) else (do
      opened ← call (open_codec ctx c)
      pure (record { code = if is_neg opened then failure else ok; avc = some c; avcc = some ctx }))

  fill_codec : Stream → Codec → Option Context → M World Filled
  unfolding fill_context
  fill_codec avs c none = pure (record { code = failure; avc = some c; avcc = none })
  fill_codec avs c (some ctx) = fill_context avs c ctx

  fill_found : Stream → Option Context → Option Codec → M World Filled
  unfolding fill_codec
  fill_found avs old none = pure (record { code = failure; avc = none; avcc = old })
  fill_found avs old (some c) = do ctx ← call (alloc_context c); fill_codec avs c ctx

  -- `old` is what `*avcc` holds before the call.
  unfoldable pub fill_stream_info : Stream → Option Context → M World Filled
  unfolding fill_found
  fill_stream_info avs old = do
    par ← read (codecpar avs)
    avc ← read (find_decoder par)
    fill_found avs old avc

  open_allocated : Bytes → Option Format → M World (ℤ × Option Format)
  open_allocated name none = pure (failure, none)
  open_allocated name (some f) = do
    opened ← call (open_input f name)
    if not (eq_ℤ opened ok) then pure (failure, none) else (do
      found ← call (find_stream_info f)
      pure (if is_neg found then failure else ok, some f))

  -- `avformat_open_input` frees and clears the context when it fails.
  unfoldable pub open_media : Bytes → M World (ℤ × Option Format)
  unfolding open_allocated
  open_media name = do f ← call alloc_format; open_allocated name f

  -- The two assignments before `fill_stream_info`, and what that function leaves.
  abbrev pub with_video : StreamingContext av → ℕ → Stream → Filled → StreamingContext av
  with_video sc i s r = record sc {
    video_avs = some s;
    video_index = i;
    video_avc = r.avc;
    video_avcc = r.avcc;
  }

  abbrev pub with_audio : StreamingContext av → ℕ → Stream → Filled → StreamingContext av
  with_audio sc i s r = record sc {
    audio_avs = some s;
    audio_index = i;
    audio_avc = r.avc;
    audio_avcc = r.avcc;
  }

  -- One round of the loop of `prepare_decoder`.
  unfoldable pub take_stream :
      StreamingContext av → ℕ → Stream → MediaType → M World (ℤ × StreamingContext av)
  take_stream sc i s video = do
    r ← fill_stream_info s sc.video_avcc
    pure (r.code, with_video sc i s r)
  take_stream sc i s audio = do
    r ← fill_stream_info s sc.audio_avcc
    pure (r.code, with_audio sc i s r)
  take_stream sc i s other = pure (ok, sc)

  -- `if (fill_stream_info(…)) return -1;`, and the next round.
  after_stream :
      (StreamingContext av → M World (ℤ × StreamingContext av))
      → StreamingContext av
      → Bool
      → M World (ℤ × StreamingContext av)
  after_stream next sc true = next sc
  after_stream next sc false = pure (failure, sc)

  -- A round behind the test `i < sc->avfc->nb_streams`.
  decoder_round :
      Format
      → (StreamingContext av → M World (ℤ × StreamingContext av))
      → ℕ
      → StreamingContext av
      → Bool
      → M World (ℤ × StreamingContext av)
  unfolding take_stream after_stream
  decoder_round f next i sc false = pure (ok, sc)
  decoder_round f next i sc true = do
    s ← read (stream_at f i)
    t ← read (codec_type s)
    r ← take_stream sc i s t
    after_stream next r.1 (eq_ℤ r.0 ok)

  -- `for (int i = 0; i < sc->avfc->nb_streams; i++)`, from `i` on.
  unfoldable pub decoder_loop :
      Format → ℕ → ℕ → StreamingContext av → M World (ℤ × StreamingContext av)
  unfolding decoder_round
  decoder_loop f zero i sc = λ w. out_of_fuel
  decoder_loop f (suc fuel) i sc = do
    n ← read (nb_streams f)
    decoder_round f (decoder_loop f fuel (i + 1)) i sc (ltb i n)

  unfoldable pub prepare_decoder : ℕ → StreamingContext av → M World (ℤ × StreamingContext av)
  unfolding decoder_loop
  prepare_decoder fuel sc = do f ← deref sc.avfc; decoder_loop f fuel 0 sc
