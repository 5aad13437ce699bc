-- ===== src/Streaming/Setup/Select.antt =====
-- Which streams `prepare_decoder` selects.
use mathlib.Core.Option
use quicsy.Prelude.{
  ℕ, zero, suc, ◌+◌, ◌<◌, ◌≤◌, ◌≢◌, ◌∙◌, ap, subst, Bytes, ◌≡◌, refl, ◌⊎◌, inl, inr, Bool, true,
  false, Option, none, some, arith, ltb, if◌then◌else◌,
}
use quicsy.Prelude.Int.{ℤ}
use quicsy.Streaming.Outcome.{Outcome, returns, ok, failure}
use quicsy.Streaming.Av.{AvLib, MediaType, video, audio, other}
use quicsy.Streaming.Context.{StreamingContext, calloc_context}
use quicsy.Streaming.Setup.Fill.{Decoders, StaysOpen, Refused, fill_stream_info-Fills}
use quicsy.Streaming.Setup.{take_stream, decoder_loop, prepare_decoder, with_video, with_audio}

-- The last of the first `n` indices whose stream is of a kind that `wanted` tells.
unfoldable pub last_of : (MediaType → Bool) → (ℕ → MediaType) → ℕ → Option ℕ
last_of wanted kind zero = none
last_of wanted kind (suc n) = if wanted (kind n) then some n else last_of wanted kind n

unfoldable pub is_video : MediaType → Bool
is_video video = true
is_video audio = false
is_video other = false

unfoldable pub is_audio : MediaType → Bool
is_audio video = false
is_audio audio = true
is_audio other = false

below : (i n : ℕ) → i < n → ltb i n ≡ true
below i n h = ground arith

not_below : (i n : ℕ) → n ≤ i → ltb i n ≡ false
not_below i n h = ground arith

module _ (av : AvLib) where
  open av use {World, Format, Stream, nb_streams, stream_at, codec_type}

  -- Opening decoders does not change which streams the input has.
  pub record FixedStreams (f : Format) : Type 0 where
    pub count : ℕ
    pub stream : ℕ → Stream
    pub kind : ℕ → MediaType
    pub counted : (w : World) → nb_streams f w ≡ count
    pub at : (i : ℕ) (w : World) → stream_at f i w ≡ stream i
    pub typed : (i : ℕ) (w : World) → codec_type (stream i) w ≡ kind i

module _ (av : AvLib) (dec : Decoders av) where
  open av use {
    World, Format, Context, Stream, nb_streams, stream_at, codec_type, codecpar, find_decoder,
  }
  open dec use {is_open, failed}

  -- One kind of stream: the last one among those seen, with an open decoder if there is one.
  pub record Chosen {f : Format} (fixed : FixedStreams av f) (wanted : MediaType → Bool) (n : ℕ)
      (avs : Option Stream) (index : ℕ) (avcc : Option Context) (w : World) : Type 0 where
    pub stream : avs ≡ Option.map fixed.stream (last_of wanted fixed.kind n)
    pub position : index ≡ Option.get_or (last_of wanted fixed.kind n) 0
    pub opened : (avs ≡ none) ⊎ ((c : Context) × (avcc ≡ some c) × (is_open c w ≡ true))

  -- The streams of the context are the last ones of their kinds among the first `n`.
  pub record Selected {f : Format} (fixed : FixedStreams av f) (n : ℕ) (sc : StreamingContext av)
      (w : World) : Type 0 where
    pub video_part : Chosen fixed is_video n sc.video_avs sc.video_index sc.video_avcc w
    pub audio_part : Chosen fixed is_audio n sc.audio_avs sc.audio_index sc.audio_avcc w

  Chosen-keep :
      {f : Format} (fixed : FixedStreams av f) (wanted : MediaType → Bool) (n : ℕ)
      {avs : Option Stream} {index : ℕ} {avcc : Option Context} {w u : World}
      → wanted (fixed.kind n) ≡ false
      → StaysOpen av dec w u
      → Chosen fixed wanted n avs index avcc w
      → Chosen fixed wanted (suc n) avs index avcc u
  unfolding last_of
  Chosen-keep fixed wanted n h stays c = record {
    stream = rw h (c.stream);
    position = rw h (c.position);
    opened = elim c.opened [
      | inl e ↦ inl e
      | inr (ctx, e, open_ctx) ↦ inr (ctx, e, stays ctx open_ctx)
    ];
  }

  Chosen-new :
      {f : Format} (fixed : FixedStreams av f) (wanted : MediaType → Bool) (n : ℕ)
      {avcc : Option Context} {w : World} (c : Context)
      → wanted (fixed.kind n) ≡ true
      → avcc ≡ some c
      → is_open c w ≡ true
      → Chosen fixed wanted (suc n) (some (fixed.stream n)) n avcc w
  unfolding last_of
  Chosen-new fixed wanted n c h e f = record {
    stream = rw h;
    position = rw h;
    opened = inr (c, e, f);
  }

  -- Why -1 is returned: one call has failed, or one of the first `n` streams is audio or video and has no
  -- decoder.
  abbrev pub Stopped : {f : Format} → FixedStreams av f → ℕ → World → World → Type 0
  Stopped fixed n w u =
      (failed u ≡ failed w + 1)
      ⊎ ((failed u ≡ failed w)
          × ((i : ℕ) × (i < n)
              × (fixed.kind i ≢ other)
              × (find_decoder (codecpar (fixed.stream i) u) u ≡ none)))

  -- A round, or the whole loop, from `w` on: 0 with the streams selected, or -1 with a reason.
  pub record Selects {f : Format} (fixed : FixedStreams av f) (n : ℕ) (w : World)
      (run : Outcome World (ℤ × StreamingContext av)) : Type 0 where
    pub code : ℤ
    pub context : StreamingContext av
    pub end : World
    pub returned : run ≡ returns (code, context) end
    pub verdict :
        ((code ≡ ok) × Selected fixed n context end × (failed end ≡ failed w))
        ⊎ ((code ≡ failure) × Stopped fixed n w end)

  Stopped-new :
      {f : Format} (fixed : FixedStreams av f) (n : ℕ) (w u : World)
      → fixed.kind n ≢ other
      → Refused av dec (fixed.stream n) w u
      → Stopped fixed (suc n) w u
  Stopped-new fixed n w u k (inl one) = inl one
  Stopped-new fixed n w u k (inr (same, lacks)) = inr (same, (n, omega arith, k, lacks))

  take_stream-Selects :
      {f : Format} (fixed : FixedStreams av f) (n : ℕ) (t : MediaType) (sc : StreamingContext av)
      (w : World)
      → fixed.kind n ≡ t
      → Selected fixed n sc w
      → Selects fixed (suc n) w (take_stream av sc n (fixed.stream n) t w)
  unfolding take_stream is_video is_audio
  take_stream-Selects fixed n video sc w e sel =
      let r = fill_stream_info-Fills av dec (fixed.stream n) sc.video_avcc w in
      record {
        code = r.result.code;
        context = with_video av sc n (fixed.stream n) r.result;
        end = r.end;
        returned = rw r.returned;
        verdict = elim r.verdict [
          | inl (zero_code, (c, e_c, open_ctx), same) ↦ inl (
            zero_code,
            record {
              video_part = Chosen-new fixed is_video n c (rw e) e_c open_ctx;
              audio_part = Chosen-keep fixed is_audio n (rw e) r.stays sel.audio_part;
            },
            same,
          )
          | inr (minus, why) ↦ inr (minus, Stopped-new fixed n w r.end (λ k. cc (k, e)) why)
        ];
      }
  take_stream-Selects fixed n audio sc w e sel =
      let r = fill_stream_info-Fills av dec (fixed.stream n) sc.audio_avcc w in
      record {
        code = r.result.code;
        context = with_audio av sc n (fixed.stream n) r.result;
        end = r.end;
        returned = rw r.returned;
        verdict = elim r.verdict [
          | inl (zero_code, (c, e_c, open_ctx), same) ↦ inl (
            zero_code,
            record {
              video_part = Chosen-keep fixed is_video n (rw e) r.stays sel.video_part;
              audio_part = Chosen-new fixed is_audio n c (rw e) e_c open_ctx;
            },
            same,
          )
          | inr (minus, why) ↦ inr (minus, Stopped-new fixed n w r.end (λ k. cc (k, e)) why)
        ];
      }
  take_stream-Selects fixed n other sc w e sel = record {
    code = ok;
    context = sc;
    end = w;
    returned = refl;
    verdict = inl (
      refl,
      record {
        video_part = Chosen-keep fixed is_video n (rw e) (λ d h. h) sel.video_part;
        audio_part = Chosen-keep fixed is_audio n (rw e) (λ d h. h) sel.audio_part;
      },
      refl,
    );
  }

  module _ {f : Format} (fixed : FixedStreams av f) where
    open fixed use {count, stream, kind}

    loop_ends :
        (fuel i : ℕ) (sc : StreamingContext av) (w : World)
        → count ≡ i
        → Selected fixed i sc w
        → Selects fixed count w (decoder_loop av f (suc fuel) i sc w)
    unfolding decoder_loop
    loop_ends fuel i sc w e sel = record {
      code = ok;
      context = sc;
      end = w;
      returned = rw (fixed.counted w) (rw (not_below i count (omega arith)));
      verdict = inl (refl, rw e sel, refl);
    }

    wider : (n : ℕ) (w u : World) → n ≤ count → Stopped fixed n w u → Stopped fixed count w u
    wider n w u h (inl one) = inl one
    wider n w u h (inr (same, (i, low, k, lacks))) = inr (same, (i, omega arith, k, lacks))

    loop_fails :
        (fuel i : ℕ) (sc : StreamingContext av) (w : World)
        → i < count
        → (r : Selects fixed (suc i) w (take_stream av sc i (stream i) (kind i) w))
        → r.code ≡ failure
        → Stopped fixed (suc i) w r.end
        → Selects fixed count w (decoder_loop av f (suc fuel) i sc w)
    unfolding decoder_loop
    loop_fails fuel i sc w h r e why = record {
      code = failure;
      context = r.context;
      end = r.end;
      returned =
          rw (fixed.counted w) (
            rw (below i count h) (rw (fixed.at i w) (rw (fixed.typed i w) (rw r.returned (rw e)))));
      verdict = inr (refl, wider (suc i) w r.end h why);
    }

    loop_goes_on :
        (fuel i : ℕ) (sc : StreamingContext av) (w : World)
        → i < count
        → (r : Selects fixed (suc i) w (take_stream av sc i (stream i) (kind i) w)) → r.code ≡ ok
        → failed r.end ≡ failed w
        → Selects fixed count r.end (decoder_loop av f fuel (i + 1) r.context r.end)
        → Selects fixed count w (decoder_loop av f (suc fuel) i sc w)
    unfolding decoder_loop
    loop_goes_on fuel i sc w h r e same rest = record {
      code = rest.code;
      context = rest.context;
      end = rest.end;
      returned = rw (fixed.counted w) (
          rw (below i count h)
            (rw (fixed.at i w) (rw (fixed.typed i w) (rw r.returned (rw e rest.returned)))));
      verdict = elim rest.verdict [
        | inl (code, sel, none_failed) ↦ inl (code, sel, none_failed ∙ same)
        | inr (code, inl one) ↦ inr (code, inl (one ∙ ap (λ n. n + 1) same))
        | inr (code, inr (none_failed, lacks)) ↦ inr (code, inr (none_failed ∙ same, lacks))
      ];
    }

    decoder_loop-Selects :
        (rest fuel i : ℕ) (sc : StreamingContext av) (w : World)
        → i + rest ≡ count
        → rest < fuel
        → Selected fixed i sc w
        → Selects fixed count w (decoder_loop av f fuel i sc w)
    decoder_loop-Selects zero zero i sc w e h sel = elim h [ ]
    decoder_loop-Selects zero (suc fuel) i sc w e h sel = loop_ends fuel i sc w (omega arith) sel
    decoder_loop-Selects (suc rest) zero i sc w e h sel = elim h [ ]
    decoder_loop-Selects (suc rest) (suc fuel) i sc w e h sel =
        let r = take_stream-Selects fixed i (kind i) sc w refl sel in
        elim r.verdict [
          | inr (minus, why) ↦ loop_fails fuel i sc w (omega arith) r minus why
          | inl (zero_code, sel', same) ↦ loop_goes_on fuel i sc w (omega arith) r zero_code same (
              decoder_loop-Selects rest fuel (i + 1) r.context r.end (omega arith) (omega arith)
                (subst (λ k. Selected fixed k r.context r.end) (omega arith) sel'))
        ]

    none_yet : (wanted : MediaType → Bool) (w : World) → Chosen fixed wanted 0 none 0 none w
    unfolding last_of
    none_yet wanted w = record { stream = refl; position = refl; opened = inl refl }

    -- `prepare_decoder`, from a context of `calloc` whose input is open, returns whenever its fuel is
    -- above the number of streams. It returns 0, and then no call has failed, the video stream and index
    -- are those of the last video stream of the input and the audio ones those of the last audio stream,
    -- null and 0 where there is none, and the context of each stream that is there was opened by
    -- `avcodec_open2`; or it returns -1, and then exactly one call has failed, or none, and an audio or
    -- video stream of the input has no decoder.
    pub prepare_decoder-Selects :
        (fuel : ℕ) (name : Option Bytes) (w : World)
        → count < fuel
        → Selects fixed count w
            (prepare_decoder av fuel (record (calloc_context av name) { avfc = some f }) w)
    unfolding prepare_decoder
    prepare_decoder-Selects fuel name w h =
        decoder_loop-Selects count fuel 0 _ w (omega arith) h
          (record { video_part = none_yet is_video w; audio_part = none_yet is_audio w })
