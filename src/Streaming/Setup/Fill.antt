-- ===== src/Streaming/Setup/Fill.antt =====
-- `fill_stream_info` opens a decoder or fails.
use quicsy.Prelude.{
  ℕ, ◌+◌, ◌∙◌, ap, Bool, true, false, ◌≡◌, refl, ◌⊎◌, inl, inr, Option, none, some, if◌then◌else◌,
  Bool-cases,
}
use quicsy.Streaming.Outcome.{Outcome, returns, is_neg, ok, failure}
use quicsy.Streaming.Av.{AvLib}
use quicsy.Streaming.Setup.{Filled, fill_stream_info, fill_found, fill_codec, fill_context}

module _ (av : AvLib) where
  open av use {World, Codec, Context, Params, alloc_context, parameters_to_context, open_codec}

  -- One more, when it failed.
  abbrev pub count_if : Bool → ℕ → ℕ
  count_if true n = n + 1
  count_if false n = n

  abbrev pub is_none : Option Context → Bool
  is_none none = true
  is_none (some c) = false

  -- What is relied on of libavcodec: which contexts are open, and how many of the calls that set up a
  -- decoder have failed. `avcodec_open2` opens its context when it succeeds, and none of the calls closes
  -- a context.
  pub record Decoders : Type 0 where
    pub is_open : Context → World → Bool
    pub failed : World → ℕ
    pub allocates :
        (c : Codec) (w : World)
        → failed (alloc_context c w).1 ≡ count_if (is_none (alloc_context c w).0) (failed w)
    pub copies :
        (c : Context) (p : Params) (w : World)
        → failed (parameters_to_context c p w).1
          ≡ count_if (is_neg (parameters_to_context c p w).0) (failed w)
    pub opens :
        (c : Context) (k : Codec) (w : World)
        → failed (open_codec c k w).1 ≡ count_if (is_neg (open_codec c k w).0) (failed w)
    pub opened :
        (c : Context) (k : Codec) (w : World)
        → is_neg (open_codec c k w).0 ≡ false
        → is_open c (open_codec c k w).1 ≡ true
    pub allocates_only :
        (c : Codec) (d : Context) (w : World)
        → is_open d w ≡ true
        → is_open d (alloc_context c w).1 ≡ true
    pub copies_only :
        (c : Context) (p : Params) (d : Context) (w : World)
        → is_open d w ≡ true
        → is_open d (parameters_to_context c p w).1 ≡ true
    pub opens_only :
        (c : Context) (k : Codec) (d : Context) (w : World)
        → is_open d w ≡ true
        → is_open d (open_codec c k w).1 ≡ true

module _ (av : AvLib) (dec : Decoders av) where
  open av use {
    World, Codec, Context, Stream, codecpar, find_decoder, alloc_context, parameters_to_context,
    open_codec,
  }
  open dec use {is_open, failed}

  -- From `w` to `u` no context was closed.
  abbrev pub StaysOpen : World → World → Type 0
  StaysOpen w u = (d : Context) → is_open d w ≡ true → is_open d u ≡ true

  -- Why -1 is returned: one call has failed, or there is no decoder for the stream.
  abbrev pub Refused : Stream → World → World → Type 0
  Refused s w u =
      (failed u ≡ failed w + 1) ⊎ ((failed u ≡ failed w) × (find_decoder (codecpar s u) u ≡ none))

  -- `fill_stream_info` returns 0 with an open decoder context and no call that failed, or -1 with a reason.
  pub record Fills (s : Stream) (w : World) (run : Outcome World (Filled av)) : Type 0 where
    pub result : Filled av
    pub end : World
    pub returned : run ≡ returns result end
    pub stays : StaysOpen w end
    pub verdict :
        ((result.code ≡ ok)
          × ((c : Context) × (result.avcc ≡ some c) × (is_open c end ≡ true))
          × (failed end ≡ failed w))
        ⊎ ((result.code ≡ failure) × Refused s w end)

  -- From a world where as many calls have failed.
  later :
      (s : Stream) (v w : World) (run : Outcome World (Filled av))
      → failed w ≡ failed v
      → StaysOpen v w
      → Fills s w run
      → Fills s v run
  later s v w run e stays r = record {
    result = r.result;
    end = r.end;
    returned = r.returned;
    stays = λ d h. r.stays d (stays d h);
    verdict = elim r.verdict [
      | inl (code, found, same) ↦ inl (code, found, same ∙ e)
      | inr (code, inl one) ↦ inr (code, inl (one ∙ ap (λ n. n + 1) e))
      | inr (code, inr (same, lacks)) ↦ inr (code, inr (same ∙ e, lacks))
    ];
  }

  fill_context-Fills :
      (s : Stream) (c : Codec) (ctx : Context) (w : World) → Fills s w (fill_context av s c ctx w)
  unfolding fill_context
  fill_context-Fills s c ctx w =
      let par = codecpar s w in
      let filled = parameters_to_context ctx par w in
      elim (Bool-cases (is_neg filled.0)) [
        | inl e ↦ record {
          result = record { code = failure; avc = some c; avcc = some ctx };
          end = filled.1;
          returned = rw e;
          stays = λ d. dec.copies_only ctx par d w;
          verdict = inr (refl, inl (dec.copies ctx par w ∙ ap (λ b. count_if av b (failed w)) e));
        }
        | inr e ↦
            let opened = open_codec ctx c filled.1 in
            let same : failed filled.1 ≡ failed w =
              dec.copies ctx par w ∙ ap (λ b. count_if av b (failed w)) e in
            let counted : failed opened.1 ≡ count_if av (is_neg opened.0) (failed w) =
              dec.opens ctx c filled.1 ∙ ap (count_if av (is_neg opened.0)) same in
            record {
              result = record {
                code = if is_neg opened.0 then failure else ok;
                avc = some c;
                avcc = some ctx;
              };
              end = opened.1;
              returned = rw e;
              stays = λ d h. dec.opens_only ctx c d filled.1 (dec.copies_only ctx par d w h);
              verdict = elim (Bool-cases (is_neg opened.0)) [
                | inl n ↦ inr (rw n, inl (counted ∙ ap (λ b. count_if av b (failed w)) n))
                | inr n ↦ inl (
                  rw n,
                  (ctx, refl, dec.opened ctx c filled.1 n),
                  counted ∙ ap (λ b. count_if av b (failed w)) n,
                )
              ];
            }
      ]

  -- Behind `avcodec_alloc_context3`, which was called at `v`.
  fill_codec-Fills :
      (s : Stream) (c : Codec) (ctx : Option Context) (v w : World)
      → failed w ≡ count_if av (is_none av ctx) (failed v)
      → StaysOpen v w
      → Fills s v (fill_codec av s c ctx w)
  unfolding fill_codec
  fill_codec-Fills s c none v w e stays = record {
    result = record { code = failure; avc = some c; avcc = none };
    end = w;
    returned = refl;
    stays = stays;
    verdict = inr (refl, inl e);
  }
  fill_codec-Fills s c (some ctx) v w e stays =
      later s v w (fill_context av s c ctx w) e stays (fill_context-Fills s c ctx w)

  fill_found-Fills :
      (s : Stream) (old : Option Context) (c : Option Codec) (w : World)
      → find_decoder (codecpar s w) w ≡ c
      → Fills s w (fill_found av s old c w)
  unfolding fill_found
  fill_found-Fills s old none w e = record {
    result = record { code = failure; avc = none; avcc = old };
    end = w;
    returned = refl;
    stays = λ d h. h;
    verdict = inr (refl, inr (refl, e));
  }
  fill_found-Fills s old (some c) w e =
      fill_codec-Fills s c (alloc_context c w).0 w (alloc_context c w).1 (dec.allocates c w)
        (λ d. dec.allocates_only c d w)

  pub fill_stream_info-Fills :
      (s : Stream) (old : Option Context) (w : World) → Fills s w (fill_stream_info av s old w)
  unfolding fill_stream_info
  fill_stream_info-Fills s old w = fill_found-Fills s old (find_decoder (codecpar s w) w) w refl
