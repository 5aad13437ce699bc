-- ===== src/Streaming/Main/Packets.antt =====
-- What the loop of `main` copies from the input to the output.
use quicsy.Prelude.{
  ℕ, zero, suc, ◌<◌, ◌≡◌, refl, sym, subst, ap, ◌∙◌, ◌⊎◌, inl, inr, Bool, true, false, List, [],
  ◌∷◌, ◌++◌, some, arith, length, take, drop, append_assoc, append-nil, All, Bool-cases,
  if◌then◌else◌,
}
use quicsy.Prelude.Int.{ℤ}
use quicsy.Streaming.Outcome.{Outcome, returns, M, is_neg, ok, failure}
use quicsy.Streaming.Av.{AvLib, Packet, MediaType, video, audio, other, Rational}
use quicsy.Streaming.Context.{StreamingParams, StreamingContext}
use quicsy.Streaming.Transcode.{remux}
use quicsy.Streaming.Main.{handle_packet, packet_loop}

unfoldable pub is_audio_type : MediaType → Bool
is_audio_type video = false
is_audio_type audio = true
is_audio_type other = false

abbrev pub NotVideo : MediaType → Type 0
NotVideo video = ⊥
NotVideo audio = Unit
NotVideo other = Unit

module _ (av : AvLib) where
  open av use {
    World, Format, Stream, Frame, stream_at, codec_type, stream_time_base, rescale_ts, read_frame,
    interleaved_write_frame,
  }

  -- The documented behaviour of a demuxer, whose packets are read in order, and of a muxer; the streams
  -- of the input have fixed kinds, and the audio streams fixed time bases.
  pub record Copying (input output : Format) (from to : Stream) : Type 0 where
    pub pending : World → List Packet
    pub written : World → List Packet
    pub refused : World → List Packet
    pub kind : Packet → MediaType
    pub from_tb : Rational
    pub to_tb : Rational
    pub read_some :
        (w : World) (old p : Packet) (ps : List Packet)
        → pending w ≡ p ∷ ps
        → (is_neg (read_frame input old w).0.0 ≡ false)
          × ((read_frame input old w).0.1 ≡ p)
          × (pending (read_frame input old w).1 ≡ ps)
          × (written (read_frame input old w).1 ≡ written w)
          × (refused (read_frame input old w).1 ≡ refused w)
    pub read_none :
        (w : World) (old : Packet)
        → pending w ≡ []
        → (is_neg (read_frame input old w).0.0 ≡ true)
          × (written (read_frame input old w).1 ≡ written w)
          × (refused (read_frame input old w).1 ≡ refused w)
    pub typed : (p : Packet) (w : World) → codec_type (stream_at input p.stream_index w) w ≡ kind p
    pub from_base : (w : World) → stream_time_base from w ≡ from_tb
    pub to_base : (w : World) → stream_time_base to w ≡ to_tb
    pub write_keeps :
        (w : World) (p : Packet) → pending (interleaved_write_frame output p w).1 ≡ pending w
    pub write_ok :
        (w : World) (p : Packet)
        → is_neg (interleaved_write_frame output p w).0 ≡ false
        → (written (interleaved_write_frame output p w).1 ≡ written w ++ p ∷ [])
          × (refused (interleaved_write_frame output p w).1 ≡ refused w)
    pub write_fails :
        (w : World) (p : Packet)
        → is_neg (interleaved_write_frame output p w).0 ≡ true
        → (written (interleaved_write_frame output p w).1 ≡ written w)
          × (refused (interleaved_write_frame output p w).1 ≡ refused w ++ p ∷ [])

  module _ {input output : Format} {from to : Stream} (io : Copying input output from to) where
    open io use {
      pending, written, refused, kind, from_tb, to_tb, read_some, read_none, typed, from_base,
      to_base, write_keeps, write_ok, write_fails,
    }

    -- The audio packets with the time stamps of the output.
    unfoldable pub copies : List Packet → List Packet
    copies [] = []
    copies (p ∷ ps) =
        let rest = copies ps in
        if is_audio_type (kind p) then rescale_ts p from_tb to_tb ∷ rest else rest

    copies_other :
        (p : Packet) (ps : List Packet)
        → is_audio_type (kind p) ≡ false
        → copies (p ∷ ps) ≡ copies ps
    unfolding copies
    copies_other p ps k = rw k refl

    copies_audio_packet :
        (p : Packet) (ps : List Packet)
        → is_audio_type (kind p) ≡ true
        → copies (p ∷ ps) ≡ rescale_ts p from_tb to_tb ∷ copies ps
    unfolding copies
    copies_audio_packet p ps k = rw k refl

    -- The result of the loop that is to write `out`: the first `count` packets are written, and the write
    -- of the next one, if there is one, has failed.
    pub record Copied (out : List Packet) (w : World) (run : Outcome World (ℤ × Packet))
        : Type 0 where
      pub code : ℤ
      pub last : Packet
      pub end : World
      pub count : ℕ
      pub returned : run ≡ returns (code, last) end
      pub wrote : written end ≡ written w ++ take count out
      pub tried : refused end ≡ refused w ++ take 1 (drop count out)
      pub verdict : ((code ≡ ok) × (count ≡ length out)) ⊎ ((code ≡ failure) × (count < length out))

    module _ (sp : StreamingParams) (encode_fuel inner : ℕ) (decoder encoder : StreamingContext av)
        (frame : Frame) (copies_audio : sp.copy_audio ≡ true)
        (decodes : decoder.audio_avs ≡ some from) (encodes : encoder.audio_avs ≡ some to)
        (file : encoder.avfc ≡ some output) where
      abbrev loop : ℕ → Packet → M World (ℤ × Packet)
      loop =
          packet_loop av input
            (λ t p. handle_packet av t sp encode_fuel inner decoder encoder p frame)

      handle_audio :
          (p : Packet) (w : World)
          → handle_packet av audio sp encode_fuel inner decoder encoder p frame w
            ≡ returns
                (if is_neg (interleaved_write_frame output (rescale_ts p from_tb to_tb) w).0
                  then failure
                  else ok)
                (interleaved_write_frame output (rescale_ts p from_tb to_tb) w).1
      unfolding handle_packet remux
      handle_audio p w =
          rw copies_audio
            (rw decodes (rw (from_base w) (rw encodes (rw (to_base w) (rw file refl)))))

      -- One round, by what the packet's handler answers.
      round_goes_on :
          (fuel : ℕ) (w : World) (pkt p : Packet) (ps : List Packet) (v : World)
          → pending w ≡ p ∷ ps
          → handle_packet av
              (kind p)
              sp
              encode_fuel
              inner
              decoder
              encoder
              p
              frame
              (read_frame input pkt w).1
            ≡ returns ok v
          → loop (suc fuel) pkt w ≡ loop fuel p v
      unfolding packet_loop
      round_goes_on fuel w pkt p ps v e h =
          let (more, same, left, kept, unrefused) = read_some w pkt p ps e in
          rw more (rw same (rw (typed p (read_frame input pkt w).1) (rw h refl)))

      round_fails :
          (fuel : ℕ) (w : World) (pkt p : Packet) (ps : List Packet) (v : World)
          → pending w ≡ p ∷ ps
          → handle_packet av
              (kind p)
              sp
              encode_fuel
              inner
              decoder
              encoder
              p
              frame
              (read_frame input pkt w).1
            ≡ returns failure v
          → loop (suc fuel) pkt w ≡ returns (failure, p) v
      unfolding packet_loop
      round_fails fuel w pkt p ps v e h =
          let (more, same, left, kept, unrefused) = read_some w pkt p ps e in
          rw more (rw same (rw (typed p (read_frame input pkt w).1) (rw h refl)))

      copy_none :
          (fuel : ℕ) (w : World) (pkt : Packet)
          → pending w ≡ []
          → Copied [] w (loop (suc fuel) pkt w)
      unfolding packet_loop copies
      copy_none fuel w pkt e =
          let (stop, kept, unrefused) = read_none w pkt e in
          record {
            code = ok;
            last = (read_frame input pkt w).0.1;
            end = (read_frame input pkt w).1;
            count = 0;
            returned = rw stop refl;
            wrote = kept ∙ sym (append-nil (written w));
            tried = unrefused ∙ sym (append-nil (refused w));
            verdict = inl (refl, refl);
          }

      copy_other :
          (fuel : ℕ) (w v : World) (pkt p : Packet) (ps : List Packet)
          → is_audio_type (kind p) ≡ false
          → written v ≡ written w
          → refused v ≡ refused w
          → loop (suc fuel) pkt w ≡ loop fuel p v
          → Copied (copies ps) v (loop fuel p v)
          → Copied (copies (p ∷ ps)) w (loop (suc fuel) pkt w)
      unfolding copies
      copy_other fuel w v pkt p ps k same unrefused e c =
          subst (λ l. Copied l w (loop (suc fuel) pkt w)) (sym (copies_other p ps k))
            (record {
              code = c.code;
              last = c.last;
              end = c.end;
              count = c.count;
              returned = e ∙ c.returned;
              wrote = c.wrote ∙ ap (λ l. l ++ take c.count (copies ps)) same;
              tried = c.tried ∙ ap (λ l. l ++ take 1 (drop c.count (copies ps))) unrefused;
              verdict = c.verdict;
            })

      copy_audio :
          (fuel : ℕ) (w v : World) (pkt p : Packet) (ps : List Packet)
          → is_audio_type (kind p) ≡ true
          → written v ≡ written w ++ rescale_ts p from_tb to_tb ∷ []
          → refused v ≡ refused w
          → loop (suc fuel) pkt w ≡ loop fuel p v
          → Copied (copies ps) v (loop fuel p v)
          → Copied (copies (p ∷ ps)) w (loop (suc fuel) pkt w)
      unfolding copies
      copy_audio fuel w v pkt p ps k grown unrefused e c =
          subst (λ l. Copied l w (loop (suc fuel) pkt w)) (sym (copies_audio_packet p ps k))
            (record {
              code = c.code;
              last = c.last;
              end = c.end;
              count = suc c.count;
              returned = e ∙ c.returned;
              wrote =
                  c.wrote
                  ∙ ap (λ l. l ++ take c.count (copies ps)) grown
                  ∙ append_assoc (written w) (rescale_ts p from_tb to_tb ∷ [])
                      (take c.count (copies ps));
              tried = c.tried ∙ ap (λ l. l ++ take 1 (drop c.count (copies ps))) unrefused;
              verdict = elim c.verdict [
                | inl (a, n) ↦ inl (a, ap suc n)
                | inr (a, n) ↦ inr (a, omega arith)
              ];
            })

      copy_fails :
          (fuel : ℕ) (w v : World) (pkt p : Packet) (ps : List Packet)
          → is_audio_type (kind p) ≡ true
          → written v ≡ written w
          → refused v ≡ refused w ++ rescale_ts p from_tb to_tb ∷ []
          → loop (suc fuel) pkt w ≡ returns (failure, p) v
          → Copied (copies (p ∷ ps)) w (loop (suc fuel) pkt w)
      unfolding copies
      copy_fails fuel w v pkt p ps k same failed e =
          subst (λ l. Copied l w (loop (suc fuel) pkt w)) (sym (copies_audio_packet p ps k))
            (record {
              code = failure;
              last = p;
              end = v;
              count = 0;
              returned = e;
              wrote = same ∙ sym (append-nil (written w));
              tried = failed;
              verdict = inr (refl, omega arith);
            })

      -- One packet, by the kind of its stream, and the rest of the loop.
      copy_packet :
          (k : MediaType) (fuel : ℕ) (w : World) (pkt p : Packet) (ps : List Packet)
          → kind p ≡ k
          → NotVideo k
          → pending w ≡ p ∷ ps
          → ((v : World) → pending v ≡ ps → Copied (copies ps) v (loop fuel p v))
          → Copied (copies (p ∷ ps)) w (loop (suc fuel) pkt w)
      unfolding handle_packet is_audio_type
      copy_packet video fuel w pkt p ps k allowed e rest = elim allowed [ ]
      copy_packet other fuel w pkt p ps k allowed e rest =
          let (more, same, left, kept, unrefused) = read_some w pkt p ps e in
          copy_other fuel w (read_frame input pkt w).1 pkt p ps (ap is_audio_type k) kept unrefused
            (round_goes_on fuel w pkt p ps (read_frame input pkt w).1 e (rw k refl))
            (rest (read_frame input pkt w).1 left)
      copy_packet audio fuel w pkt p ps k allowed e rest =
          let (more, same, left, kept, unrefused) = read_some w pkt p ps e in
          let w₁ = (read_frame input pkt w).1 in
          let q = rescale_ts p from_tb to_tb in
          let v = (interleaved_write_frame output q w₁).1 in
          elim (Bool-cases (is_neg (interleaved_write_frame output q w₁).0)) [
            | inl bad ↦
                copy_fails fuel w v pkt p ps (ap is_audio_type k) ((write_fails w₁ q bad).0 ∙ kept)
                  ((write_fails w₁ q bad).1 ∙ ap (λ l. l ++ q ∷ []) unrefused)
                  (round_fails fuel w pkt p ps v e (
                    rw k (handle_audio p w₁ ∙ ap (λ b. returns (if b then failure else ok) v) bad)))
            | inr good ↦
                copy_audio fuel w v pkt p ps (ap is_audio_type k)
                  ((write_ok w₁ q good).0 ∙ ap (λ l. l ++ q ∷ []) kept)
                  ((write_ok w₁ q good).1 ∙ unrefused)
                  (round_goes_on fuel w pkt p ps v e (
                    rw k
                      (handle_audio p w₁ ∙ ap (λ b. returns (if b then failure else ok) v) good)))
                  (rest v (write_keeps w₁ q ∙ left))
          ]

      -- The loop of `main` with `copy_audio`, over an input that hands out its packets in order, none of
      -- them of a video stream, and a file that appends a packet or refuses it, and with fuel above the number of its packets, returns. The audio packets, with their time stamps rescaled, are
      -- appended to the output in their order and the others are not: all of them, and then no write has
      -- failed and the loop ends well; or those before the first write that fails, which is that of the
      -- next audio packet, and it ends with -1.
      pub packet_loop-Copied :
          (ps : List Packet) (fuel : ℕ) (w : World) (pkt : Packet)
          → pending w ≡ ps
          → All (λ p. NotVideo (kind p)) ps
          → length ps < fuel
          → Copied (copies ps) w (
              packet_loop av input
                (λ t p. handle_packet av t sp encode_fuel inner decoder encoder p frame)
                fuel
                pkt
                w)
      packet_loop-Copied [] zero w pkt e h enough = elim enough [ ]
      packet_loop-Copied (p ∷ ps) zero w pkt e h enough = elim enough [ ]
      packet_loop-Copied [] (suc fuel) w pkt e h enough = unfold copies in copy_none fuel w pkt e
      packet_loop-Copied (p ∷ ps) (suc fuel) w pkt e (hp, hs) enough =
          copy_packet (kind p) fuel w pkt p ps refl hp e
            (λ v f. packet_loop-Copied ps fuel v p f hs (omega arith))
