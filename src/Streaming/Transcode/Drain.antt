-- ===== src/Streaming/Transcode/Drain.antt =====
-- What the encoder loops write, and what they leave allocated, over an encoder that hands out its
-- packets first in, first out.
use quicsy.Prelude.{
  ℕ, zero, suc, ◌+◌, ◌-◌, ◌<◌, ◌≡◌, refl, sym, ap, ◌∙◌, ◌⊎◌, inl, inr, true, false, List, [], ◌∷◌,
  ◌++◌, map, Option, some, arith, length, take, drop, Bool-cases, append_assoc, append-nil,
}
use quicsy.Prelude.Int.{ℤ, pos}
use quicsy.Streaming.Outcome.{Outcome, returns, M, eq_ℤ, ok, failure}
use quicsy.Streaming.Av.{AvLib, Packet}
use quicsy.Streaming.Transcode.{no_more, encode_loop}

eq_ℤ-eq : (a : ℤ) → eq_ℤ a ok ≡ true → a ≡ ok
eq_ℤ-eq a h = ground arith

module _ (av : AvLib) where
  open av use {
    World, Format, Context, Frame, packet_alloc, packet_unref, packet_free, send_frame,
    receive_packet, interleaved_write_frame,
  }

  -- The documented behaviour of an encoder with an output: `avcodec_receive_packet` answers 0 with the
  -- oldest packet, or AVERROR(EAGAIN) or AVERROR_EOF when there is none; a write appends to the output
  -- or fails, and `refused` has the packets whose write failed; and only `av_packet_free` gives a packet back.
  pub record FifoEncoder (ctx : Context) (f : Format) : Type 0 where
    pub queue : World → List Packet
    pub output : World → List Packet
    pub refused : World → List Packet
    pub live : World → ℕ
    pub success_goes_on : no_more av (pos 0) ≡ false
    pub receive_some :
        (w : World) (old p : Packet) (ps : List Packet)
        → queue w ≡ p ∷ ps
        → ((receive_packet ctx old w).0.0 ≡ pos 0)
          × ((receive_packet ctx old w).0.1 ≡ p)
          × (queue (receive_packet ctx old w).1 ≡ ps)
          × (output (receive_packet ctx old w).1 ≡ output w)
          × (refused (receive_packet ctx old w).1 ≡ refused w)
          × (live (receive_packet ctx old w).1 ≡ live w)
    pub receive_none :
        (w : World) (old : Packet)
        → queue w ≡ []
        → (no_more av (receive_packet ctx old w).0.0 ≡ true)
          × (output (receive_packet ctx old w).1 ≡ output w)
          × (refused (receive_packet ctx old w).1 ≡ refused w)
          × (live (receive_packet ctx old w).1 ≡ live w)
    pub write_ok :
        (w : World) (p : Packet)
        → eq_ℤ (interleaved_write_frame f p w).0 ok ≡ true
        → (output (interleaved_write_frame f p w).1 ≡ output w ++ p ∷ [])
          × (refused (interleaved_write_frame f p w).1 ≡ refused w)
    pub write_fails :
        (w : World) (p : Packet)
        → eq_ℤ (interleaved_write_frame f p w).0 ok ≡ false
        → (output (interleaved_write_frame f p w).1 ≡ output w)
          × (refused (interleaved_write_frame f p w).1 ≡ refused w ++ p ∷ [])
    pub write_keeps :
        (w : World) (p : Packet)
        → (queue (interleaved_write_frame f p w).1 ≡ queue w)
          × (live (interleaved_write_frame f p w).1 ≡ live w)
    pub alloc_counts :
        (w : World)
        → (output (packet_alloc w).1 ≡ output w)
          × (live (packet_alloc w).1 ≡ live w + 1)
          × (refused (packet_alloc w).1 ≡ refused w)
    pub send_keeps :
        (w : World) (frame : Option Frame)
        → (output (send_frame ctx frame w).1 ≡ output w)
          × (live (send_frame ctx frame w).1 ≡ live w)
          × (refused (send_frame ctx frame w).1 ≡ refused w)
    pub unref_keeps :
        (w : World) (p : Packet)
        → (output (packet_unref p w) ≡ output w)
          × (live (packet_unref p w) ≡ live w)
          × (refused (packet_unref p w) ≡ refused w)
    pub free_gives_back :
        (w : World) (p : Packet)
        → (output (packet_free p w) ≡ output w)
          × (live (packet_free p w) ≡ live w - 1)
          × (refused (packet_free p w) ≡ refused w)

  module _ (ctx : Context) (f : Format) (enc : FifoEncoder ctx f) (finish : Packet → M World Packet)
      (g : Packet → Packet)
      (finishes : (p : Packet) (w : World) → finish p w ≡ returns (g p) w) where
    open enc use {
      queue, output, refused, live, success_goes_on, receive_some, receive_none, write_ok,
      write_fails, write_keeps, unref_keeps, free_gives_back,
    }

    abbrev loop : ℕ → ℤ → Packet → M World ℤ
    loop = encode_loop av ctx (some f) finish

    -- The result of the loop with the packets `ps` in the encoder.
    pub record Drained (ps : List Packet) (w : World) (run : Outcome World ℤ) : Type 0 where
      pub code : ℤ
      pub end : World
      pub count : ℕ
      pub returned : run ≡ returns code end
      pub wrote : output end ≡ output w ++ map g (take count ps)
      pub tried : refused end ≡ refused w ++ map g (take 1 (drop count ps))
      pub verdict :
          ((code ≡ ok) × (count ≡ length ps) × (live end ≡ live w - 1))
          ⊎ ((code ≡ failure) × (count < length ps) × (live end ≡ live w))

    drain_none :
        (fuel : ℕ) (w : World) (pkt : Packet)
        → queue w ≡ []
        → Drained [] w (loop (suc fuel) ok pkt w)
    unfolding encode_loop
    drain_none fuel w pkt e =
        let (stop, out, ref, kept) = receive_none w pkt e in
        let w₁ = (receive_packet ctx pkt w).1 in
        let p₁ = (receive_packet ctx pkt w).0.1 in
        let (out₂, kept₂, ref₂) = unref_keeps w₁ p₁ in
        let (out₃, kept₃, ref₃) = free_gives_back (packet_unref p₁ w₁) p₁ in
        record {
          code = ok;
          end = packet_free p₁ (packet_unref p₁ w₁);
          count = 0;
          returned = rw stop;
          wrote = out₃ ∙ out₂ ∙ out ∙ sym (append-nil (output w));
          tried = ref₃ ∙ ref₂ ∙ ref ∙ sym (append-nil (refused w));
          verdict = inl (refl, refl, omega arith);
        }

    module _ (w : World) (pkt p : Packet) (ps : List Packet) (e : queue w ≡ p ∷ ps) where
      w_got : World
      w_got = (receive_packet ctx pkt w).1

      w_put : World
      w_put = (interleaved_write_frame f (g p) w_got).1

      step_ok :
          (fuel : ℕ)
          → eq_ℤ (interleaved_write_frame f (g p) w_got).0 ok ≡ true
          → loop (suc fuel) ok pkt w ≡ loop fuel ok (g p) w_put
      unfolding encode_loop w_got w_put
      step_ok fuel h =
          let (zero_code, got, _, _, _, _) = receive_some w pkt p ps e in
          rw (zero_code, success_goes_on, got)
            (rw finishes (rw h (ap (λ c. loop fuel c (g p) w_put) (eq_ℤ-eq _ h))))

      step_fails :
          (fuel : ℕ)
          → eq_ℤ (interleaved_write_frame f (g p) w_got).0 ok ≡ false
          → loop (suc fuel) ok pkt w ≡ returns failure w_put
      unfolding encode_loop w_got w_put
      step_fails fuel h =
          let (zero_code, got, _, _, _, _) = receive_some w pkt p ps e in
          rw (zero_code, success_goes_on, got) (rw finishes (rw h))

      queue_put : queue w_put ≡ ps
      unfolding w_put w_got
      queue_put = (write_keeps _ (g p)).0 ∙ (receive_some w pkt p ps e).2

      live_put : live w_put ≡ live w
      unfolding w_put w_got
      live_put = (write_keeps _ (g p)).1 ∙ (receive_some w pkt p ps e).5

      output_ok :
          eq_ℤ (interleaved_write_frame f (g p) w_got).0 ok ≡ true
          → output w_put ≡ output w ++ g p ∷ []
      unfolding w_put w_got
      output_ok h = (write_ok _ (g p) h).0 ∙ ap (λ l. l ++ g p ∷ []) (receive_some w pkt p ps e).3

      output_fails :
          eq_ℤ (interleaved_write_frame f (g p) w_got).0 ok ≡ false → output w_put ≡ output w
      unfolding w_put w_got
      output_fails h = (write_fails _ (g p) h).0 ∙ (receive_some w pkt p ps e).3

      refused_ok :
          eq_ℤ (interleaved_write_frame f (g p) w_got).0 ok ≡ true → refused w_put ≡ refused w
      unfolding w_put w_got
      refused_ok h = (write_ok _ (g p) h).1 ∙ (receive_some w pkt p ps e).4

      refused_fails :
          eq_ℤ (interleaved_write_frame f (g p) w_got).0 ok ≡ false
          → refused w_put ≡ refused w ++ g p ∷ []
      unfolding w_put w_got
      refused_fails h =
          (write_fails _ (g p) h).1 ∙ ap (λ l. l ++ g p ∷ []) (receive_some w pkt p ps e).4

      drain_more :
          (fuel : ℕ)
          → eq_ℤ (interleaved_write_frame f (g p) w_got).0 ok ≡ true
          → Drained ps w_put (loop fuel ok (g p) w_put)
          → Drained (p ∷ ps) w (loop (suc fuel) ok pkt w)
      drain_more fuel h d = record {
        code = d.code;
        end = d.end;
        count = suc d.count;
        returned = step_ok fuel h ∙ d.returned;
        wrote =
            d.wrote
            ∙ ap (λ l. l ++ map g (take d.count ps)) (output_ok h)
            ∙ append_assoc (output w) (g p ∷ []) (map g (take d.count ps));
        tried = d.tried ∙ ap (λ l. l ++ map g (take 1 (drop d.count ps))) (refused_ok h);
        verdict = elim d.verdict [
          | inl (c, n, l) ↦ inl (c, ap suc n, l ∙ ap (λ k. k - 1) live_put)
          | inr (c, n, l) ↦ inr (c, omega arith, l ∙ live_put)
        ];
      }

      drain_stops :
          (fuel : ℕ)
          → eq_ℤ (interleaved_write_frame f (g p) w_got).0 ok ≡ false
          → Drained (p ∷ ps) w (loop (suc fuel) ok pkt w)
      drain_stops fuel h = record {
        code = failure;
        end = w_put;
        count = 0;
        returned = step_fails fuel h;
        wrote = output_fails h ∙ sym (append-nil (output w));
        tried = refused_fails h;
        verdict = inr (refl, omega arith, live_put);
      }

    -- The loop returns whenever its fuel is above the number of packets that the encoder holds. It
    -- writes these packets in their order, each with its stream index and time stamps: all of them and
    -- then it frees its own packet and returns 0, and no write has failed; or those before the first
    -- write that fails, which is that of the next packet, and then it returns -1 and its own packet stays allocated.
    pub encode_loop-Drained :
        (ps : List Packet) (fuel : ℕ) (w : World) (pkt : Packet)
        → queue w ≡ ps
        → length ps < fuel
        → Drained ps w (encode_loop av ctx (some f) finish fuel ok pkt w)
    encode_loop-Drained ps zero w pkt e h = elim h [ ]
    encode_loop-Drained [] (suc fuel) w pkt e h = drain_none fuel w pkt e
    encode_loop-Drained (p ∷ ps) (suc fuel) w pkt e h =
        elim (Bool-cases (eq_ℤ (interleaved_write_frame f (g p) (w_got w pkt p ps e)).0 ok)) [
          | inl t ↦ drain_more w pkt p ps e fuel t (
              encode_loop-Drained ps fuel (w_put w pkt p ps e) (g p) (queue_put w pkt p ps e)
                (omega arith))
          | inr t ↦ drain_stops w pkt p ps e fuel t
        ]
