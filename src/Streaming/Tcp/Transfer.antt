-- ===== src/Streaming/Tcp/Transfer.antt =====
-- What the loop of the file transfer hands on.
use quicsy.Prelude.{
  ℕ, zero, suc, ◌<◌, ◌≡◌, refl, sym, ap, ◌∙◌, false, [], ◌∷◌, ◌++◌, Bytes, arith, length, take,
  append_assoc, length-append, take-length, ◌==◌,
}
use quicsy.Prelude.Int.{ℤ, pos}
use quicsy.Streaming.Outcome.{Outcome, returns}
use quicsy.Streaming.Tcp.Posix.{Os}
use quicsy.Streaming.Tcp.{max_buffer, transfer_loop}

module _ (os : Os) where
  open os use {World, read_from, write_to}

  -- The documented behaviour of a source and a sink that do not fail: a read gives some of the bytes
  -- that are left, or none when there are none, and a write takes all its bytes.
  pub record Pipe (from to : ℤ) : Type 0 where
    pub left : World → Bytes
    pub taken : World → Bytes
    pub read_some :
        (w : World) (b : ℕ) (s : Bytes)
        → left w ≡ b ∷ s
        → (n : ℕ) × ((read_from from max_buffer w).0.0 ≡ pos (suc n))
          × (length (read_from from max_buffer w).0.1 ≡ suc n)
          × ((read_from from max_buffer w).0.1 ++ left (read_from from max_buffer w).1 ≡ b ∷ s)
          × (taken (read_from from max_buffer w).1 ≡ taken w)
    pub read_none :
        (w : World)
        → left w ≡ []
        → ((read_from from max_buffer w).0.0 ≡ pos 0)
          × (taken (read_from from max_buffer w).1 ≡ taken w)
    pub write_all :
        (w : World) (bytes : Bytes)
        → (taken (write_to to bytes w).1 ≡ taken w ++ bytes)
          × (left (write_to to bytes w).1 ≡ left w)

  module _ {from to : ℤ} (pipe : Pipe from to) where
    open pipe use {left, taken, read_some, read_none, write_all}

    pub record Transferred (bytes : Bytes) (w : World) (run : Outcome World (Unit {0}))
        : Type 0 where
      pub end : World
      pub returned : run ≡ returns tt end
      pub whole : taken end ≡ taken w ++ bytes

    transfer_none :
        (fuel : ℕ) (w : World)
        → left w ≡ []
        → Transferred [] w (transfer_loop os (suc fuel) from to w)
    unfolding transfer_loop
    transfer_none fuel w e =
        let (stop, kept) = read_none w e in
        let w₁ = (read_from from max_buffer w).1 in
        record {
          end = (write_to to [] w₁).1;
          returned = rw stop refl;
          whole = (write_all w₁ []).0 ∙ ap (λ l. l ++ []) kept;
        }

    transfer_some :
        (fuel n : ℕ) (w : World)
        → (read_from from max_buffer w).0.0 ≡ pos (suc n)
        → length (read_from from max_buffer w).0.1 ≡ suc n
        → transfer_loop os (suc fuel) from to w
          ≡ transfer_loop os fuel from to
              (write_to to (read_from from max_buffer w).0.1 (read_from from max_buffer w).1).1
    unfolding transfer_loop
    transfer_some fuel n w e l =
        let chunk = (read_from from max_buffer w).0.1 in
        let all : take (suc n) chunk ≡ chunk = sym (ap (λ k. take k chunk) l) ∙ take-length chunk in
        let goes_on : (suc n == 0) ≡ false = ground arith in
        rw (e, goes_on)
          (ap (λ d. transfer_loop os fuel from to (write_to to d (read_from from max_buffer w).1).1)
            all)

    -- The loop with fuel above the number of bytes that are left returns, and what the sink took is what
    -- was left, in order and with nothing added.
    pub transfer_loop-Transferred :
        (fuel : ℕ) (bytes : Bytes) (w : World)
        → left w ≡ bytes
        → length bytes < fuel
        → Transferred bytes w (transfer_loop os fuel from to w)
    transfer_loop-Transferred zero bytes w e h = elim h [ ]
    transfer_loop-Transferred (suc fuel) [] w e h = transfer_none fuel w e
    transfer_loop-Transferred (suc fuel) (b ∷ s) w e h =
        let (n, more, size, split, kept) = read_some w b s e in
        let w₁ = (read_from from max_buffer w).1 in
        let chunk = (read_from from max_buffer w).0.1 in
        let w₂ = (write_to to chunk w₁).1 in
        let (grown, same) = write_all w₁ chunk in
        let rest =
          transfer_loop-Transferred fuel (left w₁) w₂ same
            (omega (arith, ap length split, length-append chunk (left w₁), size)) in
        record {
          end = rest.end;
          returned = transfer_some fuel n w more size ∙ rest.returned;
          whole =
              rest.whole
              ∙ ap (λ l. l ++ left w₁) (grown ∙ ap (λ l. l ++ chunk) kept)
              ∙ append_assoc (taken w) chunk (left w₁)
              ∙ ap (λ l. taken w ++ l) split;
        }
