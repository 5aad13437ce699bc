-- ===== src/Streaming/Tcp/Posix.antt =====
-- The system calls of the file transfer, over a state of their own.
use quicsy.Prelude.{ℕ, Bytes}
use quicsy.Prelude.Int.{ℤ}

-- `read_from fd max` answers the count, or -1, with the bytes; `write_to` stands for `send` and `write`,
-- and `write_wild fd len` for such a call with a length beyond the buffer.
-- `bind_port` and `connect` have the address of the program, and `reuse_address` is `setsockopt`.
pub record Os : Type 1 where
  pub World : Type 0
  pub read_from : ℤ → ℕ → World → (ℤ × Bytes) × World
  pub write_to : ℤ → Bytes → World → ℤ × World
  pub write_wild : ℤ → ℕ → World → ℤ × World
  pub access : Bytes → World → ℤ
  pub open_read : Bytes → World → ℤ × World
  pub open_write : Bytes → World → ℤ × World
  pub socket : World → ℤ × World
  pub reuse_address : ℤ → World → World
  pub bind_port : ℤ → World → ℤ × World
  pub listen : ℤ → World → ℤ × World
  pub accept : ℤ → World → ℤ × World
  pub connect : ℤ → World → ℤ × World
  pub close : ℤ → World → World
  pub int_bytes : ℤ → Bytes
  pub int_value : Bytes → ℤ
