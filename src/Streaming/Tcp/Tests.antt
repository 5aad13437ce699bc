-- ===== src/Streaming/Tcp/Tests.antt =====
-- The transfer over a system that reads two bytes at a time.
use quicsy.Prelude.{ℕ, ◌≡◌, refl, [], ◌∷◌, ◌++◌, Bytes, codes, arith, length}
use quicsy.Prelude.Int.{ℤ, pos, negsuc}
use quicsy.Streaming.Tcp.Posix.{Os}
use quicsy.Streaming.Tcp.{transfer_loop}
use quicsy.Streaming.Tcp.Transfer.{Pipe, Transferred, transfer_loop-Transferred}

record Files : Type 0 where
  input : Bytes
  output : Bytes

abbrev read_two : Bytes → Bytes → (ℤ × Bytes) × Files
read_two [] out = ((pos 0, []), record { input = []; output = out })
read_two (a ∷ []) out = ((pos 1, a ∷ []), record { input = []; output = out })
read_two (a ∷ b ∷ s) out = ((pos 2, a ∷ b ∷ []), record { input = s; output = out })

abbrev system : Os
system = record {
  World = Files;
  read_from = λ fd max w. read_two w.input w.output;
  write_wild = λ fd len w. (negsuc 0, w);
  write_to = λ fd bytes w. (pos 0, record w { output = w.output ++ bytes });
  access = λ name w. pos 0;
  open_read = λ name w. (pos 5, w);
  open_write = λ name w. (pos 6, w);
  socket = λ w. (pos 3, w);
  reuse_address = λ fd w. w;
  bind_port = λ fd w. (pos 0, w);
  listen = λ fd w. (pos 0, w);
  accept = λ fd w. (pos 4, w);
  connect = λ fd w. (pos 0, w);
  close = λ fd w. w;
  int_bytes = λ n. 0 ∷ 0 ∷ 0 ∷ 0 ∷ [];
  int_value = λ s. pos 0;
}

read_two-some :
    (t out : Bytes) (b : ℕ) (s : Bytes)
    → t ≡ b ∷ s
    → (n : ℕ) × ((read_two t out).0.0 ≡ pos (ℕ.suc n))
      × (length (read_two t out).0.1 ≡ ℕ.suc n)
      × ((read_two t out).0.1 ++ (read_two t out).1.input ≡ b ∷ s)
      × ((read_two t out).1.output ≡ out)
read_two-some [] out b s e = cc
read_two-some (a ∷ []) out b s e = (0, refl, refl, e, refl)
read_two-some (a ∷ c ∷ t) out b s e = (1, refl, refl, e, refl)

pipe : Pipe system (pos 5) (pos 6)
pipe = record {
  left = λ w. w.input;
  taken = λ w. w.output;
  read_some = λ w b s e. read_two-some w.input w.output b s e;
  read_none = λ w e. rw e (refl, refl);
  write_all = λ w bytes. (refl, refl);
}

abbrev five_bytes : Files
five_bytes = record { input = codes "hello"; output = codes ">" }

transfer_loop-Transferred_example :
    Transferred system pipe
      (codes "hello")
      five_bytes
      (transfer_loop system 6 (pos 5) (pos 6) five_bytes)
unfolding pipe
transfer_loop-Transferred_example =
    transfer_loop-Transferred system pipe 6 (codes "hello") five_bytes refl (omega arith)
