-- ===== src/Server/TxData.antt =====
-- The buffers of crypto data that wait for an acknowledgement: `remove_tx_stream_data` and
-- `Handler::remove_tx_crypto_data` of src/quicsy_server.cc (src/quicsy_client.cc has the same).
use quicsy.Prelude.{
  ℕ, ◌+◌, ◌≤◌, ◌<◌, ◌≡◌, refl, arith, leb, if◌then◌else◌, List, [], ◌∷◌, ◌++◌, Bool-cases, ap, inl,
  inr,
}
use Prim.Native.Nat.{max}

-- A `Buffer` is read here by its size alone.
pub record Crypto : Type 0 where
  pub data_sizes : List ℕ
  pub acked_offset : ℕ

-- The loop, with the count of the bytes removed.
unfoldable pub remove_tx_stream_data : List ℕ → ℕ → ℕ → Crypto × ℕ
remove_tx_stream_data [] tx_offset offset =
    (record { data_sizes = []; acked_offset = tx_offset }, 0)
remove_tx_stream_data (size ∷ d) tx_offset offset =
    let rest = remove_tx_stream_data d (tx_offset + size) offset in
    if leb (tx_offset + size) offset
    then (rest.0, size + rest.1)
    else (record { data_sizes = size ∷ d; acked_offset = tx_offset }, 0)

unfoldable pub remove_tx_crypto_data : Crypto → ℕ → ℕ → Crypto
remove_tx_crypto_data c offset datalen =
    (remove_tx_stream_data c.data_sizes c.acked_offset (offset + datalen)).0

abbrev pub bytes : List ℕ → ℕ
bytes [] = 0
bytes (size ∷ d) = size + bytes d

-- The first buffer, if there is one, ends beyond the offset.
abbrev pub HeadBeyond : List ℕ → ℕ → ℕ → Type 0
HeadBeyond [] acked offset = Unit
HeadBeyond (size ∷ d) acked offset = offset < acked + size

-- What `removed` and `c` make of the buffers `d` that begin at `start`.
pub record IsTrimmed (d : List ℕ) (start offset : ℕ) (c : Crypto) (len : ℕ) : Type 0 where
  pub removed : List ℕ
  pub split : removed ++ c.data_sizes ≡ d
  pub counted : bytes removed ≡ len
  pub advanced : c.acked_offset ≡ start + len
  pub within : c.acked_offset ≤ max start offset
  pub head_beyond : HeadBeyond c.data_sizes c.acked_offset offset

remove_tx_stream_data-trims :
    (d : List ℕ) (start offset : ℕ)
    → IsTrimmed d start offset
        (remove_tx_stream_data d start offset).0
        (remove_tx_stream_data d start offset).1
unfolding remove_tx_stream_data
remove_tx_stream_data-trims [] start offset = record {
  removed = [];
  split = refl;
  counted = refl;
  advanced = omega arith;
  within = omega arith;
  head_beyond = tt;
}
remove_tx_stream_data-trims (size ∷ d) start offset =
    elim (Bool-cases (leb (start + size) offset)) [
      | inl e ↦
          let rest = remove_tx_stream_data-trims d (start + size) offset in
          rw e (record {
            removed = size ∷ rest.removed;
            split = ap (λ l. size ∷ l) rest.split;
            counted = ap (λ n. size + n) rest.counted;
            advanced = omega (arith, rest.advanced);
            within = ground (arith, rest.within);
            head_beyond = rest.head_beyond;
          })
      | inr e ↦ rw e (record {
        removed = [];
        split = refl;
        counted = refl;
        advanced = omega arith;
        within = omega arith;
        head_beyond = ground arith;
      })
    ]

-- An acknowledgement of `datalen` bytes at `offset` drops the leading buffers that end within it: what
-- it drops and what stays are the buffers in order, `acked_offset` grows by the bytes dropped and never
-- beyond the acknowledged offset, and the first buffer that stays ends beyond that offset.
pub remove_tx_crypto_data-trims :
    (c : Crypto) (offset datalen : ℕ)
    → IsTrimmed c.data_sizes c.acked_offset
        (offset + datalen)
        (remove_tx_crypto_data c offset datalen)
        (remove_tx_stream_data c.data_sizes c.acked_offset (offset + datalen)).1
unfolding remove_tx_crypto_data
remove_tx_crypto_data-trims c offset datalen =
    remove_tx_stream_data-trims c.data_sizes c.acked_offset (offset + datalen)
