-- ===== src/Server/Tests.antt =====
-- The theorems on the server's state at concrete inputs.
use quicsy.Prelude.{
  ℕ, zero, suc, ◌+◌, ◌*◌, ◌≡◌, ◌⊎◌, refl, true, false, [], ◌∷◌, some, arith, codes,
}
use quicsy.Util.Number.Accept.{decimal}
use quicsy.Server.Dyn.{find_dyn_length, length_of, not_dynamic, dyn_read_data, max_dynbuflen}
use quicsy.Server.Dyn.Length.{IsLength, find_dyn_length-decides}
use quicsy.Server.Dyn.Flow.{
  Flow, Reach, read, here, next, start, sent_by, IsAccounted, Reach-IsAccounted, resumed,
  blocked-resumed,
}
use quicsy.Server.TxData.{
  IsTrimmed, Crypto, remove_tx_crypto_data, remove_tx_stream_data, remove_tx_crypto_data-trims,
}

find_dyn_length-decides_example :
    (IsLength 1000 (codes "999")
      × (find_dyn_length 1000 (b'/' ∷ codes "999") ≡ length_of (decimal 0 (codes "999"))))
    ⊎ ((¬ IsLength 1000 (codes "999")) × (find_dyn_length 1000 (b'/' ∷ codes "999") ≡ not_dynamic))
find_dyn_length-decides_example = find_dyn_length-decides 1000 (codes "999") (omega arith)

abbrev after_read : Flow → Flow
after_read f = record f {
  stream = (dyn_read_data true f.stream).1;
  sent = f.sent + sent_by (dyn_read_data true f.stream).0;
}

abbrev after_reads : ℕ → Flow → Flow
after_reads zero f = f
after_reads (suc n) f = after_read (after_reads n f)

reads : (n : ℕ) (f : Flow) → Reach f (after_reads n f)
reads zero f = here
reads (suc n) f = next (reads n f) (read (after_reads n f))

-- 65 reads of 16 K of a response of 2 MB fill the buffer beyond MAX_DYNBUFLEN.
abbrev full : Flow
full = after_reads 65 (start (2 * max_dynbuflen))

Reach-IsAccounted_example : IsAccounted (2 * max_dynbuflen) full
Reach-IsAccounted_example =
    Reach-IsAccounted (2 * max_dynbuflen) (reads 65 (start (2 * max_dynbuflen)))

blocked-resumed_example : resumed (1000000 ∷ 64960 ∷ []) full.stream false ≡ some true
unfolding dyn_read_data
blocked-resumed_example =
    blocked-resumed (2 * max_dynbuflen) (1000000 ∷ 64960 ∷ [])
      (reads 65 (start (2 * max_dynbuflen))) refl refl

abbrev crypto : Crypto
crypto = record { data_sizes = 100 ∷ 200 ∷ 50 ∷ []; acked_offset = 0 }

remove_tx_crypto_data-trims_example :
    IsTrimmed
      (100 ∷ 200 ∷ 50 ∷ [])
      0
      (0 + 310)
      (remove_tx_crypto_data crypto 0 310)
      (remove_tx_stream_data (100 ∷ 200 ∷ 50 ∷ []) 0 (0 + 310)).1
remove_tx_crypto_data-trims_example = remove_tx_crypto_data-trims crypto 0 310
