-- ===== src/Server/Token.antt =====
-- The tokens for address validation: `Server::generate_token` and `Server::verify_token` of
-- src/quicsy_server.cc. A socket address is the bytes that the token holds of it.
pub mod Aead
pub mod Valid
pub mod Tests
use quicsy.Prelude.{
  ℕ, zero, suc, ◌+◌, ◌-◌, ◌*◌, ◌/◌, ◌%◌, ◌^◌, Bool, true, false, not, ◌&&◌, ◌||◌, [], ◌∷◌, ◌++◌,
  Bytes, Option, none, some, ltb, leb, ◌==◌, if◌then◌else◌, ◌>>=◌, length, take, drop,
}
use quicsy.Prelude.Assoc.{same}
use quicsy.Util.Units.{seconds}
use quicsy.Server.Token.Aead.{TokenCrypto}

abbrev pub token_rand_datalen : ℕ
token_rand_datalen = 16

-- A 64-bit number in host byte order, on a little-endian host.
unfoldable pub host_bytes : ℕ → ℕ → Bytes
host_bytes zero t = []
host_bytes (suc n) t = t % 256 ∷ host_bytes n (t / 256)

unfoldable pub host_value : Bytes → ℕ
host_value [] = 0
host_value (b ∷ s) = b + 256 * host_value s

-- What `verify_token` answers: -1, the abort of its assertion, or 0 with `*ocid`.
pub data Verdict : Type 0 where
  rejected : Verdict
  assertion_fails : Verdict
  accepted : Bytes → Verdict

module _ (c : TokenCrypto) where
  open c use {Key, derive, encrypt, decrypt, taglen, min_cidlen, max_cidlen, printable}

  -- `none` for -1. `t` is the time, `rand_data` what `generate_rand_data` gives.
  unfoldable pub generate_token : ℕ → Bytes → Bytes → Bytes → Option Bytes
  generate_token t rand_data sa ocid = do
    key ← derive rand_data
    ciphertext ← encrypt key (sa ++ (host_bytes 8 t ++ ocid)) sa
    some (ciphertext ++ rand_data)

  -- `if (cil != 0 && (cil < NGTCP2_MIN_CIDLEN || cil > NGTCP2_MAX_CIDLEN))`.
  unfoldable pub bad_cidlen : ℕ → Bool
  bad_cidlen cil = not (cil == 0) && (ltb cil min_cidlen || ltb max_cidlen cil)

  -- Behind the lengths: the address, the time, and the identifier.
  unfoldable pub check_contents : ℕ → Bytes → Bytes → ℕ → Verdict
  check_contents now sa plaintext cil =
      if not (same (take (length sa) plaintext) sa)
      then rejected
      else if ltb ((host_value (take 8 (drop (length sa) plaintext)) + 10 * seconds) % 2 ^ 64) now
      then rejected
      else accepted (take cil (drop (length sa + 8) plaintext))

  unfoldable pub check_plaintext : ℕ → Bytes → ℕ → Bytes → Verdict
  unfolding check_contents bad_cidlen
  check_plaintext now sa ciphertextlen plaintext =
      let plaintextlen = ciphertextlen - taglen in
      if ltb ciphertextlen taglen
      then assertion_fails
      else if ltb plaintextlen (length sa + 8)
      then rejected
      else if bad_cidlen (plaintextlen - length sa - 8)
      then rejected
      else check_contents now sa plaintext (plaintextlen - length sa - 8)

  decrypted : ℕ → Bytes → ℕ → Option Bytes → Verdict
  unfolding check_plaintext
  decrypted now sa ciphertextlen none = rejected
  decrypted now sa ciphertextlen (some plaintext) = check_plaintext now sa ciphertextlen plaintext

  with_key : ℕ → Bytes → Bytes → Option Key → Verdict
  unfolding decrypted
  with_key now sa ciphertext none = rejected
  with_key now sa ciphertext (some key) =
      decrypted now sa (length ciphertext) (decrypt key ciphertext sa)

  unfoldable pub verify_token : ℕ → Bytes → Bytes → Verdict
  unfolding with_key
  verify_token now token sa =
      let ciphertextlen = length token - token_rand_datalen in
      if not (printable sa)
      then rejected
      else if ltb (length token) token_rand_datalen
      then rejected
      else with_key now sa (take ciphertextlen token) (derive (drop ciphertextlen token))
