-- ===== src/Server/Token/Aead.antt =====
-- What the tokens use of OpenSSL, ngtcp2 and the resolver.
use quicsy.Prelude.{ℕ, ◌+◌, ◌≡◌, Bool, Bytes, Option, some, length}

-- `derive` is `derive_token_key` with its key and its initialisation vector; `encrypt` and `decrypt`
-- take the associated data last; `printable` tells whether `getnameinfo` succeeds.
pub record TokenCrypto : Type 1 where
  pub Key : Type 0
  pub derive : Bytes → Option Key
  pub encrypt : Key → Bytes → Bytes → Option Bytes
  pub decrypt : Key → Bytes → Bytes → Option Bytes
  pub taglen : ℕ
  pub min_cidlen : ℕ
  pub max_cidlen : ℕ
  pub printable : Bytes → Bool

-- Authenticated encryption: a text that was encrypted is decrypted under the same key and data, and a
-- ciphertext is the tag longer than its text.
pub record IsAead (c : TokenCrypto) : Type 0 where
  pub decrypts :
      (key : c.Key) (text ad sealed : Bytes)
      → c.encrypt key text ad ≡ some sealed
      → c.decrypt key sealed ad ≡ some text
  pub seals :
      (key : c.Key) (sealed ad text : Bytes)
      → c.decrypt key sealed ad ≡ some text
      → length sealed ≡ length text + c.taglen
