-- ===== src/Server/Token/Tests.antt =====
-- The theorems on tokens at a concrete address and an encryption that only adds a tag.
use quicsy.Prelude.{
  ◌+◌, ◌-◌, ◌*◌, ◌%◌, ◌^◌, ◌≤◌, ◌≡◌, refl, true, [], ◌∷◌, ◌++◌, Bytes, Option, none, some, arith,
  length, take, drop, replicate,
}
use quicsy.Util.Units.{seconds}
use quicsy.Server.Token.Aead.{TokenCrypto, IsAead}
use quicsy.Server.Token.{
  token_rand_datalen, host_bytes, host_value, verify_token, generate_token, bad_cidlen,
}
use quicsy.Server.Token.Valid.{within_window, verify_token-generate_token, verify_token-accepted}

abbrev untag : Bytes → Option Bytes
untag [] = none
untag (b ∷ s) = some s

abbrev tagged : TokenCrypto
tagged = record {
  Key = Unit;
  derive = λ r. some tt;
  encrypt = λ k text ad. some (0 ∷ text);
  decrypt = λ k sealed ad. untag sealed;
  taglen = 1;
  min_cidlen = 4;
  max_cidlen = 18;
  printable = λ sa. true;
}

untag-length : (sealed text : Bytes) → untag sealed ≡ some text → length sealed ≡ length text + 1
untag-length [] text e = absurd (cc)
untag-length (b ∷ s) text e = ground (arith, e)

tagged-IsAead : IsAead tagged
tagged-IsAead = record {
  decrypts = λ key text ad sealed e. cc (e, untag-cons text);
  seals = λ key sealed ad text e. untag-length sealed text e;
}
  where
    untag-cons : (text : Bytes) → untag (0 ∷ text) ≡ some text
    untag-cons text = refl

abbrev address : Bytes
address = 127 ∷ 0 ∷ 0 ∷ 1 ∷ []

abbrev original_cid : Bytes
original_cid = 1 ∷ 2 ∷ 3 ∷ 4 ∷ []

abbrev token : Bytes
token =
    (0 ∷ (address ++ ((64 ∷ 66 ∷ 15 ∷ 0 ∷ 0 ∷ 0 ∷ 0 ∷ 0 ∷ []) ++ original_cid))) ++ replicate 16 7

verify_token-generate_token_example :
    verify_token tagged 2000000 token address ≡ within_window tagged 2000000 1000000 original_cid
unfolding generate_token host_bytes bad_cidlen
verify_token-generate_token_example =
    verify_token-generate_token tagged tagged-IsAead 2000000 1000000 (replicate 16 7) address
      original_cid token (omega arith) refl refl refl refl

verify_token-accepted_example :
    (key : Unit) × (plaintext : Bytes) × (tagged.derive
        (drop (length token - token_rand_datalen) token)
      ≡ some key)
    × (tagged.decrypt key (take (length token - token_rand_datalen) token) address ≡ some plaintext)
    × (take (length address) plaintext ≡ address)
    × (2000000 ≤ (host_value (take 8 (drop (length address) plaintext)) + 10 * seconds) % 2 ^ 64)
unfolding verify_token host_value generate_token host_bytes bad_cidlen
verify_token-accepted_example = verify_token-accepted tagged 2000000 token address original_cid (
    verify_token-generate_token tagged tagged-IsAead 2000000 1000000 (replicate 16 7) address
      original_cid token (omega arith) refl refl refl refl)
