-- ===== src/Server/Token/Valid.antt =====
-- Which tokens `verify_token` accepts: those of `generate_token`, for ten seconds, and only texts that
-- say the client's own address.
use quicsy.Prelude.{
  ℕ, zero, suc, ◌+◌, ◌-◌, ◌*◌, ◌/◌, ◌%◌, ◌^◌, ◌≤◌, ◌<◌, ◌≡◌, ◌≢◌, inl, inr, refl, sym, ap, ◌∙◌,
  true, false, ◌++◌, Bytes, none, some, ltb, arith, if◌then◌else◌, length, take, drop,
  length-append, take-append, drop-append, take-length, Option-cases,
}
use mathlib.Core.Option.{none-ne-some}
use quicsy.Prelude.Assoc.{same_refl, same→eq}
use quicsy.Util.Units.{seconds}
use quicsy.Server.Token.Aead.{TokenCrypto, IsAead}
use quicsy.Server.Token.{
  token_rand_datalen, host_bytes, host_value, Verdict, rejected, accepted, generate_token,
  bad_cidlen, check_contents, check_plaintext, with_key, decrypted, verify_token,
}

-- 256 to the n.
abbrev byte_bound : ℕ → ℕ
byte_bound zero = 1
byte_bound (suc n) = 256 * byte_bound n

host_value-host_bytes : (n t : ℕ) → t < byte_bound n → host_value (host_bytes n t) ≡ t
unfolding host_value host_bytes
host_value-host_bytes zero t h = omega arith
host_value-host_bytes (suc n) t h = omega (arith, host_value-host_bytes n (t / 256) (omega arith))

length-host_bytes : (n t : ℕ) → length (host_bytes n t) ≡ n
unfolding host_bytes
length-host_bytes zero t = refl
length-host_bytes (suc n) t = ap suc (length-host_bytes n (t / 256))

first_eight : (t : ℕ) (ocid : Bytes) → take 8 (host_bytes 8 t ++ ocid) ≡ host_bytes 8 t
unfolding host_bytes
first_eight t ocid = refl

behind_eight : (t : ℕ) (ocid : Bytes) → drop 8 (host_bytes 8 t ++ ocid) ≡ ocid
unfolding host_bytes
behind_eight t ocid = refl

rejected-ne-accepted : (ocid : Bytes) → rejected ≢ accepted ocid
rejected-ne-accepted ocid e = cc

module _ (c : TokenCrypto) where
  open c use {Key, derive, encrypt, decrypt, taglen, min_cidlen, max_cidlen, printable}

  -- The verdict on a text that is old by the clock, or on one that is not.
  abbrev pub within_window : ℕ → ℕ → Bytes → Verdict
  within_window now t ocid = if ltb (t + 10 * seconds) now then rejected else accepted ocid

  time_part :
      (t : ℕ) (sa ocid : Bytes)
      → t < 2 ^ 64
      → host_value (take 8 (drop (length sa) (sa ++ (host_bytes 8 t ++ ocid)))) ≡ t
  time_part t sa ocid h =
      let e : length sa + 0 ≡ length sa = omega arith in
      ap (λ k. host_value (take 8 (drop k (sa ++ (host_bytes 8 t ++ ocid))))) (sym e)
      ∙ ap (λ l. host_value (take 8 l)) (drop-append sa (host_bytes 8 t ++ ocid) 0)
      ∙ ap host_value (first_eight t ocid)
      ∙ host_value-host_bytes 8 t h

  cid_part :
      (t : ℕ) (sa ocid : Bytes) → drop (length sa + 8) (sa ++ (host_bytes 8 t ++ ocid)) ≡ ocid
  cid_part t sa ocid = drop-append sa (host_bytes 8 t ++ ocid) 8 ∙ behind_eight t ocid

  check_contents-text :
      (now t : ℕ) (sa ocid : Bytes)
      → t + 10 * seconds < 2 ^ 64
      → check_contents c now sa (sa ++ (host_bytes 8 t ++ ocid)) (length ocid)
        ≡ within_window now t ocid
  unfolding check_contents
  check_contents-text now t sa ocid h =
      let own = take-append sa (host_bytes 8 t ++ ocid) in
      let fits : (t + 10 * seconds) % 2 ^ 64 ≡ t + 10 * seconds = omega arith in
      rw
        (
          own,
          same_refl sa,
          time_part t sa ocid (omega arith),
          cid_part t sa ocid,
          take-length ocid,
          fits,
        )
        refl

  check_plaintext-text :
      (now t : ℕ) (sa ocid : Bytes)
      → t + 10 * seconds < 2 ^ 64
      → bad_cidlen c (length ocid) ≡ false
      → check_plaintext c now sa
          (length (sa ++ (host_bytes 8 t ++ ocid)) + taglen)
          (sa ++ (host_bytes 8 t ++ ocid))
        ≡ within_window now t ocid
  unfolding check_plaintext
  check_plaintext-text now t sa ocid h fine =
      let n : ℕ = length (sa ++ (host_bytes 8 t ++ ocid)) in
      let size : n ≡ length sa + (8 + length ocid) = omega (
        arith,
        length-append sa (host_bytes 8 t ++ ocid),
        length-append (host_bytes 8 t) ocid,
        length-host_bytes 8 t,
      ) in
      let tagged : ltb (n + taglen) taglen ≡ false = ground arith in
      let long : ltb (n + taglen - taglen) (length sa + 8) ≡ false = ground (arith, size) in
      let cil : n + taglen - taglen - length sa - 8 ≡ length ocid = omega (arith, size) in
      rw (tagged, long, cil, fine) (check_contents-text now t sa ocid h)

  -- What a token that is made consists of.
  generate_token_parts :
      (t : ℕ) (rand_data sa ocid token : Bytes)
      → generate_token c t rand_data sa ocid ≡ some token
      → (key : Key) × (sealed : Bytes) × (derive rand_data ≡ some key)
        × (encrypt key (sa ++ (host_bytes 8 t ++ ocid)) sa ≡ some sealed)
        × (token ≡ sealed ++ rand_data)
  unfolding generate_token
  generate_token_parts t rand_data sa ocid token made = elim (Option-cases (derive rand_data)) [
    | inl e ↦
        let failed : generate_token c t rand_data sa ocid ≡ none = rw e refl in
        absurd (none-ne-some token (sym failed ∙ made))
    | inr (key, e) ↦ elim (Option-cases (encrypt key (sa ++ (host_bytes 8 t ++ ocid)) sa)) [
      | inl f ↦
          let failed : generate_token c t rand_data sa ocid ≡ none = rw (e, f) refl in
          absurd (none-ne-some token (sym failed ∙ made))
      | inr (sealed, f) ↦
          let succeeded : generate_token c t rand_data sa ocid ≡ some (sealed ++ rand_data) =
            rw (e, f) refl in
          (key, sealed, e, f, cc (succeeded, made))
    ]
  ]

  verify_token-sealed :
      (now : ℕ) (sealed rand_data sa : Bytes) (key : Key)
      → length rand_data ≡ token_rand_datalen
      → printable sa ≡ true
      → derive rand_data ≡ some key
      → verify_token c now (sealed ++ rand_data) sa
        ≡ decrypted c now sa (length sealed) (decrypt key sealed sa)
  unfolding verify_token with_key
  verify_token-sealed now sealed rand_data sa key r named derived =
      let n : ℕ = length (sealed ++ rand_data) in
      let front : n - 16 ≡ length sealed + 0 = omega (arith, length-append sealed rand_data) in
      let whole : length sealed + 0 ≡ length sealed = omega arith in
      let long : ltb n 16 ≡ false = ground (arith, length-append sealed rand_data) in
      rw
        (
          named,
          long,
          front,
          drop-append sealed rand_data 0,
          derived,
          whole,
          take-append sealed rand_data,
        )
        refl

  -- The token of a client for an identifier of an admissible length, or for none, is accepted from the
  -- same address with this identifier until ten seconds after it was made, and is rejected then. (The
  -- time does not overflow 64 bits, and the random data has its length.)
  pub verify_token-generate_token :
      (aead : IsAead c) (now t : ℕ) (rand_data sa ocid token : Bytes)
      → t + 10 * seconds < 2 ^ 64
      → length rand_data ≡ token_rand_datalen
      → printable sa ≡ true
      → bad_cidlen c (length ocid) ≡ false
      → generate_token c t rand_data sa ocid ≡ some token
      → verify_token c now token sa ≡ within_window now t ocid
  unfolding decrypted
  verify_token-generate_token aead now t rand_data sa ocid token h r named fine made =
      let (key, sealed, derived, seals, parts) =
        generate_token_parts t rand_data sa ocid token made in
      let text = sa ++ (host_bytes 8 t ++ ocid) in
      let opened = aead.decrypts key text sa sealed seals in
      let size = aead.seals key sealed sa text opened in
      ap (λ x. verify_token c now x sa) parts
      ∙ verify_token-sealed now sealed rand_data sa key r named derived
      ∙ ap (decrypted c now sa (length sealed)) opened
      ∙ ap (λ k. check_plaintext c now sa k text) size
      ∙ check_plaintext-text now t sa ocid h fine

  check_contents-accepted :
      (now : ℕ) (sa plaintext ocid : Bytes) (cil : ℕ)
      → check_contents c now sa plaintext cil ≡ accepted ocid
      → (take (length sa) plaintext ≡ sa)
        × (now ≤ (host_value (take 8 (drop (length sa) plaintext)) + 10 * seconds) % 2 ^ 64)
  unfolding check_contents
  check_contents-accepted now sa plaintext ocid cil e =
      ground (arith, same→eq (take (length sa) plaintext) sa)

  check_plaintext-accepted :
      (now n : ℕ) (sa plaintext ocid : Bytes)
      → check_plaintext c now sa n plaintext ≡ accepted ocid
      → check_contents c now sa plaintext (n - taglen - length sa - 8) ≡ accepted ocid
  unfolding check_plaintext
  check_plaintext-accepted now n sa plaintext ocid e = ground (arith, e)

  verify_token-with_key :
      (now : ℕ) (token sa ocid : Bytes)
      → verify_token c now token sa ≡ accepted ocid
      → with_key c now sa (take (length token - 16) token) (derive (drop (length token - 16) token))
        ≡ accepted ocid
  unfolding verify_token
  verify_token-with_key now token sa ocid e = ground arith

  -- What is accepted from an address decrypts, under the key of its random data and with the address as
  -- associated data, to a text that begins with this address and with a time that is not more than ten
  -- seconds past.
  pub verify_token-accepted :
      (now : ℕ) (token sa ocid : Bytes)
      → verify_token c now token sa ≡ accepted ocid
      → (key : Key) × (plaintext : Bytes) × (derive (drop (length token - token_rand_datalen) token)
          ≡ some key)
        × (decrypt key (take (length token - token_rand_datalen) token) sa ≡ some plaintext)
        × (take (length sa) plaintext ≡ sa)
        × (now ≤ (host_value (take 8 (drop (length sa) plaintext)) + 10 * seconds) % 2 ^ 64)
  unfolding with_key decrypted
  verify_token-accepted now token sa ocid e =
      let r : Bytes = drop (length token - 16) token in
      let ct : Bytes = take (length token - 16) token in
      let k : with_key c now sa ct (derive r) ≡ accepted ocid =
        verify_token-with_key now token sa ocid e in
      elim (Option-cases (derive r)) [
        | inl d ↦ absurd (rejected-ne-accepted ocid (sym (ap (with_key c now sa ct) d) ∙ k))
        | inr (key, d) ↦
            let k₁ : decrypted c now sa (length ct) (decrypt key ct sa) ≡ accepted ocid =
              sym (ap (with_key c now sa ct) d) ∙ k in
            elim (Option-cases (decrypt key ct sa)) [
              | inl f ↦
                  absurd
                    (rejected-ne-accepted ocid (sym (ap (decrypted c now sa (length ct)) f) ∙ k₁))
              | inr (plaintext, f) ↦
                  let k₂ : check_plaintext c now sa (length ct) plaintext ≡ accepted ocid =
                    sym (ap (decrypted c now sa (length ct)) f) ∙ k₁ in
                  let (own, fresh) =
                    check_contents-accepted now sa plaintext ocid
                      (length ct - taglen - length sa - 8)
                      (check_plaintext-accepted now (length ct) sa plaintext ocid k₂) in
                  (key, plaintext, d, f, own, fresh)
            ]
      ]
