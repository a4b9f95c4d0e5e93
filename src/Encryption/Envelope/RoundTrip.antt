-- ===== src/Encryption/Envelope/RoundTrip.antt =====
-- Both sides of an envelope in nats-micro/src/encryption/mod.rs: keys, requests and responses.
use nats_micro.Encryption.Envelope.{
  derive_encryption_key, build_response_envelope, decrypt_response, EphemeralContext,
  ServiceKeyPair, encrypt_aead, encrypt_response, encrypt, decrypt, ltb, derive_keys, begin,
  from_private_bytes, decrypt_aead, service_keys, decrypt_with_encryption_key,
}
use mathlib.Core.List.{append_assoc}
use nats_micro.Prelude.{
  ◌∙◌, inr, inl, Option-cases, false, List, ℕ, ◌+◌, ◌≡◌, ◌≤◌, ◌++◌, some, Str, bytes, take, drop,
  length, ok, arith, refl, ap, take-append, drop-append, length-append, subst,
}
use nats_micro.Encryption.Crypto.{Crypto, IsCrypto}

module _ {ℓ} {A : Type ℓ} where
  pub take-append_at : (n : ℕ) (xs ys : List A) → length xs ≡ n → take n (xs ++ ys) ≡ xs
  take-append_at n xs ys e = subst (λ m. take m (xs ++ ys) ≡ xs) e (take-append xs ys)

  pub drop-append_at : (n : ℕ) (xs ys : List A) → length xs ≡ n → drop n (xs ++ ys) ≡ ys
  drop-append_at n xs ys e = subst (λ m. drop m (xs ++ ys) ≡ ys) e (drop-append xs ys)

-- The parts of a request envelope.
module _ (ephemeral_pub nonce ciphertext : Str) where
  abbrev pub request_envelope : Str
  request_envelope = ephemeral_pub ++ (nonce ++ ciphertext)

  pub request_envelope-parts :
      length ephemeral_pub ≡ 32
      → length nonce ≡ 24
      → (take 32 request_envelope ≡ ephemeral_pub)
        × (take 24 (drop 32 request_envelope) ≡ nonce)
        × (drop 56 request_envelope ≡ ciphertext)
        × (length request_envelope ≡ 56 + length ciphertext)
  request_envelope-parts lp ln = (
    take-append_at 32 ephemeral_pub (nonce ++ ciphertext) lp,
    rw (drop-append_at 32 ephemeral_pub (nonce ++ ciphertext) lp)
        (take-append_at 24 nonce ciphertext ln),
    rw (← append_assoc ephemeral_pub nonce ciphertext) (
        drop-append_at 56 (ephemeral_pub ++ nonce) ciphertext
          (omega (arith, length-append ephemeral_pub nonce, lp, ln))),
    omega (
      arith,
      length-append ephemeral_pub (nonce ++ ciphertext),
      length-append nonce ciphertext,
      lp,
      ln,
    ),
  )

module _ (crypto : Crypto) where
  -- The two sides agree on the keys.
  pub service_keys-begin :
      (secret ephemeral_secret : Str)
      → IsCrypto crypto
      → service_keys crypto
          (from_private_bytes crypto secret)
          (begin crypto (from_private_bytes crypto secret).public ephemeral_secret).ephemeral_pub
        ≡ (begin crypto (from_private_bytes crypto secret).public ephemeral_secret).keys
  unfolding service_keys from_private_bytes begin
  service_keys-begin secret ephemeral_secret laws =
      ap (λ shared. derive_keys crypto shared (crypto.public_key ephemeral_secret))
        (laws.dh_agrees secret ephemeral_secret)

  pub encryption_key-begin :
      (secret ephemeral_secret : Str)
      → IsCrypto crypto
      → derive_encryption_key crypto
          (from_private_bytes crypto secret)
          (begin crypto (from_private_bytes crypto secret).public ephemeral_secret).ephemeral_pub
        ≡ (begin crypto (from_private_bytes crypto secret).public ephemeral_secret).keys.encryption
  encryption_key-begin secret ephemeral_secret laws =
      ap (λ keys. keys.encryption) (service_keys-begin secret ephemeral_secret laws)

  pub begin-ephemeral_pub :
      (recipient ephemeral_secret : Str)
      → (begin crypto recipient ephemeral_secret).ephemeral_pub ≡ crypto.public_key ephemeral_secret
  unfolding begin
  begin-ephemeral_pub recipient ephemeral_secret = refl

  pub decrypt_aead-encrypt :
      (context key nonce plaintext ciphertext : Str)
      → IsCrypto crypto
      → crypto.encrypt key nonce plaintext ≡ some ciphertext
      → decrypt_aead crypto context key nonce ciphertext ≡ ok plaintext
  unfolding decrypt_aead
  decrypt_aead-encrypt context key nonce plaintext ciphertext laws sealed =
      rw (decrypt_aead, laws.decrypt-encrypt key nonce plaintext ciphertext sealed) refl

  -- An envelope is opened by what follows the ephemeral key and the nonce.
  pub decrypt_with_encryption_key-parts :
      (key ephemeral_pub nonce ciphertext : Str)
      → length ephemeral_pub ≡ 32
      → length nonce ≡ 24
      → 16 ≤ length ciphertext
      → decrypt_with_encryption_key crypto key (request_envelope ephemeral_pub nonce ciphertext)
        ≡ decrypt_aead crypto
            (bytes "decrypting encryption-key request payload body")
            key
            nonce
            ciphertext
  unfolding decrypt_with_encryption_key
  decrypt_with_encryption_key-parts key ephemeral_pub nonce ciphertext lp ln lc =
      let (_, at_nonce, at_text, size) =
        request_envelope-parts ephemeral_pub nonce ciphertext lp ln in
      let long : ltb (length (request_envelope ephemeral_pub nonce ciphertext)) 72 ≡ false =
        ground (arith, size) in
      rw (long, at_nonce, at_text, ln) refl

  decrypt-parts :
      (keypair : ServiceKeyPair) (ephemeral_pub nonce ciphertext : Str)
      → length ephemeral_pub ≡ 32
      → length nonce ≡ 24
      → 16 ≤ length ciphertext
      → decrypt crypto keypair (request_envelope ephemeral_pub nonce ciphertext)
        ≡ decrypt_aead crypto
            (bytes "decrypting request payload body")
            (derive_encryption_key crypto keypair ephemeral_pub)
            nonce
            ciphertext
  unfolding decrypt
  decrypt-parts keypair ephemeral_pub nonce ciphertext lp ln lc =
      let (at_key, at_nonce, at_text, size) =
        request_envelope-parts ephemeral_pub nonce ciphertext lp ln in
      let long : ltb (length (request_envelope ephemeral_pub nonce ciphertext)) 72 ≡ false =
        ground (arith, size) in
      rw (long, at_key, at_nonce, at_text, lp, ln) refl

  pub encrypt-envelope :
      (context : EphemeralContext) (nonce plaintext envelope : Str)
      → encrypt crypto context nonce plaintext ≡ ok envelope
      → (ciphertext : Str) × (crypto.encrypt context.keys.encryption nonce plaintext
          ≡ some ciphertext)
        × (envelope ≡ request_envelope context.ephemeral_pub nonce ciphertext)
  unfolding encrypt encrypt_aead
  encrypt-envelope context nonce plaintext envelope e =
      elim (Option-cases (crypto.encrypt context.keys.encryption nonce plaintext)) [
        | inl refused ↦ ground arith
        | inr (c, sealed) ↦ (c, sealed, ground arith)
      ]

  -- The service's key pair opens what a client seals for its public key, for any ephemeral secret
  -- and any nonce of 24 bytes that the client draws.
  pub decrypt-encrypt :
      (secret ephemeral_secret nonce plaintext envelope : Str)
      → IsCrypto crypto
      → length nonce ≡ 24
      → encrypt crypto
          (begin crypto (from_private_bytes crypto secret).public ephemeral_secret)
          nonce
          plaintext
        ≡ ok envelope
      → decrypt crypto (from_private_bytes crypto secret) envelope ≡ ok plaintext
  decrypt-encrypt secret ephemeral_secret nonce plaintext envelope laws ln e =
      let keypair = from_private_bytes crypto secret in
      let context = begin crypto keypair.public ephemeral_secret in
      let (ciphertext, sealed, same) = encrypt-envelope context nonce plaintext envelope e in
      let long : 16 ≤ length ciphertext =
        omega
          (arith, laws.encrypt_length context.keys.encryption nonce plaintext ciphertext sealed) in
      let key : length context.ephemeral_pub ≡ 32 =
        rw (begin-ephemeral_pub keypair.public ephemeral_secret)
          (laws.public_length ephemeral_secret) in
      ap (decrypt crypto keypair) same
      ∙ decrypt-parts keypair context.ephemeral_pub nonce ciphertext key ln long
      ∙ ap (λ k. decrypt_aead crypto (bytes "decrypting request payload body") k nonce ciphertext)
          (encryption_key-begin secret ephemeral_secret laws)
      ∙ decrypt_aead-encrypt _ context.keys.encryption nonce plaintext ciphertext laws sealed

  decrypt_response-parts :
      (context : EphemeralContext) (nonce ciphertext : Str)
      → length nonce ≡ 24
      → 16 ≤ length ciphertext
      → decrypt_response crypto context (nonce ++ ciphertext)
        ≡ decrypt_aead crypto
            (bytes "decrypting response payload body")
            context.keys.encryption
            nonce
            ciphertext
  unfolding decrypt_response
  decrypt_response-parts context nonce ciphertext ln lc =
      let long : ltb (length (nonce ++ ciphertext)) 40 ≡ false =
        ground (arith, length-append nonce ciphertext) in
      rw (long, take-append_at 24 nonce ciphertext ln, drop-append_at 24 nonce ciphertext ln, ln)
        refl

  encrypt_response-envelope :
      (keypair : ServiceKeyPair) (nonce plaintext ephemeral_pub envelope : Str)
      → encrypt_response crypto keypair nonce plaintext ephemeral_pub ≡ ok envelope
      → (ciphertext : Str) × (crypto.encrypt
            (derive_encryption_key crypto keypair ephemeral_pub)
            nonce
            plaintext
          ≡ some ciphertext)
        × (envelope ≡ nonce ++ ciphertext)
  unfolding encrypt_response encrypt_aead build_response_envelope
  encrypt_response-envelope keypair nonce plaintext ephemeral_pub envelope e =
      elim (Option-cases
        (crypto.encrypt (derive_encryption_key crypto keypair ephemeral_pub) nonce plaintext)) [
          | inl refused ↦ ground arith
          | inr (c, sealed) ↦ (c, sealed, ground arith)
        ]

  -- The client opens the response that the service seals for the client's ephemeral key, for any
  -- nonce of 24 bytes that the service draws.
  pub decrypt_response-encrypt_response :
      (secret ephemeral_secret nonce plaintext envelope : Str)
      → IsCrypto crypto
      → length nonce ≡ 24
      → encrypt_response crypto
          (from_private_bytes crypto secret)
          nonce
          plaintext
          (begin crypto (from_private_bytes crypto secret).public ephemeral_secret).ephemeral_pub
        ≡ ok envelope
      → decrypt_response crypto
          (begin crypto (from_private_bytes crypto secret).public ephemeral_secret)
          envelope
        ≡ ok plaintext
  decrypt_response-encrypt_response secret ephemeral_secret nonce plaintext envelope laws ln e =
      let keypair = from_private_bytes crypto secret in
      let context = begin crypto keypair.public ephemeral_secret in
      let (ciphertext, sealed, same) =
        encrypt_response-envelope keypair nonce plaintext context.ephemeral_pub envelope e in
      let sealed' : crypto.encrypt context.keys.encryption nonce plaintext ≡ some ciphertext =
        rw (← encryption_key-begin secret ephemeral_secret laws) sealed in
      let long : 16 ≤ length ciphertext =
        omega
          (arith, laws.encrypt_length context.keys.encryption nonce plaintext ciphertext sealed') in
      ap (decrypt_response crypto context) same
      ∙ decrypt_response-parts context nonce ciphertext ln long
      ∙ decrypt_aead-encrypt _ context.keys.encryption nonce plaintext ciphertext laws sealed'
