-- ===== src/Encryption/Envelope.antt =====
-- nats-micro/src/encryption/mod.rs: derived keys, and the envelopes of requests and responses.
pub mod RoundTrip
use nats_micro.Prelude.{
  ℕ, ◌+◌, ◌≡◌, List, [], ◌∷◌, ◌++◌, Option, some, none, Str, bytes, take, drop, length, ltb, ◌==◌,
  if◌then◌else◌, Result, ok, err, ◌>>=◌,
}
use nats_micro.Encryption.Crypto.{Crypto}

-- The text that an invalid header is reported with names the header and is left out.
pub data EncryptionError : Type 0 where
  decrypt_failed : (context : Str) → EncryptionError
  too_short : (context : Str) (expected actual : ℕ) → EncryptionError
  encrypt_failed : (context : Str) → EncryptionError
  signature_invalid : EncryptionError
  invalid_header : (key : Str) → EncryptionError
  reserved_header : (key : Str) → EncryptionError

abbrev pub eph_pub_len : ℕ
eph_pub_len = 32

abbrev pub nonce_len : ℕ
nonce_len = 24

abbrev pub tag_len : ℕ
tag_len = 16

abbrev pub min_request_envelope : ℕ
min_request_envelope = eph_pub_len + nonce_len + tag_len

abbrev pub min_response_envelope : ℕ
min_response_envelope = nonce_len + tag_len

abbrev pub key_derivation_salt : Str
key_derivation_salt = bytes "nats-micro encryption v1"

abbrev pub encryption_key_info : Str
encryption_key_info = bytes "nats-micro aead key v1"

abbrev pub signature_key_info : Str
signature_key_info = bytes "nats-micro signature key v1"

pub record DerivedKeys : Type 0 where
  pub encryption : Str
  pub signature : Str

pub record ServiceKeyPair : Type 0 where
  pub secret : Str
  pub public : Str

pub record EphemeralContext : Type 0 where
  pub ephemeral_pub : Str
  pub keys : DerivedKeys

-- `slice.try_into()` to an array of `n` bytes.
abbrev pub to_array : ℕ → Str → Str → Result EncryptionError Str
to_array n context slice = if length slice == n then ok slice else err (decrypt_failed context)

module _ (crypto : Crypto) where
  hkdf_expand_one : Str → Str → Str
  hkdf_expand_one prk info = crypto.hmac prk (info ++ 1 ∷ [])

  unfoldable pub derive_keys : Str → Str → DerivedKeys
  unfolding hkdf_expand_one
  derive_keys shared_secret ephemeral_pub =
      let prk = crypto.hmac key_derivation_salt (shared_secret ++ ephemeral_pub) in
      record {
        encryption = hkdf_expand_one prk encryption_key_info;
        signature = hkdf_expand_one prk signature_key_info;
      }

  -- The nonce is the random one that it draws.
  unfoldable pub encrypt_aead : Str → Str → Str → Result EncryptionError (Str × Str)
  encrypt_aead key nonce plaintext = elim (crypto.encrypt key nonce plaintext) [
    | none ↦ err (encrypt_failed (bytes "encrypting payload with XChaCha20Poly1305"))
    | some ciphertext ↦ ok (ciphertext, nonce)
  ]

  unfoldable pub decrypt_aead : Str → Str → Str → Str → Result EncryptionError Str
  decrypt_aead context key nonce ciphertext = elim (crypto.decrypt key nonce ciphertext) [
    | none ↦ err (decrypt_failed context)
    | some plaintext ↦ ok plaintext
  ]

  unfoldable pub from_private_bytes : Str → ServiceKeyPair
  from_private_bytes secret = record { secret = secret; public = crypto.public_key secret }

  unfoldable pub service_keys : ServiceKeyPair → Str → DerivedKeys
  unfolding derive_keys
  service_keys keypair ephemeral_pub =
      derive_keys (crypto.diffie_hellman keypair.secret ephemeral_pub) ephemeral_pub

  abbrev pub derive_encryption_key : ServiceKeyPair → Str → Str
  derive_encryption_key keypair ephemeral_pub = (service_keys keypair ephemeral_pub).encryption

  abbrev pub derive_signature_key : ServiceKeyPair → Str → Str
  derive_signature_key keypair ephemeral_pub = (service_keys keypair ephemeral_pub).signature

  unfoldable pub decrypt : ServiceKeyPair → Str → Result EncryptionError Str
  unfolding decrypt_aead
  decrypt keypair envelope =
      if ltb (length envelope) min_request_envelope
      then err (
          too_short (bytes "reading encrypted request envelope") min_request_envelope
            (length envelope))
      else do
        ephemeral_pub ←
            to_array 32 (bytes "reading ephemeral public key from request payload")
              (take eph_pub_len envelope)
        nonce ←
            to_array nonce_len (bytes "reading request nonce")
              (take nonce_len (drop eph_pub_len envelope))
        decrypt_aead (bytes "decrypting request payload body")
            (derive_encryption_key keypair ephemeral_pub) nonce
            (drop (eph_pub_len + nonce_len) envelope)

  unfoldable pub decrypt_with_encryption_key : Str → Str → Result EncryptionError Str
  unfolding decrypt_aead
  decrypt_with_encryption_key key envelope =
      if ltb (length envelope) min_request_envelope
      then err (
          too_short (bytes "reading encryption-key request envelope") min_request_envelope
            (length envelope))
      else do
        nonce ←
            to_array nonce_len (bytes "reading encryption-key request nonce")
              (take nonce_len (drop eph_pub_len envelope))
        decrypt_aead (bytes "decrypting encryption-key request payload body") key nonce
            (drop (eph_pub_len + nonce_len) envelope)

  unfoldable pub build_response_envelope : Str → Str → Str
  build_response_envelope nonce ciphertext = nonce ++ ciphertext

  unfoldable pub encrypt_response_with_encryption_key : Str → Str → Str → Result EncryptionError Str
  unfolding encrypt_aead build_response_envelope
  encrypt_response_with_encryption_key key random_nonce plaintext = do
    (ciphertext, nonce) ← encrypt_aead key random_nonce plaintext
    ok (build_response_envelope nonce ciphertext)

  unfoldable pub encrypt_response : ServiceKeyPair → Str → Str → Str → Result EncryptionError Str
  unfolding encrypt_aead build_response_envelope
  encrypt_response keypair random_nonce plaintext ephemeral_pub = do
    (ciphertext, nonce) ←
        encrypt_aead (derive_encryption_key keypair ephemeral_pub) random_nonce plaintext
    ok (build_response_envelope nonce ciphertext)

  -- `ServiceRecipient::begin`, for the recipient's public key and the ephemeral secret drawn.
  unfoldable pub begin : Str → Str → EphemeralContext
  unfolding derive_keys
  begin recipient ephemeral_secret = record {
    ephemeral_pub = crypto.public_key ephemeral_secret;
    keys =
        derive_keys (crypto.diffie_hellman ephemeral_secret recipient)
          (crypto.public_key ephemeral_secret);
  }

  unfoldable pub encrypt : EphemeralContext → Str → Str → Result EncryptionError Str
  unfolding encrypt_aead
  encrypt context random_nonce plaintext = do
    (ciphertext, nonce) ← encrypt_aead context.keys.encryption random_nonce plaintext
    ok (context.ephemeral_pub ++ (nonce ++ ciphertext))

  unfoldable pub decrypt_response : EphemeralContext → Str → Result EncryptionError Str
  unfolding decrypt_aead
  decrypt_response context envelope =
      if ltb (length envelope) min_response_envelope
      then err (
          too_short (bytes "reading encrypted response envelope") min_response_envelope
            (length envelope))
      else do
        nonce ← to_array nonce_len (bytes "reading response nonce") (take nonce_len envelope)
        decrypt_aead (bytes "decrypting response payload body") context.keys.encryption nonce
            (drop nonce_len envelope)
