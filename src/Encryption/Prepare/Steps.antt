-- ===== src/Encryption/Prepare/Steps.antt =====
-- The single checks of `EncryptedRequest::prepare`, on what a client sends.
use mathlib.Core.List.{
  Perm, Mem, not-mem-nil, mem-cons_self, mem-cons_of_mem, eq-or-mem_of_mem-cons,
}
use mathlib.Core.List.Perm
use mathlib.Core.Logic.Or
use mathlib.Core.Bool.{Bool-set}
use nats_micro.Prelude.{
  true, false, List, [], ◌∷◌, Option, some, none, Str, bytes, str_eq_refl, All, ◌≡◌, refl, ok,
  arith, length, leb, ltb,
}
use nats_micro.Headers.{HeaderMaps}
use nats_micro.Encryption.Crypto.{Crypto, IsCrypto}
use nats_micro.Encryption.Transcript.{
  update_signature_mac, SignatureTranscript, compute_signature_for_transcript,
  verify_signature_for_transcript,
}
use nats_micro.Encryption.Envelope.{decrypt_with_encryption_key}
use nats_micro.Encryption.Envelope.RoundTrip.{
  request_envelope, decrypt_aead-encrypt, request_envelope-parts,
}
use nats_micro.Encryption.Headers.{
  encrypted_headers_name, response_pub_key_name, is_reserved_encryption_header_name, find_reserved,
  decode_response_pub_key, decrypt_header_overlay, decode_header_blob, decrypt_blob,
}
use nats_micro.Encryption.Prepare.{key_of_body, is_key_of_body, decrypt_payload_once}

IsFree : List (Str × Str) → Type 0
IsFree entries = (e : Str × Str) → Mem e entries → is_reserved_encryption_header_name e.0 ≡ false

IsFree-All :
    (entries : List (Str × Str))
    → All (λ e. is_reserved_encryption_header_name e.0 ≡ false) entries
    → IsFree entries
unfolding IsFree
IsFree-All [] h e m = absurd (not-mem-nil m)
IsFree-All (x ∷ entries) (free, others) e m =
    Or.elim (Bool-set (is_reserved_encryption_header_name e.0) false) (eq-or-mem_of_mem-cons m)
      (λ same. rw same free) (λ later. IsFree-All entries others e later)

find_reserved-IsFree : (entries : List (Str × Str)) → IsFree entries → find_reserved entries ≡ none
unfolding find_reserved IsFree
find_reserved-IsFree [] h = refl
find_reserved-IsFree ((name, value) ∷ entries) h =
    rw (h (name, value) mem-cons_self)
      (find_reserved-IsFree entries (λ e m. h e (mem-cons_of_mem (name, value) m)))

-- Entries that were read back from what was written are free of reserved names too.
pub find_reserved-Perm :
    (entries map : List (Str × Str))
    → Perm entries map
    → All (λ e. is_reserved_encryption_header_name e.0 ≡ false) map
    → find_reserved entries ≡ none
unfolding IsFree
find_reserved-Perm entries map p free =
    find_reserved-IsFree entries (λ e m. IsFree-All map free e ((Perm.mem_iff p).0 m))

module _ {H : Type 0} (crypto : Crypto) (maps : HeaderMaps H) where
  pub decode_response_pub_key-ok :
      (headers : H) (value key : Str)
      → maps.get headers response_pub_key_name ≡ some value
      → crypto.decode value ≡ some key
      → length key ≡ 32
      → decode_response_pub_key crypto maps headers ≡ ok (some key)
  unfolding decode_response_pub_key
  decode_response_pub_key-ok headers value key held read size =
      rw (decode_response_pub_key, held, read, size) refl

  pub decrypt_header_overlay-none :
      (headers : H) (key : Str)
      → maps.get headers encrypted_headers_name ≡ none
      → decrypt_header_overlay crypto maps headers key ≡ ok []
  unfolding decrypt_header_overlay decode_header_blob decrypt_blob
  decrypt_header_overlay-none headers key absent =
      rw (decode_header_blob, absent, decrypt_blob) refl

  pub decrypt_header_overlay-ok :
      (headers : H) (key value envelope json : Str) (entries : List (Str × Str))
      → maps.get headers encrypted_headers_name ≡ some value
      → crypto.decode value ≡ some envelope
      → decrypt_with_encryption_key crypto key envelope ≡ ok json
      → crypto.from_slice json ≡ some entries
      → find_reserved entries ≡ none
      → decrypt_header_overlay crypto maps headers key ≡ ok entries
  unfolding decrypt_header_overlay decode_header_blob decrypt_blob
  decrypt_header_overlay-ok headers key value envelope json entries held read opened parsed free =
      rw (decode_header_blob, held, read, decrypt_blob, opened, parsed, free) refl

  pub verify-compute :
      (key key' : Str) (t u : SignatureTranscript)
      → key ≡ key'
      → t ≡ u
      → verify_signature_for_transcript crypto key t
          (compute_signature_for_transcript crypto key' u)
        ≡ true
  unfolding verify_signature_for_transcript compute_signature_for_transcript
  verify-compute key key' t u same transcripts =
      rw (same, transcripts) (str_eq_refl (crypto.hmac key' (update_signature_mac u)))

  -- The envelope of the payload begins with the key of the request, and is opened with it.
  pub decrypt_payload_once-ok :
      (key ephemeral_pub nonce plaintext ciphertext : Str) (request_id : Option Str)
      → IsCrypto crypto
      → length ephemeral_pub ≡ 32
      → length nonce ≡ 24
      → crypto.encrypt key nonce plaintext ≡ some ciphertext
      → decrypt_payload_once crypto maps key
          (request_envelope ephemeral_pub nonce ciphertext)
          request_id
        ≡ ok plaintext
  unfolding decrypt_payload_once
  decrypt_payload_once-ok key ephemeral_pub nonce plaintext ciphertext request_id laws lp ln
        sealed =
      let (at_key, at_nonce, at_text, size) =
        request_envelope-parts ephemeral_pub nonce ciphertext lp ln in
      let long : ltb (length (request_envelope ephemeral_pub nonce ciphertext)) 72 ≡ false =
        ground (arith, size, laws.encrypt_length key nonce plaintext ciphertext sealed) in
      rw
        (
          long,
          at_nonce,
          at_text,
          ln,
          decrypt_aead-encrypt crypto (bytes "decrypting static request payload") key nonce
              plaintext ciphertext laws sealed,
        )
        refl

  pub key_of_envelope :
      (ephemeral_pub nonce ciphertext : Str)
      → length ephemeral_pub ≡ 32
      → length nonce ≡ 24
      → is_key_of_body ephemeral_pub (key_of_body (request_envelope ephemeral_pub nonce ciphertext))
        ≡ true
  key_of_envelope ephemeral_pub nonce ciphertext lp ln =
      let (at_key, at_nonce, at_text, size) =
        request_envelope-parts ephemeral_pub nonce ciphertext lp ln in
      let long : leb 32 (length (request_envelope ephemeral_pub nonce ciphertext)) ≡ true =
        ground (arith, size) in
      rw (long, at_key) (str_eq_refl ephemeral_pub)
