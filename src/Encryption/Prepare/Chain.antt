-- ===== src/Encryption/Prepare/Chain.antt =====
-- The checks of an encrypted request's `prepare`, one after the other.
use nats_micro.Prelude.{Bool, true, false, not, ◌&&◌, Option, some, Str, ◌≡◌, refl, ok}
use nats_micro.Headers.{HeaderMaps}
use nats_micro.Request.{Request}
use nats_micro.Encryption.Crypto.{Crypto}
use nats_micro.Encryption.Transcript.{verify_signature_for_transcript}
use nats_micro.Encryption.Envelope.{ServiceKeyPair, derive_encryption_key, derive_signature_key}
use nats_micro.Encryption.Headers.{
  EncryptedHeaderOverlay, signature_header_name, decode_response_pub_key, decrypt_header_overlay,
}
use nats_micro.Encryption.Prepare.{
  EncryptedRequest, open_request, prepare, service_transcript, is_key_of_body, key_of_body,
  decrypt_if,
}

module _ {H : Type 0} (crypto : Crypto) (maps : HeaderMaps H) (keypair : ServiceKeyPair)
    (request : Request H) (decrypt_payload : Bool) (headers : H) (key signature : Str) where
  abbrev pub prepared : Option Str → EncryptedHeaderOverlay → EncryptedRequest H
  prepared plaintext overlay = record {
    original = request;
    keypair = keypair;
    ephemeral_public_key = key;
    plaintext = plaintext;
    overlay = overlay;
  }

  pub prepare-checked :
      (value : Str) (overlay : EncryptedHeaderOverlay) (plaintext : Option Str)
      → request.headers.inner ≡ some headers
      → decode_response_pub_key crypto maps headers ≡ ok (some key)
      → maps.get headers signature_header_name ≡ some value
      → crypto.decode value ≡ some signature
      → verify_signature_for_transcript crypto
          (derive_signature_key crypto keypair key)
          (service_transcript crypto maps request headers key)
          signature
        ≡ true
      → decrypt_header_overlay crypto maps headers (derive_encryption_key crypto keypair key)
        ≡ ok overlay
      → decrypt_payload && not (is_key_of_body key (key_of_body request.payload)) ≡ false
      → decrypt_if crypto maps decrypt_payload
          (derive_encryption_key crypto keypair key)
          request.payload
          request.request_id.existing
        ≡ ok plaintext
      → prepare crypto maps keypair request decrypt_payload ≡ ok (prepared plaintext overlay)
  unfolding prepare open_request
  prepare-checked value overlay plaintext inner decoded held read verified opened same decrypted =
      rw (inner, decoded, held, read, verified, opened, same, decrypted) refl
