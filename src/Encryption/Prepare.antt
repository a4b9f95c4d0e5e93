-- ===== src/Encryption/Prepare.antt =====
-- nats-micro/src/encryption/request.rs: how the service checks and opens an encrypted request, and
-- seals its response. Of an `ErrorReply` the code and the request id are kept, not its texts.
pub mod Authentic
pub mod Chain
pub mod Steps
use nats_micro.Prelude.{
  ℕ, ◌+◌, Bool, true, false, not, ◌&&◌, Option, some, none, Str, bytes, take, drop, length, ltb,
  leb, str_eq, [], if◌then◌else◌, Result, ok, err, ◌>>=◌, ◌>>◌, ensure,
}
use nats_micro.Errors.Framework.{
  FrameworkError, encrypt_required, signature_missing, signature_invalid, decrypt_failed,
  encrypt_failed,
}
use nats_micro.Headers.{HeaderMaps}
use nats_micro.Response.{Response, empty, payload, with_headers}
use nats_micro.Request.{Request, with_body_and_overlay}
use nats_micro.Encryption.Crypto.{Crypto}
use nats_micro.Encryption.Transcript.{SignatureTranscript, verify_signature_for_transcript}
use nats_micro.Encryption.Envelope.{
  to_array, EncryptionError, ServiceKeyPair, derive_encryption_key, derive_signature_key,
  decrypt_aead, encrypt_response, eph_pub_len, nonce_len, min_request_envelope,
}
use nats_micro.Encryption.Headers.{
  EncryptedHeaderOverlay, encrypted_headers_name, signature_header_name, decode_response_pub_key,
  decrypt_header_overlay,
}
use nats_micro.Encryption.Builder.{client_version_header}

pub record Rejection : Type 0 where
  pub kind : FrameworkError
  pub request_id : Option Str

pub record EncryptedRequest (H : Type 0) : Type 0 where
  pub original : Request H
  pub keypair : ServiceKeyPair
  pub ephemeral_public_key : Str
  pub plaintext : Option Str
  pub overlay : EncryptedHeaderOverlay

abbrev pub or_reject :
    {E A : Type 0} → FrameworkError → Option Str → Result E A → Result Rejection A
or_reject kind request_id (ok a) = ok a
or_reject kind request_id (err e) = err (record { kind = kind; request_id = request_id })

abbrev pub required : {A : Type 0} → FrameworkError → Option Str → Option A → Result Rejection A
required kind request_id (some a) = ok a
required kind request_id none = err (record { kind = kind; request_id = request_id })

-- `body.get(..32)`
abbrev pub key_of_body : Str → Option Str
key_of_body body = if leb eph_pub_len (length body) then some (take eph_pub_len body) else none

abbrev pub is_key_of_body : Str → Option Str → Bool
is_key_of_body key none = false
is_key_of_body key (some start) = str_eq start key

-- The decrypted payload, or the one that came.
abbrev pub body_or : Str → Option Str → Str
body_or body none = body
body_or body (some plaintext) = plaintext

module _ {H : Type 0} (crypto : Crypto) (maps : HeaderMaps H) where
  unfoldable pub decrypt_payload_once : Str → Str → Option Str → Result Rejection Str
  unfolding decrypt_aead
  decrypt_payload_once encryption_key body request_id =
      if ltb (length body) min_request_envelope
      then err (record { kind = decrypt_failed; request_id = request_id })
      else do
        nonce ← or_reject decrypt_failed request_id (
            to_array nonce_len (bytes "reading the encrypted request nonce")
              (take nonce_len (drop eph_pub_len body)))
        or_reject decrypt_failed request_id (
            decrypt_aead crypto (bytes "decrypting static request payload") encryption_key nonce
              (drop (eph_pub_len + nonce_len) body))

  -- `decrypt_payload.then(..).transpose()`
  abbrev pub decrypt_if : Bool → Str → Str → Option Str → Result Rejection (Option Str)
  decrypt_if false encryption_key body request_id = ok none
  decrypt_if true encryption_key body request_id = do
    plaintext ← decrypt_payload_once encryption_key body request_id
    ok (some plaintext)

  abbrev pub service_transcript : Request H → H → Str → SignatureTranscript
  service_transcript request headers ephemeral_public_key = record {
    subject = request.subject;
    ephemeral_pub = ephemeral_public_key;
    request_id = request.request_id.existing;
    client_version = maps.get headers client_version_header;
    encrypted_headers_value = maps.get headers encrypted_headers_name;
    payload = request.payload;
  }

  -- The checks after the two headers were read.
  unfoldable pub open_request :
      ServiceKeyPair → Request H → Bool → H → Str → Str → Result Rejection (EncryptedRequest H)
  unfolding verify_signature_for_transcript decrypt_header_overlay decrypt_payload_once str_eq
  open_request keypair request decrypt_payload headers ephemeral_public_key signature = do
    let request_id = request.request_id.existing
    let encryption_key = derive_encryption_key crypto keypair ephemeral_public_key
    ensure
        (verify_signature_for_transcript crypto
          (derive_signature_key crypto keypair ephemeral_public_key)
          (service_transcript request headers ephemeral_public_key) signature)
        (record { kind = signature_invalid; request_id = request_id })
    overlay ←
        or_reject decrypt_failed request_id
          (decrypt_header_overlay crypto maps headers encryption_key)
    ensure
        (not (
          decrypt_payload
          && not (is_key_of_body ephemeral_public_key (key_of_body request.payload))))
        (record { kind = decrypt_failed; request_id = request_id })
    plaintext ← decrypt_if decrypt_payload encryption_key request.payload request_id
    ok (record {
      original = request;
      keypair = keypair;
      ephemeral_public_key = ephemeral_public_key;
      plaintext = plaintext;
      overlay = overlay;
    })

  unfoldable pub prepare : ServiceKeyPair → Request H → Bool → Result Rejection (EncryptedRequest H)
  unfolding decode_response_pub_key open_request
  prepare keypair request decrypt_payload = do
    let request_id = request.request_id.existing
    headers ← required encrypt_required request_id request.headers.inner
    key ← or_reject decrypt_failed request_id (decode_response_pub_key crypto maps headers)
    ephemeral_public_key ← required encrypt_required request_id key
    value ← required signature_missing request_id (maps.get headers signature_header_name)
    signature ← required signature_invalid request_id (crypto.decode value)
    open_request keypair request decrypt_payload headers ephemeral_public_key signature

  -- `EncryptedRequest::request`: what the handler sees.
  unfoldable pub request_view : EncryptedRequest H → Request H
  unfolding with_body_and_overlay
  request_view request =
      with_body_and_overlay maps request.original
        (body_or request.original.payload request.plaintext) request.overlay

  unfoldable pub seal_response : EncryptedRequest H → Str → Str → Result Rejection Str
  unfolding encrypt_response
  seal_response request nonce text =
      or_reject encrypt_failed request.original.request_id.existing
        (encrypt_response crypto request.keypair nonce text request.ephemeral_public_key)

  -- `EncryptedRequest::encrypt_response`
  unfoldable pub encrypt_reply :
      EncryptedRequest H → Str → Response H → Result Rejection (Response H)
  unfolding seal_response
  encrypt_reply request nonce empty = do
    sealed ← seal_response request nonce []
    ok (payload sealed)
  encrypt_reply request nonce (payload text) = do
    sealed ← seal_response request nonce text
    ok (payload sealed)
  encrypt_reply request nonce (with_headers text headers) = do
    sealed ← seal_response request nonce text
    ok (with_headers sealed headers)
