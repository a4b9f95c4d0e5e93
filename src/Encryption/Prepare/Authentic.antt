-- ===== src/Encryption/Prepare/Authentic.antt =====
-- The signature check of `EncryptedRequest::prepare`.
use nats_micro.Prelude.{
  ap, Bool, true, some, none, Str, ◌≡◌, ok, arith, Option-cases, Result-cases, Bool-cases, inl, inr,
  str_eq_iff, sym,
}
use nats_micro.Headers.{HeaderMaps}
use nats_micro.Request.{Request}
use nats_micro.Encryption.Crypto.{Crypto}
use nats_micro.Encryption.Transcript.{
  update_signature_mac, verify_signature_for_transcript, compute_signature_for_transcript,
}
use nats_micro.Encryption.Envelope.{ServiceKeyPair, derive_encryption_key, derive_signature_key}
use nats_micro.Encryption.Headers.{
  signature_header_name, decode_response_pub_key, decrypt_header_overlay,
}
use nats_micro.Encryption.Prepare.{
  SignatureTranscript, EncryptedRequest, open_request, prepare, service_transcript,
}

module _ {H : Type 0} (crypto : Crypto) (maps : HeaderMaps H) where
  -- The signature, decoded, is the tag that the service computes itself for what it received, under
  -- a key of the ephemeral key in the headers.
  pub record IsAuthentic (request : Request H) (done : EncryptedRequest H) : Type 0 where
    pub headers : H
    pub inner : request.headers.inner ≡ some headers
    pub key : decode_response_pub_key crypto maps headers ≡ ok (some done.ephemeral_public_key)
    pub value : Str
    pub held : maps.get headers signature_header_name ≡ some value
    pub tag :
        crypto.decode value
        ≡ some (
            compute_signature_for_transcript crypto
              (derive_signature_key crypto done.keypair done.ephemeral_public_key)
              (service_transcript crypto maps request headers done.ephemeral_public_key))
    pub overlay :
        decrypt_header_overlay crypto maps headers
          (derive_encryption_key crypto done.keypair done.ephemeral_public_key)
        ≡ ok done.overlay

  verified :
      (key signature : Str) (t : SignatureTranscript)
      → verify_signature_for_transcript crypto key t signature ≡ true
      → signature ≡ compute_signature_for_transcript crypto key t
  unfolding verify_signature_for_transcript compute_signature_for_transcript
  verified key signature t e =
      sym ((str_eq_iff (crypto.hmac key (update_signature_mac t)) signature).0 e)

  open_request-ok :
      (keypair : ServiceKeyPair) (request : Request H) (decrypt_payload : Bool) (headers : H)
      (key signature : Str) (done : EncryptedRequest H)
      → open_request crypto maps keypair request decrypt_payload headers key signature ≡ ok done
      → (verify_signature_for_transcript crypto
            (derive_signature_key crypto keypair key)
            (service_transcript crypto maps request headers key)
            signature
          ≡ true)
        × (decrypt_header_overlay crypto maps headers (derive_encryption_key crypto keypair key)
            ≡ ok done.overlay)
        × (done.keypair ≡ keypair)
        × (done.ephemeral_public_key ≡ key)
  unfolding open_request
  open_request-ok keypair request decrypt_payload headers key signature done e =
      elim (Bool-cases (
        verify_signature_for_transcript crypto (derive_signature_key crypto keypair key)
          (service_transcript crypto maps request headers key) signature)) [
            | inr refused ↦ ground arith
            | inl good ↦
                elim (Result-cases (
                  decrypt_header_overlay crypto maps headers
                    (derive_encryption_key crypto keypair key))) [
                      | inl (x, refused) ↦ ground arith
                      | inr (overlay, opened) ↦ ground arith
                    ]
          ]

  -- The headers that `prepare` reads before it verifies the signature.
  prepare-reads :
      (keypair : ServiceKeyPair) (request : Request H) (decrypt_payload : Bool)
      (done : EncryptedRequest H)
      → prepare crypto maps keypair request decrypt_payload ≡ ok done
      → (headers : H) × (key : Str) × (value : Str) × (signature : Str) × (request.headers.inner
          ≡ some headers)
        × (decode_response_pub_key crypto maps headers ≡ ok (some key))
        × (maps.get headers signature_header_name ≡ some value)
        × (crypto.decode value ≡ some signature)
        × (open_request crypto maps keypair request decrypt_payload headers key signature ≡ ok done)
  unfolding prepare
  prepare-reads keypair request decrypt_payload done e = elim (Option-cases request.headers.inner) [
    | inl missing ↦ ground arith
    | inr (headers, inner) ↦ elim (Result-cases (decode_response_pub_key crypto maps headers)) [
      | inl (x, refused) ↦ ground arith
      | inr (none, absent) ↦ ground arith
      | inr (some key, decoded) ↦ elim (Option-cases (maps.get headers signature_header_name)) [
        | inl missing ↦ ground arith
        | inr (value, held) ↦ elim (Option-cases (crypto.decode value)) [
          | inl garbled ↦ ground arith
          | inr (signature, read) ↦
              (headers, key, value, signature, inner, decoded, held, read, ground arith)
        ]
      ]
    ]
  ]

  -- A request that the service prepares carries the tag that the service's key gives to its
  -- subject, ephemeral key, request id, client version, encrypted headers and payload, as the
  -- service received them; the overlay is what that key opens.
  pub prepare-IsAuthentic :
      (keypair : ServiceKeyPair) (request : Request H) (decrypt_payload : Bool)
      (done : EncryptedRequest H)
      → prepare crypto maps keypair request decrypt_payload ≡ ok done
      → IsAuthentic request done × (done.keypair ≡ keypair)
  prepare-IsAuthentic keypair request decrypt_payload done e =
      let (headers, key, value, signature, inner, decoded, held, read, rest) =
        prepare-reads keypair request decrypt_payload done e in
      let (good, opened, same, same_key) =
        open_request-ok keypair request decrypt_payload headers key signature done rest in
      (
        record {
          headers = headers;
          inner = inner;
          key = rw same_key decoded;
          value = value;
          held = held;
          tag = rw (read, same, same_key) (ap some (verified _ signature _ good));
          overlay = rw (same, same_key) opened;
        },
        same,
      )
