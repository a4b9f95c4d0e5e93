-- ===== src/Encryption/EndToEnd.antt =====
-- What the service makes of a request that the builder built for it.
use nats_micro.Encryption.Transcript.{compute_signature_for_transcript}
use nats_micro.Encryption.Prepare.{request_view, prepare, EncryptedRequest, service_transcript}
use nats_micro.Encryption.Envelope.RoundTrip.{service_keys-begin}
use nats_micro.Encryption.Builder.Built.{build_for_subject-ok, unsigned_headers-get, IsPlain}
use nats_micro.Encryption.Prepare.Steps.{verify-compute, decode_response_pub_key-ok}
use nats_micro.Encryption.Headers.{
  response_pub_key_name, signature_header_name, encrypted_headers_name,
  is_reserved_encryption_header_name,
}
use nats_micro.Encryption.Builder.{
  client_version_header, build_for_subject, unsigned_headers, client_transcript, sign_request,
  RequestBuilder, seal_payload, BuiltRequest, collect, seal_headers,
}
use nats_micro.Encryption.Envelope.{
  derive_signature_key, begin, from_private_bytes, EphemeralContext, ServiceKeyPair,
}
use mathlib.Core.List.{Perm}
use nats_micro.Encryption.Prepare.Chain.{prepared, prepare-checked}
use nats_micro.Prelude.{
  Bool, true, false, List, [], Option, some, none, Str, str_eq, All, ◌≡◌, refl, ◌∙◌, ok, ap, length,
}
use nats_micro.Headers.{HeaderMaps, IsHeaderMaps, get-insert_same, get-insert_other}
use nats_micro.Request
use nats_micro.Request.{
  with_body_and_overlay, Request, is_valid_request_id, request_id_header, request_id_of,
}
use nats_micro.Encryption.Crypto.{Crypto, IsCrypto}
use nats_micro.Encryption.Opening.{client_key_length, overlay-sealed, payload-sealed}

module _ {H : Type 0} (crypto : Crypto) (maps : HeaderMaps H) where
  -- An identifier that the service takes over is read back from the header.
  valid_id-same :
      (id : Option Str)
      → ((value : Str) → id ≡ some value → is_valid_request_id value ≡ true)
      → Request.valid_id maps id ≡ id
  valid_id-same none valid = refl
  valid_id-same (some value) valid = rw (valid value refl) refl

module _ {H : Type 0} (crypto : Crypto) (maps : HeaderMaps H) (laws : IsCrypto crypto)
    (map_laws : IsHeaderMaps maps) (secret ephemeral_secret : Str) where
  abbrev pub keypair : ServiceKeyPair
  keypair = from_private_bytes crypto secret

  abbrev pub client : EphemeralContext
  client = begin crypto keypair.public ephemeral_secret

  -- A builder of a request to the service's public key, with a payload.
  abbrev pub addressed : List (Str × Str) → List (Str × Str) → Str → Bool → RequestBuilder
  addressed plaintext_headers encrypted_headers text encrypt_payload = record {
    ctx = client;
    plaintext_headers = plaintext_headers;
    encrypted_headers = encrypted_headers;
    payload = some text;
    encrypt_payload = encrypt_payload;
  }

  abbrev pub received : Str → Option Str → BuiltRequest H → Request H
  received subject reply built = Request.new maps subject reply built.payload (some built.headers)

  transcripts-agree :
      (builder : RequestBuilder) (subject payload : Str) (reply sealed : Option Str)
      → IsPlain builder.plaintext_headers
      → ((id : Str)
          → maps.get
              (sign_request crypto maps builder subject sealed payload).headers
              request_id_header
            ≡ some id
          → is_valid_request_id id ≡ true)
      → service_transcript crypto maps
          (received subject reply (sign_request crypto maps builder subject sealed payload))
          (sign_request crypto maps builder subject sealed payload).headers
          builder.ctx.ephemeral_pub
        ≡ client_transcript crypto maps builder subject sealed payload
  unfolding Request.new request_id_of Request.get str_eq
  transcripts-agree builder subject payload reply sealed plain valid =
      let unsigned = unsigned_headers crypto maps builder sealed in
      let signature = crypto.encode (
        compute_signature_for_transcript crypto builder.ctx.keys.signature
          (client_transcript crypto maps builder subject sealed payload)) in
      let built = maps.insert unsigned signature_header_name signature in
      let under = get-insert_other map_laws unsigned signature_header_name in
      let id : Request.valid_id maps (maps.get built request_id_header)
          ≡ maps.get unsigned request_id_header =
        valid_id-same crypto maps (maps.get built request_id_header) valid
        ∙ under request_id_header signature refl in
      let version : maps.get built client_version_header ≡ maps.get unsigned client_version_header =
        under client_version_header signature refl in
      let sealing : maps.get built encrypted_headers_name ≡ sealed =
        under encrypted_headers_name signature refl
        ∙ (unsigned_headers-get crypto maps map_laws builder sealed plain).1 in
      λ i. record {
        subject = subject;
        ephemeral_pub = builder.ctx.ephemeral_pub;
        request_id = id i;
        client_version = version i;
        encrypted_headers_value = sealing i;
        payload = payload;
      }

  prepare-signed :
      (plaintext_headers encrypted_headers : List (Str × Str)) (text : Str) (encrypt_payload : Bool)
      (subject headers_nonce payload_nonce payload : Str) (reply sealed : Option Str)
      → length headers_nonce ≡ 24
      → length payload_nonce ≡ 24
      → IsPlain plaintext_headers
      → All (λ e. is_reserved_encryption_header_name e.0 ≡ false) encrypted_headers
      → seal_headers crypto maps client encrypted_headers headers_nonce ≡ ok sealed
      → seal_payload crypto maps client (some text) encrypt_payload payload_nonce ≡ ok payload
      → let builder = addressed plaintext_headers encrypted_headers text encrypt_payload in
        let built = sign_request crypto maps builder subject sealed payload in
        ((id : Str)
          → maps.get built.headers request_id_header ≡ some id
          → is_valid_request_id id ≡ true)
        → (done : EncryptedRequest H) × (prepare crypto maps keypair
              (received subject reply built)
              encrypt_payload
            ≡ ok done)
          × ((request_view crypto maps done).payload ≡ text)
          × Perm done.overlay (collect [] encrypted_headers)
          × (done.keypair ≡ keypair)
          × (done.ephemeral_public_key ≡ client.ephemeral_pub)
  unfolding Request.new request_view with_body_and_overlay str_eq
  prepare-signed plaintext_headers encrypted_headers text encrypt_payload subject headers_nonce
        payload_nonce payload reply sealed lh lp plain free sealing paying valid =
      let builder = addressed plaintext_headers encrypted_headers text encrypt_payload in
      let built = sign_request crypto maps builder subject sealed payload in
      let request = received subject reply built in
      let unsigned = unsigned_headers crypto maps builder sealed in
      let tag =
        compute_signature_for_transcript crypto client.keys.signature
          (client_transcript crypto maps builder subject sealed payload) in
      let under = get-insert_other map_laws unsigned signature_header_name in
      let (held_key, held_headers) =
        unsigned_headers-get crypto maps map_laws builder sealed plain in
      let (overlay, opened, permuted) =
        overlay-sealed crypto maps laws map_laws secret ephemeral_secret built.headers sealed
          encrypted_headers headers_nonce lh free sealing
          (under encrypted_headers_name (crypto.encode tag) refl ∙ held_headers) in
      let (plaintext, same_key, decrypted, body) =
        payload-sealed crypto maps laws map_laws secret ephemeral_secret text payload_nonce payload
          encrypt_payload request.request_id.existing lp paying in
      (
        prepared crypto maps keypair request encrypt_payload built.headers client.ephemeral_pub tag
            plaintext overlay,
        prepare-checked crypto maps keypair request encrypt_payload built.headers
            client.ephemeral_pub tag (crypto.encode tag) overlay plaintext refl
            (decode_response_pub_key-ok crypto maps built.headers
              (crypto.encode client.ephemeral_pub) client.ephemeral_pub
              (under response_pub_key_name (crypto.encode tag) refl ∙ held_key)
              (laws.decode-encode client.ephemeral_pub)
              (client_key_length crypto maps laws map_laws secret ephemeral_secret))
            (get-insert_same map_laws unsigned signature_header_name (crypto.encode tag))
            (laws.decode-encode tag)
            (verify-compute crypto maps (derive_signature_key crypto keypair client.ephemeral_pub)
              client.keys.signature _ _
              (ap (λ keys. keys.signature) (service_keys-begin crypto secret ephemeral_secret laws))
              (transcripts-agree builder subject payload reply sealed plain valid))
            opened same_key decrypted,
        body,
        permuted,
        refl,
        refl,
      )

  -- It is prepared with the service's keys and the client's ephemeral key.
  pub prepare-keyed :
      (plaintext_headers encrypted_headers : List (Str × Str)) (text : Str) (encrypt_payload : Bool)
      (subject headers_nonce payload_nonce : Str) (reply : Option Str) (built : BuiltRequest H)
      → length headers_nonce ≡ 24
      → length payload_nonce ≡ 24
      → IsPlain plaintext_headers
      → All (λ e. is_reserved_encryption_header_name e.0 ≡ false) encrypted_headers
      → ((id : Str)
          → maps.get built.headers request_id_header ≡ some id
          → is_valid_request_id id ≡ true)
      → build_for_subject crypto maps
          (addressed plaintext_headers encrypted_headers text encrypt_payload)
          subject
          headers_nonce
          payload_nonce
        ≡ ok built
      → (done : EncryptedRequest H) × (prepare crypto maps keypair
            (received subject reply built)
            encrypt_payload
          ≡ ok done)
        × ((request_view crypto maps done).payload ≡ text)
        × Perm done.overlay (collect [] encrypted_headers)
        × (done.keypair ≡ keypair)
        × (done.ephemeral_public_key ≡ client.ephemeral_pub)
  prepare-keyed plaintext_headers encrypted_headers text encrypt_payload subject headers_nonce
        payload_nonce reply built lh lp plain free valid e =
      let builder = addressed plaintext_headers encrypted_headers text encrypt_payload in
      let (sealed, payload, sealing, paying, same) =
        build_for_subject-ok crypto maps map_laws builder subject headers_nonce payload_nonce built
          e in
      rw same (
        prepare-signed plaintext_headers encrypted_headers text encrypt_payload subject
          headers_nonce payload_nonce payload reply sealed lh lp plain free sealing paying
          (rw same at valid))

  -- A request that the builder built for the service's public key and a subject is prepared by the
  -- service when it arrives on that subject, whatever secret and nonces the client drew, payload
  -- encrypted or not: the handler sees the client's payload, and as decrypted headers the entries
  -- that the client encrypted. It needs that the client's plain headers leave the key and the
  -- encrypted headers alone, that none of its encrypted headers is reserved, and that a request id
  -- among the headers is one that the service takes over.
  pub prepare-build_for_subject :
      (plaintext_headers encrypted_headers : List (Str × Str)) (text : Str) (encrypt_payload : Bool)
      (subject headers_nonce payload_nonce : Str) (reply : Option Str) (built : BuiltRequest H)
      → length headers_nonce ≡ 24
      → length payload_nonce ≡ 24
      → IsPlain plaintext_headers
      → All (λ e. is_reserved_encryption_header_name e.0 ≡ false) encrypted_headers
      → ((id : Str)
          → maps.get built.headers request_id_header ≡ some id
          → is_valid_request_id id ≡ true)
      → build_for_subject crypto maps
          (addressed plaintext_headers encrypted_headers text encrypt_payload)
          subject
          headers_nonce
          payload_nonce
        ≡ ok built
      → (done : EncryptedRequest H) × (prepare crypto maps keypair
            (received subject reply built)
            encrypt_payload
          ≡ ok done)
        × ((request_view crypto maps done).payload ≡ text)
        × Perm done.overlay (collect [] encrypted_headers)
  prepare-build_for_subject plaintext_headers encrypted_headers text encrypt_payload subject
        headers_nonce payload_nonce reply built lh lp plain free valid e =
      let (done, ready, body, permuted, same, key) =
        prepare-keyed plaintext_headers encrypted_headers text encrypt_payload subject headers_nonce
          payload_nonce reply built lh lp plain free valid e in
      (done, ready, body, permuted)
