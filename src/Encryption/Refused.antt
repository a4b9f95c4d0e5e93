-- ===== src/Encryption/Refused.antt =====
-- An encrypted request whose identifier differs between the signature and the headers.
use nats_micro.Encryption.Envelope.RoundTrip.{service_keys-begin, begin-ephemeral_pub}
use nats_micro.Encryption.Prepare.Authentic.{prepare-IsAuthentic}
use nats_micro.Encryption.Prepare.Steps.{decode_response_pub_key-ok}
use nats_micro.Encryption.Headers.{
  response_pub_key_name, signature_header_name, decode_response_pub_key,
}
use nats_micro.Encryption.Prepare.{prepare, EncryptedRequest, service_transcript}
use nats_micro.Encryption.Transcript.Injectivity.{update_signature_mac-injective, IsSized}
use nats_micro.Encryption.Builder.Built.{unsigned_headers-get, IsPlain}
use nats_micro.Encryption.Transcript.{
  compute_signature_for_transcript, SignatureTranscript, update_signature_mac,
}
use nats_micro.Encryption.Builder.{
  unsigned_headers, client_transcript, sign_request, RequestBuilder,
}
use nats_micro.Encryption.Envelope.{derive_signature_key, begin, from_private_bytes, ServiceKeyPair}
use nats_micro.Prelude.{
  Bool, false, [], Option, some, none, Str, str_eq, ◌≡◌, ◌≢◌, refl, ◌∙◌, ok, arith, ap, sym, length,
}
use nats_micro.Headers.{HeaderMaps, IsHeaderMaps, get-insert_same, get-insert_other}
use nats_micro.Request
use nats_micro.Request.{Request, is_valid_request_id, request_id_header, request_id_of}
use nats_micro.Encryption.Crypto.{Crypto, IsCrypto}

module _ {H : Type 0} (crypto : Crypto) (maps : HeaderMaps H) (laws : IsCrypto crypto)
    (map_laws : IsHeaderMaps maps) (secret ephemeral_secret : Str) where
  abbrev service : ServiceKeyPair
  service = from_private_bytes crypto secret

  -- What the client signed, and what the service takes for signed.
  abbrev pub sent_bytes : RequestBuilder → Str → Option Str → Str → Str
  sent_bytes builder subject sealed payload =
      update_signature_mac (client_transcript crypto maps builder subject sealed payload)

  abbrev pub arrived : RequestBuilder → Str → Option Str → Str → Option Str → Request H
  arrived builder subject sealed payload reply =
      Request.new maps subject reply payload
        (some (sign_request crypto maps builder subject sealed payload).headers)

  abbrev pub taken : RequestBuilder → Str → Option Str → Str → Option Str → SignatureTranscript
  taken builder subject sealed payload reply =
      service_transcript crypto maps (arrived builder subject sealed payload reply)
        (sign_request crypto maps builder subject sealed payload).headers builder.ctx.ephemeral_pub

  key-received :
      (builder : RequestBuilder) (subject payload key : Str) (sealed : Option Str)
      → IsPlain builder.plaintext_headers
      → length builder.ctx.ephemeral_pub ≡ 32
      → decode_response_pub_key crypto maps
          (sign_request crypto maps builder subject sealed payload).headers
        ≡ ok (some key)
      → key ≡ builder.ctx.ephemeral_pub
  unfolding str_eq
  key-received builder subject payload key sealed plain size e =
      let unsigned = unsigned_headers crypto maps builder sealed in
      let tag = crypto.encode (
        compute_signature_for_transcript crypto builder.ctx.keys.signature
          (client_transcript crypto maps builder subject sealed payload)) in
      let expected =
        decode_response_pub_key-ok crypto maps (maps.insert unsigned signature_header_name tag)
          (crypto.encode builder.ctx.ephemeral_pub) builder.ctx.ephemeral_pub
          (get-insert_other map_laws unsigned signature_header_name response_pub_key_name tag refl
            ∙ (unsigned_headers-get crypto maps map_laws builder sealed plain).0)
          (laws.decode-encode builder.ctx.ephemeral_pub) size in
      ground (arith, e, expected)

  -- The two sides sign different bytes, unless the identifier is empty.
  id_matters :
      (builder : RequestBuilder) (subject payload id : Str) (sealed reply : Option Str)
      → IsSized (client_transcript crypto maps builder subject sealed payload)
      → IsSized (taken builder subject sealed payload reply)
      → maps.get (sign_request crypto maps builder subject sealed payload).headers request_id_header
        ≡ some id
      → is_valid_request_id id ≡ false
      → id ≢ []
      → update_signature_mac (taken builder subject sealed payload reply)
        ≢ sent_bytes builder subject sealed payload
  unfolding Request.new request_id_of Request.get str_eq
  id_matters builder subject payload id sealed reply client_sized service_sized held invalid filled
        e =
      let alike =
        update_signature_mac-injective (taken builder subject sealed payload reply)
          (client_transcript crypto maps builder subject sealed payload) service_sized client_sized
          e in
      let unsigned = unsigned_headers crypto maps builder sealed in
      let tag = crypto.encode (
        compute_signature_for_transcript crypto builder.ctx.keys.signature
          (client_transcript crypto maps builder subject sealed payload)) in
      let sent : maps.get unsigned request_id_header ≡ some id =
        sym (get-insert_other map_laws unsigned signature_header_name request_id_header tag refl)
        ∙ held in
      let nothing : Request.valid_id maps (some id) ≡ none = rw invalid refl in
      filled (sym (rw (held, nothing, sent) at alike.request_id))

  -- A request that the builder signed with an identifier in its headers that is not empty and that
  -- the service does not take over, such as one with a space, is never prepared, though the key is
  -- right and nothing was changed on the way: the service verifies the signature without the
  -- identifier. It is assumed that the tags of the two different signed texts differ.
  pub prepare-refuses_id :
      (builder : RequestBuilder) (subject payload id : Str) (sealed reply : Option Str)
      (decrypt_payload : Bool) (done : EncryptedRequest H)
      → builder.ctx ≡ begin crypto service.public ephemeral_secret
      → IsPlain builder.plaintext_headers
      → IsSized (client_transcript crypto maps builder subject sealed payload)
      → IsSized (taken builder subject sealed payload reply)
      → (crypto.hmac builder.ctx.keys.signature
              (update_signature_mac (taken builder subject sealed payload reply))
            ≡ crypto.hmac builder.ctx.keys.signature (sent_bytes builder subject sealed payload)
          → update_signature_mac (taken builder subject sealed payload reply)
            ≡ sent_bytes builder subject sealed payload)
      → maps.get (sign_request crypto maps builder subject sealed payload).headers request_id_header
        ≡ some id
      → is_valid_request_id id ≡ false
      → id ≢ []
      → prepare crypto maps service (arrived builder subject sealed payload reply) decrypt_payload
        ≢ ok done
  unfolding Request.new compute_signature_for_transcript
  prepare-refuses_id builder subject payload id sealed reply decrypt_payload done ctx plain
        client_sized service_sized differ held invalid filled e =
      let (authentic, same) =
        prepare-IsAuthentic crypto maps service (arrived builder subject sealed payload reply)
          decrypt_payload done e in
      let sent = (sign_request crypto maps builder subject sealed payload).headers in
      let unsigned = unsigned_headers crypto maps builder sealed in
      let tag =
        crypto.hmac builder.ctx.keys.signature (sent_bytes builder subject sealed payload) in
      let headers : authentic.headers ≡ sent = ground (arith, authentic.inner) in
      let size : length builder.ctx.ephemeral_pub ≡ 32 =
        rw (ctx, begin-ephemeral_pub crypto service.public ephemeral_secret)
          (laws.public_length ephemeral_secret) in
      let key : done.ephemeral_public_key ≡ builder.ctx.ephemeral_pub =
        key-received builder subject payload done.ephemeral_public_key sealed plain size
          (rw headers at authentic.key) in
      let value : authentic.value ≡ crypto.encode tag = ground (
        arith,
        rw headers at authentic.held,
        get-insert_same map_laws unsigned signature_header_name (crypto.encode tag),
      ) in
      let tags = sym (rw value at authentic.tag) ∙ laws.decode-encode tag in
      let keys : derive_signature_key crypto service builder.ctx.ephemeral_pub
          ≡ builder.ctx.keys.signature =
        rw ctx
          (ap (λ keys. keys.signature) (service_keys-begin crypto secret ephemeral_secret laws)) in
      id_matters builder subject payload id sealed reply client_sized service_sized held invalid
        filled (differ (ground (arith, rw (headers, same, key, keys) at tags)))
