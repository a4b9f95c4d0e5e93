-- ===== src/Client/Calls/Sealed.antt =====
-- An encrypted call to an encrypted operation.
use nats_micro.Prelude.{
  if◌then◌else◌, Bool, true, false, List, Option, some, Str, ◌≡◌, refl, ap, length, Bool-cases,
  Result, ok, err, inl, inr, ◌>>=◌, ℕ,
}
use mathlib.Core.List.{[], Perm}
use nats_micro.Headers.{HeaderMaps, IsHeaderMaps}
use nats_micro.Errors.Response.{ClientError}
use nats_micro.Request
use nats_micro.Request.{Request, is_valid_request_id, request_id_header}
use nats_micro.Response.{
  service_error_headers, Response, empty, payload, with_headers, ErrorReply, Writers,
  process_request,
}
use nats_micro.Response.Wire.{service_error_headers-get}
use nats_micro.Encryption.Crypto.{Crypto, IsCrypto}
use nats_micro.Encryption.Envelope.{
  EphemeralContext, ServiceKeyPair, EncryptionError, from_private_bytes, begin, encrypt_response,
  decrypt_response,
}
use nats_micro.Encryption.Envelope.RoundTrip.{decrypt_response-encrypt_response}
use nats_micro.Encryption.Builder.{BuiltRequest, collect}
use nats_micro.Encryption.Builder.Built.{build_for_subject-ok, IsPlain}
use nats_micro.Encryption.Prepare.{
  seal_response, EncryptedRequest, Rejection, request_view, encrypt_reply,
}
use nats_micro.Encryption.EndToEnd.{prepare-keyed, addressed}
use nats_micro.Macros.Dispatch.{call}
use nats_micro.Client.{
  Subject, as_str, ClientResponse, ClientTransport, HeaderEntries, merge_headers, map_err,
}
use nats_micro.Client.Decoding.{names_error}
use nats_micro.Client.Decoding.Answers.{answered}
use nats_micro.Client.Calls.{
  build_for_subject, RequestBuilder, EncryptedRequestCall, Draws, build_call, send_encrypted,
  opened,
}
use nats_micro.Client.Calls.Building.{build_call-ok, plain_of}

-- A response of the handler that is no error does not name one in its headers.
abbrev pub IsSilent : {H : Type 0} → HeaderMaps H → Result ErrorReply (Response H) → Type 0
IsSilent maps (err error) = Unit
IsSilent maps (ok empty) = Unit
IsSilent maps (ok (payload text)) = Unit
IsSilent maps (ok (with_headers text headers)) = names_error maps (some headers) ≡ false

-- The service's cipher takes every response.
abbrev pub Seals : Crypto → ServiceKeyPair → Str → Str → Type 0
Seals crypto keypair nonce key =
    (plaintext : Str)
    → (envelope : Str) × (encrypt_response crypto keypair nonce plaintext key ≡ ok envelope)

module _ {H Value R E : Type 0} (crypto : Crypto) (maps : HeaderMaps H) (values : HeaderEntries H)
    (writers : Writers Value) (to_string : EncryptionError → Str) (refuse : Rejection → ErrorReply)
    (decode : ClientResponse H → Result (ClientError Value E) R) (secret : Str) where
  -- A call to the service of this secret.
  abbrev pub call_to :
      Subject
      → Str
      → Option H
      → Option H
      → List (Str × Str)
      → Option ℕ
      → Bool
      → Bool
      → EncryptedRequestCall H
  call_to subject text defaults headers encrypted_headers timeout encrypt_payload decrypt = record {
    recipient = some (from_private_bytes crypto secret).public;
    subject = subject;
    payload = ok text;
    default_headers = defaults;
    headers = headers;
    encrypted_headers = encrypted_headers;
    timeout = timeout;
    encrypt_payload = encrypt_payload;
    decrypt_response = decrypt;
  }

  -- A transport to the service, whose operation has this body; every request has a reply subject.
  unfoldable pub service :
      Bool
      → Bool
      → (Request H → Result ErrorReply (Response H))
      → Option Str
      → Str
      → ClientTransport H
  unfolding call process_request Request.new as_str
  service request_encrypted response_encrypted body reply nonce = record {
    request = λ r. ok (
        answered maps writers (
          call crypto maps refuse request_encrypted response_encrypted body
            (from_private_bytes crypto secret) nonce
            (Request.new maps (as_str r.subject) reply r.payload r.headers)));
    publish = λ subject text headers. ok tt;
  }

  abbrev pub client_of : Str → EphemeralContext
  client_of ephemeral_secret =
      begin crypto (from_private_bytes crypto secret).public ephemeral_secret

  -- What is answered for a body's result.
  abbrev pub sealed :
      Bool → EncryptedRequest H → Str → Result ErrorReply (Response H) → ClientResponse H
  sealed decrypt done nonce result = answered maps writers (
      result >>= λ response.
      if decrypt
      then map_err refuse (encrypt_reply crypto maps done nonce response)
      else ok response)

  -- The text of a response that is sealed for the client is opened by it.
  seal_response-opened :
      (ephemeral_secret nonce text : Str) (done : EncryptedRequest H)
      → IsCrypto crypto
      → length nonce ≡ 24
      → done.keypair ≡ from_private_bytes crypto secret
      → done.ephemeral_public_key ≡ (client_of ephemeral_secret).ephemeral_pub
      → Seals crypto
          (from_private_bytes crypto secret)
          nonce
          (client_of ephemeral_secret).ephemeral_pub
      → (envelope : Str) × (seal_response crypto maps done nonce text ≡ ok envelope)
        × (decrypt_response crypto (client_of ephemeral_secret) envelope ≡ ok text)
  unfolding seal_response
  seal_response-opened ephemeral_secret nonce text done laws ln same key seals =
      let (envelope, e) = seals text in
      (
        envelope,
        rw (same, key, e) refl,
        decrypt_response-encrypt_response crypto secret ephemeral_secret nonce text envelope laws ln
            e,
      )

  -- What the service seals, the client opens; an error is neither sealed nor opened.
  names_error-error :
      (error : ErrorReply)
      → IsHeaderMaps maps
      → names_error maps (some (service_error_headers maps writers error)) ≡ true
  names_error-error error map_laws =
      let (message, code, kind, format, id) =
        service_error_headers-get maps writers error map_laws in
      rw code refl

  built-context :
      (builder : RequestBuilder) (subject headers_nonce payload_nonce : Str)
      (built : BuiltRequest H)
      → IsHeaderMaps maps
      → build_for_subject crypto maps builder subject headers_nonce payload_nonce ≡ ok built
      → built.context ≡ builder.ctx
  built-context builder subject headers_nonce payload_nonce built map_laws e =
      let (headers, text, sealing, paying, same) =
        build_for_subject-ok crypto maps map_laws builder subject headers_nonce payload_nonce built
          e in
      ap (λ b. b.context) same

  opened-sealed :
      (request : EncryptedRequestCall H) (built : BuiltRequest H) (ephemeral_secret nonce : Str)
      (done : EncryptedRequest H) (result : Result ErrorReply (Response H))
      → IsCrypto crypto
      → IsHeaderMaps maps
      → length nonce ≡ 24
      → done.keypair ≡ from_private_bytes crypto secret
      → done.ephemeral_public_key ≡ (client_of ephemeral_secret).ephemeral_pub
      → built.context ≡ client_of ephemeral_secret
      → Seals crypto
          (from_private_bytes crypto secret)
          nonce
          (client_of ephemeral_secret).ephemeral_pub
      → IsSilent maps result
      → opened {Value = Value} {E = E} crypto maps to_string request built
          (sealed request.decrypt_response done nonce result)
        ≡ ok (answered maps writers result)
  unfolding process_request encrypt_reply
  opened-sealed request built ephemeral_secret nonce done (err error) laws map_laws ln same key
        context seals silent =
      let names = names_error-error error map_laws in
      elim (Bool-cases request.decrypt_response) [
        | inl asked ↦ rw (asked, names) refl
        | inr plain ↦ rw plain refl
      ]
  opened-sealed request built ephemeral_secret nonce done (ok empty) laws map_laws ln same key
        context seals silent =
      let (envelope, e, o) =
        seal_response-opened ephemeral_secret nonce [] done laws ln same key seals in
      elim (Bool-cases request.decrypt_response) [
        | inl asked ↦ rw (asked, e, context, o) refl
        | inr plain ↦ rw plain refl
      ]
  opened-sealed request built ephemeral_secret nonce done (ok (payload text)) laws map_laws ln same
        key context seals silent =
      let (envelope, e, o) =
        seal_response-opened ephemeral_secret nonce text done laws ln same key seals in
      elim (Bool-cases request.decrypt_response) [
        | inl asked ↦ rw (asked, e, context, o) refl
        | inr plain ↦ rw plain refl
      ]
  opened-sealed request built ephemeral_secret nonce done (ok (with_headers text headers)) laws
        map_laws ln same key context seals silent =
      let (envelope, e, o) =
        seal_response-opened ephemeral_secret nonce text done laws ln same key seals in
      elim (Bool-cases request.decrypt_response) [
        | inl asked ↦ rw (asked, e, silent, context, o) refl
        | inr plain ↦ rw plain refl
      ]

  -- A generated client's encrypted call to a service's encrypted operation returns what the decoder
  -- makes of the handler's own answer, as a plain operation would send it: the service accepts the
  -- request, the handler sees the client's text and the headers that the client encrypted, and
  -- neither the sealing of the request nor that of the response changes the result. The call and
  -- the operation agree on what is encrypted; the call was built; the nonces have 24 bytes; the
  -- plain headers leave the two of the encryption alone, and a request id among them is valid; the
  -- service's cipher takes the response, and a response that is no error does not name one.
  pub send_encrypted-call :
      (subject : Subject) (text : Str) (defaults headers : Option H)
      (encrypted_headers : List (Str × Str)) (timeout : Option ℕ) (encrypt_payload decrypt : Bool)
      (draws : Draws) (built : BuiltRequest H) (body : Request H → Result ErrorReply (Response H))
      (reply : Option Str) (nonce : Str)
      → IsCrypto crypto
      → IsHeaderMaps maps
      → length draws.headers_nonce ≡ 24
      → length draws.payload_nonce ≡ 24
      → length nonce ≡ 24
      → IsPlain (plain_of crypto maps values (merge_headers maps values defaults headers))
      → ((id : Str)
          → maps.get built.headers request_id_header ≡ some id
          → is_valid_request_id id ≡ true)
      → build_call crypto maps values
          (from_private_bytes crypto secret).public
          text
          encrypt_payload
          (merge_headers maps values defaults headers)
          encrypted_headers
          subject
          draws
        ≡ ok built
      → Seals crypto
          (from_private_bytes crypto secret)
          nonce
          (client_of draws.ephemeral_secret).ephemeral_pub
      → ((view : Request H) → IsSilent maps (body view))
      → (done : EncryptedRequest H) × ((request_view crypto maps done).payload ≡ text)
        × Perm done.overlay (collect [] encrypted_headers)
        × (send_encrypted crypto maps values to_string
              (service encrypt_payload decrypt body reply nonce)
              decode
              (call_to subject text defaults headers encrypted_headers timeout encrypt_payload
                decrypt)
              draws
            ≡ decode (answered maps writers (body (request_view crypto maps done))))
  unfolding send_encrypted service call
  send_encrypted-call subject text defaults headers encrypted_headers timeout encrypt_payload
        decrypt draws built body reply nonce laws map_laws lh lp ln plain valid building seals
        silent =
      let asked =
        call_to subject text defaults headers encrypted_headers timeout encrypt_payload decrypt in
      let (signed, free) =
        build_call-ok crypto maps values (from_private_bytes crypto secret).public text
          encrypt_payload (merge_headers maps values defaults headers) encrypted_headers subject
          draws built building in
      let (done, ready, seen, permuted, same, key) =
        prepare-keyed crypto maps laws map_laws secret draws.ephemeral_secret
          (plain_of crypto maps values (merge_headers maps values defaults headers))
          encrypted_headers text encrypt_payload (as_str subject) draws.headers_nonce
          draws.payload_nonce reply built lh lp plain free valid signed in
      let opens =
        opened-sealed asked built draws.ephemeral_secret nonce done
          (body (request_view crypto maps done)) laws map_laws ln same key
          (built-context
            (addressed crypto maps laws map_laws secret draws.ephemeral_secret
              (plain_of crypto maps values (merge_headers maps values defaults headers))
              encrypted_headers text encrypt_payload)
            (as_str subject) draws.headers_nonce draws.payload_nonce built map_laws signed)
          seals (silent (request_view crypto maps done)) in
      (done, seen, permuted, rw (building, ready, opens) refl)
