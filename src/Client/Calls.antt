-- ===== src/Client/Calls.antt =====
-- nats-micro/src/client/v2.rs: the calls of a generated client, plain and encrypted. A transport, a
-- decoder and the text of an encryption error are parameters; the secret and the nonces that an
-- encrypted call draws are arguments.
pub mod Building
pub mod Headers
pub mod Sealed
pub mod Token
use nats_micro.Client.Failures.{
  serialization_reply, transport_client_error, missing_recipient, encryption_serialize_error,
  encryption_decrypt_error, required_recipient,
}
use nats_micro.Prelude.{
  ℕ, Bool, true, false, not, ◌&&◌, List, [], ◌∷◌, ◌++◌, Option, some, none, Str, bytes,
  if◌then◌else◌, Result, ok, err, ◌>>=◌, ◌>>◌, ensure,
}
use nats_micro.Headers.{HeaderMaps}
use nats_micro.Errors.Framework.{FrameworkError}
use nats_micro.Errors.Framework
use nats_micro.Errors.Transport.{TransportError}
use nats_micro.Errors.Response.{
  NatsErrorResponse, ClientError, client_transport, framework, transport,
}
use nats_micro.Errors.Response
use nats_micro.Response.{ErrorReply, unwrap_or_default}
use nats_micro.Encryption.Crypto.{Crypto}
use nats_micro.Encryption.Envelope.{EncryptionError, begin, decrypt_response}
use nats_micro.Encryption.Headers.{is_reserved_encryption_header_name}
use nats_micro.Encryption.Builder.{
  RequestBuilder, BuiltRequest, request_builder, plain_payload, encrypted_payload, try_header,
  try_encrypted_header, build_for_subject,
}
use nats_micro.Client.{
  Subject, as_str, ClientRequest, ClientResponse, ClientTransport, HeaderEntries, merge_headers,
  map_err,
}
use nats_micro.Client.Decoding.{map_ok, names_error}

-- Why a header is refused; its message has the name of the header and the reason.
pub data HeaderFault : Type 0 where
  invalid_name invalid_value reserved_name : HeaderFault

pub record ClientBuildError : Type 0 where
  pub name : Str
  pub fault : HeaderFault

pub record RequestCall (H : Type 0) : Type 0 where
  pub subject : Subject
  pub payload : Result ErrorReply Str
  pub default_headers : Option H
  pub headers : Option H
  pub timeout : Option ℕ

pub record PublishCall (H : Type 0) : Type 0 where
  pub subject : Subject
  pub payload : Result ErrorReply Str
  pub default_headers : Option H
  pub headers : Option H

-- `recipient` is the public key of the service.
pub record EncryptedRequestCall (H : Type 0) : Type 0 where
  pub recipient : Option Str
  pub subject : Subject
  pub payload : Result ErrorReply Str
  pub default_headers : Option H
  pub headers : Option H
  pub encrypted_headers : List (Str × Str)
  pub timeout : Option ℕ
  pub encrypt_payload : Bool
  pub decrypt_response : Bool

pub record EncryptedPublishCall (H : Type 0) : Type 0 where
  pub recipient : Option Str
  pub subject : Subject
  pub payload : Result ErrorReply Str
  pub default_headers : Option H
  pub headers : Option H
  pub encrypted_headers : List (Str × Str)
  pub encrypt_payload : Bool

-- What an encrypted call draws at random.
pub record Draws : Type 0 where
  pub ephemeral_secret : Str
  pub headers_nonce : Str
  pub payload_nonce : Str

module _ {H : Type 0} (maps : HeaderMaps H) where
  abbrev pub get_or_new : Option H → H
  get_or_new none = maps.new
  get_or_new (some headers) = headers

  unfoldable pub validate_header : Str → Str → Result ClientBuildError (Unit {0})
  validate_header name value = do
    ensure (maps.is_name name) (record { name = name; fault = invalid_name })
    ensure (maps.is_value value) (record { name = name; fault = invalid_value })
    ok tt

  unfoldable pub insert_header : Option H → Str → Str → Result ClientBuildError H
  unfolding validate_header
  insert_header headers name value = do
    validate_header name value
    ok (maps.insert (get_or_new headers) name value)

  unfoldable pub encrypted_header :
      EncryptedRequestCall H → Str → Str → Result ClientBuildError (EncryptedRequestCall H)
  unfolding validate_header is_reserved_encryption_header_name
  encrypted_header call name value = do
    validate_header name value
    ensure (not (is_reserved_encryption_header_name name))
        (record { name = name; fault = reserved_name })
    ok (record call { encrypted_headers = call.encrypted_headers ++ (name, value) ∷ [] })

  unfoldable pub bearer_token :
      EncryptedRequestCall H → Str → Result ClientBuildError (EncryptedRequestCall H)
  unfolding encrypted_header
  bearer_token call token = encrypted_header call (bytes "authorization") (bytes "Bearer " ++ token)

-- `Result::map_err`, and the transports and decoders of a call.
module _ {H Value R E : Type 0} (maps : HeaderMaps H) (values : HeaderEntries H)
    (network : ClientTransport H) (decode : ClientResponse H → Result (ClientError Value E) R) where
  unfoldable pub send : RequestCall H → Result (ClientError Value E) R
  unfolding serialization_reply transport_client_error
  send call = do
    payload ← map_err serialization_reply call.payload
    response ← map_err transport_client_error (
        network.request (record {
          subject = call.subject;
          payload = payload;
          headers = merge_headers maps values call.default_headers call.headers;
          timeout = call.timeout;
        }))
    decode response

module _ {H Value E : Type 0} (maps : HeaderMaps H) (values : HeaderEntries H)
    (network : ClientTransport H) where
  unfoldable pub send_publish : PublishCall H → Result (ClientError Value E) (Unit {0})
  unfolding serialization_reply transport_client_error
  send_publish call = do
    payload ← map_err serialization_reply call.payload
    map_err transport_client_error (
        network.publish call.subject payload
          (merge_headers maps values call.default_headers call.headers))

module _ {H : Type 0} (crypto : Crypto) (maps : HeaderMaps H) (values : HeaderEntries H) where
  -- The values of one name, and of all.
  abbrev pub add_values : RequestBuilder → Str → List Str → Result EncryptionError RequestBuilder
  add_values builder name [] = ok builder
  add_values builder name (value ∷ rest) = do
    added ← try_header crypto maps builder name value
    add_values added name rest

  abbrev pub add_entries :
      RequestBuilder → List (Str × List Str) → Result EncryptionError RequestBuilder
  add_entries builder [] = ok builder
  add_entries builder ((name, given) ∷ entries) = do
    added ← add_values builder name given
    add_entries added entries

  unfoldable pub add_plain_headers : RequestBuilder → H → Result EncryptionError RequestBuilder
  unfolding try_header
  add_plain_headers builder headers = add_entries builder (values.entries headers)

  abbrev pub add_optional : RequestBuilder → Option H → Result EncryptionError RequestBuilder
  add_optional builder none = ok builder
  add_optional builder (some headers) = add_plain_headers builder headers

  abbrev pub add_encrypted_headers :
      RequestBuilder → List (Str × Str) → Result EncryptionError RequestBuilder
  add_encrypted_headers builder [] = ok builder
  add_encrypted_headers builder ((name, value) ∷ entries) = do
    added ← try_encrypted_header crypto maps builder name value
    add_encrypted_headers added entries

  abbrev pub with_payload : RequestBuilder → Bool → Str → RequestBuilder
  with_payload builder encrypt_payload payload =
      if encrypt_payload then encrypted_payload builder payload else plain_payload builder payload

  -- What both encrypted calls do between their payload and the transport.
  unfoldable pub build_call :
      Str
      → Str
      → Bool
      → Option H
      → List (Str × Str)
      → Subject
      → Draws
      → Result EncryptionError (BuiltRequest H)
  unfolding as_str request_builder begin encrypted_payload plain_payload add_plain_headers
      try_encrypted_header build_for_subject
  build_call recipient payload encrypt_payload headers encrypted_headers subject draws = do
    let builder = request_builder (begin crypto recipient draws.ephemeral_secret)
    plain ← add_optional (with_payload builder encrypt_payload payload) headers
    sealed ← add_encrypted_headers plain encrypted_headers
    build_for_subject crypto maps sealed (as_str subject) draws.headers_nonce draws.payload_nonce

module _ {H Value E : Type 0} (crypto : Crypto) (maps : HeaderMaps H)
    (to_string : EncryptionError → Str) where
  -- The answer, opened if the call asks for that and the service reports no error.
  abbrev pub opened :
      EncryptedRequestCall H
      → BuiltRequest H
      → ClientResponse H
      → Result (ClientError Value E) (ClientResponse H)
  opened call built response =
      if call.decrypt_response && not (names_error maps response.headers)
      then map_ok (λ text. record response { payload = text })
          (map_err (encryption_decrypt_error to_string)
            (decrypt_response crypto built.context response.payload))
      else ok response

module _ {H Value R E : Type 0} (crypto : Crypto) (maps : HeaderMaps H) (values : HeaderEntries H)
    (to_string : EncryptionError → Str) (network : ClientTransport H)
    (decode : ClientResponse H → Result (ClientError Value E) R) where
  unfoldable pub send_encrypted : EncryptedRequestCall H → Draws → Result (ClientError Value E) R
  unfolding missing_recipient serialization_reply encryption_serialize_error transport_client_error
      encryption_decrypt_error build_call decrypt_response
  send_encrypted call draws = do
    recipient ← required_recipient call.recipient
    payload ← map_err serialization_reply call.payload
    built ← map_err (encryption_serialize_error to_string) (
        build_call crypto maps values recipient payload call.encrypt_payload
          (merge_headers maps values call.default_headers call.headers) call.encrypted_headers
          call.subject draws)
    response ← map_err transport_client_error (
        network.request (record {
          subject = call.subject;
          payload = built.payload;
          headers = some built.headers;
          timeout = call.timeout;
        }))
    final ← opened crypto maps to_string call built response
    decode final

module _ {H Value E : Type 0} (crypto : Crypto) (maps : HeaderMaps H) (values : HeaderEntries H)
    (to_string : EncryptionError → Str) (network : ClientTransport H) where
  unfoldable pub send_encrypted_publish :
      EncryptedPublishCall H → Draws → Result (ClientError Value E) (Unit {0})
  unfolding missing_recipient serialization_reply encryption_serialize_error transport_client_error
      build_call
  send_encrypted_publish call draws = do
    recipient ← required_recipient call.recipient
    payload ← map_err serialization_reply call.payload
    built ← map_err (encryption_serialize_error to_string) (
        build_call crypto maps values recipient payload call.encrypt_payload
          (merge_headers maps values call.default_headers call.headers) call.encrypted_headers
          call.subject draws)
    map_err transport_client_error (network.publish call.subject built.payload (some built.headers))
