-- ===== src/Client/Failures.antt =====
-- nats-micro/src/client/v2.rs: the errors that a call returns before a service has answered.
use nats_micro.Prelude.{Option, some, none, Str, bytes, Result, ok, err}
use nats_micro.Errors.Framework.{FrameworkError}
use nats_micro.Errors.Transport.{TransportError}
use nats_micro.Errors.Response.{
  NatsErrorResponse, ClientError, client_transport, framework, transport,
}
use nats_micro.Errors.Response
use nats_micro.Response.{ErrorReply, unwrap_or_default}
use nats_micro.Encryption.Envelope.{EncryptionError}

module _ {Value E : Type 0} where
  unfoldable pub serialization_reply : ErrorReply → ClientError Value E
  serialization_reply error = client_transport (
      Response.serialize
        (Response.new error.code error.kind error.message (unwrap_or_default error.request_id)))

  unfoldable pub transport_client_error : TransportError → ClientError Value E
  unfolding transport
  transport_client_error error =
      client_transport
        (Response.request (transport error (bytes "NATS client transport operation failed")))

  unfoldable pub missing_recipient : ClientError Value E
  unfolding framework
  missing_recipient = client_transport (
      Response.serialize (
        framework FrameworkError.missing_recipient_pubkey
          (bytes "encrypted operation requires a service recipient public key")))

  unfoldable pub encryption_serialize_error :
      (EncryptionError → Str) → EncryptionError → ClientError Value E
  unfolding framework
  encryption_serialize_error to_string error =
      client_transport
        (Response.serialize (framework FrameworkError.serialization_error (to_string error)))

  unfoldable pub encryption_decrypt_error :
      (EncryptionError → Str) → EncryptionError → ClientError Value E
  unfolding framework
  encryption_decrypt_error to_string error =
      client_transport
        (Response.decrypt (framework FrameworkError.decrypt_failed (to_string error)))

  abbrev pub required_recipient : Option Str → Result (ClientError Value E) Str
  required_recipient none = err missing_recipient
  required_recipient (some recipient) = ok recipient
