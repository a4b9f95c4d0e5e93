-- ===== src/Client/Calls/Headers.antt =====
-- nats-micro/src/client/v2.rs: the methods with which a caller sets the headers and the timeout of a
-- call before it is sent.
use nats_micro.Prelude.{ℕ, not, [], ◌∷◌, ◌++◌, some, Str, Result, ok, ◌>>=◌, ◌>>◌, ensure}
use nats_micro.Headers.{HeaderMaps}
use nats_micro.Encryption.Headers.{is_reserved_encryption_header_name}
use nats_micro.Client.Calls.{
  RequestCall, PublishCall, EncryptedRequestCall, EncryptedPublishCall, ClientBuildError,
  reserved_name, insert_header, validate_header,
}

module _ {H : Type 0} (maps : HeaderMaps H) where
  unfoldable pub request_header :
      RequestCall H → Str → Str → Result ClientBuildError (RequestCall H)
  unfolding insert_header
  request_header call name value = do
    headers ← insert_header maps call.headers name value
    ok (record call { headers = some headers })

  unfoldable pub publish_header :
      PublishCall H → Str → Str → Result ClientBuildError (PublishCall H)
  unfolding insert_header
  publish_header call name value = do
    headers ← insert_header maps call.headers name value
    ok (record call { headers = some headers })

  unfoldable pub encrypted_request_header :
      EncryptedRequestCall H → Str → Str → Result ClientBuildError (EncryptedRequestCall H)
  unfolding insert_header
  encrypted_request_header call name value = do
    headers ← insert_header maps call.headers name value
    ok (record call { headers = some headers })

  unfoldable pub encrypted_publish_header :
      EncryptedPublishCall H → Str → Str → Result ClientBuildError (EncryptedPublishCall H)
  unfolding insert_header
  encrypted_publish_header call name value = do
    headers ← insert_header maps call.headers name value
    ok (record call { headers = some headers })

  unfoldable pub publish_encrypted_header :
      EncryptedPublishCall H → Str → Str → Result ClientBuildError (EncryptedPublishCall H)
  unfolding validate_header is_reserved_encryption_header_name
  publish_encrypted_header call name value = do
    validate_header maps name value
    ensure (not (is_reserved_encryption_header_name name))
        (record { name = name; fault = reserved_name })
    ok (record call { encrypted_headers = call.encrypted_headers ++ (name, value) ∷ [] })

module _ {H : Type 0} where
  unfoldable pub request_timeout : RequestCall H → ℕ → RequestCall H
  request_timeout call timeout = record call { timeout = some timeout }

  unfoldable pub encrypted_request_timeout : EncryptedRequestCall H → ℕ → EncryptedRequestCall H
  encrypted_request_timeout call timeout = record call { timeout = some timeout }
