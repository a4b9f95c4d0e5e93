-- ===== src/Macros/Dispatch.antt =====
-- nats-micro-macros/src/service/dispatch.rs: the body of `call` that is generated for an encrypted
-- request operation. The handler, with its argument bindings, is a parameter, and so is the text of
-- the reply that a rejection becomes.
use nats_micro.Prelude.{Bool, Str, Result, ok, ◌>>=◌, if◌then◌else◌}
use nats_micro.Headers.{HeaderMaps}
use nats_micro.Request.{Request}
use nats_micro.Response.{Response, ErrorReply}
use nats_micro.Encryption.Crypto.{Crypto}
use nats_micro.Encryption.Envelope.{ServiceKeyPair}
use nats_micro.Encryption.Prepare.{Rejection, prepare, request_view, encrypt_reply}
use nats_micro.Client.{map_err}

module _ {H : Type 0} (crypto : Crypto) (maps : HeaderMaps H)
    (refuse : Rejection → ErrorReply) where
  -- The nonce is the one that the encryption of the response draws.
  unfoldable pub call :
      Bool
      → Bool
      → (Request H → Result ErrorReply (Response H))
      → ServiceKeyPair
      → Str
      → Request H
      → Result ErrorReply (Response H)
  unfolding prepare request_view encrypt_reply
  call request_encrypted response_encrypted body keypair nonce request = do
    encrypted_request ← map_err refuse (prepare crypto maps keypair request request_encrypted)
    response ← body (request_view crypto maps encrypted_request)
    if response_encrypted
        then map_err refuse (encrypt_reply crypto maps encrypted_request nonce response)
        else ok response
