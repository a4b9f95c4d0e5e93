-- ===== src/Request/Tests.antt =====
-- Runs of nats-micro/src/request.rs.
use nats_micro.Request.{
  inner_get, with_body_and_overlay, is_valid_request_id, request_id_header, get_or_generate,
  EncryptedHeaderOverlay, Request,
}
use nats_micro.Prelude.{Str, List, refl, bytes, some, none, [], ◌∷◌, ◌≡◌, false}
use nats_micro.Request
use nats_micro.Encryption.Headers.{overlay_get}
use nats_micro.Encryption.Toy.{list_headers}

abbrev incoming : List (Str × Str)
incoming = (bytes "token", bytes "plain") ∷ (bytes "x-request-id", bytes "r-1") ∷ []

abbrev view : Request (List (Str × Str))
view = Request.new list_headers (bytes "a.b") none (bytes "hi") (some incoming)

invalid_id : is_valid_request_id (bytes "r 1") ≡ false
unfolding is_valid_request_id
invalid_id = refl

abbrev hidden : EncryptedHeaderOverlay
hidden = (bytes "Token", bytes "secret") ∷ []

token_hidden :
    Request.get list_headers
      (with_body_and_overlay list_headers view (bytes "hi") hidden).headers
      (bytes "token")
    ≡ some (bytes "secret")
unfolding Request.get with_body_and_overlay overlay_get
token_hidden = refl
