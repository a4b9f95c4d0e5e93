-- ===== src/Client/Decoding/Answers.antt =====
-- What a client reads from the answers of a service.
use nats_micro.Prelude.{
  ◌∙◌, str_eq, str_eq_refl, true, false, ◌≡◌, refl, Option, some, none, Str, bytes, Result, ok, err,
}
use nats_micro.Headers.{get-insert_other, HeaderMaps, IsHeaderMaps, get-insert_same}
use nats_micro.Errors.Response.{
  NatsErrorResponse, ServiceErrorMatch, ClientError, from_service_response,
}
use nats_micro.Response.{
  process_request, Response, payload, optional_none, from_nats_error, Writers, ErrorReply,
}
use nats_micro.Response.Wire.{service_error_headers-get}
use nats_micro.Client.{ClientResponse, map_err}
use nats_micro.Client.Decoding.{
  str_eq, Readers, map_ok, error_response, reports_service_error, ensure_success, is_optional_none,
  deserialize_error, optional_json_decode,
}

module _ {H Value : Type 0} (maps : HeaderMaps H) (writers : Writers Value) where
  -- The answer of a handler, as it arrives at the client.
  abbrev pub answered : Result ErrorReply (Response H) → ClientResponse H
  answered result =
      let (text, headers) = process_request maps writers result in
      record { payload = text; headers = headers }

module _ {H Value R E : Type 0} (maps : HeaderMaps H) (readers : Readers Value R)
    (writers : Writers Value)
    (from_nats_error_response : NatsErrorResponse Value → ServiceErrorMatch Value E) where
  ensure-silent :
      (response : ClientResponse H)
      → reports_service_error maps response ≡ false
      → ensure_success maps readers from_nats_error_response response ≡ ok tt
  unfolding ensure_success error_response
  ensure-silent response silent = rw silent refl

  error-answered :
      (error : ErrorReply)
      → IsHeaderMaps maps
      → reports_service_error maps (answered maps writers (err error)) ≡ true
  unfolding reports_service_error process_request
  error-answered error laws =
      let (message, code, kind, format, id) = service_error_headers-get maps writers error laws in
      rw code refl

  ensure-error :
      (error : ErrorReply) (response : NatsErrorResponse Value)
      → IsHeaderMaps maps
      → readers.error_response error.body ≡ ok response
      → ensure_success maps readers from_nats_error_response (answered maps writers (err error))
        ≡ err (from_service_response from_nats_error_response response)
  unfolding ensure_success error_response process_request
  ensure-error error response laws read = rw (error-answered error laws, read) refl

  -- What an operation with an optional result answers: an error, nothing, or a value's text.
  abbrev pub reply : Result (NatsErrorResponse Value) (Option Str) → Result ErrorReply (Response H)
  reply (err error) = err (from_nats_error writers error)
  reply (ok none) = ok (optional_none maps writers)
  reply (ok (some text)) = ok (payload text)

  -- serde_json reads the error that it wrote.
  abbrev pub IsRead : Result (NatsErrorResponse Value) (Option Str) → Type 0
  IsRead (err error) = readers.error_response (from_nats_error writers error).body ≡ ok error
  IsRead (ok answer) = Unit

  -- What the client has to make of it.
  abbrev pub expected :
      Result (NatsErrorResponse Value) (Option Str) → Result (ClientError Value E) (Option R)
  expected (err error) = err (from_service_response from_nats_error_response error)
  expected (ok none) = ok none
  expected (ok (some text)) =
      map_err (deserialize_error maps readers from_nats_error_response)
        (map_ok some (readers.json text))

  optional_none-silent :
      IsHeaderMaps maps
      → reports_service_error maps (answered maps writers (ok (optional_none maps writers))) ≡ false
  unfolding reports_service_error process_request optional_none str_eq
  optional_none-silent laws =
      let under = get-insert_other laws maps.new (bytes "Nats-Micro-Present") in
      let code = under (bytes "Nats-Service-Error-Code") (bytes "0") refl ∙ laws.get-new _ in
      let kind = under (bytes "Nats-Micro-Error-Kind") (bytes "0") refl ∙ laws.get-new _ in
      rw (code, kind) refl

  -- The reply that the service sends for an optional result is decoded to that result: an error
  -- becomes the domain's error, or the reply kept as it is, the absent value becomes `None`, and a
  -- text is what serde_json reads in it, provided that serde_json reads the error that it wrote.
  pub optional_json_decode-reply :
      (result : Result (NatsErrorResponse Value) (Option Str))
      → IsHeaderMaps maps
      → IsRead result
      → optional_json_decode maps readers from_nats_error_response
          (answered maps writers (reply result))
        ≡ expected result
  unfolding optional_json_decode is_optional_none process_request optional_none
      reports_service_error
  optional_json_decode-reply (err error) laws read =
      rw (ensure-error (from_nats_error writers error) error laws read) refl
  optional_json_decode-reply (ok none) laws read =
      let present = get-insert_same laws maps.new (bytes "Nats-Micro-Present") (bytes "0") in
      rw
        (
          ensure-silent (answered maps writers (ok (optional_none maps writers)))
              (optional_none-silent laws),
          present,
          str_eq_refl (bytes "0"),
        )
        refl
  optional_json_decode-reply (ok (some text)) laws read = refl
