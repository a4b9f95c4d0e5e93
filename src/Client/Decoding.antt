-- ===== src/Client/Decoding.antt =====
-- nats-micro/src/client/v2.rs: how a client reads an answer. `serde_json`, `prost` and the standard
-- library's `from_utf8` are parameters, with the text of their error.
pub mod Answers
use nats_micro.Prelude.{
  Bool, true, false, Option, some, none, Str, str_eq, bytes, ◌++◌, ◌||◌, is_some, if◌then◌else◌,
  Result, ok, err, ◌>>=◌, ◌>>◌,
}
use nats_micro.Headers.{HeaderMaps}
use nats_micro.Errors.Framework.{FrameworkError}
use nats_micro.Errors.Framework
use nats_micro.Errors.Response.{
  NatsErrorResponse, ServiceErrorMatch, ClientError, client_transport, from_service_response,
  framework,
}
use nats_micro.Errors.Response
use nats_micro.Client.{ClientResponse, map_err}

pub record Readers (Value R : Type 0) : Type 0 where
  pub error_response : Str → Result Str (NatsErrorResponse Value)
  pub json : Str → Result Str R
  pub proto : Str → Result Str R
  pub from_utf8 : Str → Result Str Str

abbrev pub map_ok : {A B E : Type 0} → (A → B) → Result E A → Result E B
map_ok f (ok value) = ok (f value)
map_ok f (err error) = err error

module _ {H : Type 0} (maps : HeaderMaps H) where
  abbrev pub names_error : Option H → Bool
  names_error none = false
  names_error (some headers) =
      is_some (maps.get headers (bytes "Nats-Service-Error-Code"))
      || is_some (maps.get headers (bytes "Nats-Micro-Error-Kind"))

  unfoldable pub reports_service_error : ClientResponse H → Bool
  reports_service_error response = names_error response.headers

  abbrev pub says_absent : Option Str → Bool
  says_absent none = false
  says_absent (some value) = str_eq value (bytes "0")

  abbrev pub none_in : Option H → Bool
  none_in none = false
  none_in (some headers) = says_absent (maps.get headers (bytes "Nats-Micro-Present"))

  unfoldable pub is_optional_none : ClientResponse H → Bool
  is_optional_none response = none_in response.headers

module _ {H Value R E : Type 0} (maps : HeaderMaps H) (readers : Readers Value R)
    (from_nats_error_response : NatsErrorResponse Value → ServiceErrorMatch Value E) where
  unfoldable pub malformed : Str → ClientError Value E
  unfolding framework
  malformed error = client_transport (
      Response.invalid_response (
        framework FrameworkError.invalid_response
          (bytes "service error headers accompanied malformed JSON: " ++ error)))

  abbrev pub read_error : Str → Result (ClientError Value E) (Option (ClientError Value E))
  read_error payload = do
    error ← map_err malformed (readers.error_response payload)
    ok (some (from_service_response from_nats_error_response error))

  unfoldable pub error_response :
      ClientResponse H → Result (ClientError Value E) (Option (ClientError Value E))
  unfolding reports_service_error malformed from_service_response
  error_response response =
      if reports_service_error maps response then read_error response.payload else ok none

  abbrev pub as_error : Option (ClientError Value E) → Result (ClientError Value E) (Unit {0})
  as_error none = ok tt
  as_error (some error) = err error

  unfoldable pub ensure_success : ClientResponse H → Result (ClientError Value E) (Unit {0})
  unfolding error_response
  ensure_success response = do error ← error_response response; as_error error

  unfoldable pub deserialize_error : Str → ClientError Value E
  unfolding framework
  deserialize_error error =
      client_transport (Response.deserialize (framework FrameworkError.deserialization_error error))

  unfoldable pub json_decode : ClientResponse H → Result (ClientError Value E) R
  unfolding ensure_success deserialize_error
  json_decode response = do
    ensure_success response
    map_err deserialize_error (readers.json response.payload)

  unfoldable pub optional_json_decode : ClientResponse H → Result (ClientError Value E) (Option R)
  unfolding ensure_success deserialize_error is_optional_none
  optional_json_decode response = do
    ensure_success response
    if is_optional_none maps response
        then ok none
        else map_err deserialize_error (map_ok some (readers.json response.payload))

  unfoldable pub proto_decode : ClientResponse H → Result (ClientError Value E) R
  unfolding ensure_success deserialize_error
  proto_decode response = do
    ensure_success response
    map_err deserialize_error (readers.proto response.payload)

  unfoldable pub optional_proto_decode : ClientResponse H → Result (ClientError Value E) (Option R)
  unfolding ensure_success deserialize_error is_optional_none
  optional_proto_decode response = do
    ensure_success response
    if is_optional_none maps response
        then ok none
        else map_err deserialize_error (map_ok some (readers.proto response.payload))

  unfoldable pub text_decode : ClientResponse H → Result (ClientError Value E) Str
  unfolding ensure_success deserialize_error
  text_decode response = do
    ensure_success response
    map_err deserialize_error (readers.from_utf8 response.payload)

  unfoldable pub optional_text_decode : ClientResponse H → Result (ClientError Value E) (Option Str)
  unfolding ensure_success deserialize_error is_optional_none
  optional_text_decode response = do
    ensure_success response
    if is_optional_none maps response
        then ok none
        else map_err deserialize_error (map_ok some (readers.from_utf8 response.payload))

  -- `BytesDecoder`; `VecDecoder` copies the same bytes.
  unfoldable pub bytes_decode : ClientResponse H → Result (ClientError Value E) Str
  unfolding ensure_success
  bytes_decode response = do ensure_success response; ok response.payload

  unfoldable pub optional_bytes_decode :
      ClientResponse H → Result (ClientError Value E) (Option Str)
  unfolding ensure_success is_optional_none
  optional_bytes_decode response = do
    ensure_success response
    ok (if is_optional_none maps response then none else some response.payload)

  unfoldable pub empty_decode : ClientResponse H → Result (ClientError Value E) (Unit {0})
  unfolding ensure_success
  empty_decode response = ensure_success response

  unfoldable pub client_response_decode :
      ClientResponse H → Result (ClientError Value E) (ClientResponse H)
  unfolding ensure_success
  client_response_decode response = do ensure_success response; ok response
