-- ===== src/Errors/Response.antt =====
-- nats-micro/src/error.rs: the error payload of a reply, and how a client keeps it.
use nats_micro.Prelude.{
  ℕ, zero, suc, ◌≡◌, refl, Bool, true, false, [], ◌∷◌, Option, some, none, Str, bytes, take, length,
  arith, if◌then◌else◌, ◌≤◌,
}
use nats_micro.Errors.Framework.{FrameworkError}
use nats_micro.Errors.Framework
use nats_micro.Errors.Transport.{TransportError}
use nats_micro.Errors.Transport

-- `Value` is serde_json's.
pub record NatsErrorResponse (Value : Type 0) : Type 0 where
  pub code : ℕ
  pub kind : Str
  pub message : Str
  pub request_id : Str
  pub details : Option Value

module _ {Value : Type 0} where
  unfoldable pub new : ℕ → Str → Str → Str → NatsErrorResponse Value
  new code kind message request_id = record {
    code = code;
    kind = kind;
    message = message;
    request_id = request_id;
    details = none;
  }

  unfoldable pub with_details : NatsErrorResponse Value → Value → NatsErrorResponse Value
  with_details response details = record response { details = some details }

  unfoldable pub with_request_id : NatsErrorResponse Value → Str → NatsErrorResponse Value
  with_request_id response request_id = record response { request_id = request_id }

  unfoldable pub bad_request : Str → Str → NatsErrorResponse Value
  unfolding new
  bad_request error message = new 400 error message []

  unfoldable pub unauthorized : Str → Str → NatsErrorResponse Value
  unfolding new
  unauthorized error message = new 401 error message []

  unfoldable pub forbidden : Str → Str → NatsErrorResponse Value
  unfolding new
  forbidden error message = new 403 error message []

  unfoldable pub not_found : Str → Str → NatsErrorResponse Value
  unfolding new
  not_found error message = new 404 error message []

  unfoldable pub internal : Str → Str → NatsErrorResponse Value
  unfolding new
  internal error message = new 500 error message []

  unfoldable pub framework : FrameworkError → Str → NatsErrorResponse Value
  unfolding new
  framework kind message = new (Framework.status_code kind) (Framework.as_code kind) message []

  unfoldable pub transport : TransportError → Str → NatsErrorResponse Value
  unfolding new
  transport kind message = new (Transport.status_code kind) (Transport.as_code kind) message []

pub data ServiceErrorMatch (Value E : Type 0) : Type 0 where
  typed : E → ServiceErrorMatch Value E
  untyped : NatsErrorResponse Value → ServiceErrorMatch Value E

pub data ClientTransportError (Value : Type 0) : Type 0 where
  request serialize deserialize decrypt invalid_response :
      NatsErrorResponse Value → ClientTransportError Value

unfoldable pub transport_response :
    {Value : Type 0} → ClientTransportError Value → NatsErrorResponse Value
transport_response (request response) = response
transport_response (serialize response) = response
transport_response (deserialize response) = response
transport_response (decrypt response) = response
transport_response (invalid_response response) = response

pub data ClientError (Value E : Type 0) : Type 0 where
  service : E → NatsErrorResponse Value → ClientError Value E
  service_response : NatsErrorResponse Value → ClientError Value E
  client_transport : ClientTransportError Value → ClientError Value E

module _ {Value E : Type 0} where
  -- `from_nats_error_response` is the trait method of the domain error `E`.
  from_match : NatsErrorResponse Value → ServiceErrorMatch Value E → ClientError Value E
  from_match response (typed error) = service error response
  from_match response (untyped other) = service_response other

  unfoldable pub from_service_response :
      (NatsErrorResponse Value → ServiceErrorMatch Value E)
      → NatsErrorResponse Value
      → ClientError Value E
  unfolding from_match
  from_service_response from_nats_error_response response =
      from_match response (from_nats_error_response response)

  unfoldable pub as_nats_error_response : ClientError Value E → Option (NatsErrorResponse Value)
  unfolding transport_response
  as_nats_error_response (service error response) = some response
  as_nats_error_response (service_response response) = some response
  as_nats_error_response (client_transport error) = some (transport_response error)

  unfoldable pub into_nats_error_response : ClientError Value E → NatsErrorResponse Value
  unfolding transport_response
  into_nats_error_response (service error response) = response
  into_nats_error_response (service_response response) = response
  into_nats_error_response (client_transport error) = transport_response error

  -- "otherwise preserves the original protocol error"
  abbrev pub Preserves : (NatsErrorResponse Value → ServiceErrorMatch Value E) → Type 0
  Preserves f = (r o : NatsErrorResponse Value) → f r ≡ untyped o → o ≡ r

  match_keeps :
      (r : NatsErrorResponse Value) (m : ServiceErrorMatch Value E)
      → ((o : NatsErrorResponse Value) → m ≡ untyped o → o ≡ r)
      → (into_nats_error_response (from_match r m) ≡ r)
        × (as_nats_error_response (from_match r m) ≡ some r)
  unfolding into_nats_error_response as_nats_error_response from_match
  match_keeps r (typed e) h = (refl, refl)
  match_keeps r (untyped o) h = ground (arith, h o refl)

  -- Whether or not the domain type recognises a remote error, the client error holds the reply
  -- that the service sent, if the domain type hands back what it does not recognise.
  pub from_service_response_keeps :
      (f : NatsErrorResponse Value → ServiceErrorMatch Value E) (r : NatsErrorResponse Value)
      → Preserves f
      → (into_nats_error_response (from_service_response f r) ≡ r)
        × (as_nats_error_response (from_service_response f r) ≡ some r)
  unfolding from_service_response
  from_service_response_keeps f r p = match_keeps r (f r) (p r)

take-le : (n : ℕ) (s : Str) → length (take n s) ≤ n
take-le zero s = omega arith
take-le (suc n) [] = omega arith
take-le (suc n) (c ∷ s) = omega (arith, take-le n s)

-- `IntoNatsError for String` and `for NatsErrorResponse`.
module _ {Value : Type 0} where
  unfoldable pub string_into_nats_error : Str → Str → NatsErrorResponse Value
  unfolding framework with_request_id
  string_into_nats_error message request_id =
      with_request_id (framework FrameworkError.error message) request_id

  -- `IntoNatsError for anyhow::Error`: `exposed` is what `expose_internal_error_details` reads from
  -- the environment, and `text` the error's characters.
  unfoldable pub anyhow_into_nats_error : (Str → Value) → Bool → Str → Str → NatsErrorResponse Value
  unfolding framework with_request_id with_details
  anyhow_into_nats_error string_value exposed text request_id =
      let response =
        with_request_id
          (framework FrameworkError.internal_error (bytes "an internal error occurred"))
          request_id in
      if exposed then with_details response (string_value (take 200 text)) else response

  -- What an internal error says to the caller does not depend on the error, unless the environment
  -- exposes details; then at most 200 characters of it are told, and only in `details`.
  pub anyhow_hides :
      (v : Str → Value) (s t id : Str)
      → (anyhow_into_nats_error v false s id ≡ anyhow_into_nats_error v false t id)
        × ((anyhow_into_nats_error v true s id).message
            ≡ (anyhow_into_nats_error v false t id).message)
        × ((anyhow_into_nats_error v false s id).details ≡ none)
        × ((anyhow_into_nats_error v true s id).details ≡ some (v (take 200 s)))
        × (length (take 200 s) ≤ 200)
  unfolding anyhow_into_nats_error
  anyhow_hides v s t id = (refl, refl, refl, refl, take-le 200 s)
