-- ===== src/Response.antt =====
-- nats-micro/src/response.rs, and the answers that nats-micro/src/runtime/request_worker.rs sends:
-- `process_plain_request`, `process_encrypted_request` and `respond_error`.
pub mod Wire
mod Tests
use nats_micro.Prelude.{
  err, ok, Result, ℕ, Option, some, none, Str, bytes, [], is_empty, if◌then◌else◌,
}
use nats_micro.Errors.Framework.{FrameworkError}
use nats_micro.Errors.Framework
use nats_micro.Errors.Response.{NatsErrorResponse}
use nats_micro.Headers.{HeaderMaps}

pub data Response (H : Type 0) : Type 0 where
  empty : Response H
  payload : Str → Response H
  with_headers : Str → H → Response H

pub record ErrorReply : Type 0 where
  pub code : ℕ
  pub kind : Str
  pub message : Str
  pub body : Str
  pub request_id : Option Str

-- serde_json's `to_vec` of the two error forms, and `to_string` of a number, of packages.
pub record Writers (Value : Type 0) : Type 0 where
  -- `WireError`: code, kind, message and request id
  pub wire_error : ℕ → Str → Str → Str → Option Str
  pub error_response : NatsErrorResponse Value → Option Str
  pub to_string : ℕ → Str

abbrev pub unwrap_or_default : Option Str → Str
unwrap_or_default none = []
unwrap_or_default (some s) = s

module _ {Value : Type 0} (writers : Writers Value) where
  unfoldable pub new : ℕ → Str → Str → Option Str → ErrorReply
  new code kind message request_id = record {
    code = code;
    kind = kind;
    message = message;
    body = unwrap_or_default (writers.wire_error code kind message (unwrap_or_default request_id));
    request_id = request_id;
  }

  unfoldable pub framework_reply : FrameworkError → Str → Option Str → ErrorReply
  unfolding new
  framework_reply kind message request_id =
      new (Framework.status_code kind) (Framework.as_code kind) message request_id

  unfoldable pub from_nats_error : NatsErrorResponse Value → ErrorReply
  from_nats_error error = record {
    code = error.code;
    kind = error.kind;
    message = error.message;
    body = unwrap_or_default (writers.error_response error);
    request_id = if is_empty error.request_id then none else some error.request_id;
  }

module _ {H Value : Type 0} (maps : HeaderMaps H) (writers : Writers Value) where
  unfoldable pub optional_none : Response H
  optional_none = with_headers [] (maps.insert maps.new (bytes "Nats-Micro-Present") (bytes "0"))

  abbrev pub insert_id : H → Option Str → H
  insert_id headers none = headers
  insert_id headers (some request_id) = maps.insert headers (bytes "x-request-id") request_id

  unfoldable pub service_error_headers : ErrorReply → H
  service_error_headers error =
      let named = maps.insert maps.new (bytes "Nats-Service-Error") error.message in
      let coded =
        maps.insert named (bytes "Nats-Service-Error-Code") (writers.to_string error.code) in
      let kinded = maps.insert coded (bytes "Nats-Micro-Error-Kind") error.kind in
      let formatted = maps.insert kinded (bytes "Nats-Micro-Error-Format") (bytes "json-v1") in
      insert_id formatted error.request_id

  -- What is sent in reply to a request: a payload, with headers or without.
  abbrev pub Sent : Type 0
  Sent = Str × Option H

  -- `match E::call(..).await`, for a handler that returns. A reply that cannot be published is the
  -- worker's `process_failed`.
  unfoldable pub process_request : Result ErrorReply (Response H) → Sent
  unfolding service_error_headers
  process_request (ok empty) = ([], none)
  process_request (ok (payload text)) = (text, none)
  process_request (ok (with_headers text headers)) = (text, some headers)
  process_request (err error) = (error.body, some (service_error_headers error))
