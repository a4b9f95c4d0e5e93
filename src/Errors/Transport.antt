-- ===== src/Errors/Transport.antt =====
-- nats-micro-shared/src/lib.rs: the error codes of the transport.
use nats_micro.Prelude.{
  ℕ, ◌≡◌, refl, ◌↔◌, List, [], ◌∷◌, Option, some, Str, bytes, str_eq, arith, ◌≤◌, ◌<◌, subst,
}
use nats_micro.Errors.Tables.{find_code, find_code_sound}

pub data TransportError : Type 0 where
  nats_request_failed timeout no_responders disconnected : TransportError
  startup_error transport_error : TransportError

abbrev pub all_errors : List TransportError
all_errors =
    nats_request_failed ∷ timeout ∷ no_responders ∷ disconnected ∷ startup_error ∷ transport_error
    ∷ []

unfoldable pub as_code : TransportError → Str
as_code nats_request_failed = bytes "NATS_REQUEST_FAILED"
as_code timeout = bytes "TIMEOUT"
as_code no_responders = bytes "NO_RESPONDERS"
as_code disconnected = bytes "DISCONNECTED"
as_code startup_error = bytes "STARTUP_ERROR"
as_code transport_error = bytes "TRANSPORT_ERROR"

unfoldable pub status_code : TransportError → ℕ
status_code nats_request_failed = 503
status_code timeout = 504
status_code no_responders = 503
status_code disconnected = 503
status_code startup_error = 503
status_code transport_error = 503

-- The arms of the macro's `match code` are tried in the order of the table.
unfoldable pub from_code : Str → Option TransportError
unfolding find_code as_code str_eq
from_code code = find_code as_code all_errors code

from_code-as_code : (error : TransportError) → from_code (as_code error) ≡ some error
unfolding from_code
from_code-as_code nats_request_failed = refl
from_code-as_code _ = refl

-- A code is read as a variant exactly if the variant prints that code; so no two variants share
-- one.
pub transport_from_code_iff :
    (code : Str) (kind : TransportError) → (from_code code ≡ some kind) ↔ (as_code kind ≡ code)
unfolding from_code
transport_from_code_iff code kind = (
  find_code_sound as_code all_errors code kind,
  λ e. subst (λ c. from_code c ≡ some kind) e (from_code-as_code kind),
)

-- Every variant's status is a client or server error of HTTP.
pub transport_status_code_bounds :
    (error : TransportError) → (400 ≤ status_code error) × (status_code error < 600)
unfolding status_code
transport_status_code_bounds nats_request_failed = omega arith
transport_status_code_bounds _ = omega arith
