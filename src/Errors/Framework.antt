-- ===== src/Errors/Framework.antt =====
-- nats-micro-shared/src/lib.rs: the error codes of the framework.
use nats_micro.Prelude.{
  ℕ, ◌≡◌, refl, ◌↔◌, List, [], ◌∷◌, Option, some, Str, bytes, str_eq, arith, ◌≤◌, ◌<◌, subst,
}
use nats_micro.Errors.Tables.{find_code, find_code_sound}

pub data FrameworkError : Type 0 where
  bad_json bad_protobuf bad_utf8 deserialization_error : FrameworkError
  error forbidden initialization_error internal_error : FrameworkError
  invalid_header invalid_response param_name_missing serialization_error : FrameworkError
  shutdown_signal_unavailable state_not_found subject_param_invalid subject_param_missing :
      FrameworkError
  subject_template_missing unauthorized decrypt_error decrypt_failed : FrameworkError
  encrypt_failed encrypt_required missing_recipient_pubkey no_encryption_key : FrameworkError
  signature_invalid signature_missing auth_mode_conflict auth_username_required : FrameworkError
  auth_password_required client_cert_key_mismatch client_connect_failed : FrameworkError

abbrev pub all_errors : List FrameworkError
all_errors =
    bad_json ∷ bad_protobuf ∷ bad_utf8 ∷ deserialization_error ∷ error ∷ forbidden
    ∷ initialization_error ∷ internal_error ∷ invalid_header ∷ invalid_response ∷ param_name_missing
    ∷ serialization_error ∷ shutdown_signal_unavailable ∷ state_not_found ∷ subject_param_invalid
    ∷ subject_param_missing ∷ subject_template_missing ∷ unauthorized ∷ decrypt_error
    ∷ decrypt_failed ∷ encrypt_failed ∷ encrypt_required ∷ missing_recipient_pubkey
    ∷ no_encryption_key ∷ signature_invalid ∷ signature_missing ∷ auth_mode_conflict
    ∷ auth_username_required ∷ auth_password_required ∷ client_cert_key_mismatch
    ∷ client_connect_failed ∷ []

unfoldable pub as_code : FrameworkError → Str
as_code bad_json = bytes "BAD_JSON"
as_code bad_protobuf = bytes "BAD_PROTOBUF"
as_code bad_utf8 = bytes "BAD_UTF8"
as_code deserialization_error = bytes "DESERIALIZATION_ERROR"
as_code error = bytes "ERROR"
as_code forbidden = bytes "FORBIDDEN"
as_code initialization_error = bytes "INITIALIZATION_ERROR"
as_code internal_error = bytes "INTERNAL_ERROR"
as_code invalid_header = bytes "INVALID_HEADER"
as_code invalid_response = bytes "INVALID_RESPONSE"
as_code param_name_missing = bytes "PARAM_NAME_MISSING"
as_code serialization_error = bytes "SERIALIZATION_ERROR"
as_code shutdown_signal_unavailable = bytes "SHUTDOWN_SIGNAL_UNAVAILABLE"
as_code state_not_found = bytes "STATE_NOT_FOUND"
as_code subject_param_invalid = bytes "SUBJECT_PARAM_INVALID"
as_code subject_param_missing = bytes "SUBJECT_PARAM_MISSING"
as_code subject_template_missing = bytes "SUBJECT_TEMPLATE_MISSING"
as_code unauthorized = bytes "UNAUTHORIZED"
as_code decrypt_error = bytes "DECRYPT_ERROR"
as_code decrypt_failed = bytes "DECRYPT_FAILED"
as_code encrypt_failed = bytes "ENCRYPT_FAILED"
as_code encrypt_required = bytes "ENCRYPT_REQUIRED"
as_code missing_recipient_pubkey = bytes "MISSING_RECIPIENT_PUBKEY"
as_code no_encryption_key = bytes "NO_ENCRYPTION_KEY"
as_code signature_invalid = bytes "SIGNATURE_INVALID"
as_code signature_missing = bytes "SIGNATURE_MISSING"
as_code auth_mode_conflict = bytes "AUTH_MODE_CONFLICT"
as_code auth_username_required = bytes "AUTH_USERNAME_REQUIRED"
as_code auth_password_required = bytes "AUTH_PASSWORD_REQUIRED"
as_code client_cert_key_mismatch = bytes "CLIENT_CERT_KEY_MISMATCH"
as_code client_connect_failed = bytes "CLIENT_CONNECT_FAILED"

unfoldable pub status_code : FrameworkError → ℕ
status_code bad_json = 400
status_code bad_protobuf = 400
status_code bad_utf8 = 400
status_code deserialization_error = 502
status_code error = 500
status_code forbidden = 403
status_code initialization_error = 503
status_code internal_error = 500
status_code invalid_header = 400
status_code invalid_response = 502
status_code param_name_missing = 500
status_code serialization_error = 500
status_code shutdown_signal_unavailable = 500
status_code state_not_found = 500
status_code subject_param_invalid = 400
status_code subject_param_missing = 400
status_code subject_template_missing = 500
status_code unauthorized = 401
status_code decrypt_error = 502
status_code decrypt_failed = 400
status_code encrypt_failed = 500
status_code encrypt_required = 400
status_code missing_recipient_pubkey = 400
status_code no_encryption_key = 500
status_code signature_invalid = 401
status_code signature_missing = 401
status_code auth_mode_conflict = 400
status_code auth_username_required = 400
status_code auth_password_required = 400
status_code client_cert_key_mismatch = 400
status_code client_connect_failed = 503

-- The arms of the macro's `match code` are tried in the order of the table.
unfoldable pub from_code : Str → Option FrameworkError
unfolding find_code as_code str_eq
from_code code = find_code as_code all_errors code

from_code-as_code : (error : FrameworkError) → from_code (as_code error) ≡ some error
unfolding from_code
from_code-as_code bad_json = refl
from_code-as_code _ = refl

-- A code is read as a variant exactly if the variant prints that code; so no two variants share
-- one.
pub framework_from_code_iff :
    (code : Str) (kind : FrameworkError) → (from_code code ≡ some kind) ↔ (as_code kind ≡ code)
unfolding from_code
framework_from_code_iff code kind = (
  find_code_sound as_code all_errors code kind,
  λ e. subst (λ c. from_code c ≡ some kind) e (from_code-as_code kind),
)

-- Every variant's status is a client or server error of HTTP.
pub framework_status_code_bounds :
    (error : FrameworkError) → (400 ≤ status_code error) × (status_code error < 600)
unfolding status_code
framework_status_code_bounds bad_json = omega arith
framework_status_code_bounds _ = omega arith
