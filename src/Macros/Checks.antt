-- ===== src/Macros/Checks.antt =====
-- nats-micro-macros/src/service/validate.rs: the checks of texts, and of the kinds of arguments.
use nats_micro.Prelude.{
  ◌++◌, ℕ, ◌+◌, Bool, true, false, not, ◌&&◌, ◌||◌, List, [], ◌∷◌, Option, none, some, Str, str_eq,
  all, length, is_empty, ◌==◌, if◌then◌else◌, Result, ok, ◌>>◌, ensure,
}
use nats_micro.Subject.{split, full_wildcard, token_wildcard}
use nats_micro.Contract.{is_number}
use nats_micro.Request.{is_ascii_alphanumeric}
use nats_micro.Macros.Model.{
  Shape, path_type, reference_type, tuple_type, unsupported, other_type, SynError, invalid_version,
  empty_text, invalid_text, auth_required_missing, auth_optional_mismatch, auth_none_mismatch,
  AuthIntent, no_auth, optional_auth, required_auth, Wrapper, direct, json_wrapper, proto_wrapper,
  body_wrapper, text_wrapper, response_wrapper, PayloadModel, ArgumentKind, state, state_ref,
  subject_param, header_param, headers, request_meta, auth, payload,
}

-- `cfg!(feature = ..)`, for the four features that the checks ask for.
pub record Features : Type 0 where
  pub json : Bool
  pub protobuf : Bool
  pub encryption : Bool
  pub napi : Bool

unfoldable pub validate_version : Str → Result SynError (Unit {0})
unfolding split
validate_version version =
    let parts = split version in ensure (length parts == 3 && all is_number parts) invalid_version

-- `-` `_` `/` `:`
abbrev pub is_token_byte : ℕ → Bool
is_token_byte b = is_ascii_alphanumeric b || (b == b'-' || b == b'_' || b == b'/' || b == b':')

unfoldable pub validate_token : Str → Result SynError (Unit {0})
validate_token value = ensure (not (is_empty value) && all is_token_byte value) invalid_text

abbrev pub is_segment_byte : ℕ → Bool
is_segment_byte b = is_ascii_alphanumeric b || (b == b'-' || b == b'_')

-- `count` is the number of all segments, which the loop counts anew.
abbrev pub is_invalid_segment : ℕ → ℕ → Str → Bool
is_invalid_segment count index segment =
    is_empty segment
    || (str_eq segment full_wildcard && not (index + 1 == count))
    || (not (str_eq segment token_wildcard || str_eq segment full_wildcard)
        && not (all is_segment_byte segment))

abbrev pub check_segments : ℕ → ℕ → List Str → Result SynError (Unit {0})
check_segments count index [] = ok tt
check_segments count index (segment ∷ segments) = do
  ensure (not (is_invalid_segment count index segment)) invalid_text
  check_segments count (index + 1) segments

unfoldable pub validate_subject : Str → Result SynError (Unit {0})
unfolding split
validate_subject value = do
  ensure (not (is_empty value)) empty_text
  check_segments (length (split value)) 0 (split value)

-- `text.contains(pattern)`
abbrev pub starts_with_text : Str → Str → Bool
starts_with_text [] text = true
starts_with_text (p ∷ pattern) [] = false
starts_with_text (p ∷ pattern) (b ∷ text) = b == p && starts_with_text pattern text

abbrev pub contains_text : Str → Str → Bool
contains_text pattern [] = is_empty pattern
contains_text pattern (b ∷ text) = starts_with_text pattern (b ∷ text) || contains_text pattern text

-- `split_whitespace`, at the ASCII white space that a token stream is printed with.
abbrev pub is_white : ℕ → Bool
is_white b = b == 32 || b == 10 || b == 9 || b == 13

abbrev pub close_token : Str → List Str → List Str
close_token [] tokens = tokens
close_token (b ∷ token) tokens = (b ∷ token) ∷ tokens

abbrev pub tokens_from : Str → Str → List Str
tokens_from token [] = close_token token []
tokens_from token (b ∷ text) =
    let rest = tokens_from (if is_white b then [] else token ++ b ∷ []) text in
    if is_white b then close_token token rest else rest

abbrev pub is_auth : {Ty : Type 0} → Bool → ArgumentKind Ty → Bool
is_auth wanted state = false
is_auth wanted (state_ref ty) = false
is_auth wanted (subject_param name segment) = false
is_auth wanted (header_param name optional) = false
is_auth wanted headers = false
is_auth wanted request_meta = false
is_auth true (auth claims optional) = optional
is_auth false (auth claims optional) = not optional
is_auth wanted (payload model) = false

abbrev pub payload_of : {Ty : Type 0} → ArgumentKind Ty → Option (PayloadModel Ty)
payload_of state = none
payload_of (state_ref ty) = none
payload_of (subject_param name segment) = none
payload_of (header_param name optional) = none
payload_of headers = none
payload_of request_meta = none
payload_of (auth claims optional) = none
payload_of (payload model) = some model

abbrev pub is_param : {Ty : Type 0} → Str → ArgumentKind Ty → Bool
is_param name state = false
is_param name (state_ref ty) = false
is_param name (subject_param argument segment) = str_eq argument name
is_param name (header_param argument optional) = false
is_param name headers = false
is_param name request_meta = false
is_param name (auth claims optional) = false
is_param name (payload model) = false

abbrev pub is_encrypted_payload : {Ty : Type 0} → Option (PayloadModel Ty) → Bool
is_encrypted_payload none = false
is_encrypted_payload (some model) = model.encrypted

abbrev pub is_response_wrapper : Wrapper → Bool
is_response_wrapper direct = false
is_response_wrapper json_wrapper = false
is_response_wrapper proto_wrapper = false
is_response_wrapper body_wrapper = false
is_response_wrapper text_wrapper = false
is_response_wrapper response_wrapper = true

-- The intent that the arguments show; its first argument tells of a required one.
abbrev pub inferred_auth : Bool → Bool → AuthIntent
inferred_auth true optional = required_auth
inferred_auth false true = optional_auth
inferred_auth false false = no_auth

abbrev pub check_auth : AuthIntent → Bool → Bool → Result SynError (Unit {0})
check_auth required_auth required optional = ensure required auth_required_missing
check_auth optional_auth required optional =
    ensure (not (not optional || required)) auth_optional_mismatch
check_auth no_auth required optional = ensure (not (required || optional)) auth_none_mismatch

abbrev pub declared_auth : AuthIntent → AuthIntent → AuthIntent
declared_auth no_auth inferred = inferred
declared_auth optional_auth inferred = optional_auth
declared_auth required_auth inferred = required_auth

abbrev pub is_reference : {Ty : Type 0} → Shape Ty → Bool
is_reference (path_type qself leading_colon segments) = false
is_reference (reference_type lifetime mutability elem) = true
is_reference (tuple_type elems) = false
is_reference unsupported = false
is_reference other_type = false

abbrev pub is_zero_option : Option ℕ → Bool
is_zero_option none = false
is_zero_option (some value) = value == 0
