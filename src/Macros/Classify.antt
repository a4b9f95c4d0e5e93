-- ===== src/Macros/Classify.antt =====
-- nats-micro-macros/src/service/classify.rs: what the arguments and the result of a handler are.
use nats_micro.Macros.Paths.{
  is_named, last_segment, segments_of, first, first_two, path_is_ident, ident_of, types_of,
  without_spaces,
}
use nats_micro.Prelude.{
  Bool, true, false, not, ◌&&◌, ◌||◌, Option, none, some, Str, bytes, str_eq, is_empty,
  if◌then◌else◌, Result, ok, err, ◌>>=◌, ◌>>◌, ensure,
}
use nats_micro.Macros.Template.{OperationKind, is_consumer}
use nats_micro.Macros.Model.{
  Shape, path_type, reference_type, tuple_type, unsupported, other_type, Syn, SynError,
  mutable_state, without_type_argument, WireCodec, json_codec, protobuf_codec, raw_codec,
  utf8_codec, empty_codec, Wrapper, direct, json_wrapper, proto_wrapper, body_wrapper, text_wrapper,
  response_wrapper, PayloadModel, ResponseModel, OperationOptions, Method,
}

module _ {Ty : Type 0} (syn : Syn Ty) where
  unfoldable pub last_ident : Ty → Option Str
  last_ident ty = ident_of (last_segment (segments_of (syn.shape ty)))

  unfoldable pub last_type_argument : Ty → Option Ty
  last_type_argument ty = first (types_of (last_segment (segments_of (syn.shape ty))))

  unfoldable pub required_type_argument : Ty → Str → Result SynError Ty
  unfolding last_type_argument
  required_type_argument ty wrapper = elim (last_type_argument ty) [
    | none ↦ err (without_type_argument wrapper)
    | some inner ↦ ok inner
  ]

  -- `option_inner` and `encryption_inner`
  unfoldable pub inner_of : Str → Ty → Option Ty
  unfolding last_ident last_type_argument
  inner_of wrapper ty = if is_named (last_ident ty) wrapper then last_type_argument ty else none

  abbrev pub option_inner : Ty → Option Ty
  option_inner = inner_of (bytes "Option")

  abbrev pub encryption_inner : Ty → Option Ty
  encryption_inner = inner_of (bytes "Encrypted")

  abbrev pub with_flag : Option Ty → Bool → Option (Ty × Bool)
  with_flag none flag = none
  with_flag (some ty) flag = some (ty, flag)

  abbrev pub optional_auth_inner : Option Ty → Option (Ty × Bool)
  optional_auth_inner none = none
  optional_auth_inner (some inner) =
      if is_named (last_ident inner) (bytes "Auth")
      then with_flag (last_type_argument inner) true
      else none

  unfoldable pub auth_inner : Ty → Option (Ty × Bool)
  unfolding last_ident last_type_argument inner_of
  auth_inner ty =
      if is_named (last_ident ty) (bytes "Auth")
      then with_flag (last_type_argument ty) false
      else optional_auth_inner (option_inner ty)

  unfoldable pub result_types : Ty → Option (Ty × Ty)
  unfolding last_ident
  result_types ty =
      if is_named (last_ident ty) (bytes "Result")
      then first_two (types_of (last_segment (segments_of (syn.shape ty))))
      else none

  abbrev pub is_empty_tuple : Shape Ty → Bool
  is_empty_tuple (path_type qself leading_colon segments) = false
  is_empty_tuple (reference_type lifetime mutability elem) = false
  is_empty_tuple (tuple_type elems) = is_empty elems
  is_empty_tuple unsupported = false
  is_empty_tuple other_type = false

  unfoldable pub is_unit : Ty → Bool
  is_unit ty = is_empty_tuple (syn.shape ty)

  abbrev pub elem_of : Shape Ty → Option Ty
  elem_of (path_type qself leading_colon segments) = none
  elem_of (reference_type lifetime mutability elem) = some elem
  elem_of (tuple_type elems) = none
  elem_of unsupported = none
  elem_of other_type = none

  abbrev pub names : Option Ty → Str → Bool
  names none name = false
  names (some ty) name = path_is_ident (syn.shape ty) name

  unfoldable pub is_str_reference : Ty → Bool
  is_str_reference ty = names (elem_of (syn.shape ty)) (bytes "str")

  unfoldable pub is_vec_u8 : Ty → Bool
  unfolding last_ident last_type_argument
  is_vec_u8 ty =
      is_named (last_ident ty) (bytes "Vec") && names (last_type_argument ty) (bytes "u8")

  unfoldable pub same_type : Ty → Ty → Bool
  same_type left right = str_eq (without_spaces (syn.text left)) (without_spaces (syn.text right))

  abbrev pub reference_state : Shape Ty → Ty → Result SynError Bool
  reference_state (path_type qself leading_colon segments) state_type = ok false
  reference_state (reference_type lifetime mutability elem) state_type = do
    ensure (not (mutability && same_type elem state_type)) mutable_state
    ok (not mutability && same_type elem state_type)
  reference_state (tuple_type elems) state_type = ok false
  reference_state unsupported state_type = ok false
  reference_state other_type state_type = ok false

  unfoldable pub is_state_reference : Ty → Ty → Result SynError Bool
  unfolding same_type
  is_state_reference ty state_type = reference_state (syn.shape ty) state_type

  -- The inner type where there is one, and whether there is.
  abbrev pub peeled : Ty → Option Ty → Bool × Ty
  peeled ty none = (false, ty)
  peeled ty (some inner) = (true, inner)

  abbrev pub payload_value : Ty → WireCodec → Result SynError (WireCodec × Wrapper × Option Ty)
  payload_value value default_codec =
      let ident = last_ident value in
      if is_named ident (bytes "Json")
      then (do
        inner ← required_type_argument value (bytes "Json")
        ok (json_codec, json_wrapper, some inner))
      else if is_named ident (bytes "Proto")
      then (do
        inner ← required_type_argument value (bytes "Proto")
        ok (protobuf_codec, proto_wrapper, some inner))
      else if is_named ident (bytes "Body")
      then ok (raw_codec, body_wrapper, none)
      else if is_named ident (bytes "Text")
      then ok (utf8_codec, text_wrapper, none)
      else ok (default_codec, direct, some value)

  unfoldable pub classify_payload : Ty → WireCodec → Result SynError (PayloadModel Ty)
  unfolding last_ident inner_of required_type_argument
  classify_payload ty default_codec =
      let (optional, present) = peeled ty (option_inner ty) in
      let (encrypted, value) = peeled present (encryption_inner present) in
      do
        (codec, wrapper, decoded_type) ← payload_value value default_codec
        ok (record {
          codec = codec;
          wrapper = wrapper;
          optional = optional;
          encrypted = encrypted;
          decoded_type = decoded_type;
        })

  unfoldable pub classify_response_value : Ty → WireCodec × Wrapper
  unfolding last_ident is_unit is_vec_u8 is_str_reference
  classify_response_value ty =
      let ident = last_ident ty in
      if is_unit ty
      then (empty_codec, direct)
      else if is_named ident (bytes "Response")
      then (raw_codec, response_wrapper)
      else if is_named ident (bytes "Json")
      then (json_codec, json_wrapper)
      else if is_named ident (bytes "Proto")
      then (protobuf_codec, proto_wrapper)
      else if is_named ident (bytes "Bytes") || is_named ident (bytes "String")
      then (raw_codec, direct)
      else if is_named ident (bytes "Vec") && is_vec_u8 ty
      then (raw_codec, direct)
      else if is_str_reference ty
      then (utf8_codec, direct)
      else (json_codec, direct)

  abbrev pub or_else_ty : Ty → Option Ty → Ty
  or_else_ty ty none = ty
  or_else_ty ty (some inner) = inner

  unfoldable pub response_wire_type : Ty → Ty
  unfolding last_ident last_type_argument
  response_wire_type ty =
      if is_named (last_ident ty) (bytes "Json") || is_named (last_ident ty) (bytes "Proto")
      then or_else_ty ty (last_type_argument ty)
      else or_else_ty ty (elem_of (syn.shape ty))

  abbrev pub ok_and_error : Ty → Option (Ty × Ty) → Ty × Option Ty
  ok_and_error declared none = (declared, none)
  ok_and_error declared (some (value, error)) = (value, some error)

  unfoldable pub classify_response :
      Method Ty → OperationOptions Ty → OperationKind → ResponseModel Ty
  unfolding result_types inner_of response_wire_type classify_response_value
  classify_response method options kind =
      let declared = or_else_ty syn.unit method.output in
      let (ok_type, error_type) = ok_and_error declared (result_types declared) in
      let (optional, present) = peeled ok_type (option_inner ok_type) in
      let (encrypted, value_type) = peeled present (encryption_inner present) in
      let wire_type = or_else_ty (response_wire_type value_type) options.response in
      let (codec, wrapper) = classify_response_value value_type in
      if is_consumer kind
      then record {
        ok_type = ok_type;
        error_type = error_type;
        wire_type = wire_type;
        codec = empty_codec;
        wrapper = direct;
        optional = false;
        encrypted = encrypted;
      }
      else record {
        ok_type = ok_type;
        error_type = error_type;
        wire_type = wire_type;
        codec = codec;
        wrapper = wrapper;
        optional = optional;
        encrypted = encrypted;
      }
