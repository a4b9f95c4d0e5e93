-- ===== src/Macros/Validate.antt =====
-- nats-micro-macros/src/service/validate.rs: the checks of a service's model. Of the error that
-- names an earlier declaration, the first part is kept.
use nats_micro.Macros.Checks.{
  Features, validate_version, validate_token, validate_subject, contains_text, tokens_from, is_auth,
  payload_of, is_param, is_encrypted_payload, is_response_wrapper, inferred_auth, check_auth,
  declared_auth, is_reference, is_zero_option,
}
use nats_micro.Prelude.{
  ℕ, Bool, true, false, not, ◌&&◌, ◌||◌, List, [], ◌∷◌, Option, none, some, Str, bytes, str_eq, any,
  is_empty, ◌==◌, contains, if◌then◌else◌, Result, ok, ◌>>=◌, ◌>>◌, ensure,
}
use nats_micro.Macros.Template.{is_consumer, is_called}
use nats_micro.Macros.Model.{
  Shape, path_type, reference_type, tuple_type, unsupported, other_type, Syn, SynError,
  default_concurrency, zero_concurrency, duplicate_name, duplicate_subject, duplicate_placeholder,
  unmatched_placeholder, state_mismatch, inner_encryption, without_encryption, without_json,
  without_protobuf, encrypted_kind, without_stream, without_durable, without_filter, zero_ack_wait,
  zero_backoff, optional_response, borrowed_response, without_napi, napi_type, WireCodec,
  json_codec, protobuf_codec, raw_codec, utf8_codec, empty_codec, PayloadModel, ArgumentKind, state,
  state_ref, subject_param, header_param, headers, request_meta, auth, payload, ArgumentModel,
  OperationModel, MethodModel, ServiceModel,
}
use nats_micro.Macros.Classify.{names, option_inner, inner_of, or_else_ty}
use nats_micro.Macros.Parse.{operation}
use nats_micro.Macros.Options.{or_value, or_option, or_error}

module _ {Ty : Type 0} where
  -- Only whether the two counts are 0 is asked.
  abbrev pub has_auth : Bool → List (ArgumentModel Ty) → Bool
  has_auth optional = any (λ argument. is_auth optional argument.kind)

  unfoldable pub validate_auth : ServiceModel Ty → OperationModel Ty → Result SynError (Unit {0})
  validate_auth model operation =
      let required = has_auth false operation.arguments in
      let optional = has_auth true operation.arguments in
      let declared =
        or_value (declared_auth model.args.defaults.auth (inferred_auth required optional))
          operation.options.auth in
      check_auth declared required optional

  unfoldable pub validate_consumer : OperationModel Ty → Result SynError (Unit {0})
  unfolding validate_token
  validate_consumer operation = do
    stream ← or_error without_stream operation.options.stream
    durable ← or_error without_durable operation.options.durable
    ensure (not (is_empty operation.subject.pattern)) without_filter
    validate_token stream
    validate_token durable
    ensure (not (is_zero_option operation.options.ack_wait_ms)) zero_ack_wait
    ensure (not (any (λ ms. ms == 0) operation.options.backoff_ms)) zero_backoff

  -- The loop over the placeholders, with those before.
  unfoldable pub check_placeholders :
      List (ArgumentModel Ty) → List Str → List (Str × ℕ) → Result SynError (Unit {0})
  check_placeholders arguments seen [] = ok tt
  check_placeholders arguments seen ((name, index) ∷ placeholders) = do
    ensure (not (contains seen name)) (duplicate_placeholder name)
    ensure (any (λ argument. is_param name argument.kind) arguments) (unmatched_placeholder name)
    check_placeholders arguments (name ∷ seen) placeholders

  abbrev pub is_encrypted : OperationModel Ty → Bool
  is_encrypted operation =
      operation.response.encrypted
      || any (λ argument. is_encrypted_payload (payload_of argument.kind)) operation.arguments

module _ {Ty : Type 0} (syn : Syn Ty) (features : Features) where
  unfoldable pub validate_codec : WireCodec → Result SynError (Unit {0})
  validate_codec json_codec = ensure features.json without_json
  validate_codec protobuf_codec = ensure features.protobuf without_protobuf
  validate_codec raw_codec = ok tt
  validate_codec utf8_codec = ok tt
  validate_codec empty_codec = ok tt

  unfoldable pub type_contains_encrypted : Ty → Bool
  type_contains_encrypted ty = any (str_eq (bytes "Encrypted")) (tokens_from [] (syn.text ty))

  abbrev pub check_payload : Ty → Option (PayloadModel Ty) → Result SynError (Unit {0})
  check_payload ty none = ok tt
  check_payload ty (some model) = do
    ensure (not (is_reference (syn.shape ty))) state_mismatch
    validate_codec model.codec
    ensure (not (type_contains_encrypted ty && not model.encrypted)) inner_encryption
    ensure (not (model.encrypted && not features.encryption)) without_encryption

  unfoldable pub check_arguments : List (ArgumentModel Ty) → Result SynError (Unit {0})
  unfolding validate_codec type_contains_encrypted
  check_arguments [] = ok tt
  check_arguments (argument ∷ arguments) = do
    check_payload argument.ty (payload_of argument.kind)
    check_arguments arguments

  abbrev pub has_lifetime : Option Str → Str → Bool
  has_lifetime none name = false
  has_lifetime (some lifetime) name = str_eq lifetime name

  abbrev pub is_given : Option Ty → Bool
  is_given none = false
  is_given (some ty) = true

  -- A borrowed result, other than `&'static str`, needs an owned type for the wire.
  abbrev pub borrowed_result : Shape Ty → Bool
  borrowed_result (path_type qself leading_colon segments) = false
  borrowed_result (reference_type lifetime mutability elem) =
      not (names syn (some elem) (bytes "str") && has_lifetime lifetime (bytes "static"))
  borrowed_result (tuple_type elems) = false
  borrowed_result unsupported = false
  borrowed_result other_type = false

  unfoldable pub validate_response : OperationModel Ty → Result SynError (Unit {0})
  unfolding inner_of
  validate_response operation =
      let response = operation.response in
      let value =
        if response.optional
        then or_else_ty syn response.ok_type (option_inner syn response.ok_type)
        else response.ok_type in
      do
        ensure (not (response.optional && is_response_wrapper response.wrapper)) optional_response
        ensure
            (not (borrowed_result (syn.shape value) && not (is_given operation.options.response)))
            borrowed_response

  abbrev pub check_queue : Option Str → Result SynError (Unit {0})
  check_queue none = ok tt
  check_queue (some queue) = validate_token queue

  unfoldable pub validate_operation :
      ServiceModel Ty → OperationModel Ty → Result SynError (Unit {0})
  validate_operation model operation = do
    let response = operation.response
    ensure (not (or_value model.args.defaults.concurrency operation.options.concurrency == 0))
        zero_concurrency
    check_queue (or_option operation.options.queue model.args.defaults.queue)
    validate_subject operation.subject.pattern
    check_placeholders operation.arguments [] operation.subject.placeholders
    check_arguments operation.arguments
    validate_auth model operation
    validate_codec response.codec
    validate_response operation
    ensure (not (type_contains_encrypted response.ok_type && not response.encrypted))
        inner_encryption
    ensure (not (response.encrypted && not features.encryption)) without_encryption
    ensure (not (is_encrypted operation && not (is_called operation.kind))) encrypted_kind
    if is_consumer operation.kind then validate_consumer operation else ok tt

  -- The loop over the methods, with the names and subjects before.
  unfoldable pub validate_methods :
      ServiceModel Ty → List Str → List Str → List (MethodModel Ty) → Result SynError (Unit {0})
  unfolding operation
  validate_methods model rust_names subjects [] = ok tt
  validate_methods model rust_names subjects (method ∷ methods) = elim (operation method) [
    | none ↦ validate_methods model rust_names subjects methods
    | some op ↦ do
      ensure (not (contains rust_names op.method.ident)) (duplicate_name op.method.ident)
      validate_operation model op
      ensure (is_consumer op.kind || not (contains subjects op.subject.pattern))
          (duplicate_subject op.subject.pattern)
      validate_methods model (op.method.ident ∷ rust_names)
          (if is_consumer op.kind then subjects else op.subject.pattern ∷ subjects) methods
  ]

  abbrev pub unsupported_texts : List Str
  unsupported_texts =
      bytes "HashMap"
      ∷ bytes "BTreeMap"
      ∷ bytes "Rc"
      ∷ bytes "Arc"
      ∷ bytes "RequestMeta"
      ∷ bytes "Headers"
      ∷ []

  unfoldable pub validate_napi_type : Ty → Result SynError (Unit {0})
  validate_napi_type ty =
      ensure (not (any (λ name. contains_text name (syn.text ty)) unsupported_texts)) napi_type

  abbrev pub is_client_argument : ArgumentKind Ty → Bool
  is_client_argument state = false
  is_client_argument (state_ref ty) = false
  is_client_argument (subject_param name segment) = true
  is_client_argument (header_param name optional) = false
  is_client_argument headers = false
  is_client_argument request_meta = false
  is_client_argument (auth claims optional) = false
  is_client_argument (payload model) = true

  abbrev pub check_napi_arguments : List (ArgumentModel Ty) → Result SynError (Unit {0})
  check_napi_arguments [] = ok tt
  check_napi_arguments (argument ∷ arguments) = do
    if is_client_argument argument.kind then validate_napi_type argument.ty else ok tt
    check_napi_arguments arguments

  unfoldable pub validate_napi_model : List (MethodModel Ty) → Result SynError (Unit {0})
  unfolding operation validate_napi_type
  validate_napi_model [] = ok tt
  validate_napi_model (method ∷ methods) = elim (operation method) [
    | none ↦ validate_napi_model methods
    | some op ↦
        if is_called op.kind
        then (do
          check_napi_arguments op.arguments
          validate_napi_type op.response.wire_type
          validate_napi_model methods)
        else validate_napi_model methods
  ]

  abbrev pub check_napi : Bool → List (MethodModel Ty) → Result SynError (Unit {0})
  check_napi false methods = ok tt
  check_napi true methods = do ensure features.napi without_napi; validate_napi_model methods

  unfoldable pub validate_service : ServiceModel Ty → Result SynError (Unit {0})
  validate_service model = do
    validate_version model.args.version
    validate_token model.args.name
    validate_subject model.args.prefix
    ensure (not (model.args.defaults.concurrency == 0)) default_concurrency
    validate_methods model [] [] model.methods
    check_napi model.args.napi model.methods
