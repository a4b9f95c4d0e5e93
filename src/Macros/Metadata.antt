-- ===== src/Macros/Metadata.antt =====
-- nats-micro-macros/src/service/metadata.rs: the specification that the macro writes for a service,
-- as the value that its tokens denote.
use nats_micro.Prelude.{
  ◌%◌, ◌^◌, true, false, not, List, [], ◌∷◌, map, Option, none, some, Str, any, if◌then◌else◌,
  select,
}
use nats_micro.Prelude.Int.{pos}
use nats_micro.Contract.Spec
use nats_micro.Contract.Spec.{
  Codec, AuthPolicy, ParamSpec, OperationSpec, ConsumerSpec, ServiceSpec,
}
use nats_micro.Macros.Template.{OperationKind, request, publish, subscribe, consumer, is_consumer}
use nats_micro.Macros.Model.{
  Syn, AuthIntent, no_auth, optional_auth, required_auth, WireCodec, json_codec, protobuf_codec,
  raw_codec, utf8_codec, empty_codec, PayloadModel, state, state_ref, subject_param, header_param,
  headers, request_meta, auth, payload, ArgumentModel, OperationModel, MethodModel, ServiceModel,
}
use nats_micro.Macros.Classify.{is_unit}
use nats_micro.Macros.Parse.{operation}
use nats_micro.Macros.Options.{or_value}
use nats_micro.Macros.Validate.{has_auth}
use nats_micro.Macros.Checks.{payload_of, is_encrypted_payload, inferred_auth}

abbrev pub kind_tokens : OperationKind → Spec.OperationKind
kind_tokens request = Spec.OperationKind.request
kind_tokens publish = Spec.OperationKind.publish
kind_tokens subscribe = Spec.OperationKind.subscribe
kind_tokens consumer = Spec.OperationKind.consumer

unfoldable pub codec_tokens : WireCodec → Codec
codec_tokens json_codec = Codec.json
codec_tokens protobuf_codec = Codec.protobuf
codec_tokens raw_codec = Codec.raw
codec_tokens utf8_codec = Codec.utf8
codec_tokens empty_codec = Codec.empty

abbrev pub policy_tokens : AuthIntent → AuthPolicy
policy_tokens no_auth = AuthPolicy.none
policy_tokens optional_auth = AuthPolicy.optional
policy_tokens required_auth = AuthPolicy.required

module _ {Ty : Type 0} where
  -- The first payload among the arguments, with its type.
  abbrev pub first_payload : List (ArgumentModel Ty) → Option (Ty × PayloadModel Ty)
  first_payload [] = none
  first_payload (argument ∷ arguments) = elim (payload_of argument.kind) [
    | none ↦ first_payload arguments
    | some model ↦ some (argument.ty, model)
  ]

  abbrev pub request_codec_of : Option (Ty × PayloadModel Ty) → Codec
  request_codec_of none = codec_tokens empty_codec
  request_codec_of (some (ty, model)) = codec_tokens model.codec

  unfoldable pub auth_policy : OperationModel Ty → AuthPolicy
  auth_policy op = policy_tokens (
      or_value (inferred_auth (has_auth false op.arguments) (has_auth true op.arguments))
        op.options.auth)

  -- `methods.iter().filter_map(MethodModel::operation)`
  unfoldable pub operations_of : List (MethodModel Ty) → List (OperationModel Ty)
  unfolding operation
  operations_of [] = []
  operations_of (method ∷ methods) = elim (operation method) [
    | none ↦ operations_of methods
    | some op ↦ op ∷ operations_of methods
  ]

  unfoldable pub served : List (OperationModel Ty) → List (OperationModel Ty)
  served = select (λ op. not (is_consumer op.kind))

  unfoldable pub consumed : List (OperationModel Ty) → List (OperationModel Ty)
  consumed = select (λ op. is_consumer op.kind)

module _ {Ty : Type 0} (syn : Syn Ty) where
  abbrev pub text_of : Option Ty → Option Str
  text_of none = none
  text_of (some ty) = some (syn.text ty)

  abbrev pub type_of : Option (Ty × PayloadModel Ty) → Option Str
  type_of none = none
  type_of (some (ty, model)) = some (syn.text ty)

  -- `#segment as u16`
  abbrev pub param_specs : List (ArgumentModel Ty) → List ParamSpec
  param_specs [] = []
  param_specs (argument ∷ arguments) = elim argument.kind [
    | state ↦ param_specs arguments
    | state_ref ty ↦ param_specs arguments
    | subject_param name segment ↦
        record { name = name; segment = segment % 2 ^ 16; rust_type = syn.text argument.ty }
        ∷ param_specs arguments
    | header_param name optional ↦ param_specs arguments
    | headers ↦ param_specs arguments
    | request_meta ↦ param_specs arguments
    | auth claims optional ↦ param_specs arguments
    | payload model ↦ param_specs arguments
  ]

  unfoldable pub operation_spec : OperationModel Ty → Str → Str → OperationSpec
  unfolding codec_tokens auth_policy is_unit
  operation_spec op service_name service_version = record {
    service_name = service_name;
    service_version = service_version;
    rust_name = op.method.ident;
    kind = kind_tokens op.kind;
    subject = op.subject.pattern;
    subject_template = op.subject.template;
    queue_group = op.options.queue;
    request_codec = request_codec_of (first_payload op.arguments);
    response_codec = codec_tokens op.response.codec;
    request_encrypted = any (λ a. is_encrypted_payload (payload_of a.kind)) op.arguments;
    response_encrypted = op.response.encrypted;
    request_type = type_of (first_payload op.arguments);
    response_type =
        if is_unit syn op.response.wire_type then none else some (syn.text op.response.wire_type);
    error_type = text_of op.response.error_type;
    auth = auth_policy op;
    concurrency = or_value 256 op.options.concurrency;
    params = param_specs op.arguments;
  }

  unfoldable pub consumer_spec : OperationModel Ty → Str → Str → ConsumerSpec
  consumer_spec op service_name service_version = record {
    service_name = service_name;
    service_version = service_version;
    rust_name = op.method.ident;
    stream = or_value [] op.options.stream;
    durable = or_value [] op.options.durable;
    filter_subject = op.subject.pattern;
    concurrency = or_value 256 op.options.concurrency;
    ack_wait_ms = or_value 30000 op.options.ack_wait_ms;
    max_deliver = or_value (pos 5) op.options.max_deliver;
    backoff_ms = op.options.backoff_ms;
  }

  -- `StaticService::SPEC`, as `generate` writes it.
  unfoldable pub service_spec : ServiceModel Ty → ServiceSpec
  unfolding operations_of served consumed operation_spec consumer_spec
  service_spec model =
      let name = model.args.name in
      let version = model.args.version in
      let operations = operations_of model.methods in
      record {
        name = name;
        version = version;
        description = model.args.description;
        prefix = model.args.prefix;
        operations = map (λ op. operation_spec op name version) (served operations);
        consumers = map (λ op. consumer_spec op name version) (consumed operations);
      }
