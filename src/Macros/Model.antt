-- ===== src/Macros/Model.antt =====
-- nats-micro-macros/src/service/mod.rs and args.rs: what the macro knows of a service; and the
-- trees of the package syn that it reads, as far as it looks into them.
use nats_micro.Prelude.{ℕ, Bool, List, Option, Str}
use nats_micro.Prelude.Int.{ℤ}
use nats_micro.Macros.Template.{OperationKind, SubjectModel, TemplateError}

-- `GenericArgument` and `PathArguments`
pub data Argument (Ty : Type 0) : Type 0 where
  type_argument : Ty → Argument Ty
  other_argument : Argument Ty

pub data Arguments (Ty : Type 0) : Type 0 where
  no_arguments : Arguments Ty
  angle_bracketed : List (Argument Ty) → Arguments Ty
  parenthesized : Arguments Ty

pub record PathSegment (Ty : Type 0) : Type 0 where
  pub ident : Str
  pub arguments : Arguments Ty

-- `syn::Type`. `unsupported` stands for the eight shapes that no payload can have.
pub data Shape (Ty : Type 0) : Type 0 where
  path_type : (qself leading_colon : Bool) → List (PathSegment Ty) → Shape Ty
  reference_type : (lifetime : Option Str) → (mutability : Bool) → Ty → Shape Ty
  tuple_type : List Ty → Shape Ty
  unsupported other_type : Shape Ty

-- A type's shape, and `to_token_stream().to_string()`; and the type `()`.
pub record Syn (Ty : Type 0) : Type 0 where
  pub shape : Ty → Shape Ty
  pub text : Ty → Str
  pub unit : Ty
  pub is_ident : Str → Bool

pub data SynError : Type 0 where
  in_template : TemplateError → SynError
  in_attribute : SynError
  -- args.rs
  duration_without_number duration_unit duration_too_large : SynError
  -- parse.rs
  trait_impl generic_impl unnamed_service qualified_service several_operations not_async : SynError
  -- classify.rs
  receiver_argument pattern_argument header_parameter header_type mutable_state : SynError
  without_state_type payload_shape second_payload duplicate_header : SynError
  without_type_argument : (wrapper : Str) → SynError
  -- validate.rs
  default_concurrency zero_concurrency invalid_version empty_text invalid_text : SynError
  duplicate_name duplicate_subject : Str → SynError
  duplicate_placeholder unmatched_placeholder : Str → SynError
  state_mismatch inner_encryption without_encryption without_json without_protobuf : SynError
  encrypted_kind without_stream without_durable without_filter zero_ack_wait zero_backoff : SynError
  auth_required_missing auth_optional_mismatch auth_none_mismatch : SynError
  optional_response borrowed_response without_napi napi_type : SynError

pub data AuthIntent : Type 0 where
  no_auth optional_auth required_auth : AuthIntent

pub data WireCodec : Type 0 where
  json_codec protobuf_codec raw_codec utf8_codec empty_codec : WireCodec

pub data Wrapper : Type 0 where
  direct json_wrapper proto_wrapper body_wrapper text_wrapper response_wrapper : Wrapper

pub record Defaults : Type 0 where
  pub concurrency : ℕ
  pub queue : Option Str
  pub timeout_ms : Option ℕ
  pub auth : AuthIntent
  pub codec : WireCodec

pub record PayloadModel (Ty : Type 0) : Type 0 where
  pub codec : WireCodec
  pub wrapper : Wrapper
  pub optional : Bool
  pub encrypted : Bool
  pub decoded_type : Option Ty

pub data ArgumentKind (Ty : Type 0) : Type 0 where
  state : ArgumentKind Ty
  state_ref : Ty → ArgumentKind Ty
  subject_param : (name : Str) → (segment : ℕ) → ArgumentKind Ty
  header_param : (name : Str) → (optional : Bool) → ArgumentKind Ty
  headers request_meta : ArgumentKind Ty
  auth : (claims : Ty) → (optional : Bool) → ArgumentKind Ty
  payload : PayloadModel Ty → ArgumentKind Ty

pub record ArgumentModel (Ty : Type 0) : Type 0 where
  pub ident : Str
  pub ty : Ty
  pub kind : ArgumentKind Ty

pub record ResponseModel (Ty : Type 0) : Type 0 where
  pub ok_type : Ty
  pub error_type : Option Ty
  pub wire_type : Ty
  pub codec : WireCodec
  pub wrapper : Wrapper
  pub optional : Bool
  pub encrypted : Bool

pub record OperationOptions (Ty : Type 0) : Type 0 where
  pub subject : Option Str
  pub queue : Option Str
  pub concurrency : Option ℕ
  pub timeout_ms : Option ℕ
  pub auth : Option AuthIntent
  pub response : Option Ty
  pub stream : Option Str
  pub durable : Option Str
  pub filter : Option Str
  pub ack_wait_ms : Option ℕ
  pub max_deliver : Option ℤ
  pub backoff_ms : List ℕ

-- An argument of a method: its identifier, if its pattern is one, and for each `#[header]`
-- attribute the name that it holds, if it parses.
pub data FnArg (Ty : Type 0) : Type 0 where
  receiver : FnArg Ty
  typed : (ident : Option Str) → (ty : Ty) → (headers : List (Option Str)) → FnArg Ty

-- An attribute: its path, and the options in it, if they parse.
pub record Attribute (Ty : Type 0) : Type 0 where
  pub path : Str
  pub options : Option (OperationOptions Ty)

-- `ImplItemFn`
pub record Method (Ty : Type 0) : Type 0 where
  pub ident : Str
  pub is_async : Bool
  pub attrs : List (Attribute Ty)
  pub inputs : List (FnArg Ty)
  pub output : Option Ty

-- `ItemImpl`: whether it implements a trait and is generic, its type, and its functions.
pub record ItemImpl (Ty : Type 0) : Type 0 where
  pub is_trait : Bool
  pub is_generic : Bool
  pub self_ty : Ty
  pub functions : List (Method Ty)

pub record OperationModel (Ty : Type 0) : Type 0 where
  pub kind : OperationKind
  pub method : Method Ty
  pub options : OperationOptions Ty
  pub subject : SubjectModel
  pub arguments : List (ArgumentModel Ty)
  pub response : ResponseModel Ty
  pub operation_index : Option ℕ
  pub consumer_index : Option ℕ

pub data MethodModel (Ty : Type 0) : Type 0 where
  request publish subscribe consumer : OperationModel Ty → MethodModel Ty
  ordinary : Method Ty → MethodModel Ty

pub record ServiceArgs (Ty : Type 0) : Type 0 where
  pub name : Str
  pub version : Str
  pub description : Str
  pub prefix : Str
  pub state_type : Ty
  pub defaults : Defaults
  pub napi : Bool

pub record ServiceModel (Ty : Type 0) : Type 0 where
  pub args : ServiceArgs Ty
  pub service_ident : Str
  pub state_type : Ty
  pub methods : List (MethodModel Ty)
