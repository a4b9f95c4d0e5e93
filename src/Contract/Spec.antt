-- ===== src/Contract/Spec.antt =====
-- nats-micro/src/spec.rs: what the macros tell of a service at compile time.
use nats_micro.Prelude.{ℕ, Bool, true, false, List, Option, Str}
use nats_micro.Prelude.Int.{ℤ}

pub data OperationKind : Type 0 where
  request publish subscribe consumer : OperationKind

pub data Codec : Type 0 where
  json protobuf raw utf8 empty : Codec

pub data AuthPolicy : Type 0 where
  none optional required : AuthPolicy

unfoldable pub auth_required : AuthPolicy → Bool
auth_required AuthPolicy.none = false
auth_required optional = false
auth_required required = true

pub record ParamSpec : Type 0 where
  pub name : Str
  pub segment : ℕ
  pub rust_type : Str

pub record OperationSpec : Type 0 where
  pub service_name : Str
  pub service_version : Str
  pub rust_name : Str
  pub kind : OperationKind
  pub subject : Str
  pub subject_template : Str
  pub queue_group : Option Str
  pub request_codec : Codec
  pub response_codec : Codec
  pub request_encrypted : Bool
  pub response_encrypted : Bool
  pub request_type : Option Str
  pub response_type : Option Str
  pub error_type : Option Str
  pub auth : AuthPolicy
  pub concurrency : ℕ
  pub params : List ParamSpec

pub record ConsumerSpec : Type 0 where
  pub service_name : Str
  pub service_version : Str
  pub rust_name : Str
  pub stream : Str
  pub durable : Str
  pub filter_subject : Str
  pub concurrency : ℕ
  pub ack_wait_ms : ℕ
  pub max_deliver : ℤ
  pub backoff_ms : List ℕ

pub record ServiceSpec : Type 0 where
  pub name : Str
  pub version : Str
  pub description : Str
  pub prefix : Str
  pub operations : List OperationSpec
  pub consumers : List ConsumerSpec
