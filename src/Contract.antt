-- ===== src/Contract.antt =====
-- nats-micro/src/contract.rs: the contract document of a service, and its validation.
pub mod Spec
pub mod Semver
pub mod Validity
mod Tests
use nats_micro.Prelude.{
  ℕ, Bool, true, false, not, ◌&&◌, ◌||◌, List, [], ◌∷◌, ◌++◌, map, Option, Str, bytes, all, leb,
  ◌==◌, is_empty, contains, if◌then◌else◌, Result, ok, err, ◌>>=◌, ◌>>◌, ensure,
}
use nats_micro.Prelude.Int.{ℤ}
use nats_micro.Subject.{split}
use nats_micro.Contract.Spec.{
  OperationKind, Codec, AuthPolicy, ParamSpec, OperationSpec, ConsumerSpec, ServiceSpec,
}

pub record ContractParam : Type 0 where
  pub name : Str
  pub segment : ℕ
  pub rust_type : Str

pub record ContractOperation : Type 0 where
  pub rust_name : Str
  pub kind : OperationKind
  pub subject : Str
  pub subject_template : Str
  pub queue_group : Option Str
  pub request_codec : Codec
  pub response_codec : Codec
  pub request_encrypted : Bool
  pub response_encrypted : Bool
  pub request_type : Option Str
  pub response_type : Option Str
  pub error_type : Option Str
  pub auth : AuthPolicy
  pub concurrency : ℕ
  pub params : List ContractParam

pub record ContractConsumer : Type 0 where
  pub rust_name : Str
  pub stream : Str
  pub durable : Str
  pub filter_subject : Str
  pub concurrency : ℕ
  pub ack_wait_ms : ℕ
  pub max_deliver : ℤ
  pub backoff_ms : List ℕ

pub record ContractService : Type 0 where
  pub name : Str
  pub version : Str
  pub description : Str
  pub prefix : Str
  pub operations : List ContractOperation
  pub consumers : List ContractConsumer

pub record ContractDocument : Type 0 where
  pub service : ContractService

unfoldable pub contract_param : ParamSpec → ContractParam
contract_param param = record {
  name = param.name;
  segment = param.segment;
  rust_type = param.rust_type;
}

unfoldable pub contract_operation : OperationSpec → ContractOperation
unfolding contract_param
contract_operation operation = record {
  rust_name = operation.rust_name;
  kind = operation.kind;
  subject = operation.subject;
  subject_template = operation.subject_template;
  queue_group = operation.queue_group;
  request_codec = operation.request_codec;
  response_codec = operation.response_codec;
  request_encrypted = operation.request_encrypted;
  response_encrypted = operation.response_encrypted;
  request_type = operation.request_type;
  response_type = operation.response_type;
  error_type = operation.error_type;
  auth = operation.auth;
  concurrency = operation.concurrency;
  params = map contract_param operation.params;
}

unfoldable pub contract_consumer : ConsumerSpec → ContractConsumer
contract_consumer consumer = record {
  rust_name = consumer.rust_name;
  stream = consumer.stream;
  durable = consumer.durable;
  filter_subject = consumer.filter_subject;
  concurrency = consumer.concurrency;
  ack_wait_ms = consumer.ack_wait_ms;
  max_deliver = consumer.max_deliver;
  backoff_ms = consumer.backoff_ms;
}

-- `From<ServiceContract<'_>>`
unfoldable pub document_of : ServiceSpec → ContractDocument
unfolding contract_operation contract_consumer
document_of service = record {
  service = record {
    name = service.name;
    version = service.version;
    description = service.description;
    prefix = service.prefix;
    operations = map contract_operation service.operations;
    consumers = map contract_consumer service.consumers;
  };
}

-- What the message of the error names.
pub data ContractValidationError : Type 0 where
  empty_name invalid_version : ContractValidationError
  empty_subject no_concurrency : (rust_name : Str) → ContractValidationError
  duplicate_subject : (subject : Str) → ContractValidationError
  incomplete_consumer no_consumer_concurrency : (rust_name : Str) → ContractValidationError

abbrev pub is_ascii_digit : ℕ → Bool
is_ascii_digit b = leb 48 b && leb b 57

abbrev pub is_number : Str → Bool
is_number part = not (is_empty part) && all is_ascii_digit part

abbrev pub opens_suffix : ℕ → Bool
opens_suffix b = b == b'-' || b == b'+'

-- `version.split_once(['-', '+'])`, and the part before it.
unfoldable pub core_of : Str → Str
core_of [] = []
core_of (b ∷ version) = let rest = core_of version in if opens_suffix b then [] else b ∷ rest

-- Three calls of `next` yield a part, and the fourth none.
abbrev pub are_three_numbers : List Str → Bool
are_three_numbers [] = false
are_three_numbers (major ∷ []) = false
are_three_numbers (major ∷ minor ∷ []) = false
are_three_numbers (major ∷ minor ∷ patch ∷ []) =
    is_number major && is_number minor && is_number patch
are_three_numbers (major ∷ minor ∷ patch ∷ more ∷ parts) = false

unfoldable pub valid_semver : Str → Bool
unfolding core_of split
valid_semver version = are_three_numbers (split (core_of version))

unfoldable pub check_operations :
    List Str → List ContractOperation → Result ContractValidationError (Unit {0})
check_operations subjects [] = ok tt
check_operations subjects (operation ∷ operations) = do
  ensure (not (is_empty operation.subject)) (empty_subject operation.rust_name)
  ensure (not (operation.concurrency == 0)) (no_concurrency operation.rust_name)
  ensure (not (contains subjects operation.subject)) (duplicate_subject operation.subject)
  check_operations (operation.subject ∷ subjects) operations

unfoldable pub check_consumers : List ContractConsumer → Result ContractValidationError (Unit {0})
check_consumers [] = ok tt
check_consumers (consumer ∷ consumers) = do
  ensure
      (not
        (is_empty consumer.stream || is_empty consumer.durable || is_empty consumer.filter_subject))
      (incomplete_consumer consumer.rust_name)
  ensure (not (consumer.concurrency == 0)) (no_consumer_concurrency consumer.rust_name)
  check_consumers consumers

unfoldable pub validate_contract : ContractDocument → Result ContractValidationError (Unit {0})
validate_contract document = do
  let service = document.service
  ensure (not (is_empty service.name)) empty_name
  ensure (valid_semver service.version) invalid_version
  check_operations [] service.operations
  check_consumers service.consumers

unfoldable pub subjects : ContractDocument → List Str
subjects document =
    map (λ operation. operation.subject) document.service.operations
    ++ map (λ consumer. consumer.filter_subject) document.service.consumers
