-- ===== src/Contract/Tests.antt =====
-- A contract document and a version.
use nats_micro.Prelude.{
  Bool, true, false, List, [], ◌∷◌, Option, none, some, Str, bytes, ◌≡◌, refl, ◌↔◌, Result, ok, err,
}
use nats_micro.Contract.Spec
use nats_micro.Contract.Spec.{Codec, AuthPolicy}
use nats_micro.Contract.{
  ContractOperation, ContractConsumer, ContractDocument, valid_semver, validate_contract,
  duplicate_subject,
}
use nats_micro.Contract.Semver.{IsSemver, valid_semver_iff}
use nats_micro.Contract.Validity.{IsContract, validate_contract_iff}
use nats_micro.Prelude.Int.{pos}

abbrev operation : ContractOperation
operation = record {
  rust_name = bytes "get";
  kind = Spec.OperationKind.request;
  subject = bytes "shop.v1.orders.*";
  subject_template = bytes "shop.v1.orders.{id}";
  queue_group = none;
  request_codec = Codec.empty;
  response_codec = Codec.json;
  request_encrypted = false;
  response_encrypted = false;
  request_type = none;
  response_type = some (bytes "Order");
  error_type = none;
  auth = AuthPolicy.none;
  concurrency = 4;
  params = [];
}

abbrev consumer : ContractConsumer
consumer = record {
  rust_name = bytes "placed";
  stream = bytes "ORDERS";
  durable = bytes "worker";
  filter_subject = bytes "orders.placed";
  concurrency = 4;
  ack_wait_ms = 30000;
  max_deliver = pos 5;
  backoff_ms = [];
}

abbrev document : List ContractOperation → ContractDocument
document operations = record {
  service = record {
    name = bytes "shop";
    version = bytes "1.0.0-rc.1";
    description = [];
    prefix = bytes "shop";
    operations = operations;
    consumers = consumer ∷ [];
  };
}

twice_refused :
    validate_contract (document (operation ∷ operation ∷ []))
    ≡ err (duplicate_subject (bytes "shop.v1.orders.*"))
unfolding validate_contract valid_semver nats_micro.Contract.check_operations
    nats_micro.Prelude.str_eq
twice_refused = refl

once_accepted : validate_contract (document (operation ∷ [])) ≡ ok tt
unfolding validate_contract valid_semver nats_micro.Contract.check_operations
    nats_micro.Contract.check_consumers
once_accepted = refl

validate_contract_iff_example :
    (validate_contract (document (operation ∷ [])) ≡ ok tt) ↔ IsContract (document (operation ∷ []))
validate_contract_iff_example = validate_contract_iff (document (operation ∷ []))

valid_semver_iff_example :
    (valid_semver (bytes "1.0.0-rc.1") ≡ true) ↔ IsSemver (bytes "1.0.0-rc.1")
valid_semver_iff_example = valid_semver_iff (bytes "1.0.0-rc.1")
