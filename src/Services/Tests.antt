-- ===== src/Services/Tests.antt =====
-- Two services of an application.
use nats_micro.Prelude.{
  Bool, true, false, List, [], ◌∷◌, Option, none, some, Str, bytes, ◌≡◌, refl, ◌↔◌, Result, ok, err,
  Distinct,
}
use nats_micro.Prelude.Int.{pos}
use nats_micro.Contract.Spec
use nats_micro.Contract.Spec.{Codec, AuthPolicy, OperationSpec, ConsumerSpec, ServiceSpec}
use nats_micro.Services.{validate_service_set, assert_services_compatible, duplicate_consumer}
use nats_micro.Services.Compatible.{validate_service_set_iff}
use nats_micro.Services.Registered.{all_subjects, all_consumers}
use nats_micro.Services.CompileTime.{validate_service_set-compatible}

abbrev operation : Str → OperationSpec
operation subject = record {
  service_name = bytes "shop";
  service_version = bytes "1.0.0";
  rust_name = bytes "get";
  kind = Spec.OperationKind.request;
  subject = subject;
  subject_template = subject;
  queue_group = none;
  request_codec = Codec.empty;
  response_codec = Codec.json;
  request_encrypted = false;
  response_encrypted = false;
  request_type = none;
  response_type = none;
  error_type = none;
  auth = AuthPolicy.none;
  concurrency = 4;
  params = [];
}

abbrev consumer : ConsumerSpec
consumer = record {
  service_name = bytes "shop";
  service_version = bytes "1.0.0";
  rust_name = bytes "placed";
  stream = bytes "ORDERS";
  durable = bytes "worker";
  filter_subject = bytes "orders.placed";
  concurrency = 4;
  ack_wait_ms = 30000;
  max_deliver = pos 5;
  backoff_ms = [];
}

abbrev service : Str → List OperationSpec → List ConsumerSpec → ServiceSpec
service name operations consumers = record {
  name = name;
  version = bytes "1.0.0";
  description = [];
  prefix = [];
  operations = operations;
  consumers = consumers;
}

abbrev shop : ServiceSpec
shop = service (bytes "shop") (operation (bytes "shop.get") ∷ []) (consumer ∷ [])

abbrev depot : ServiceSpec
depot = service (bytes "depot") (operation (bytes "depot.get") ∷ []) []

taken_twice :
    validate_service_set (shop ∷ service (bytes "depot") [] (consumer ∷ []) ∷ [])
    ≡ err (
        duplicate_consumer
          (bytes "ORDERS", bytes "worker")
          (bytes "shop", bytes "placed")
          (bytes "depot", bytes "placed"))
unfolding validate_service_set nats_micro.Services.register nats_micro.Prelude.str_eq
taken_twice = refl

validate_service_set_iff_example :
    (validate_service_set (shop ∷ depot ∷ []) ≡ ok tt)
    ↔ (Distinct (all_subjects (shop ∷ depot ∷ [])) × Distinct (all_consumers (shop ∷ depot ∷ [])))
validate_service_set_iff_example = validate_service_set_iff (shop ∷ depot ∷ [])

validate_service_set-compatible_example : (validate_service_set (shop ∷ depot ∷ []) ≡ ok tt) ↔ (
    (validate_service_set (shop ∷ []) ≡ ok tt)
    × (validate_service_set (depot ∷ []) ≡ ok tt)
    × (assert_services_compatible shop depot ≡ true))
validate_service_set-compatible_example = validate_service_set-compatible shop depot
