-- ===== src/Macros/Accepted.antt =====
-- A service that the macro accepts, and its contract document (nats-micro/src/contract.rs).
use nats_micro.Macros.Checked.{
  validate_token-ne, validate_version-IsSemver, IsText, IsChecked, AreChecked,
  validate_methods-AreChecked,
}
use nats_micro.Prelude.{
  ◌≡◌, refl, ap, ◌≢◌, List, [], ◌∷◌, map, Option, none, some, Str, All, arith, ok, Bool-cases, inl,
  inr,
}
use nats_micro.Contract.{
  ContractOperation, ContractConsumer, document_of, contract_operation, contract_consumer,
  validate_contract,
}
use nats_micro.Contract.Semver.{IsSemver}
use nats_micro.Contract.Validity.{
  IsContract, IsOperation, IsConsumer, subject_of, validate_contract_iff,
}
use nats_micro.Macros.Template.{is_consumer}
use nats_micro.Macros.Model.{Syn, OperationModel, ServiceModel}
use nats_micro.Macros.Options.{or_value}
use nats_micro.Macros.Validate.{validate_service}
use nats_micro.Macros.Checks.{Features}
use nats_micro.Macros.Metadata.{
  operation_spec, consumer_spec, operations_of, served, consumed, service_spec,
}

module _ {Ty : Type 0} (syn : Syn Ty) (name version : Str) where
  abbrev contracted : OperationModel Ty → ContractOperation
  contracted op = contract_operation (operation_spec syn op name version)

  abbrev consuming : OperationModel Ty → ContractConsumer
  consuming op = contract_consumer (consumer_spec syn op name version)

  subjects_lem :
      (ops : List (OperationModel Ty))
      → map subject_of (map contract_operation (map (λ op. operation_spec syn op name version) ops))
        ≡ map (λ op. op.subject.pattern) ops
  unfolding contract_operation operation_spec
  subjects_lem [] = refl
  subjects_lem (op ∷ ops) = ap (◌∷◌ op.subject.pattern) (subjects_lem ops)

  served-IsOperation :
      (ops : List (OperationModel Ty))
      → All IsChecked ops
      → All IsOperation
          (map contract_operation (map (λ op. operation_spec syn op name version) (served ops)))
  unfolding served contract_operation operation_spec
  served-IsOperation [] h = tt
  served-IsOperation (op ∷ ops) (checked, h) = elim (Bool-cases (is_consumer op.kind)) [
    | inl consumes ↦ rw consumes (served-IsOperation ops h)
    | inr serves ↦ rw serves ((checked.addressed, checked.concurrent), served-IsOperation ops h)
  ]

  text_kept : (text : Option Str) → IsText text → or_value [] text ≢ []
  text_kept none h = absurd h
  text_kept (some text) h = h

  consumed-IsConsumer :
      (ops : List (OperationModel Ty))
      → All IsChecked ops
      → All IsConsumer
          (map contract_consumer (map (λ op. consumer_spec syn op name version) (consumed ops)))
  unfolding consumed contract_consumer consumer_spec
  consumed-IsConsumer [] h = tt
  consumed-IsConsumer (op ∷ ops) (checked, h) = elim (Bool-cases (is_consumer op.kind)) [
    | inl consumes ↦
        let (stream, durable) = checked.bound consumes in
        rw consumes (
          (
            text_kept op.options.stream stream,
            text_kept op.options.durable durable,
            checked.addressed,
            checked.concurrent,
          ),
          consumed-IsConsumer ops h,
        )
    | inr serves ↦ rw serves (consumed-IsConsumer ops h)
  ]

module _ {Ty : Type 0} (syn : Syn Ty) (features : Features) (model : ServiceModel Ty) where
  service_spec-IsContract :
      IsSemver model.args.version
      → model.args.name ≢ []
      → AreChecked syn features model [] (operations_of model.methods)
      → IsContract (document_of (service_spec syn model))
  unfolding document_of service_spec
  service_spec-IsContract versioned named (checked, apart, fresh) =
      let name = model.args.name in
      let version = model.args.version in
      let ops = operations_of model.methods in
      record {
        named = named;
        versioned = versioned;
        operations = served-IsOperation syn name version ops checked;
        distinct = rw (subjects_lem syn name version (served ops)) apart;
        consumers = consumed-IsConsumer syn name version ops checked;
      }

  -- The contract document of a service that the macro accepts is accepted by the validation of
  -- contracts.
  pub validate_service-validate_contract :
      validate_service syn features model ≡ ok tt
      → validate_contract (document_of (service_spec syn model)) ≡ ok tt
  unfolding validate_service
  validate_service-validate_contract h =
      (validate_contract_iff (document_of (service_spec syn model))).1 (
        service_spec-IsContract (ground (arith, validate_version-IsSemver model.args.version))
          (ground (arith, validate_token-ne model.args.name))
          (validate_methods-AreChecked syn features model [] [] model.methods (ground arith)))
