-- ===== src/Contract/Validity.antt =====
-- `ContractDocument::validate` beside what a valid contract is.
use nats_micro.Prelude.{
  AreFresh-cons_iff, AreFresh-nil, AreFresh, ◌<◌, ◌≡◌, refl, ◌≢◌, ◌↔◌, true, false, List, [], ◌∷◌,
  map, Str, All, Distinct, contains, contains_iff, arith, ok, is_empty,
}
use nats_micro.Contract.{
  ContractOperation, ContractConsumer, ContractDocument, check_operations, check_consumers,
  validate_contract, valid_semver,
}
use nats_micro.Contract.Semver.{IsSemver, valid_semver_iff}

abbrev pub subject_of : ContractOperation → Str
subject_of operation = operation.subject

abbrev pub IsOperation : ContractOperation → Type 0
IsOperation operation = (operation.subject ≢ []) × (0 < operation.concurrency)

abbrev pub IsConsumer : ContractConsumer → Type 0
IsConsumer consumer =
    (consumer.stream ≢ [])
    × (consumer.durable ≢ [])
    × (consumer.filter_subject ≢ [])
    × (0 < consumer.concurrency)

-- Subjects are told apart, and nothing that a worker needs is missing.
pub record IsContract (document : ContractDocument) : Type 0 where
  pub named : document.service.name ≢ []
  pub versioned : IsSemver document.service.version
  pub operations : All IsOperation document.service.operations
  pub distinct : Distinct (map subject_of document.service.operations)
  pub consumers : All IsConsumer document.service.consumers

pub not_empty_iff {ℓ} : {A : Type ℓ} (xs : List A) → (is_empty xs ≡ false) ↔ (xs ≢ [])
not_empty_iff [] = (λ h. cc, λ h. absurd (h refl))
not_empty_iff (x ∷ xs) = (λ h e. cc, λ h. refl)

check_operations_step :
    (seen : List Str) (operation : ContractOperation) (operations : List ContractOperation)
    → (check_operations seen (operation ∷ operations) ≡ ok tt) ↔ (
        (is_empty operation.subject ≡ false)
        × (0 < operation.concurrency)
        × (contains seen operation.subject ≡ false)
        × (check_operations (operation.subject ∷ seen) operations ≡ ok tt))
unfolding check_operations
check_operations_step seen operation operations = (λ h. ground arith, λ h. ground arith)

check_operations_iff :
    (seen : List Str) (operations : List ContractOperation)
    → (check_operations seen operations ≡ ok tt) ↔ (
        All IsOperation operations
        × Distinct (map subject_of operations)
        × AreFresh seen (map subject_of operations))
unfolding check_operations
check_operations_iff seen [] = (λ h. (tt, tt, tt), λ h. refl)
check_operations_iff seen (operation ∷ operations) =
    let (to, from) = check_operations_step seen operation operations in
    let (to_rest, from_rest) = check_operations_iff (operation.subject ∷ seen) operations in
    let (fresh_to, fresh_from) =
      AreFresh-cons_iff operation.subject seen (map subject_of operations) in
    (
      λ h.
          let (a, b, c, rest) = to h in
          let (ops, apart, fresh) = to_rest rest in
          let (mine, others) = fresh_to fresh in
          (
            (((not_empty_iff operation.subject).0 a, b), ops),
            (mine, apart),
            ((contains_iff seen operation.subject).0 c, others),
          ),
      λ (((ne, pos), ops), (mine, apart), (new, others)). from (
        (not_empty_iff operation.subject).1 ne,
        pos,
        (contains_iff seen operation.subject).1 new,
        from_rest (ops, apart, fresh_from (mine, others)),
      ),
    )

check_consumers_iff :
    (consumers : List ContractConsumer)
    → (check_consumers consumers ≡ ok tt) ↔ All IsConsumer consumers
unfolding check_consumers
check_consumers_iff [] = (λ h. tt, λ h. refl)
check_consumers_iff (consumer ∷ consumers) = ground (
  arith,
  check_consumers_iff consumers,
  not_empty_iff consumer.stream,
  not_empty_iff consumer.durable,
  not_empty_iff consumer.filter_subject,
)

validate_contract_steps :
    (document : ContractDocument)
    → (validate_contract document ≡ ok tt) ↔ (
        (is_empty document.service.name ≡ false)
        × (valid_semver document.service.version ≡ true)
        × (check_operations [] document.service.operations ≡ ok tt)
        × (check_consumers document.service.consumers ≡ ok tt))
unfolding validate_contract
validate_contract_steps document = (λ h. ground arith, λ h. ground arith)

-- A contract document is accepted exactly if its service has a name and a semantic version, its
-- operations have a subject each, no two the same, and a concurrency that is not 0, and its
-- consumers have a stream, a durable name, a filter and such a concurrency.
pub validate_contract_iff :
    (document : ContractDocument) → (validate_contract document ≡ ok tt) ↔ IsContract document
validate_contract_iff document =
    let service = document.service in
    let (to, from) = validate_contract_steps document in
    let (to_ops, from_ops) = check_operations_iff [] service.operations in
    (
      λ h.
          let (named, versioned, ops, consumers) = to h in
          let (each, apart, fresh) = to_ops ops in
          record {
            named = (not_empty_iff service.name).0 named;
            versioned = (valid_semver_iff service.version).0 versioned;
            operations = each;
            distinct = apart;
            consumers = (check_consumers_iff service.consumers).0 consumers;
          },
      λ h. from (
        (not_empty_iff service.name).1 h.named,
        (valid_semver_iff service.version).1 h.versioned,
        from_ops (h.operations, h.distinct, AreFresh-nil (map subject_of service.operations)),
        (check_consumers_iff service.consumers).1 h.consumers,
      ),
    )
