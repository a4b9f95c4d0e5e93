-- ===== src/Services.antt =====
-- nats-micro/src/app/services.rs: the services of an application, from the last one that was added
-- to the first, and the checks that they do not take each other's messages. A service is told by
-- its specification.
pub mod Compatible
pub mod CompileTime
pub mod Registered
mod Tests
use nats_micro.Prelude.{
  ℕ, zero, suc, Bool, true, false, not, ◌&&◌, List, [], ◌∷◌, map, Option, none, some, Str, str_eq,
  length, get_elem?, ◌==◌, if◌then◌else◌, Result, ok, err, ◌>>=◌,
}
use nats_micro.Contract.Spec.{OperationSpec, ConsumerSpec, ServiceSpec}

-- The service and the operation or consumer that took a key first, and those that take it again.
pub data StartError : Type 0 where
  duplicate_subject : (subject : Str) (other : Str × Str) (one : Str × Str) → StartError
  duplicate_consumer : (key : Str × Str) (other : Str × Str) (one : Str × Str) → StartError

abbrev pub pair_eq : Str × Str → Str × Str → Bool
pair_eq (a, b) (c, d) = str_eq a c && str_eq b d

module _ {K V : Type 0} (eq : K → K → Bool) where
  abbrev pub find : K → List (K × V) → Option V
  find key [] = none
  find key ((other, value) ∷ entries) = if eq key other then some value else find key entries

  -- Each entry is inserted; the first whose key is there already is an error.
  unfoldable pub register :
      (K → V → V → StartError) → List (K × V) → List (K × V) → Result StartError (List (K × V))
  register error known [] = ok known
  register error known ((key, value) ∷ entries) = elim (find key known) [
    | some other ↦ err (error key other value)
    | none ↦ register error ((key, value) ∷ known) entries
  ]

pub record ServiceSetValidator : Type 0 where
  pub operations : List (Str × (Str × Str))
  pub consumers : List ((Str × Str) × (Str × Str))

abbrev pub operation_entry : Str → OperationSpec → Str × (Str × Str)
operation_entry service operation = (operation.subject, (service, operation.rust_name))

abbrev pub consumer_entry : Str → ConsumerSpec → (Str × Str) × (Str × Str)
consumer_entry service consumer =
    ((consumer.stream, consumer.durable), (service, consumer.rust_name))

unfoldable pub add : ServiceSetValidator → ServiceSpec → Result StartError ServiceSetValidator
add validator service = do
  operations ←
      register str_eq duplicate_subject validator.operations
        (map (operation_entry service.name) service.operations)
  consumers ←
      register pair_eq duplicate_consumer validator.consumers
        (map (consumer_entry service.name) service.consumers)
  ok (record { operations = operations; consumers = consumers })

-- `Nil` and `Cons`
unfoldable pub validate_all : ServiceSetValidator → List ServiceSpec → Result StartError (Unit {0})
unfolding add
validate_all validator [] = ok tt
validate_all validator (head ∷ tail) = do added ← add validator head; validate_all added tail

unfoldable pub validate_service_set : List ServiceSpec → Result StartError (Unit {0})
unfolding validate_all
validate_service_set services = validate_all (record { operations = []; consumers = [] }) services

-- The loops of `assert_services_compatible`; `false` stands for the failed assertion.
unfoldable pub apart_from : {A : Type 0} → (A → A → Bool) → A → List A → Bool
apart_from same left [] = true
apart_from same left (right ∷ rights) = not (same left right) && apart_from same left rights

unfoldable pub all_apart : {A : Type 0} → (A → A → Bool) → List A → List A → Bool
unfolding apart_from
all_apart same [] rights = true
all_apart same (left ∷ lefts) rights = apart_from same left rights && all_apart same lefts rights

-- The loop of the compile-time `str_eq`, on the bytes from the index on.
unfoldable pub const_eq_from : ℕ → ℕ → Str → Str → Bool
const_eq_from zero index left right = true
const_eq_from (suc rounds) index left right = elim (get_elem? left index) [
  | none ↦ true
  | some a ↦ elim (get_elem? right index) [
    | none ↦ false
    | some b ↦ if a == b then const_eq_from rounds (suc index) left right else false
  ]
]

unfoldable pub const_str_eq : Str → Str → Bool
unfolding const_eq_from
const_str_eq left right =
    if length left == length right then const_eq_from (length left) 0 left right else false

abbrev pub same_subject : OperationSpec → OperationSpec → Bool
same_subject left right = const_str_eq left.subject right.subject

abbrev pub same_consumer : ConsumerSpec → ConsumerSpec → Bool
same_consumer left right =
    const_str_eq left.stream right.stream && const_str_eq left.durable right.durable

unfoldable pub assert_services_compatible : ServiceSpec → ServiceSpec → Bool
unfolding all_apart const_str_eq
assert_services_compatible left right =
    all_apart same_subject left.operations right.operations
    && all_apart same_consumer left.consumers right.consumers
