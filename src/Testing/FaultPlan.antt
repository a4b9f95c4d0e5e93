-- ===== src/Testing/FaultPlan.antt =====
-- nats-micro-testing/src/lib.rs: `FaultPlan`, the queue of planned transport failures. The mutex
-- gives each operation the whole queue.
pub mod Laws
use nats_micro.Prelude.{
  ℕ, Bool, true, false, ◌&&◌, List, [], ◌∷◌, ◌++◌, Option, some, none, Str, str_eq, length,
  position, remove,
}
use nats_micro.Errors.Transport.{TransportError}

pub data FaultOperation : Type 0 where
  request publish : FaultOperation

abbrev pub operation_eq : FaultOperation → FaultOperation → Bool
operation_eq request request = true
operation_eq publish publish = true
operation_eq _ _ = false

pub record PlannedFault : Type 0 where
  pub operation : FaultOperation
  pub subject : Str
  pub error : TransportError

abbrev pub FaultPlan : Type 0
FaultPlan = List PlannedFault

-- What `consume` answers: `Ok(())`, `Err(error)`, or the panic of its `expect`.
pub data Consumed : Type 0 where
  proceed : Consumed
  failed : TransportError → Consumed
  panicked : Consumed

push : FaultPlan → FaultOperation → Str → TransportError → FaultPlan
push faults operation subject error =
    faults ++ record { operation = operation; subject = subject; error = error } ∷ []

unfoldable pub timeout_next : FaultPlan → Str → FaultPlan
unfolding push
timeout_next faults subject = push faults request subject TransportError.timeout

unfoldable pub no_responders_for : FaultPlan → Str → FaultPlan
unfolding push
no_responders_for faults subject = push faults request subject TransportError.no_responders

unfoldable pub fail_next_publish : FaultPlan → Str → TransportError → FaultPlan
unfolding push
fail_next_publish faults subject error = push faults publish subject error

abbrev pub is_planned : FaultOperation → Str → PlannedFault → Bool
is_planned operation subject fault =
    operation_eq fault.operation operation && str_eq fault.subject subject

take_at : FaultPlan → Option (PlannedFault × FaultPlan) → FaultPlan × Consumed
take_at faults none = (faults, panicked)
take_at faults (some (fault, rest)) = (rest, failed fault.error)

consume_at : FaultPlan → Option ℕ → FaultPlan × Consumed
unfolding take_at
consume_at faults none = (faults, proceed)
consume_at faults (some index) = take_at faults (remove faults index)

consume : FaultPlan → FaultOperation → Str → FaultPlan × Consumed
unfolding consume_at
consume faults operation subject =
    consume_at faults (position (is_planned operation subject) faults)

unfoldable pub before_request : FaultPlan → Str → FaultPlan × Consumed
unfolding consume str_eq
before_request faults subject = consume faults request subject

unfoldable pub before_publish : FaultPlan → Str → FaultPlan × Consumed
unfolding consume str_eq
before_publish faults subject = consume faults publish subject

unfoldable pub pending : FaultPlan → ℕ
pending faults = length faults

-- `FaultPlan::clear`
unfoldable pub clear : FaultPlan → FaultPlan
clear faults = []
