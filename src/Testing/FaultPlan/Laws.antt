-- ===== src/Testing/FaultPlan/Laws.antt =====
-- The operations of a fault plan beside a family of queues.
use nats_micro.Prelude.{
  Bool-cases, ℕ, suc, ◌≡◌, ◌↔◌, ◌⊎◌, inl, inr, refl, Bool, true, false, ◌&&◌, List, [], ◌∷◌, ◌++◌,
  some, Str, str_eq, str_eq_iff, length, select, map, if◌then◌else◌, arith, position, remove,
  Extract, position-remove, Extract-passes, select-Extract, select-Extract-none,
  select-Extract_other, length-Extract,
}
use nats_micro.Errors.Transport.{TransportError}
use nats_micro.Testing.FaultPlan.{
  FaultOperation, request, publish, operation_eq, PlannedFault, FaultPlan, Consumed, proceed,
  failed, push, timeout_next, no_responders_for, fail_next_publish, is_planned, take_at, consume_at,
  consume, before_request, before_publish,
}

-- The errors still planned for an operation on a subject, in their order.
unfoldable pub planned : FaultOperation → Str → FaultPlan → List TransportError
planned operation subject faults =
    map (λ fault. fault.error) (select (is_planned operation subject) faults)

-- The specification of `consume` on the queues: the oldest failure of the key is taken, and no
-- other key's queue changes.
abbrev pub Dequeues : FaultOperation → Str → FaultPlan → FaultPlan × Consumed → Type 0
Dequeues operation subject faults r =
    ((planned operation subject faults ≡ []) × (r.0 ≡ faults) × (r.1 ≡ proceed))
    ⊎ ((e : TransportError) × (planned operation subject faults ≡ e ∷ planned operation subject r.0)
        × (r.1 ≡ failed e)
        × (length faults ≡ suc (length r.0))
        × ((o : FaultOperation) (s : Str)
            → ((o ≡ operation) × (s ≡ subject)) ⊎ (planned o s r.0 ≡ planned o s faults)))

operation_eq_iff : (a b : FaultOperation) → (operation_eq a b ≡ true) ↔ (a ≡ b)
operation_eq_iff request request = ground arith
operation_eq_iff request publish = ground arith
operation_eq_iff publish request = ground arith
operation_eq_iff publish publish = ground arith

is_planned_other :
    (o p : FaultOperation) (s t : Str) (fault : PlannedFault)
    → is_planned p t fault ≡ true
    → ((o ≡ p) × (s ≡ t) → ⊥)
    → is_planned o s fault ≡ false
is_planned_other o p s t fault h other = ground (
  arith,
  operation_eq_iff fault.operation o,
  operation_eq_iff fault.operation p,
  str_eq_iff fault.subject s,
  str_eq_iff fault.subject t,
  other,
)

consume-some :
    (faults rest : FaultPlan) (operation : FaultOperation) (subject : Str) (fault : PlannedFault)
    (i : ℕ)
    → position (is_planned operation subject) faults ≡ some i
    → remove faults i ≡ some (fault, rest)
    → consume faults operation subject ≡ (rest, failed fault.error)
unfolding consume
consume-some faults rest operation subject fault i e r = rw (e, consume_at, r, take_at)

planned-other :
    (faults rest : FaultPlan) (operation o : FaultOperation) (subject s : Str)
    (fault : PlannedFault)
    → Extract (is_planned operation subject) faults (some (fault, rest))
    → ((o ≡ operation) × (s ≡ subject)) ⊎ (planned o s rest ≡ planned o s faults)
unfolding planned
planned-other faults rest operation o subject s fault m =
    elim (Bool-cases (operation_eq o operation && str_eq s subject)) [
      | inl same ↦ inl (ground (arith, operation_eq_iff o operation, str_eq_iff s subject))
      | inr other ↦ inr (
          rw (
            select-Extract_other (is_planned operation subject) (is_planned o s) m (
              is_planned_other o operation s subject fault (Extract-passes _ m)
                (λ h. ground (arith, operation_eq_iff o operation, str_eq_iff s subject)))))
    ]

Dequeues-some :
    (faults rest : FaultPlan) (operation : FaultOperation) (subject : Str) (fault : PlannedFault)
    → Extract (is_planned operation subject) faults (some (fault, rest))
    → Dequeues operation subject faults (rest, failed fault.error)
unfolding planned
Dequeues-some faults rest operation subject fault m = inr (
  fault.error,
  rw (select-Extract _ m),
  refl,
  length-Extract _ m,
  λ o s. planned-other faults rest operation o subject s fault m,
)

consume-Dequeues :
    (faults : FaultPlan) (operation : FaultOperation) (subject : Str)
    → Dequeues operation subject faults (consume faults operation subject)
unfolding consume planned
consume-Dequeues faults operation subject =
    elim (position-remove (is_planned operation subject) faults) [
      | inl (e, m) ↦ inl (rw (select-Extract-none _ m), rw (e, consume_at), rw (e, consume_at))
      | inr (i, fault, rest, e, r, m) ↦
          rw (consume-some faults rest operation subject fault i e r)
            (Dequeues-some faults rest operation subject fault m)
    ]

-- Before a request and before a publish, the oldest failure planned for that operation and
-- subject is taken from the plan and returned; without one the call goes ahead and the plan is as
-- it was. No failure planned for anything else is lost, and the call never panics.
pub before-Dequeues :
    (faults : FaultPlan) (subject : Str)
    → Dequeues request subject faults (before_request faults subject)
      × Dequeues publish subject faults (before_publish faults subject)
unfolding before_request before_publish
before-Dequeues faults subject =
    (consume-Dequeues faults request subject, consume-Dequeues faults publish subject)

select-snoc :
    (p : PlannedFault → Bool) (faults : FaultPlan) (f : PlannedFault)
    → map (λ fault. fault.error) (select p (faults ++ f ∷ []))
      ≡ map (λ fault. fault.error) (select p faults) ++ (if p f then f.error ∷ [] else [])
select-snoc p [] f = ground arith
select-snoc p (g ∷ faults) f = ground (arith, select-snoc p faults f)

abbrev pub planned_key :
    FaultOperation → Str → FaultOperation → Str → TransportError → List TransportError
planned_key o s operation subject error =
    if operation_eq operation o && str_eq subject s then error ∷ [] else []

planned-push :
    (faults : FaultPlan) (operation o : FaultOperation) (subject s : Str) (error : TransportError)
    → planned o s (push faults operation subject error)
      ≡ planned o s faults ++ planned_key o s operation subject error
unfolding planned push
planned-push faults operation o subject s error =
    select-snoc (is_planned o s) faults
      (record { operation = operation; subject = subject; error = error })

-- Each way of planning a failure adds it at the end of its own queue, and to no other.
pub planned_after :
    (faults : FaultPlan) (subject s : Str) (o : FaultOperation) (error : TransportError)
    → (planned o s (timeout_next faults subject)
        ≡ planned o s faults ++ planned_key o s request subject TransportError.timeout)
      × (planned o s (no_responders_for faults subject)
          ≡ planned o s faults ++ planned_key o s request subject TransportError.no_responders)
      × (planned o s (fail_next_publish faults subject error)
          ≡ planned o s faults ++ planned_key o s publish subject error)
unfolding timeout_next no_responders_for fail_next_publish
planned_after faults subject s o error = (
  planned-push faults request o subject s TransportError.timeout,
  planned-push faults request o subject s TransportError.no_responders,
  planned-push faults publish o subject s error,
)
