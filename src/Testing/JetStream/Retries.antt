-- ===== src/Testing/JetStream/Retries.antt =====
-- Nacks, timeouts and the clock of the simulator.
use nats_micro.Prelude.{
  ◌⊎◌, ℕ, ◌≤◌, ◌<◌, ◌≡◌, refl, List, [], ◌∷◌, ◌++◌, Option, some, none, Str, remove, All-append,
  lookup, Result, ok, inl, inr, arith,
}
use nats_micro.Testing.JetStream.{
  SimulatedConsumerConfig, ScheduledDelivery, SimulatedAction, ack, nack, nack_after, term, State,
  Failure, u64_mod, find_consumer, record_dead_letter, next_attempt, retry, complete, timeout_delay,
  complete_timeout, plan_timeout, consume_timeout, timeout_at, drop_planned, advance,
}
use nats_micro.Testing.JetStream.Invariant.{saturating_add-le, All-lookup, IsScheduled, Inv}

module _ {HeaderMap : Type 0} where
  record_dead_letter-same :
      (s : State HeaderMap) (d : ScheduledDelivery HeaderMap) (letter : Option Str)
      → let t = record_dead_letter s d letter in
        (t.consumers ≡ s.consumers) × (t.pending ≡ s.pending) × (t.now ≡ s.now)
  unfolding record_dead_letter
  record_dead_letter-same s d none = (refl, refl, refl)
  record_dead_letter-same s d (some subject) = (refl, refl, refl)

  -- How `retry` ends, for a delivery that is within its consumer's attempts.
  abbrev pub Retried :
      State HeaderMap → ScheduledDelivery HeaderMap → ℕ → SimulatedConsumerConfig → Type 0
  Retried s d delay c =
      ((c.max_deliver ≤ d.attempt)
        × (retry s d delay ≡ ok (record_dead_letter s d (lookup d.durable s.config.dead_letters))))
      ⊎ ((d.attempt < c.max_deliver)
          × (retry s d delay
              ≡ ok (record s { pending = s.pending ++ next_attempt s d delay ∷ [] })))

  pub retry-Retried :
      (s : State HeaderMap) (d : ScheduledDelivery HeaderMap) (delay : ℕ)
      (c : SimulatedConsumerConfig)
      → lookup d.durable s.consumers ≡ some c
      → Retried s d delay c
  unfolding retry find_consumer
  retry-Retried s d delay c found = ground arith

  -- What a delivery that comes back leaves: the consumers and the clock as they were, and every
  -- delivery within its attempts.
  abbrev pub Settled : State HeaderMap → Result Failure (State HeaderMap) → Type 0
  Settled s r = (t : State HeaderMap) × (r ≡ ok t) × Inv t × (t.consumers ≡ s.consumers)

  next_attempt-IsScheduled :
      (s : State HeaderMap) (d : ScheduledDelivery HeaderMap) (delay : ℕ)
      (c : SimulatedConsumerConfig)
      → lookup d.durable s.consumers ≡ some c
      → c.max_deliver < u64_mod
      → d.attempt < c.max_deliver
      → IsScheduled s.consumers (next_attempt s d delay)
  next_attempt-IsScheduled s d delay c found small more =
      (c, found, omega arith, omega arith, saturating_add-le s.now delay)

  retry-Settled :
      (s : State HeaderMap) (d : ScheduledDelivery HeaderMap) (delay : ℕ)
      → Inv s
      → IsScheduled s.consumers d
      → Settled s (retry s d delay)
  retry-Settled s d delay v (c, found, low, high, due) = elim (retry-Retried s d delay c found) [
    | inl (last, e) ↦
        let (keep_c, keep_p, keep_n) =
          record_dead_letter-same s d (lookup d.durable s.config.dead_letters) in
        (
          _,
          e,
          record {
            entries = rw keep_c v.entries;
            scheduled = rw (keep_c, keep_p) v.scheduled;
            in_time = rw keep_n v.in_time;
          },
          keep_c,
        )
    | inr (more, e) ↦ (
      _,
      e,
      record {
        entries = v.entries;
        scheduled = All-append (IsScheduled s.consumers) s.pending _ v.scheduled (
          next_attempt-IsScheduled s d delay c found
              (All-lookup s.consumers d.durable c v.entries found) more,
          tt,
        );
        in_time = v.in_time;
      },
      refl,
    )
  ]

  -- A delivery within its attempts can be completed with any action, and the run goes on.
  pub complete-Settled :
      (s : State HeaderMap) (d : ScheduledDelivery HeaderMap) (action : SimulatedAction)
      → Inv s
      → IsScheduled s.consumers d
      → Settled s (complete s d action)
  unfolding complete
  complete-Settled s d ack v i = (s, refl, v, refl)
  complete-Settled s d term v i = (s, refl, v, refl)
  complete-Settled s d nack v i = retry-Settled s d 0 v i
  complete-Settled s d (nack_after delay) v i = retry-Settled s d delay v i

  pub complete_timeout-retry :
      (s : State HeaderMap) (d : ScheduledDelivery HeaderMap) (c : SimulatedConsumerConfig)
      → lookup d.durable s.consumers ≡ some c
      → complete_timeout s d ≡ retry s d (timeout_delay c d.attempt)
  unfolding complete_timeout find_consumer
  complete_timeout-retry s d c found = rw (found, find_consumer)

  pub complete_timeout-Settled :
      (s : State HeaderMap) (d : ScheduledDelivery HeaderMap)
      → Inv s
      → IsScheduled s.consumers d
      → Settled s (complete_timeout s d)
  complete_timeout-Settled s d v (c, found, low, high, due) =
      rw (complete_timeout-retry s d c found)
        (retry-Settled s d (timeout_delay c d.attempt) v (c, found, low, high, due))

  pub plan_timeout-Inv :
      (s : State HeaderMap) (durable : Str)
      → Inv s
      → Inv (plan_timeout s durable) × ((plan_timeout s durable).consumers ≡ s.consumers)
  unfolding plan_timeout
  plan_timeout-Inv s durable v =
      (record { entries = v.entries; scheduled = v.scheduled; in_time = v.in_time }, refl)

  drop_planned-Inv :
      (s : State HeaderMap) (r : Option (Str × List Str))
      → Inv s
      → Inv (drop_planned s r) × ((drop_planned s r).consumers ≡ s.consumers)
  unfolding drop_planned
  drop_planned-Inv s none v = (v, refl)
  drop_planned-Inv s (some (planned, rest)) v =
      (record { entries = v.entries; scheduled = v.scheduled; in_time = v.in_time }, refl)

  timeout_at-Inv :
      (s : State HeaderMap) (at : Option ℕ)
      → Inv s
      → Inv (timeout_at s at).0 × ((timeout_at s at).0.consumers ≡ s.consumers)
  unfolding timeout_at
  timeout_at-Inv s none v = (v, refl)
  timeout_at-Inv s (some i) v = drop_planned-Inv s (remove s.timeout_next i) v

  pub consume_timeout-Inv :
      (s : State HeaderMap) (durable : Str)
      → Inv s
      → Inv (consume_timeout s durable).0 × ((consume_timeout s durable).0.consumers ≡ s.consumers)
  unfolding consume_timeout
  consume_timeout-Inv s durable v = timeout_at-Inv s _ v

  pub advance-Inv :
      (s : State HeaderMap) (duration : ℕ)
      → Inv s
      → Inv (advance s duration) × ((advance s duration).consumers ≡ s.consumers)
  unfolding advance
  advance-Inv s duration v = (
    record {
      entries = v.entries;
      scheduled = v.scheduled;
      in_time = saturating_add-le s.now duration;
    },
    refl,
  )
