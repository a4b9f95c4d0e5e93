-- ===== src/Testing/Tests.antt =====
-- Runs of nats-micro-testing/src/lib.rs and jetstream.rs, and of their theorems.
use nats_micro.Testing.JetStream.Invariant.{Inv}
use nats_micro.Prelude.Durations.{duration_max}
use nats_micro.Testing.JetStream.Publishing.{publish-Fanout, Fanout, Accepts}
use nats_micro.Testing.JetStream.Timeouts.{next_due-advance, complete_timeout-NackEnds}
use nats_micro.Testing.JetStream.Runs.{
  receives, publishes, registers, here, next, start, Reach-IsSound, Reach, Simulation, IsSound,
  complete_in_flight,
}
use nats_micro.Testing.JetStream.Deliveries.{next_due-first, complete-NackEnds, NackEnds, FirstDue}
use nats_micro.Prelude.{
  List, ℕ, Str, refl, bytes, some, none, [], ◌∷◌, ◌++◌, ◌≡◌, ◌<◌, ◌+◌, ◌%◌, ◌-◌, ◌⊎◌, if◌then◌else◌,
  All, Any, str_eq, lookup, get_elem?, ok, err, values, arith,
}
use nats_micro.Testing.JetStream.{
  JetStreamConfig, SimulatedConsumerConfig, ScheduledDelivery, State, nack, nack_after, next_due,
  deliveries_of, u64_mod, complete, complete_timeout, publish, advance, new, no_stream,
  register_consumer,
}

abbrev created : Str
created = bytes "orders.created"

abbrev paid : Str
paid = bytes "orders.paid"

abbrev config : JetStreamConfig
config = record {
  streams = record { name = bytes "ORDERS"; subjects = bytes "orders.*" ∷ [] } ∷ [];
  dead_letters = (bytes "audit", bytes "dead.audit") ∷ [];
}

abbrev audit : SimulatedConsumerConfig
audit = record {
  stream = bytes "ORDERS";
  durable = bytes "audit";
  filter_subject = bytes "orders.>";
  ack_wait = 30;
  max_deliver = 2;
  backoff = 5 ∷ [];
}

abbrev first : ScheduledDelivery Str
first = record {
  durable = bytes "audit";
  subject = created;
  payload = bytes "1";
  headers = none;
  attempt = 1;
  due_at = 0;
}

-- With the consumer registered and one message published.
abbrev published : State Str
published = record {
  config = config;
  consumers = (bytes "audit", audit) ∷ [];
  pending = first ∷ [];
  deliveries = [];
  timeout_next = bytes "audit" ∷ [];
  now = 0;
  events = [];
}

abbrev handed_out : State Str
handed_out = record published { pending = []; deliveries = (bytes "audit", 1) ∷ [] }

abbrev one_consumer : State Str
one_consumer = record published { pending = []; timeout_next = [] }

publish_run :
    publish one_consumer created (bytes "1") none ≡ ok (record published { timeout_next = [] })
unfolding publish
publish_run = refl

next_due_run : next_due published ≡ (handed_out, some first)
unfolding next_due
next_due_run = refl

dead_letter_run :
    complete handed_out (record first { attempt = 2 }) nack
    ≡ ok (record handed_out {
      events = record { subject = bytes "dead.audit"; payload = bytes "1"; headers = none } ∷ [];
    })
unfolding complete str_eq
dead_letter_run = refl

next_due-first_example :
    ((next_due published ≡ (published, none))
      × All (λ e. published.now < e.due_at) published.pending)
    ⊎ ((t : State Str) × (d : ScheduledDelivery Str) × (next_due published ≡ (t, some d))
        × FirstDue published.now published.pending d t.pending
        × ((k : Str)
            → deliveries_of t k ≡ (
                if str_eq d.durable k
                then (deliveries_of published d.durable + 1) % u64_mod
                else deliveries_of published k)))
next_due-first_example = next_due-first published

complete-NackEnds_example :
    NackEnds handed_out first 0 audit (complete handed_out first nack)
    × NackEnds handed_out first 7 audit (complete handed_out first (nack_after 7))
unfolding lookup str_eq
complete-NackEnds_example = complete-NackEnds handed_out first 7 audit refl (omega arith)

complete_timeout-NackEnds_example :
    (delay : ℕ) × ((get_elem? audit.backoff (first.attempt - 1) ≡ some delay)
      ⊎ ((get_elem? audit.backoff (first.attempt - 1) ≡ none) × (delay ≡ audit.ack_wait)))
    × NackEnds handed_out first delay audit (complete_timeout handed_out first)
unfolding lookup str_eq
complete_timeout-NackEnds_example =
    complete_timeout-NackEnds handed_out first audit refl (omega arith)

publish-Fanout_example :
    ((¬ Any (Accepts created) one_consumer.config.streams)
      × (publish one_consumer created (bytes "1") none ≡ err no_stream))
    ⊎ ((new : List (ScheduledDelivery Str)) × Any (Accepts created) one_consumer.config.streams
        × (publish one_consumer created (bytes "1") none
            ≡ ok (record one_consumer { pending = one_consumer.pending ++ new }))
        × Fanout one_consumer created (bytes "1") none (values one_consumer.consumers) new)
publish-Fanout_example = publish-Fanout one_consumer created (bytes "1") none

-- The consumer is registered, a message published and handed out.
abbrev delivered : Simulation Str
delivered = record { state = record handed_out { timeout_next = [] }; in_flight = first ∷ [] }

delivered-Reach : Reach (start config []) delivered
unfolding new register_consumer publish next_due str_eq lookup
delivered-Reach =
    next {y = record { state = record published { timeout_next = [] }; in_flight = [] }}
      (next {y = record { state = one_consumer; in_flight = [] }}
        (next {y = start config []} here (registers audit (omega arith) refl refl))
        (publishes created (bytes "1") none refl refl))
      (receives first refl refl)

Reach-IsSound_example : IsSound delivered
Reach-IsSound_example = Reach-IsSound config [] delivered delivered-Reach

complete_in_flight_example :
    ((t : State Str) × (complete delivered.state first nack ≡ ok t))
    × ((t : State Str) × (complete_timeout delivered.state first ≡ ok t))
complete_in_flight_example =
    complete_in_flight config [] delivered [] [] first nack delivered-Reach refl

-- The delivery is nacked for five nanoseconds.
abbrev retried : ScheduledDelivery Str
retried = record first { attempt = 2; due_at = 5 }

abbrev soon : State Str
soon = record handed_out { pending = retried ∷ []; timeout_next = [] }

soon-Inv : Inv soon
unfolding lookup str_eq duration_max
soon-Inv = record {
  entries = ((refl, omega arith), tt);
  scheduled = ((audit, refl, omega arith, omega arith, omega arith), tt);
  in_time = omega arith;
}

next_due-advance_example :
    (t : State Str) × (e : ScheduledDelivery Str) × (next_due (advance soon 5) ≡ (t, some e))
next_due-advance_example = next_due-advance soon [] [] retried 5 soon-Inv refl (omega arith)
