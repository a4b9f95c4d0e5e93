-- ===== src/Testing/JetStream/Runs.antt =====
-- Runs of the simulator with the deliveries that its client holds, as a step relation.
use nats_micro.Prelude.{
  sym, subst, arith, All-mono, ℕ, ◌<◌, ◌≡◌, List, [], ◌∷◌, ◌++◌, Option, some, Str, All, All-split,
  Result, ok,
}
use nats_micro.Testing.EventLog.{EventLog}
use nats_micro.Testing.JetStream.{
  Failure, JetStreamConfig, SimulatedConsumerConfig, ScheduledDelivery, SimulatedAction, State,
  u64_mod, new, register_consumer, publish, next_due, complete, complete_timeout, plan_timeout,
  consume_timeout, advance,
}
use nats_micro.Testing.JetStream.Invariant.{
  IsScheduled, Inv, new-Inv, register_consumer-Inv, register_consumer-lem, IsScheduled-insert,
  publish-Inv, publish-lem, next_due-Inv,
}
use nats_micro.Testing.JetStream.Retries.{
  advance-Inv, consume_timeout-Inv, plan_timeout-Inv, Settled, complete-Settled,
  complete_timeout-Settled,
}

-- The simulator, and the deliveries that `next_due` gave out and that are not completed yet.
pub record Simulation (HeaderMap : Type 0) : Type 0 where
  pub state : State HeaderMap
  pub in_flight : List (ScheduledDelivery HeaderMap)

module _ {HeaderMap : Type 0} where
  -- One call of the simulator. A call that returns an error leaves the simulation as it was, and
  -- is no step.
  pub data Step (x y : Simulation HeaderMap) : Type 0 where
    registers :
        (c : SimulatedConsumerConfig)
        → c.max_deliver < u64_mod
        → register_consumer x.state c ≡ ok y.state
        → y.in_flight ≡ x.in_flight
        → Step x y
    publishes :
        (subject payload : Str) (headers : Option HeaderMap)
        → publish x.state subject payload headers ≡ ok y.state
        → y.in_flight ≡ x.in_flight
        → Step x y
    receives :
        (d : ScheduledDelivery HeaderMap)
        → next_due x.state ≡ (y.state, some d)
        → y.in_flight ≡ d ∷ x.in_flight
        → Step x y
    completes :
        (before after : List (ScheduledDelivery HeaderMap)) (d : ScheduledDelivery HeaderMap)
        (action : SimulatedAction)
        → x.in_flight ≡ before ++ d ∷ after
        → complete x.state d action ≡ ok y.state
        → y.in_flight ≡ before ++ after
        → Step x y
    times_out :
        (before after : List (ScheduledDelivery HeaderMap)) (d : ScheduledDelivery HeaderMap)
        → x.in_flight ≡ before ++ d ∷ after
        → complete_timeout x.state d ≡ ok y.state
        → y.in_flight ≡ before ++ after
        → Step x y
    plans :
        (durable : Str)
        → y.state ≡ plan_timeout x.state durable
        → y.in_flight ≡ x.in_flight
        → Step x y
    consumes :
        (durable : Str)
        → y.state ≡ (consume_timeout x.state durable).0
        → y.in_flight ≡ x.in_flight
        → Step x y
    advances :
        (duration : ℕ) → y.state ≡ advance x.state duration → y.in_flight ≡ x.in_flight → Step x y

  pub data Reach (x : Simulation HeaderMap) : Simulation HeaderMap → Type 0 where
    here : Reach x x
    next : {y z : Simulation HeaderMap} → Reach x y → Step y z → Reach x z

  abbrev pub start : JetStreamConfig → EventLog HeaderMap → Simulation HeaderMap
  start config events = record { state = new config events; in_flight = [] }

  pub record IsSound (x : Simulation HeaderMap) : Type 0 where
    pub inv : Inv x.state
    pub held : All (IsScheduled x.state.consumers) x.in_flight

  settled :
      (x y : Simulation HeaderMap) (before after : List (ScheduledDelivery HeaderMap))
      (d : ScheduledDelivery HeaderMap) (r : Result Failure (State HeaderMap))
      → IsSound x
      → x.in_flight ≡ before ++ d ∷ after
      → (IsScheduled x.state.consumers d → Settled x.state r)
      → r ≡ ok y.state
      → y.in_flight ≡ before ++ after
      → IsSound y
  settled x y before after d r v held done e rest =
      let (taken, others) =
        All-split (IsScheduled x.state.consumers) before after d (rw held at v.held) in
      let (t, e', inv, same) = done taken in
      let reached : t ≡ y.state = ground arith in
      record { inv = rw (← reached) inv; held = rw (rest, ← reached, same) others }

  Step-IsSound : {x y : Simulation HeaderMap} → Step x y → IsSound x → IsSound y
  Step-IsSound {x} {y} (registers c small e rest) v =
      let (fresh, same) = register_consumer-lem x.state y.state c e in
      record {
        inv = register_consumer-Inv x.state y.state c small e v.inv;
        held =
            rw (rest, same)
              (All-mono x.in_flight (λ d. IsScheduled-insert c.durable c x.state.consumers d fresh)
                v.held);
      }
  Step-IsSound {x} {y} (publishes subject payload headers e rest) v = record {
    inv = publish-Inv x.state y.state subject payload headers e v.inv;
    held = rw (rest, publish-lem x.state y.state subject payload headers e) v.held;
  }
  Step-IsSound {x} {y} (receives d e rest) v =
      let (inv, taken, same) = next_due-Inv x.state y.state d e v.inv in
      record {
        inv = inv;
        held = rw rest (taken, subst (λ cs. All (IsScheduled cs) x.in_flight) (sym same) v.held);
      }
  Step-IsSound {x} {y} (completes before after d action held e rest) v =
      settled x y before after d _ v held (complete-Settled x.state d action v.inv) e rest
  Step-IsSound {x} {y} (times_out before after d held e rest) v =
      settled x y before after d _ v held (complete_timeout-Settled x.state d v.inv) e rest
  Step-IsSound {x} {y} (plans durable e rest) v =
      let (inv, same) = plan_timeout-Inv x.state durable v.inv in
      record { inv = rw e inv; held = rw (rest, e, same) v.held }
  Step-IsSound {x} {y} (consumes durable e rest) v =
      let (inv, same) = consume_timeout-Inv x.state durable v.inv in
      record { inv = rw e inv; held = rw (rest, e, same) v.held }
  Step-IsSound {x} {y} (advances duration e rest) v =
      let (inv, same) = advance-Inv x.state duration v.inv in
      record { inv = rw e inv; held = rw (rest, e, same) v.held }

  -- In every run from a new simulator, each scheduled delivery and each that its client holds
  -- belongs to a registered consumer and its attempt lies between one and that consumer's
  -- `max_deliver` (or is the first, where that is 0); due times and clock stay within
  -- `Duration::MAX`.
  pub Reach-IsSound :
      (config : JetStreamConfig) (events : EventLog HeaderMap) (x : Simulation HeaderMap)
      → Reach (start config events) x
      → IsSound x
  Reach-IsSound config events x here = record { inv = new-Inv config events; held = tt }
  Reach-IsSound config events x (next {y} r st) = Step-IsSound st (Reach-IsSound config events y r)

  -- In every run from a new simulator, completing a delivery that the client holds never panics,
  -- with any action, nor does its timeout.
  pub complete_in_flight :
      (config : JetStreamConfig) (events : EventLog HeaderMap) (x : Simulation HeaderMap)
      (before after : List (ScheduledDelivery HeaderMap)) (d : ScheduledDelivery HeaderMap)
      (action : SimulatedAction)
      → Reach (start config events) x
      → x.in_flight ≡ before ++ d ∷ after
      → ((t : State HeaderMap) × (complete x.state d action ≡ ok t))
        × ((t : State HeaderMap) × (complete_timeout x.state d ≡ ok t))
  complete_in_flight config events x before after d action r held =
      let v = Reach-IsSound config events x r in
      let (taken, others) =
        All-split (IsScheduled x.state.consumers) before after d (rw held at v.held) in
      let (t, e, inv, same) = complete-Settled x.state d action v.inv taken in
      let (u, e', inv', same') = complete_timeout-Settled x.state d v.inv taken in ((t, e), (u, e'))
