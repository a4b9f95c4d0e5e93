-- ===== src/Testing/JetStream.antt =====
-- nats-micro-testing/src/jetstream.rs: the deterministic JetStream simulator. Its mutex gives each
-- operation the whole state, so an operation is a function of it. A `Duration` is a number of
-- nanoseconds. The event log that the simulator shares is a field of the state here.
pub mod Invariant
pub mod Retries
pub mod Runs
pub mod Deliveries
pub mod Publishing
pub mod Timeouts
use nats_micro.Prelude.{
  ℕ, ◌+◌, ◌-◌, ◌*◌, ◌%◌, ◌^◌, min, Bool, true, false, ◌&&◌, List, [], ◌∷◌, ◌++◌, Option, some, none,
  Str, str_eq, is_empty, not, any, all, select, map, position, remove, get_elem?, length, lookup,
  insert, values, leb, if◌then◌else◌, Result, ok, err, ensure, is_some, ◌>>=◌, ◌>>◌,
}
use nats_micro.Prelude.Durations.{saturating_add}
use nats_micro.Subject.{subject_matches}
use nats_micro.Testing.EventLog.{EventLog, record_event}

pub record StreamDeclaration : Type 0 where
  pub name : Str
  pub subjects : List Str

pub record JetStreamConfig : Type 0 where
  pub streams : List StreamDeclaration
  pub dead_letters : List (Str × Str)

unfoldable pub stream : JetStreamConfig → Str → List Str → JetStreamConfig
stream config name subjects = record config {
  streams = config.streams ++ record { name = name; subjects = subjects } ∷ [];
}

unfoldable pub dead_letter : JetStreamConfig → Str → Str → JetStreamConfig
unfolding insert
dead_letter config durable subject = record config {
  dead_letters = insert durable subject config.dead_letters;
}

pub record SimulatedConsumerConfig : Type 0 where
  pub stream : Str
  pub durable : Str
  pub filter_subject : Str
  pub ack_wait : ℕ
  pub max_deliver : ℕ
  pub backoff : List ℕ

pub record ScheduledDelivery (HeaderMap : Type 0) : Type 0 where
  pub durable : Str
  pub subject : Str
  pub payload : Str
  pub headers : Option HeaderMap
  pub attempt : ℕ
  pub due_at : ℕ

pub data SimulatedAction : Type 0 where
  ack nack : SimulatedAction
  nack_after : ℕ → SimulatedAction
  term : SimulatedAction

pub record State (HeaderMap : Type 0) : Type 0 where
  pub config : JetStreamConfig
  pub consumers : List (Str × SimulatedConsumerConfig)
  pub pending : List (ScheduledDelivery HeaderMap)
  pub deliveries : List (Str × ℕ)
  pub timeout_next : List Str
  pub now : ℕ
  pub events : EventLog HeaderMap

-- The errors that `ensure!` returns, and the panic of `expect`.
pub data Failure : Type 0 where
  unknown_stream duplicate_durable no_stream unregistered : Failure

abbrev pub u64_mod : ℕ
u64_mod = 2 ^ 64

-- The filters of `publish`.
abbrev pub accepts : Str → StreamDeclaration → Bool
accepts subject s = any (λ pattern. subject_matches pattern subject) s.subjects

abbrev pub matching_streams : JetStreamConfig → Str → List Str
matching_streams config subject = map (λ s. s.name) (select (accepts subject) config.streams)

abbrev pub is_interested : List Str → Str → SimulatedConsumerConfig → Bool
is_interested streams subject consumer =
    any (λ name. str_eq name consumer.stream) streams
    && subject_matches consumer.filter_subject subject

abbrev pub count_of : Str → List (Str × ℕ) → ℕ
count_of durable m = elim (lookup durable m) [ none ↦ 0 | some n ↦ n ]

abbrev pub timeout_delay : SimulatedConsumerConfig → ℕ → ℕ
timeout_delay consumer attempt = elim (get_elem? consumer.backoff (attempt - 1)) [
  | none ↦ consumer.ack_wait
  | some delay ↦ delay
]

module _ {HeaderMap : Type 0} where
  unfoldable pub new : JetStreamConfig → EventLog HeaderMap → State HeaderMap
  new config events = record {
    config = config;
    consumers = [];
    pending = [];
    deliveries = [];
    timeout_next = [];
    now = 0;
    events = events;
  }

  unfoldable pub register_consumer :
      State HeaderMap → SimulatedConsumerConfig → Result Failure (State HeaderMap)
  unfolding str_eq lookup insert
  register_consumer state consumer = do
    ensure (any (λ s. str_eq s.name consumer.stream) state.config.streams) unknown_stream
    ensure (not (is_some (lookup consumer.durable state.consumers))) duplicate_durable
    ok (record state { consumers = insert consumer.durable consumer state.consumers })

  abbrev pub first_delivery :
      ℕ → Str → Str → Option HeaderMap → SimulatedConsumerConfig → ScheduledDelivery HeaderMap
  first_delivery now subject payload headers consumer = record {
    durable = consumer.durable;
    subject = subject;
    payload = payload;
    headers = headers;
    attempt = 1;
    due_at = now;
  }

  unfoldable pub publish :
      State HeaderMap → Str → Str → Option HeaderMap → Result Failure (State HeaderMap)
  unfolding str_eq subject_matches
  publish state subject payload headers = do
    let streams = matching_streams state.config subject
    ensure (not (is_empty streams)) no_stream
    ok (record state {
      pending =
          state.pending
          ++ map (first_delivery state.now subject payload headers)
              (select (is_interested streams subject) (values state.consumers));
    })

  abbrev pub is_due : ℕ → ScheduledDelivery HeaderMap → Bool
  is_due now delivery = leb delivery.due_at now

  unfoldable pub deliver :
      State HeaderMap
      → Option (ScheduledDelivery HeaderMap × List (ScheduledDelivery HeaderMap))
      → State HeaderMap × Option (ScheduledDelivery HeaderMap)
  unfolding lookup insert
  deliver state none = (state, none)
  deliver state (some (scheduled, rest)) = (
    record state {
      pending = rest;
      deliveries =
          insert scheduled.durable ((count_of scheduled.durable state.deliveries + 1) % u64_mod)
            state.deliveries;
    },
    some scheduled,
  )

  next_at : State HeaderMap → Option ℕ → State HeaderMap × Option (ScheduledDelivery HeaderMap)
  unfolding deliver
  next_at state none = (state, none)
  next_at state (some index) = deliver state (remove state.pending index)

  unfoldable pub next_due : State HeaderMap → State HeaderMap × Option (ScheduledDelivery HeaderMap)
  unfolding next_at
  next_due state = next_at state (position (is_due state.now) state.pending)

  -- `consumers.get(durable).expect(..)`
  find_consumer : State HeaderMap → Str → Result Failure SimulatedConsumerConfig
  unfolding lookup
  find_consumer state durable = elim (lookup durable state.consumers) [
    | none ↦ err unregistered
    | some c ↦ ok c
  ]

  unfoldable pub record_dead_letter :
      State HeaderMap → ScheduledDelivery HeaderMap → Option Str → State HeaderMap
  unfolding record_event
  record_dead_letter state delivery none = state
  record_dead_letter state delivery (some subject) = record state {
    events = record_event state.events subject delivery.payload delivery.headers;
  }

  abbrev pub next_attempt :
      State HeaderMap → ScheduledDelivery HeaderMap → ℕ → ScheduledDelivery HeaderMap
  next_attempt state delivery delay = record delivery {
    attempt = (delivery.attempt + 1) % u64_mod;
    due_at = saturating_add state.now delay;
  }

  unfoldable pub retry :
      State HeaderMap → ScheduledDelivery HeaderMap → ℕ → Result Failure (State HeaderMap)
  unfolding find_consumer record_dead_letter saturating_add
  retry state delivery delay = do
    consumer ← find_consumer state delivery.durable
    if leb consumer.max_deliver delivery.attempt
        then ok
            (record_dead_letter state delivery (lookup delivery.durable state.config.dead_letters))
        else ok (record state { pending = state.pending ++ next_attempt state delivery delay ∷ [] })

  unfoldable pub complete :
      State HeaderMap
      → ScheduledDelivery HeaderMap
      → SimulatedAction
      → Result Failure (State HeaderMap)
  unfolding retry
  complete state delivery ack = ok state
  complete state delivery term = ok state
  complete state delivery nack = retry state delivery 0
  complete state delivery (nack_after delay) = retry state delivery delay

  unfoldable pub complete_timeout :
      State HeaderMap → ScheduledDelivery HeaderMap → Result Failure (State HeaderMap)
  unfolding find_consumer retry
  complete_timeout state delivery = do
    consumer ← find_consumer state delivery.durable
    retry state delivery (timeout_delay consumer delivery.attempt)

  unfoldable pub plan_timeout : State HeaderMap → Str → State HeaderMap
  plan_timeout state durable = record state { timeout_next = state.timeout_next ++ durable ∷ [] }

  drop_planned : State HeaderMap → Option (Str × List Str) → State HeaderMap
  drop_planned state none = state
  drop_planned state (some (planned, rest)) = record state { timeout_next = rest }

  timeout_at : State HeaderMap → Option ℕ → State HeaderMap × Bool
  unfolding drop_planned
  timeout_at state none = (state, false)
  timeout_at state (some index) = (drop_planned state (remove state.timeout_next index), true)

  unfoldable pub consume_timeout : State HeaderMap → Str → State HeaderMap × Bool
  unfolding timeout_at str_eq
  consume_timeout state durable =
      timeout_at state (position (λ planned. str_eq planned durable) state.timeout_next)

  unfoldable pub deliveries_of : State HeaderMap → Str → ℕ
  unfolding lookup
  deliveries_of state durable = count_of durable state.deliveries

  unfoldable pub advance : State HeaderMap → ℕ → State HeaderMap
  unfolding saturating_add
  advance state duration = record state { now = saturating_add state.now duration }
