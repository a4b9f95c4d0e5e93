-- ===== src/Testing/JetStream/Invariant.antt =====
-- The deliveries of the simulator beside its consumers: scheduled, handed out, and acknowledged.
use nats_micro.Prelude.{
  ◌∙◌, Bool-cases, ◌⊎◌, ℕ, ◌≤◌, ◌<◌, ◌≡◌, refl, sym, max, List, [], ◌∷◌, ◌++◌, Option, some, none,
  Str, str_eq, str_eq_iff, select, map, Extract, position-remove, All-Extract, All, All-append,
  All-select, All-mono, lookup, insert, lookup-insert_new, All-insert, values, ok, inl, inr, arith,
}
use nats_micro.Testing.EventLog.{EventLog}
use nats_micro.Prelude.Durations.{duration_max, saturating_add}
use nats_micro.Testing.JetStream.{
  JetStreamConfig, SimulatedConsumerConfig, ScheduledDelivery, State, u64_mod, new,
  register_consumer, matching_streams, is_interested, first_delivery, publish, is_due, deliver,
  next_at, next_due,
}

abbrev pub Consumers : Type 0
Consumers = List (Str × SimulatedConsumerConfig)

-- An entry's key is its durable, and `max_deliver` is a `u64`.
abbrev pub IsEntry : Str × SimulatedConsumerConfig → Type 0
IsEntry e = (e.1.durable ≡ e.0) × (e.1.max_deliver < u64_mod)

pub saturating_add-le : (a b : ℕ) → saturating_add a b ≤ duration_max
unfolding saturating_add
saturating_add-le a b = omega arith

pub All-lookup :
    (consumers : Consumers) (k : Str) (c : SimulatedConsumerConfig)
    → All IsEntry consumers
    → lookup k consumers ≡ some c
    → c.max_deliver < u64_mod
unfolding lookup
All-lookup [] k c a e = cc
All-lookup ((j, d) ∷ consumers) k c a e = ground (arith, All-lookup consumers k c a.1)

module _ {HeaderMap : Type 0} where
  abbrev pub IsScheduled : Consumers → ScheduledDelivery HeaderMap → Type 0
  IsScheduled consumers d =
      (c : SimulatedConsumerConfig) × (lookup d.durable consumers ≡ some c)
      × (1 ≤ d.attempt)
      × (d.attempt ≤ max 1 c.max_deliver)
      × (d.due_at ≤ duration_max)

  pub record Inv (s : State HeaderMap) : Type 0 where
    pub entries : All IsEntry s.consumers
    pub scheduled : All (IsScheduled s.consumers) s.pending
    pub in_time : s.now ≤ duration_max

  pub new-Inv : (config : JetStreamConfig) (events : EventLog HeaderMap) → Inv (new config events)
  unfolding new
  new-Inv config events = record { entries = tt; scheduled = tt; in_time = omega arith }

  pub IsScheduled-insert :
      (k : Str) (v : SimulatedConsumerConfig) (m : Consumers) (d : ScheduledDelivery HeaderMap)
      → lookup k m ≡ none
      → IsScheduled m d
      → IsScheduled (insert k v m) d
  IsScheduled-insert k v m d fresh (c, found, low, high, due) =
      (c, lookup-insert_new k d.durable v c m fresh found, low, high, due)

  pub register_consumer-lem :
      (s t : State HeaderMap) (c : SimulatedConsumerConfig)
      → register_consumer s c ≡ ok t
      → (lookup c.durable s.consumers ≡ none)
        × (t ≡ record s { consumers = insert c.durable c s.consumers })
  unfolding register_consumer
  register_consumer-lem s t c e = ground arith

  pub register_consumer-Inv :
      (s t : State HeaderMap) (c : SimulatedConsumerConfig)
      → c.max_deliver < u64_mod
      → register_consumer s c ≡ ok t
      → Inv s
      → Inv t
  register_consumer-Inv s t c small e v =
      let (fresh, same) = register_consumer-lem s t c e in
      rw same (record {
        entries = All-insert IsEntry c.durable c s.consumers (refl, small) v.entries;
        scheduled =
            All-mono s.pending (λ d. IsScheduled-insert c.durable c s.consumers d fresh)
              v.scheduled;
        in_time = v.in_time;
      })

  -- A registered consumer's first delivery is within its attempts.
  first-IsScheduled :
      (consumers : Consumers) (now : ℕ) (subject payload : Str) (headers : Option HeaderMap)
      (c : SimulatedConsumerConfig)
      → now ≤ duration_max
      → ((d : SimulatedConsumerConfig) × (lookup c.durable consumers ≡ some d))
      → IsScheduled consumers (first_delivery now subject payload headers c)
  first-IsScheduled consumers now subject payload headers c h (d, found) =
      (d, found, omega arith, omega arith, h)

  All-first :
      (consumers : Consumers) (now : ℕ) (subject payload : Str) (headers : Option HeaderMap)
      (cs : List SimulatedConsumerConfig)
      → now ≤ duration_max
      → All (λ c. (d : SimulatedConsumerConfig) × (lookup c.durable consumers ≡ some d)) cs
      → All (IsScheduled consumers) (map (first_delivery now subject payload headers) cs)
  All-first consumers now subject payload headers [] h a = tt
  All-first consumers now subject payload headers (c ∷ cs) h (found, a) = (
    first-IsScheduled consumers now subject payload headers c h found,
    All-first consumers now subject payload headers cs h a,
  )

-- Every consumer of the map is found under its durable.
found_later :
    (k : Str) (c : SimulatedConsumerConfig) (m : Consumers) (j : Str)
    → ((d : SimulatedConsumerConfig) × (lookup j m ≡ some d))
    → (d : SimulatedConsumerConfig) × (lookup j ((k, c) ∷ m) ≡ some d)
unfolding lookup
found_later k c m j (d, e) = elim (Bool-cases (str_eq k j)) [
  | inl same ↦ (c, rw same)
  | inr other ↦ (d, rw other e)
]

values-found :
    (consumers : Consumers)
    → All IsEntry consumers
    → All
        (λ c. (d : SimulatedConsumerConfig) × (lookup c.durable consumers ≡ some d))
        (values consumers)
unfolding lookup
values-found [] a = tt
values-found ((k, c) ∷ consumers) (h, a) = (
  (c, ground (arith, str_eq_iff k c.durable, h)),
  All-mono (values consumers) (λ e. found_later k c consumers e.durable) (values-found consumers a),
)

module _ {HeaderMap : Type 0} where
  pub publish-lem :
      (s t : State HeaderMap) (subject payload : Str) (headers : Option HeaderMap)
      → publish s subject payload headers ≡ ok t
      → t ≡ record s {
        pending =
            s.pending
            ++ map (first_delivery s.now subject payload headers) (
                select
                  (is_interested (matching_streams s.config subject) subject)
                  (values s.consumers));
      }
  unfolding publish
  publish-lem s t subject payload headers e = ground arith

  pub publish-Inv :
      (s t : State HeaderMap) (subject payload : Str) (headers : Option HeaderMap)
      → publish s subject payload headers ≡ ok t
      → Inv s
      → Inv t
  publish-Inv s t subject payload headers e v =
      let interested = is_interested (matching_streams s.config subject) subject in
      rw (publish-lem s t subject payload headers e) (record {
        entries = v.entries;
        scheduled = All-append (IsScheduled s.consumers) s.pending _ v.scheduled (
            All-first s.consumers s.now subject payload headers
              (select interested (values s.consumers)) v.in_time
              (All-select _ interested (values s.consumers) (values-found s.consumers v.entries)));
        in_time = v.in_time;
      })

  -- The two outcomes of `next_due`.
  abbrev pub NextDue :
      State HeaderMap → State HeaderMap × Option (ScheduledDelivery HeaderMap) → Type 0
  NextDue s r =
      ((r ≡ (s, none)) × Extract (is_due s.now) s.pending none)
      ⊎ ((d : ScheduledDelivery HeaderMap) × (rest : List (ScheduledDelivery HeaderMap)) × (r
            ≡ deliver s (some (d, rest)))
          × Extract (is_due s.now) s.pending (some (d, rest)))

  pub next_due-NextDue : (s : State HeaderMap) → NextDue s (next_due s)
  unfolding next_due
  next_due-NextDue s = elim (position-remove (is_due s.now) s.pending) [
    | inl (e, m) ↦ inl (rw (e, next_at), m)
    | inr (i, d, rest, e, r, m) ↦ inr (d, rest, rw (e, next_at, r), m)
  ]

  pub next_due-deliver :
      (s t : State HeaderMap) (d : ScheduledDelivery HeaderMap)
      → next_due s ≡ (t, some d)
      → (rest : List (ScheduledDelivery HeaderMap)) × (t ≡ (deliver s (some (d, rest))).0)
        × Extract (is_due s.now) s.pending (some (d, rest))
  next_due-deliver s t d e = elim (next_due-NextDue s) [
    | inl (same, m) ↦ absurd (cc)
    | inr (d', rest, same, m) ↦
        let agree : (t, some d) ≡ deliver s (some (d', rest)) = sym e ∙ same in
        let same_d : d ≡ d' = unfold deliver in ground arith in
        (rest, unfold deliver in ground arith, rw same_d m)
  ]

  pub next_due-Inv :
      (s t : State HeaderMap) (d : ScheduledDelivery HeaderMap)
      → next_due s ≡ (t, some d)
      → Inv s
      → Inv t × IsScheduled t.consumers d × (t.consumers ≡ s.consumers)
  unfolding deliver
  next_due-Inv s t d e v =
      let (rest, same, m) = next_due-deliver s t d e in
      let (taken, left) = All-Extract (is_due s.now) (IsScheduled s.consumers) m v.scheduled in
      rw same (record { entries = v.entries; scheduled = left; in_time = v.in_time }, taken, refl)

  pub next_due-none : (s t : State HeaderMap) → next_due s ≡ (t, none) → t ≡ s
  unfolding deliver
  next_due-none s t e = elim (next_due-NextDue s) [
    | inl (same, m) ↦ ground arith
    | inr (d', rest, same, m) ↦ absurd (cc)
  ]
