-- ===== src/Testing/JetStream/Publishing.antt =====
-- To whom `publish` schedules a message.
use nats_micro.Prelude.{
  ◌≡◌, ◌⊎◌, inl, inr, ◌↔◌, true, false, List, [], ◌∷◌, ◌++◌, Option, Str, str_eq, str_eq_iff, any,
  Any, any_iff, select, map, is_empty, values, ok, err, arith, Bool-cases,
}
use nats_micro.Subject.{split}
use nats_micro.Subject.Matching.{Matches, subject_matches_iff}
use nats_micro.Testing.JetStream.{
  StreamDeclaration, JetStreamConfig, SimulatedConsumerConfig, ScheduledDelivery, State, no_stream,
  accepts, matching_streams, is_interested, first_delivery, publish,
}

-- Some subject pattern of the stream matches.
abbrev pub Accepts : Str → StreamDeclaration → Type 0
Accepts subject s = Any (λ pattern. Matches (split pattern) (split subject)) s.subjects

-- A declared stream of the consumer's takes the subject, and the consumer's filter matches it.
abbrev pub IsInterested : JetStreamConfig → Str → SimulatedConsumerConfig → Type 0
IsInterested config subject c =
    Any (λ s. Accepts subject s × (s.name ≡ c.stream)) config.streams
    × Matches (split c.filter_subject) (split subject)

accepts_iff :
    (subject : Str) (s : StreamDeclaration) → (accepts subject s ≡ true) ↔ Accepts subject s
accepts_iff subject s = any_iff _ _ (λ pattern. subject_matches_iff pattern subject) s.subjects

named_iff :
    (subject stream : Str) (ss : List StreamDeclaration)
    → (any (λ name. str_eq name stream) (map (λ s. s.name) (select (accepts subject) ss)) ≡ true)
      ↔ Any (λ s. Accepts subject s × (s.name ≡ stream)) ss
named_iff subject stream [] = ground arith
named_iff subject stream (s ∷ ss) =
    ground (arith, accepts_iff subject s, str_eq_iff s.name stream, named_iff subject stream ss)

is_interested_iff :
    (config : JetStreamConfig) (subject : Str) (c : SimulatedConsumerConfig)
    → (is_interested (matching_streams config subject) subject c ≡ true)
      ↔ IsInterested config subject c
is_interested_iff config subject c =
    ground (
      arith,
      named_iff subject c.stream config.streams,
      subject_matches_iff c.filter_subject subject,
    )

declared_iff :
    (subject : Str) (ss : List StreamDeclaration)
    → (is_empty (map (λ s. s.name) (select (accepts subject) ss)) ≡ false)
      ↔ Any (Accepts subject) ss
declared_iff subject [] = ground arith
declared_iff subject (s ∷ ss) = ground (arith, accepts_iff subject s, declared_iff subject ss)

module _ {HeaderMap : Type 0} (s : State HeaderMap) (subject payload : Str)
    (headers : Option HeaderMap) where
  -- One first delivery for each interested consumer and none for the others, in the order of the
  -- map.
  pub data Fanout : List SimulatedConsumerConfig → List (ScheduledDelivery HeaderMap) → Type 0 where
    nobody : Fanout [] []
    reach :
        (c : SimulatedConsumerConfig) {cs : List SimulatedConsumerConfig}
        {ds : List (ScheduledDelivery HeaderMap)}
        → IsInterested s.config subject c
        → Fanout cs ds
        → Fanout (c ∷ cs) (
            record {
              durable = c.durable;
              subject = subject;
              payload = payload;
              headers = headers;
              attempt = 1;
              due_at = s.now;
            }
            ∷ ds)
    skip :
        (c : SimulatedConsumerConfig) {cs : List SimulatedConsumerConfig}
        {ds : List (ScheduledDelivery HeaderMap)}
        → ¬ IsInterested s.config subject c
        → Fanout cs ds
        → Fanout (c ∷ cs) ds

  Fanout-select :
      (cs : List SimulatedConsumerConfig)
      → Fanout cs (
          map
            (first_delivery s.now subject payload headers)
            (select (is_interested (matching_streams s.config subject) subject) cs))
  Fanout-select [] = nobody
  Fanout-select (c ∷ cs) =
      elim (Bool-cases (is_interested (matching_streams s.config subject) subject c)) [
        | inl wants ↦
            rw wants (reach c ((is_interested_iff s.config subject c).0 wants) (Fanout-select cs))
        | inr other ↦
            rw other
              (skip c (λ h. cc ((is_interested_iff s.config subject c).1 h)) (Fanout-select cs))
      ]

  -- A message is refused, with `no_stream`, exactly if no declared stream has a pattern that
  -- matches its subject. Else one first delivery, due now, is added to the queue for each
  -- registered consumer whose stream and filter take the subject, and for no other consumer, and
  -- nothing else of the state changes.
  pub publish-Fanout :
      ((¬ Any (Accepts subject) s.config.streams)
        × (publish s subject payload headers ≡ err no_stream))
      ⊎ ((new : List (ScheduledDelivery HeaderMap)) × Any (Accepts subject) s.config.streams
          × (publish s subject payload headers ≡ ok (record s { pending = s.pending ++ new }))
          × Fanout (values s.consumers) new)
  unfolding publish
  publish-Fanout = elim (Bool-cases (is_empty (matching_streams s.config subject))) [
    | inl empty ↦ inl (λ h. cc ((declared_iff subject s.config.streams).1 h), rw empty)
    | inr found ↦ inr (
      _,
      (declared_iff subject s.config.streams).0 found,
      rw found,
      Fanout-select (values s.consumers),
    )
  ]
