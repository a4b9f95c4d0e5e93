-- ===== src/Testing/JetStream/Deliveries.antt =====
-- What single calls of the simulator hand out, schedule again and record.
use nats_micro.Prelude.{
  Result, ok, ℕ, ◌+◌, ◌%◌, ◌≤◌, ◌<◌, ◌≡◌, refl, ap, ◌∙◌, ◌⊎◌, inl, inr, List, [], ◌∷◌, ◌++◌, Option,
  some, none, Str, str_eq, lookup, insert, lookup-insert, if◌then◌else◌, Extract, missing, hit,
  pass, pass_none, All, arith, min,
}
use nats_micro.Testing.EventLog.{record_event}
use nats_micro.Prelude.Durations.{duration_max, saturating_add}
use nats_micro.Testing.JetStream.{
  Failure, SimulatedConsumerConfig, ScheduledDelivery, nack, nack_after, State, u64_mod, count_of,
  is_due, deliver, next_due, deliveries_of, retry, record_dead_letter, next_attempt, complete,
}
use nats_micro.Testing.JetStream.Invariant.{next_due-NextDue}
use nats_micro.Testing.JetStream.Retries.{retry-Retried}

count_of-insert :
    (k j : Str) (n : ℕ) (m : List (Str × ℕ))
    → count_of j (insert k n m) ≡ (if str_eq k j then n else count_of j m)
count_of-insert k j n m = ground (arith, lookup-insert k j n m)

module _ {HeaderMap : Type 0} where
  -- Where in the queue the first due delivery stands.
  abbrev pub FirstDue :
      ℕ
      → List (ScheduledDelivery HeaderMap)
      → ScheduledDelivery HeaderMap
      → List (ScheduledDelivery HeaderMap)
      → Type 0
  FirstDue now pending d rest =
      (before : List (ScheduledDelivery HeaderMap)) × (after : List (ScheduledDelivery HeaderMap))
      × (pending ≡ before ++ d ∷ after)
      × (rest ≡ before ++ after)
      × All (λ e. now < e.due_at) before
      × (d.due_at ≤ now)

  FirstDue-Extract :
      (now : ℕ) {pending rest : List (ScheduledDelivery HeaderMap)}
      {d : ScheduledDelivery HeaderMap}
      → Extract (is_due now) pending (some (d, rest))
      → FirstDue now pending d rest
  FirstDue-Extract now (hit x {xs} h) = ([], xs, refl, refl, tt, ground arith)
  FirstDue-Extract now (pass x h m) =
      let (before, after, e, r, all, due) = FirstDue-Extract now m in
      (x ∷ before, after, ap (◌∷◌ x) e, ap (◌∷◌ x) r, (ground arith, all), due)

  none_due :
      (now : ℕ) {pending : List (ScheduledDelivery HeaderMap)}
      → Extract (is_due now) pending none
      → All (λ e. now < e.due_at) pending
  none_due now missing = tt
  none_due now (pass_none x h m) = (ground arith, none_due now m)

  deliver-count :
      (s : State HeaderMap) (d : ScheduledDelivery HeaderMap)
      (rest : List (ScheduledDelivery HeaderMap)) (k : Str)
      → deliveries_of (deliver s (some (d, rest))).0 k ≡ (
          if str_eq d.durable k
          then (deliveries_of s d.durable + 1) % u64_mod
          else deliveries_of s k)
  unfolding deliver deliveries_of
  deliver-count s d rest k = count_of-insert d.durable k _ s.deliveries

  deliver-pair :
      (s : State HeaderMap) (d : ScheduledDelivery HeaderMap)
      (rest : List (ScheduledDelivery HeaderMap))
      → deliver s (some (d, rest)) ≡ ((deliver s (some (d, rest))).0, some d)
  unfolding deliver
  deliver-pair s d rest = refl

  deliver-FirstDue :
      (s : State HeaderMap) (d : ScheduledDelivery HeaderMap)
      (rest : List (ScheduledDelivery HeaderMap))
      → FirstDue s.now s.pending d rest
      → FirstDue s.now s.pending d (deliver s (some (d, rest))).0.pending
  unfolding deliver
  deliver-FirstDue s d rest h = h

  -- `next_due` hands out the first delivery of the queue that is due; the others keep their order,
  -- and the counter of its durable goes up by one (as a `u64`) and no other counter changes. It
  -- hands out nothing, and changes nothing, if no delivery is due.
  pub next_due-first :
      (s : State HeaderMap)
      → ((next_due s ≡ (s, none)) × All (λ e. s.now < e.due_at) s.pending)
        ⊎ ((t : State HeaderMap) × (d : ScheduledDelivery HeaderMap) × (next_due s ≡ (t, some d))
            × FirstDue s.now s.pending d t.pending
            × ((k : Str)
                → deliveries_of t k ≡ (
                    if str_eq d.durable k
                    then (deliveries_of s d.durable + 1) % u64_mod
                    else deliveries_of s k)))
  next_due-first s = elim (next_due-NextDue s) [
    | inl (e, m) ↦ inl (e, none_due s.now m)
    | inr (d, rest, e, m) ↦ inr (
      (deliver s (some (d, rest))).0,
      d,
      e ∙ deliver-pair s d rest,
      deliver-FirstDue s d rest (FirstDue-Extract s.now m),
      deliver-count s d rest,
    )
  ]

  -- The three ends of a retry, written out.
  abbrev pub NackEnds :
      State HeaderMap
      → ScheduledDelivery HeaderMap
      → ℕ
      → SimulatedConsumerConfig
      → Result Failure (State HeaderMap)
      → Type 0
  NackEnds s d delay c r =
      ((d.attempt < c.max_deliver)
        × (r
            ≡ ok (record s {
              pending =
                  s.pending
                  ++ record d { attempt = d.attempt + 1; due_at = min (s.now + delay) duration_max }
                    ∷ [];
            })))
      ⊎ (((c.max_deliver ≤ d.attempt)
            × (lookup d.durable s.config.dead_letters ≡ none)
            × (r ≡ ok s))
          ⊎ ((letter : Str) × (c.max_deliver ≤ d.attempt)
              × (lookup d.durable s.config.dead_letters ≡ some letter)
              × (r ≡ ok (record s { events = record_event s.events letter d.payload d.headers }))))

  next_attempt-lem :
      (s : State HeaderMap) (d : ScheduledDelivery HeaderMap) (delay n : ℕ)
      → d.attempt < n
      → n < u64_mod
      → next_attempt s d delay
        ≡ record d { attempt = d.attempt + 1; due_at = min (s.now + delay) duration_max }
  unfolding saturating_add
  next_attempt-lem s d delay n lt small = ground arith

  dead_letter-NackEnds :
      (s : State HeaderMap) (d : ScheduledDelivery HeaderMap) (delay : ℕ)
      (c : SimulatedConsumerConfig) (letter : Option Str)
      → lookup d.durable s.config.dead_letters ≡ letter
      → c.max_deliver ≤ d.attempt
      → NackEnds s d delay c (ok (record_dead_letter s d letter))
  unfolding record_dead_letter
  dead_letter-NackEnds s d delay c none e last = inr (inl (last, e, refl))
  dead_letter-NackEnds s d delay c (some letter) e last = inr (inr (letter, last, e, refl))

  pub retry-NackEnds :
      (s : State HeaderMap) (d : ScheduledDelivery HeaderMap) (delay : ℕ)
      (c : SimulatedConsumerConfig)
      → lookup d.durable s.consumers ≡ some c
      → c.max_deliver < u64_mod
      → NackEnds s d delay c (retry s d delay)
  retry-NackEnds s d delay c found small = elim (retry-Retried s d delay c found) [
    | inl (last, e) ↦
        rw e (dead_letter-NackEnds s d delay c (lookup d.durable s.config.dead_letters) refl last)
    | inr (more, e) ↦ inl (
      more,
      e
          ∙ ap (λ n. ok (record s { pending = s.pending ++ n ∷ [] }))
              (next_attempt-lem s d delay c.max_deliver more small),
    )
  ]

  -- A `nack` of a registered consumer's delivery schedules it again, at the end of the queue and
  -- with the next attempt, if attempts are left: due at once, or after the delay that the action
  -- names, but no later than `Duration::MAX`. After the last attempt it is not scheduled again: it
  -- is recorded as an event with its payload and headers if its durable has a dead-letter subject,
  -- and else nothing changes.
  pub complete-NackEnds :
      (s : State HeaderMap) (d : ScheduledDelivery HeaderMap) (delay : ℕ)
      (c : SimulatedConsumerConfig)
      → lookup d.durable s.consumers ≡ some c
      → c.max_deliver < u64_mod
      → NackEnds s d 0 c (complete s d nack)
        × NackEnds s d delay c (complete s d (nack_after delay))
  unfolding complete
  complete-NackEnds s d delay c found small =
      (retry-NackEnds s d 0 c found small, retry-NackEnds s d delay c found small)
