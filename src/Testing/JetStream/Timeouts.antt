-- ===== src/Testing/JetStream/Timeouts.antt =====
-- Planned timeouts, acknowledgement timeouts, and the clock.
use nats_micro.Prelude.{
  ◌∙◌, ℕ, ◌+◌, ◌-◌, ◌≤◌, ◌<◌, ◌≡◌, ◌≢◌, refl, ap, ◌⊎◌, inl, inr, true, false, List, [], ◌∷◌, ◌++◌,
  some, none, Str, str_eq, str_eq_iff, get_elem?, Extract, missing, hit, pass, pass_none,
  position-remove, All, All-split, lookup, arith, Option-cases,
}
use nats_micro.Prelude.Durations.{duration_max, saturating_add}
use nats_micro.Testing.JetStream.{
  SimulatedConsumerConfig, ScheduledDelivery, State, u64_mod, next_due, timeout_delay,
  complete_timeout, consume_timeout, timeout_at, drop_planned, advance,
}
use nats_micro.Testing.JetStream.Invariant.{Inv, IsScheduled}
use nats_micro.Testing.JetStream.Retries.{complete_timeout-retry}
use nats_micro.Testing.JetStream.Deliveries.{next_due-first, NackEnds, retry-NackEnds}

-- The first plan for a durable is taken out of the list.
abbrev pub FirstPlanned : Str → List Str → List Str → Type 0
FirstPlanned durable xs ys =
    (before : List Str) × (after : List Str) × (xs ≡ before ++ durable ∷ after)
    × (ys ≡ before ++ after)
    × All (λ p. p ≢ durable) before

FirstPlanned-Extract :
    (durable : Str) {xs ys : List Str} {y : Str}
    → Extract (λ planned. str_eq planned durable) xs (some (y, ys))
    → FirstPlanned durable xs ys
FirstPlanned-Extract durable (hit x {xs} h) =
    ([], xs, ap (λ z. z ∷ xs) ((str_eq_iff x durable).0 h), refl, tt)
FirstPlanned-Extract durable (pass x h m) =
    let (before, after, e, r, all) = FirstPlanned-Extract durable m in
    (x ∷ before, after, ap (◌∷◌ x) e, ap (◌∷◌ x) r, (ground (arith, str_eq_iff x durable), all))

none-planned :
    (durable : Str) {xs : List Str}
    → Extract (λ planned. str_eq planned durable) xs none
    → All (λ p. p ≢ durable) xs
none-planned durable missing = tt
none-planned durable (pass_none x h m) =
    (ground (arith, str_eq_iff x durable), none-planned durable m)

delay_cases :
    (c : SimulatedConsumerConfig) (attempt : ℕ)
    → ((get_elem? c.backoff (attempt - 1) ≡ some (timeout_delay c attempt))
        ⊎ ((get_elem? c.backoff (attempt - 1) ≡ none) × (timeout_delay c attempt ≡ c.ack_wait)))
delay_cases c attempt = elim (Option-cases (get_elem? c.backoff (attempt - 1))) [
  | inl e ↦ inr (e, rw (e, timeout_delay))
  | inr (delay, e) ↦ inl (rw (e, timeout_delay))
]

due_after : (a b due : ℕ) → due ≤ a + b → due ≤ duration_max → due ≤ saturating_add a b
unfolding saturating_add
due_after a b due h k = omega arith

module _ {HeaderMap : Type 0} where
  -- `consume_timeout` answers `true` exactly if a timeout is planned for the durable, and then
  -- takes the first such plan out and keeps the others in their order; else nothing changes.
  pub consume_timeout-FirstPlanned :
      (s : State HeaderMap) (durable : Str)
      → ((consume_timeout s durable ≡ (s, false)) × All (λ p. p ≢ durable) s.timeout_next)
        ⊎ ((rest : List Str) × (consume_timeout s durable
              ≡ (record s { timeout_next = rest }, true))
            × FirstPlanned durable s.timeout_next rest)
  unfolding consume_timeout
  consume_timeout-FirstPlanned s durable =
      elim (position-remove (λ planned. str_eq planned durable) s.timeout_next) [
        | inl (e, m) ↦ inl (rw (e, timeout_at), none-planned durable m)
        | inr (i, y, rest, e, r, m) ↦
            inr (rest, rw (e, timeout_at, r, drop_planned), FirstPlanned-Extract durable m)
      ]

  -- A delivery whose acknowledgement times out ends as if it were nacked, after the entry of the
  -- consumer's backoff list that belongs to its attempt, or after `ack_wait` where the list has no
  -- such entry.
  pub complete_timeout-NackEnds :
      (s : State HeaderMap) (d : ScheduledDelivery HeaderMap) (c : SimulatedConsumerConfig)
      → lookup d.durable s.consumers ≡ some c
      → c.max_deliver < u64_mod
      → (delay : ℕ) × ((get_elem? c.backoff (d.attempt - 1) ≡ some delay)
          ⊎ ((get_elem? c.backoff (d.attempt - 1) ≡ none) × (delay ≡ c.ack_wait)))
        × NackEnds s d delay c (complete_timeout s d)
  complete_timeout-NackEnds s d c found small = (
    timeout_delay c d.attempt,
    delay_cases c d.attempt,
    rw (complete_timeout-retry s d c found)
        (retry-NackEnds s d (timeout_delay c d.attempt) c found small),
  )

  advance_lem :
      (s : State HeaderMap) (duration : ℕ)
      → ((advance s duration).pending ≡ s.pending)
        × ((advance s duration).now ≡ saturating_add s.now duration)
  unfolding advance
  advance_lem s duration = (refl, refl)

  -- Once the clock is moved to where a scheduled delivery is due, or beyond, `next_due` hands a
  -- delivery out.
  pub next_due-advance :
      (s : State HeaderMap) (before after : List (ScheduledDelivery HeaderMap))
      (d : ScheduledDelivery HeaderMap) (duration : ℕ)
      → Inv s
      → s.pending ≡ before ++ d ∷ after
      → d.due_at ≤ s.now + duration
      → (t : State HeaderMap) × (e : ScheduledDelivery HeaderMap) × (next_due (advance s duration)
          ≡ (t, some e))
  next_due-advance s before after d duration v at due = elim (next_due-first (advance s duration)) [
    | inl (e, all) ↦
        let (same, now) = advance_lem s duration in
        let scheduled =
          (All-split (IsScheduled s.consumers) before after d (rw at at v.scheduled)).0 in
        let late =
          (All-split (λ e. (advance s duration).now < e.due_at) before after d
            (rw (same ∙ at) at all)).0 in
        absurd (omega (arith, due_after s.now duration d.due_at due scheduled.4, now))
    | inr (t, e, out, first, counts) ↦ (t, e, out)
  ]
