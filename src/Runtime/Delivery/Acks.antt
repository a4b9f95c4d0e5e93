-- ===== src/Runtime/Delivery/Acks.antt =====
-- What a message's processing tells JetStream.
use nats_micro.Prelude.{
  ◌⊎◌, ◌<◌, is_some, ℕ, zero, suc, ◌≡◌, refl, List, [], ◌∷◌, ◌++◌, Option, some, none, Result, ok,
  err, arith, Bool-cases, inl, inr,
}
use nats_micro.Response.{ErrorReply}
use nats_micro.Runtime.Delivery.{
  ConsumerAction, ack, nack, nack_after, term, AckKind, ack_message, term_message, nak, progress,
  Happening, handled, ticked, action_of, kind_of, with_progress, without_progress, send_action,
  process_consumer, progress_period,
}

abbrev pub progresses : ℕ → List AckKind
progresses zero = []
progresses (suc n) = progress ∷ progresses n

-- The handler's result, once it is there.
abbrev pub result_of : List Happening → Option (Result ErrorReply ConsumerAction)
result_of [] = none
result_of (handled result ∷ happenings) = some result
result_of (ticked sent ∷ happenings) = result_of happenings

-- The ticks until the handler's result is there.
abbrev pub ticks_of : List Happening → ℕ
ticks_of [] = 0
ticks_of (handled result ∷ happenings) = 0
ticks_of (ticked sent ∷ happenings) = suc (ticks_of happenings)

-- The answer a handler's result stands for.
pub data Asks : Result ErrorReply ConsumerAction → AckKind → Type 0 where
  done : Asks (ok ack) ack_message
  refused : Asks (ok nack) (nak none)
  postponed : (delay : ℕ) → Asks (ok (nack_after delay)) (nak (some delay))
  given_up : Asks (ok term) term_message
  failed : (error : ErrorReply) → Asks (err error) (nak none)

-- A sign of progress for each tick until the result is there, none if the acknowledgement wait is
-- zero, and then the one answer that the handler's result asks for.
abbrev pub IsAnswered : ℕ → List Happening → List AckKind → Type 0
IsAnswered ack_wait_ms happenings sent =
    (n : ℕ) × (result : Result ErrorReply ConsumerAction) × (kind : AckKind) × (result_of happenings
      ≡ some result)
    × Asks result kind
    × (sent ≡ progresses n ++ kind ∷ [])
    × (((n ≡ 0) × (ack_wait_ms ≡ 0)) ⊎ ((n ≡ ticks_of happenings) × (0 < ack_wait_ms)))

with_progress-ok :
    (happenings : List Happening) (action : ConsumerAction) (sent : List AckKind)
    → with_progress happenings ≡ (some (ok action), sent)
    → (result : Result ErrorReply ConsumerAction) × (result_of happenings ≡ some result)
      × (action ≡ action_of result)
      × (sent ≡ progresses (ticks_of happenings))
unfolding with_progress
with_progress-ok [] action sent e = ground arith
with_progress-ok (handled result ∷ happenings) action sent e =
    (result, refl, ground arith, ground arith)
with_progress-ok (ticked (err error) ∷ happenings) action sent e = ground arith
with_progress-ok (ticked (ok u) ∷ happenings) action sent e =
    let (result, there, same, signs) =
      with_progress-ok happenings action (with_progress happenings).1 (ground arith) in
    (result, there, same, ground (arith, signs))

without_progress-ok :
    (happenings : List Happening) (action : ConsumerAction) (sent : List AckKind)
    → without_progress happenings ≡ (some (ok action), sent)
    → (result : Result ErrorReply ConsumerAction) × (result_of happenings ≡ some result)
      × (action ≡ action_of result)
      × (sent ≡ [])
unfolding without_progress
without_progress-ok [] action sent e = ground arith
without_progress-ok (handled result ∷ happenings) action sent e =
    (result, refl, ground arith, ground arith)
without_progress-ok (ticked answer ∷ happenings) action sent e =
    without_progress-ok happenings action sent e

send_action-ok :
    (answer : Result ℕ (Unit {0})) (r : Option (Result ℕ ConsumerAction) × List AckKind)
    (sent : List AckKind)
    → send_action answer r ≡ (some (ok tt), sent)
    → (action : ConsumerAction) × (r ≡ (some (ok action), r.1))
      × (sent ≡ r.1 ++ kind_of action ∷ [])
send_action-ok answer (none, acks) sent e = ground arith
send_action-ok answer (some (err x), acks) sent e = ground arith
send_action-ok answer (some (ok action), acks) sent e = (action, refl, ground arith)

kind_of-Asks :
    (result : Result ErrorReply ConsumerAction) → Asks result (kind_of (action_of result))
kind_of-Asks (ok ack) = done
kind_of-Asks (ok nack) = refused
kind_of-Asks (ok (nack_after delay)) = postponed delay
kind_of-Asks (ok term) = given_up
kind_of-Asks (err error) = failed error

-- A message whose processing succeeds has been answered exactly once, after a sign of progress for
-- each tick until the handler's result was there, and as that result asks: an ack by an ack, a nack
-- by a nack without a delay, a nack after a delay by a nack with that delay, a term by a term, and an
-- error by a nack without a delay. With an acknowledgement wait of zero there is no sign of progress.
pub process_consumer-IsAnswered :
    (ack_wait_ms : ℕ) (happenings : List Happening) (answer : Result ℕ (Unit {0}))
    (sent : List AckKind)
    → process_consumer ack_wait_ms happenings answer ≡ (some (ok tt), sent)
    → IsAnswered ack_wait_ms happenings sent
unfolding process_consumer progress_period
process_consumer-IsAnswered ack_wait_ms happenings answer sent e =
    elim (Bool-cases (is_some (progress_period ack_wait_ms))) [
      | inl timed ↦
          let (action, ended, last) =
            send_action-ok answer (with_progress happenings) sent (rw timed at e) in
          let (result, there, same, signs) =
            with_progress-ok happenings action (with_progress happenings).1 ended in
          (
            ticks_of happenings,
            result,
            kind_of (action_of result),
            there,
            kind_of-Asks result,
            rw (last, signs, same) refl,
            inr (refl, ground arith),
          )
      | inr untimed ↦
          let (action, ended, last) =
            send_action-ok answer (without_progress happenings) sent (rw untimed at e) in
          let (result, there, same, signs) =
            without_progress-ok happenings action (without_progress happenings).1 ended in
          (
            0,
            result,
            kind_of (action_of result),
            there,
            kind_of-Asks result,
            rw (last, signs, same) refl,
            inl (refl, ground arith),
          )
    ]
