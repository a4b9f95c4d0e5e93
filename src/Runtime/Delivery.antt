-- ===== src/Runtime/Delivery.antt =====
-- `process_consumer` of nats-micro/src/runtime/consumer_worker.rs: what is sent to JetStream for a
-- message while its handler runs, and after. A handler's panic is the worker loop's concern.
pub mod Acks
use nats_micro.Prelude.{
  ℕ, ◌/◌, Bool, true, false, List, [], ◌∷◌, ◌++◌, Option, some, none, Result, ok, err, ◌==◌,
  is_some, if◌then◌else◌,
}
use nats_micro.Prelude.Durations.{from_millis}
use nats_micro.Response.{ErrorReply}

pub data ConsumerAction : Type 0 where
  ack nack : ConsumerAction
  nack_after : ℕ → ConsumerAction
  term : ConsumerAction

pub data AckKind : Type 0 where
  ack_message progress : AckKind
  nak : Option ℕ → AckKind
  term_message : AckKind

-- What the loop waits for: the handler's result, or a tick, with what sending the progress answers.
pub data Happening : Type 0 where
  handled : Result ErrorReply ConsumerAction → Happening
  ticked : Result ℕ (Unit {0}) → Happening

-- `ack_wait.checked_div(3).filter(|period| !period.is_zero())`
unfoldable pub progress_period : ℕ → Option ℕ
progress_period ack_wait_ms =
    let period = from_millis ack_wait_ms / 3 in if period == 0 then none else some period

abbrev pub action_of : Result ErrorReply ConsumerAction → ConsumerAction
action_of (ok action) = action
action_of (err error) = nack

abbrev pub kind_of : ConsumerAction → AckKind
kind_of ack = ack_message
kind_of nack = nak none
kind_of (nack_after delay) = nak (some delay)
kind_of term = term_message

-- The loop with its timer, and what it sent; it has no result yet while the handler runs.
unfoldable pub with_progress : List Happening → Option (Result ℕ ConsumerAction) × List AckKind
with_progress [] = (none, [])
with_progress (handled result ∷ happenings) = (some (ok (action_of result)), [])
with_progress (ticked (err error) ∷ happenings) = (some (err error), progress ∷ [])
with_progress (ticked (ok u) ∷ happenings) =
    let (result, sent) = with_progress happenings in (result, progress ∷ sent)

-- `handler.await`, for which there is no timer.
unfoldable pub without_progress : List Happening → Option (Result ℕ ConsumerAction) × List AckKind
without_progress [] = (none, [])
without_progress (handled result ∷ happenings) = (some (ok (action_of result)), [])
without_progress (ticked sent ∷ happenings) = without_progress happenings

-- The last message, with what sending it answers.
abbrev pub send_action :
    Result ℕ (Unit {0})
    → Option (Result ℕ ConsumerAction) × List AckKind
    → Option (Result ℕ (Unit {0})) × List AckKind
send_action answer (none, sent) = (none, sent)
send_action answer (some (err error), sent) = (some (err error), sent)
send_action answer (some (ok action), sent) = (some answer, sent ++ kind_of action ∷ [])

unfoldable pub process_consumer :
    ℕ → List Happening → Result ℕ (Unit {0}) → Option (Result ℕ (Unit {0})) × List AckKind
unfolding progress_period with_progress without_progress
process_consumer ack_wait_ms happenings answer =
    if is_some (progress_period ack_wait_ms)
    then send_action answer (with_progress happenings)
    else send_action answer (without_progress happenings)
