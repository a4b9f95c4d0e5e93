-- ===== src/Runtime/Worker.antt =====
-- The loop of the three workers: `run_request_endpoint_inner` of nats-micro/src/runtime/
-- request_worker.rs, `run_subscription_with_panic_policy` of subscription_worker.rs and
-- `run_consumer_inner` of consumer_worker.rs. They differ in what their source yields and in what
-- they do to it at shutdown. A task is named by the message that it handles.
pub mod Rounds
pub mod Runs
pub mod Bounds
pub mod Conservation
pub mod Polls
pub mod Accounting
pub mod Shutdown
pub mod Panics
mod Tests
use nats_micro.Prelude.{
  ℕ, Bool, true, false, ◌&&◌, ◌||◌, not, ltb, List, [], ◌∷◌, ◌++◌, Option, some, none, Result, ok,
  err, length, is_empty, remove, if◌then◌else◌,
}
use nats_micro.Runtime.Config.{HandlerPanicPolicy, log_and_continue, fail_worker, propagate}

-- Why a worker returns an error. What a task failed with is a number here.
pub data WorkerError : Type 0 where
  zero_concurrency stream_ended unsubscribe_failed handler_panicked : WorkerError
  process_failed : ℕ → WorkerError

-- How the future of a task ends: with a result, or in a panic.
pub data Ending : Type 0 where
  finished : Result ℕ (Unit {0}) → Ending
  panicked : Ending

-- What `in_flight.next()` yields: `catch_unwind`'s result, which is always `Ok` for a task that was
-- not wrapped, whose panic unwinds the worker itself.
pub data Completion : Type 0 where
  completed : Result ℕ (Unit {0}) → Completion
  caught : Completion
  unwinds : Completion

abbrev pub completion : HandlerPanicPolicy → Ending → Completion
completion policy (finished result) = completed result
completion propagate panicked = unwinds
completion log_and_continue panicked = caught
completion fail_worker panicked = caught

-- How a worker's future ends.
pub data Exit : Type 0 where
  returned : Result WorkerError (Unit {0}) → Exit
  unwound : Exit

-- `handle_completion(completed, panic_policy)?`: go on, or leave the loop.
unfoldable pub handle_completion : HandlerPanicPolicy → Completion → Option Exit
handle_completion policy (completed (ok u)) = none
handle_completion policy (completed (err e)) = some (returned (err (process_failed e)))
handle_completion log_and_continue caught = none
handle_completion fail_worker caught = some (returned (err handler_panicked))
handle_completion propagate caught = some (returned (err handler_panicked))
handle_completion policy unwinds = some unwound

pub record Loop (M : Type 0) : Type 0 where
  pub accepting : Bool
  pub in_flight : List M

-- What a round of the loop does that can be seen from outside.
pub data Effect (M : Type 0) : Type 0 where
  started : M → Effect M
  ended : M → Ending → Effect M
  source_stopped : Effect M
  receive_failed : Effect M

-- What `select!` finds ready: a change of the shutdown channel (`changed.is_err() ||
-- is_requested()`, and whether stopping the source then succeeds), the task at a place of
-- `in_flight` with its ending, and an item of the source.
pub record Ready (I : Type 0) : Type 0 where
  pub changed : Option (Bool × Bool)
  pub done : Option (ℕ × Ending)
  pub incoming : Option I

-- The part in which the workers differ.
pub record Source (M I : Type 0) : Type 0 where
  -- at shutdown, from whether stopping succeeded: what it does, and whether the worker goes on
  pub stop : Bool → List (Effect M) × Option WorkerError
  -- an item: a message, a failure that is logged, or the end of the stream
  pub receive : I → Result WorkerError (Option M)

pub data Turn (M : Type 0) : Type 0 where
  going : Loop M → List (Effect M) → Turn M
  left : Exit → Loop M → List (Effect M) → Turn M

abbrev pub fresh : {M : Type 0} → Loop M
fresh = record { accepting = true; in_flight = [] }

module _ {M I : Type 0} (source : Source M I) (concurrency : ℕ)
    (panic_policy : HandlerPanicPolicy) where
  unfoldable pub stop_with : Loop M → List (Effect M) × Option WorkerError → Turn M
  stop_with s (effects, none) = going (record s { accepting = false }) effects
  stop_with s (effects, some e) = left (returned (err e)) (record s { accepting = false }) effects

  on_changed : Loop M → Bool × Bool → Turn M
  unfolding stop_with
  on_changed s (requested, stops) =
      if requested then stop_with s (source.stop stops) else going s []

  unfoldable pub complete_with : Option Exit → Loop M → List (Effect M) → Turn M
  complete_with none s effects = going s effects
  complete_with (some exit) s effects = left exit s effects

  unfoldable pub on_done : Loop M → Option (M × List M) → Ending → Turn M
  unfolding complete_with handle_completion
  on_done s none ending = going s []
  on_done s (some (m, rest)) ending =
      complete_with (handle_completion panic_policy (completion panic_policy ending))
        (record s { in_flight = rest }) (ended m ending ∷ [])

  unfoldable pub receive_with : Loop M → Result WorkerError (Option M) → Turn M
  receive_with s (ok (some m)) =
      going (record s { in_flight = s.in_flight ++ m ∷ [] }) (started m ∷ [])
  receive_with s (ok none) = going s (receive_failed ∷ [])
  receive_with s (err e) = left (returned (err e)) s []

  -- The branches of the two `select!`s, which poll in their order (`biased`); the later ones are
  -- the arguments of the earlier.
  poll_incoming : Loop M → Option I → Turn M
  unfolding receive_with
  poll_incoming s none = going s []
  poll_incoming s (some item) = receive_with s (source.receive item)

  unfoldable pub poll_done : Loop M → Option (ℕ × Ending) → Turn M → Turn M
  unfolding on_done
  poll_done s none later = later
  poll_done s (some (place, ending)) later =
      if is_empty s.in_flight then later else on_done s (remove s.in_flight place) ending

  poll_changed : Loop M → Option (Bool × Bool) → Turn M → Turn M
  unfolding on_changed
  poll_changed s none later = later
  poll_changed s (some changed) later = on_changed s changed

  -- One round of `loop`.
  unfoldable pub round : Loop M → Ready I → Turn M
  unfolding poll_incoming poll_done poll_changed
  round s ready =
      if not s.accepting && is_empty s.in_flight
      then left (returned (ok tt)) s []
      else if s.accepting && ltb (length s.in_flight) concurrency
      then poll_changed s ready.changed (poll_done s ready.done (poll_incoming s ready.incoming))
      else if s.accepting
      then poll_changed s ready.changed (poll_done s ready.done (going s []))
      else poll_done s ready.done (going s [])

  -- The rounds that a list of polls drives; the exit is `none` while the loop goes on.
  unfoldable pub run_from : Loop M → List (Ready I) → Option Exit × Loop M × List (Effect M)
  unfolding round
  run_from s [] = (none, s, [])
  run_from s (ready ∷ polls) = elim (round s ready) [
    | left exit s' effects ↦ (some exit, s', effects)
    | going s' effects ↦ let (exit, last, more) = run_from s' polls in (exit, last, effects ++ more)
  ]

  -- The whole worker, `ensure!(concurrency > 0)` first.
  unfoldable pub run_worker : List (Ready I) → Option Exit × Loop M × List (Effect M)
  unfolding run_from
  run_worker polls =
      if ltb 0 concurrency
      then run_from fresh polls
      else (some (returned (err zero_concurrency)), fresh, [])

module _ {M : Type 0} where
  -- `endpoint.next()` is `None` at the end of the stream; an error of `endpoint.stop()` is logged.
  abbrev pub request_source : Source M (Option M)
  request_source = record {
    stop = λ stopped. (source_stopped ∷ [], none);
    receive = λ item. elim item [ none ↦ err stream_ended | some m ↦ ok (some m) ];
  }

  abbrev pub subscription_source : Source M (Option M)
  subscription_source = record {
    stop = λ stopped. (source_stopped ∷ [], (if stopped then none else some unsubscribe_failed));
    receive = λ item. elim item [ none ↦ err stream_ended | some m ↦ ok (some m) ];
  }

  abbrev pub receive_message : Option (Result (Unit {0}) M) → Result WorkerError (Option M)
  receive_message none = err stream_ended
  receive_message (some (ok m)) = ok (some m)
  receive_message (some (err e)) = ok none

  abbrev pub consumer_source : Source M (Option (Result (Unit {0}) M))
  consumer_source = record { stop = λ stopped. ([], none); receive = receive_message }

  unfoldable pub run_request_endpoint :
      ℕ → HandlerPanicPolicy → List (Ready (Option M)) → Option Exit × Loop M × List (Effect M)
  unfolding run_worker
  run_request_endpoint = run_worker request_source

  unfoldable pub run_subscription :
      ℕ → HandlerPanicPolicy → List (Ready (Option M)) → Option Exit × Loop M × List (Effect M)
  unfolding run_worker
  run_subscription = run_worker subscription_source

  unfoldable pub run_consumer :
      ℕ
      → HandlerPanicPolicy
      → List (Ready (Option (Result (Unit {0}) M)))
      → Option Exit × Loop M × List (Effect M)
  unfolding run_worker
  run_consumer = run_worker consumer_source
