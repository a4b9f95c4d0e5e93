-- ===== src/Runtime/Worker/Panics.antt =====
-- The panic policies of the workers, when a handler panics.
use nats_micro.Prelude.{
  ap, ◌≢◌, ℕ, ◌≡◌, inl, inr, Bool, List, Option, some, none, Result, ok, err, arith, ltb,
  Bool-cases,
}
use nats_micro.Runtime.Config.{HandlerPanicPolicy, log_and_continue, fail_worker, propagate}
use nats_micro.Runtime.Worker.{
  run_consumer, run_subscription, request_source, run_request_endpoint, consumer_source,
  subscription_source, Effect, Loop, Ready, Source, Turn, Exit, Ending, finished, panicked,
  handler_panicked, zero_concurrency, process_failed, returned, unwound, WorkerError, completion,
  handle_completion, stop_with, complete_with, receive_with, round, run_worker, fresh,
}
use nats_micro.Runtime.Worker.Runs.{loop_of, exit_of, AtExit, run_from-AtExit}
use nats_micro.Runtime.Worker.Rounds.{drained, waits, stops, completes, receives, round-Round}

-- The exits that a panic may cause.
abbrev pub IsPanic : Exit → Type 0
IsPanic unwound = Unit {0}
IsPanic (returned (ok u)) = ⊥
IsPanic (returned (err e)) = e ≡ handler_panicked

abbrev pub Allowed : HandlerPanicPolicy → Exit → Type 0
Allowed log_and_continue exit = ¬ IsPanic exit
Allowed fail_worker exit = exit ≢ unwound
Allowed propagate exit = exit ≢ returned (err handler_panicked)

-- The source's own errors are not panics.
abbrev HasNoPanic : {M I : Type 0} → Source M I → Type 0
HasNoPanic {M} {I} source =
    ((b : Bool) → (source.stop b).1 ≢ some handler_panicked)
    × ((i : I) → source.receive i ≢ err handler_panicked)

module _ {M I : Type 0} (source : Source M I) (concurrency : ℕ) (panic_policy : HandlerPanicPolicy)
    (calm : HasNoPanic source) where
  abbrev AllowedAt : Turn M → Type 0
  AllowedAt t = AtExit (λ exit s. Allowed panic_policy exit) (exit_of t) (loop_of t)

  error-Allowed :
      (p : HandlerPanicPolicy) (e : WorkerError)
      → e ≢ handler_panicked
      → Allowed p (returned (err e))
  error-Allowed log_and_continue e h = h
  error-Allowed fail_worker e h = cc
  error-Allowed propagate e h = ground (arith, h)

  panic-Allowed :
      (p : HandlerPanicPolicy) (s : Loop M) (effects : List (Effect M))
      → let t =
          complete_with source concurrency panic_policy
            (handle_completion p (completion p panicked))
            s
            effects in
        AtExit (λ exit s. Allowed p exit) (exit_of t) (loop_of t)
  unfolding complete_with handle_completion
  panic-Allowed log_and_continue s effects = tt
  panic-Allowed fail_worker s effects = cc
  panic-Allowed propagate s effects = cc

  complete-Allowed :
      (ending : Ending) (s : Loop M) (effects : List (Effect M))
      → AllowedAt (
          complete_with source concurrency panic_policy
            (handle_completion panic_policy (completion panic_policy ending))
            s
            effects)
  unfolding complete_with handle_completion
  complete-Allowed (finished (ok u)) s effects = tt
  complete-Allowed (finished (err e)) s effects = error-Allowed panic_policy (process_failed e) (cc)
  complete-Allowed panicked s effects = panic-Allowed panic_policy s effects

  stop-Allowed :
      (s : Loop M) (r : List (Effect M) × Option WorkerError)
      → r.1 ≢ some handler_panicked
      → AllowedAt (stop_with source concurrency panic_policy s r)
  unfolding stop_with
  stop-Allowed s (effects, none) h = tt
  stop-Allowed s (effects, some e) h = error-Allowed panic_policy e (λ same. h (ap some same))

  receive-Allowed :
      (s : Loop M) (r : Result WorkerError (Option M))
      → r ≢ err handler_panicked
      → AllowedAt (receive_with source concurrency panic_policy s r)
  unfolding receive_with
  receive-Allowed s (ok (some m)) h = tt
  receive-Allowed s (ok none) h = tt
  receive-Allowed s (err e) h = error-Allowed panic_policy e (λ same. h (ap err same))

  ok-Allowed : (p : HandlerPanicPolicy) → Allowed p (returned (ok tt))
  ok-Allowed log_and_continue = λ h. h
  ok-Allowed fail_worker = cc
  ok-Allowed propagate = cc

  round-Allowed :
      (s : Loop M) (ready : Ready I) → AllowedAt (round source concurrency panic_policy s ready)
  round-Allowed s ready = elim (round-Round source concurrency panic_policy s ready) [
    | drained a e t ↦ rw t (ok-Allowed panic_policy)
    | waits t ↦ rw t tt
    | stops b a c t ↦ rw t (stop-Allowed s (source.stop b) (calm.0 b))
    | completes place m rest ending d r t ↦
        rw t (complete-Allowed ending (record s { in_flight = rest }) _)
    | receives item a room i t ↦ rw t (receive-Allowed s (source.receive item) (calm.1 item))
  ]

  run_worker-Allowed :
      (polls : List (Ready I))
      → let r = run_worker source concurrency panic_policy polls in
        AtExit (λ exit s. Allowed panic_policy exit) r.0 r.1
  unfolding run_worker
  run_worker-Allowed polls = elim (Bool-cases (ltb 0 concurrency)) [
    | inl room ↦ rw room (
        run_from-AtExit source concurrency panic_policy (λ exit s. Allowed panic_policy exit)
          round-Allowed fresh polls)
    | inr no_room ↦ rw no_room (error-Allowed panic_policy zero_concurrency (cc))
  ]

request-HasNoPanic : {M : Type 0} → HasNoPanic (request_source {M = M})
request-HasNoPanic = (λ b. cc, λ i. ground arith)

subscription-HasNoPanic : {M : Type 0} → HasNoPanic (subscription_source {M = M})
subscription-HasNoPanic = (λ b. ground arith, λ i. ground arith)

consumer-HasNoPanic : {M : Type 0} → HasNoPanic (consumer_source {M = M})
consumer-HasNoPanic = (λ b. cc, λ i. ground arith)

-- How an exit of a worker respects the panic policy.
abbrev pub Respects :
    {M : Type 0} → HandlerPanicPolicy → Option Exit × Loop M × List (Effect M) → Type 0
Respects panic_policy r = AtExit (λ exit s. Allowed panic_policy exit) r.0 r.1

-- Whatever the handlers do: a worker whose policy is to log panics never ends by a panic, neither
-- with the panic error nor by unwinding; one whose policy is to fail never unwinds; and one that
-- lets panics propagate never returns the panic error.
pub workers-Respects :
    {M : Type 0} (concurrency : ℕ) (panic_policy : HandlerPanicPolicy)
    (polls : List (Ready (Option M))) (consumer_polls : List (Ready (Option (Result (Unit {0}) M))))
    → Respects panic_policy (run_request_endpoint concurrency panic_policy polls)
      × Respects panic_policy (run_subscription concurrency panic_policy polls)
      × Respects panic_policy (run_consumer concurrency panic_policy consumer_polls)
unfolding run_request_endpoint run_subscription run_consumer
workers-Respects concurrency panic_policy polls consumer_polls = (
  run_worker-Allowed request_source concurrency panic_policy request-HasNoPanic polls,
  run_worker-Allowed subscription_source concurrency panic_policy subscription-HasNoPanic polls,
  run_worker-Allowed consumer_source concurrency panic_policy consumer-HasNoPanic consumer_polls,
)
