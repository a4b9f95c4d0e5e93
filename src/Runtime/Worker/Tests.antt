-- ===== src/Runtime/Worker/Tests.antt =====
-- Runs of the loops of nats-micro/src/runtime, and of their theorems.
use nats_micro.Runtime.Worker.Bounds.{run_worker-le, IsClean}
use nats_micro.Runtime.Worker.Runs.{AtExit}
use nats_micro.Runtime.Worker.Shutdown.{workers-IsDrained, IsDrained}
use nats_micro.Runtime.Worker.Panics.{workers-Respects, Respects}
use nats_micro.Runtime.Worker.Accounting.{workers-Accounts, next_message, next_pulled}
use nats_micro.Runtime.Worker.Polls.{Accounts, taken_by, ended_by, taken_from, ended_from}
use nats_micro.Runtime.Worker.{
  consumer_source, finished, run_consumer, handler_panicked, subscription_source, panicked,
  run_subscription, returned, run_from, Ending, request_source, handle_completion, run_worker,
  Ready, run_request_endpoint, Loop,
}
use nats_micro.Runtime.Config.{log_and_continue, fail_worker}
use nats_micro.Prelude.{
  Result, Option, List, ℕ, refl, some, none, [], ◌∷◌, ◌≡◌, ◌≤◌, true, ok, err, arith, length,
}

-- Two messages come in, one task ends in a panic, the worker is told to shut down, the other ends.
abbrev arrival : ℕ → Ready (Option ℕ)
arrival m = record { changed = none; done = none; incoming = some (some m) }

abbrev ending_of : ℕ → Ending → Ready (Option ℕ)
ending_of place ending = record { changed = none; done = some (place, ending); incoming = none }

abbrev shutdown : Ready (Option ℕ)
shutdown = record { changed = some (true, true); done = none; incoming = some (some 9) }

abbrev idle : Ready (Option ℕ)
idle = record { changed = none; done = none; incoming = none }

abbrev life : List (Ready (Option ℕ))
life =
    arrival 1
    ∷ arrival 2
    ∷ ending_of 0 panicked
    ∷ shutdown
    ∷ ending_of 0 (finished (ok tt))
    ∷ idle
    ∷ []

abbrev consumer_life : List (Ready (Option (Result Unit ℕ)))
consumer_life =
    record { changed = none; done = none; incoming = some (some (ok 3)) }
    ∷ record { changed = none; done = none; incoming = some none }
    ∷ []

life_run : (run_request_endpoint 2 log_and_continue life).0 ≡ some (returned (ok tt))
unfolding run_request_endpoint
life_run = refl

life_fails : (run_request_endpoint 2 fail_worker life).0 ≡ some (returned (err handler_panicked))
unfolding run_request_endpoint
life_fails = refl

run_worker-le_example :
    (length (run_worker request_source 2 log_and_continue life).1.in_flight ≤ 2)
    × AtExit IsClean
        (run_worker request_source 2 log_and_continue life).0
        (run_worker request_source 2 log_and_continue life).1
run_worker-le_example = run_worker-le request_source 2 log_and_continue life

workers-Accounts_example :
    Accounts request_source 2 log_and_continue next_message life
      (run_request_endpoint 2 log_and_continue life)
    × Accounts subscription_source 2 log_and_continue next_message life
        (run_subscription 2 log_and_continue life)
    × Accounts consumer_source 2 log_and_continue next_pulled consumer_life
        (run_consumer 2 log_and_continue consumer_life)
workers-Accounts_example = workers-Accounts 2 log_and_continue life consumer_life

life_taken :
    (taken_by request_source 2 log_and_continue next_message life ≡ 1 ∷ 2 ∷ [])
    × (ended_by request_source 2 log_and_continue next_message life ≡ 1 ∷ 2 ∷ [])
unfolding taken_from ended_from nats_micro.Runtime.Worker.round
life_taken = (refl, refl)

workers-Respects_example :
    Respects fail_worker (run_request_endpoint 2 fail_worker life)
    × Respects fail_worker (run_subscription 2 fail_worker life)
    × Respects fail_worker (run_consumer 2 fail_worker consumer_life)
workers-Respects_example = workers-Respects 2 fail_worker life consumer_life

abbrev busy : Loop ℕ
busy = record { accepting = true; in_flight = 5 ∷ [] }

abbrev drain : List (Ready (Option ℕ))
drain = ending_of 0 panicked ∷ idle ∷ []

abbrev consumer_shutdown : Ready (Option (Result Unit ℕ))
consumer_shutdown = record { changed = some (true, true); done = none; incoming = none }

abbrev consumer_drain : List (Ready (Option (Result Unit ℕ)))
consumer_drain =
    record { changed = none; done = some (0, panicked); incoming = none }
    ∷ record { changed = none; done = none; incoming = none }
    ∷ []

workers-IsDrained_example :
    IsDrained (run_from request_source 2 log_and_continue busy (shutdown ∷ drain))
    × IsDrained (run_from subscription_source 2 log_and_continue busy (shutdown ∷ drain))
    × IsDrained
        (run_from consumer_source 2 log_and_continue busy (consumer_shutdown ∷ consumer_drain))
unfolding handle_completion
workers-IsDrained_example =
    workers-IsDrained 2 log_and_continue busy true shutdown drain consumer_shutdown consumer_drain
      refl refl refl (0, panicked, refl, omega arith, refl, tt)
      (0, panicked, refl, omega arith, refl, tt)
