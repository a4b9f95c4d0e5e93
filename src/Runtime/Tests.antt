-- ===== src/Runtime/Tests.antt =====
-- Runs of the configuration, the restart tracker, the supervision, the application and the
-- processing of a message, and of their theorems.
use nats_micro.Runtime.Delivery.Acks.{process_consumer-IsAnswered, IsAnswered}
use nats_micro.Runtime.Delivery.{
  nak, progress, handled, progress_period, ticked, process_consumer, Happening,
}
use nats_micro.Runtime.Application.Shutdown.{run-Succeeds_iff, Succeeds}
use nats_micro.Runtime.Application.Joining.{run-Perm}
use nats_micro.Runtime.Application.Events.{joined_in_loop, left_in_loop, joined_before}
use nats_micro.Runtime.Supervisor.Budget.{supervise-IsStopped, supervise-le, IsStopped, EndsWith}
use nats_micro.Runtime.Supervisor.{supervise, Attempt}
use nats_micro.Runtime.Config.Laws.{validate_iff, IsConfig}
use nats_micro.Runtime.Worker.{stream_ended, returned}
use nats_micro.Runtime.Restarts.Laws.{delays-answer, answer, delays}
use nats_micro.Runtime.Config.{
  ignore, Profile, for_profile, restart, validate, AppConfig, WorkerFailurePolicy,
}
use mathlib.Core.List.{Perm}
use nats_micro.Runtime.Supervisor
use nats_micro.Runtime.Application
use nats_micro.Runtime.Application.{
  completed, Poll, DrainPoll, Closing, Drained, Left, run, run_loop, drain_timed_out,
}
use nats_micro.Runtime.Restarts.{slept}
use nats_micro.Prelude.{
  bytes, false, ◌++◌, List, ℕ, refl, some, none, [], ◌∷◌, ◌≡◌, ◌↔◌, ◌≤◌, true, get_elem?, ok, err,
  arith, length,
}
use nats_micro.Prelude.Durations.{duration_max}
use nats_micro.Runtime.Restarts
use nats_micro.Runtime.Restarts.{RestartTracker, next_delay}

abbrev production : AppConfig
production = for_profile Profile.production

validate_iff_example : (validate production ≡ ok tt) ↔ IsConfig production
validate_iff_example = validate_iff production

abbrev policy : WorkerFailurePolicy
policy = restart 100 300 3 1000

delays_run :
    delays (Restarts.new policy 0) (0 ∷ 10 ∷ 20 ∷ 30 ∷ [])
    ≡ some 100 ∷ some 200 ∷ some 300 ∷ none ∷ []
unfolding Restarts.new delays next_delay
delays_run = refl

delays-answer_example :
    get_elem? (delays (Restarts.new policy 0) (0 ∷ 10 ∷ [])) 1 ≡ some (answer 100 300 3 1000 1)
unfolding duration_max
delays-answer_example =
    delays-answer 100 300 3 1000 0 (0 ∷ 10 ∷ []) 1 (omega arith) (omega arith) (omega arith)
      (omega arith, (omega arith, tt)) (omega arith)

-- A worker that fails, is bound anew after its backoff, and ends when the shutdown is requested.
abbrev crash : ℕ → Attempt
crash at = record {
  exit = returned (err stream_ended);
  requested = false;
  now = at;
  woken = slept;
  rebound = ok tt;
}

abbrev stopped : Attempt
stopped = record (crash 20) { exit = returned (ok tt); requested = true }

restarts_once :
    supervise (Restarts.new policy 0) (crash 10 ∷ stopped ∷ [])
    ≡ (some (Supervisor.finished (ok tt)), 100 ∷ [])
unfolding supervise Restarts.new
restarts_once = refl

supervise-IsStopped_example : EndsWith IsStopped (Restarts.new policy 0) (crash 10 ∷ stopped ∷ [])
unfolding supervise Restarts.new
supervise-IsStopped_example =
    supervise-IsStopped (Restarts.new policy 0) (crash 10 ∷ stopped ∷ []) refl

supervise-le_example :
    length (supervise (Restarts.new policy 0) (crash 10 ∷ crash 11 ∷ crash 12 ∷ crash 13 ∷ [])).1
    ≤ 3
unfolding duration_max
supervise-le_example =
    supervise-le 100 300 3 1000 0 (crash 10 ∷ crash 11 ∷ crash 12 ∷ crash 13 ∷ []) (omega arith)
      (omega arith) (omega arith) (omega arith, (omega arith, (omega arith, (omega arith, tt))))

-- One of three tasks fails and is ignored, a shutdown is requested, one task is joined in time, and
-- the last is aborted at the deadline.
abbrev rounds : List Poll
rounds =
    record {
      requested = false;
      event = completed 1 (Supervisor.finished (err Supervisor.exited)) false;
    }
    ∷ record { requested = true; event = Application.changed false true }
    ∷ []

abbrev in_time : DrainPoll
in_time = record { now = 5; ended = some 0 }

abbrev overdue : DrainPoll
overdue = record { now = 11; ended = none }

abbrev closing_with : List DrainPoll → Closing
closing_with drains = record {
  hook = none;
  deadline = 10;
  polls = drains;
  services = true ∷ [];
  client = ok tt;
}

run-Perm_example :
    Perm (7 ∷ 8 ∷ 9 ∷ []) (joined_in_loop ignore (7 ∷ 8 ∷ 9 ∷ []) rounds ++ ((7 ∷ []) ++ (9 ∷ [])))
    × (7 ∷ []
        ≡ joined_before 10 (left_in_loop ignore (7 ∷ 8 ∷ 9 ∷ []) rounds) (in_time ∷ overdue ∷ []))
unfolding run
run-Perm_example =
    run-Perm ignore (7 ∷ 8 ∷ 9 ∷ []) rounds (closing_with (in_time ∷ overdue ∷ []))
      (err drain_timed_out)
      (record { joined = 7 ∷ []; aborted = 9 ∷ []; first_failure = some drain_timed_out }) refl

rounds_joined :
    (joined_in_loop ignore (7 ∷ 8 ∷ 9 ∷ []) rounds ≡ 8 ∷ [])
    × (left_in_loop ignore (7 ∷ 8 ∷ 9 ∷ []) rounds ≡ 7 ∷ 9 ∷ [])
unfolding joined_in_loop left_in_loop
rounds_joined = (refl, refl)

abbrev all_joined : Drained
all_joined = record { joined = 7 ∷ 9 ∷ []; aborted = []; first_failure = none }

run-Succeeds_iff_example :
    (run ignore (7 ∷ 8 ∷ 9 ∷ []) rounds (closing_with (in_time ∷ in_time ∷ []))
      ≡ some (ok tt, all_joined))
    ↔ Succeeds ignore (7 ∷ 8 ∷ 9 ∷ []) rounds (closing_with (in_time ∷ in_time ∷ [])) all_joined
run-Succeeds_iff_example =
    run-Succeeds_iff ignore (7 ∷ 8 ∷ 9 ∷ []) rounds (closing_with (in_time ∷ in_time ∷ []))
      all_joined

run_succeeds :
    run ignore (7 ∷ 8 ∷ 9 ∷ []) rounds (closing_with (in_time ∷ in_time ∷ []))
    ≡ some (ok tt, all_joined)
unfolding run
run_succeeds = refl

-- A consumer's message whose handler fails after a sign of progress.
abbrev failing : List Happening
failing =
    ticked (ok tt)
    ∷ handled (
        err (record {
          code = 500;
          kind = bytes "ERROR";
          message = bytes "no";
          body = [];
          request_id = none;
        }))
    ∷ []

process_consumer-IsAnswered_example : IsAnswered 30000 failing (progress ∷ nak none ∷ [])
unfolding process_consumer progress_period
process_consumer-IsAnswered_example =
    process_consumer-IsAnswered 30000 failing (ok tt) (progress ∷ nak none ∷ []) refl
