-- ===== src/Runtime/Restarts.antt =====
-- nats-micro/src/app/typed_runtime.rs: `RestartTracker` and `wait_backoff`. The clock is an
-- argument of each call that reads it.
pub mod Laws
use nats_micro.Prelude.{
  ℕ, ◌+◌, ◌%◌, ◌^◌, min, Bool, true, false, ltb, leb, List, [], ◌∷◌, Option, some, none,
  if◌then◌else◌, ◌||◌,
}
use nats_micro.Prelude.Durations.{saturating_mul, elapsed}
use nats_micro.Runtime.Config.{WorkerFailurePolicy, ignore, shutdown_app, restart}

pub record RestartTracker : Type 0 where
  pub policy : WorkerFailurePolicy
  pub window_started : ℕ
  pub restarts : ℕ
  pub next_backoff : ℕ

abbrev pub first_backoff : WorkerFailurePolicy → ℕ
first_backoff (restart initial_backoff max_backoff max_restarts window) = initial_backoff
first_backoff ignore = 0
first_backoff shutdown_app = 0

unfoldable pub new : WorkerFailurePolicy → ℕ → RestartTracker
new policy now = record {
  policy = policy;
  window_started = now;
  restarts = 0;
  next_backoff = first_backoff policy;
}

-- `self`, with a new window where the old one has passed.
abbrev pub roll_window : RestartTracker → ℕ → ℕ → ℕ → RestartTracker
roll_window tracker now initial_backoff window =
    if ltb window (elapsed now tracker.window_started)
    then record tracker { window_started = now; restarts = 0; next_backoff = initial_backoff }
    else tracker

abbrev pub grant : RestartTracker → ℕ → ℕ → RestartTracker × Option ℕ
grant tracker max_backoff max_restarts =
    if leb max_restarts tracker.restarts then (tracker, none) else (
      record tracker {
        restarts = (tracker.restarts + 1) % 2 ^ 32;
        next_backoff = min (saturating_mul tracker.next_backoff 2) max_backoff;
      },
      some tracker.next_backoff,
    )

delay_under : RestartTracker → ℕ → WorkerFailurePolicy → RestartTracker × Option ℕ
delay_under tracker now ignore = (tracker, none)
delay_under tracker now shutdown_app = (tracker, none)
delay_under tracker now (restart initial_backoff max_backoff max_restarts window) =
    grant (roll_window tracker now initial_backoff window) max_backoff max_restarts

unfoldable pub next_delay : RestartTracker → ℕ → RestartTracker × Option ℕ
unfolding delay_under saturating_mul
next_delay tracker now = delay_under tracker now tracker.policy

-- What `select!` in `wait_backoff` sees first: the end of the sleep, or a change of the shutdown
-- channel (an error, or a value with its `is_requested`).
pub data Woken : Type 0 where
  slept : Woken
  changed : (is_err requested : Bool) → Woken

unfoldable pub wait_backoff : Woken → Bool
wait_backoff slept = false
wait_backoff (changed is_err requested) = is_err || requested
