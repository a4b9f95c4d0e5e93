-- ===== src/Runtime/Supervisor.antt =====
-- nats-micro/src/app/typed_runtime.rs: the loop of `supervise_request`,
-- `supervise_encrypted_request`, `supervise_subscription` and `supervise_consumer`, which differ in
-- how they bind the source anew.
pub mod Budget
use nats_micro.Prelude.{
  ◌++◌, ℕ, Bool, true, false, List, [], ◌∷◌, Option, some, none, Result, ok, err, if◌then◌else◌,
}
use nats_micro.Runtime.Restarts.{RestartTracker, next_delay, Woken, wait_backoff}
use nats_micro.Runtime.Worker.{WorkerError, Exit, returned, unwound}

-- What a supervised worker's task fails with: the worker's error, its unexpected end, or the error
-- of binding the source anew.
pub data SupervisorError : Type 0 where
  worker_failed : WorkerError → SupervisorError
  exited : SupervisorError
  not_bound : ℕ → SupervisorError

-- What `JoinHandle` yields: the task's result, or a panic.
pub data Joined : Type 0 where
  finished : Result SupervisorError (Unit {0}) → Joined
  panicked : Joined

-- One run of the worker and what follows it: how it ended, whether a shutdown is requested by then,
-- the clock as `next_delay` reads it, what ends the backoff, and how the source is bound anew.
pub record Attempt : Type 0 where
  pub exit : Exit
  pub requested : Bool
  pub now : ℕ
  pub woken : Woken
  pub rebound : Result ℕ (Unit {0})

-- `result.err().unwrap_or_else(..)`
abbrev pub failure_of : Result WorkerError (Unit {0}) → SupervisorError
failure_of (ok u) = exited
failure_of (err e) = worker_failed e

-- Whether the loop goes on, with the tracker, or how the task ends; and the delay that it waits.
pub data Verdict : Type 0 where
  restarts : RestartTracker → Verdict
  ends : Joined → Verdict

abbrev pub rebind : RestartTracker → Result ℕ (Unit {0}) → Verdict
rebind tracker (ok u) = restarts tracker
rebind tracker (err e) = ends (finished (err (not_bound e)))

unfoldable pub after_delay :
    Attempt → SupervisorError → RestartTracker × Option ℕ → Verdict × List ℕ
unfolding wait_backoff
after_delay attempt error (tracker, none) = (ends (finished (err error)), [])
after_delay attempt error (tracker, some delay) = (
  if wait_backoff attempt.woken then ends (finished (ok tt)) else rebind tracker attempt.rebound,
  delay ∷ [],
)

unfoldable pub judge : RestartTracker → Attempt → Exit → Verdict × List ℕ
unfolding after_delay next_delay
judge tracker attempt unwound = (ends panicked, [])
judge tracker attempt (returned result) =
    if attempt.requested
    then (ends (finished (ok tt)), [])
    else after_delay attempt (failure_of result) (next_delay tracker attempt.now)

-- How the task ends, if it does within the attempts, and the delays that it waited.
unfoldable pub supervise : RestartTracker → List Attempt → Option Joined × List ℕ
unfolding judge
supervise tracker [] = (none, [])
supervise tracker (attempt ∷ attempts) =
    let (verdict, waited) = judge tracker attempt attempt.exit in
    elim verdict [
      | ends joined ↦ (some joined, waited)
      | restarts next ↦ let (joined, more) = supervise next attempts in (joined, waited ++ more)
    ]
