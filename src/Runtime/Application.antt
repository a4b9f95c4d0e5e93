-- ===== src/Runtime/Application.antt =====
-- nats-micro/src/app/typed_runtime.rs: `Runtime::run` and `drain_workers`. A worker's task is a
-- number; the NATS client and the services are what their calls answer.
pub mod Events
pub mod Joining
pub mod Shutdown
use nats_micro.Prelude.{
  ℕ, suc, ◌-◌, Bool, true, false, ◌||◌, List, [], ◌∷◌, Option, some, none, Result, ok, err,
  is_empty, remove, leb, if◌then◌else◌,
}
use nats_micro.Runtime.Config.{WorkerFailurePolicy, ignore, shutdown_app, restart}
use nats_micro.Runtime.Supervisor.{SupervisorError, Joined, finished, panicked}

-- What `run` reports.
pub data Failure : Type 0 where
  worker_exited : Failure
  worker_failed : SupervisorError → Failure
  task_failed : Failure
  hook_failed : ℕ → Failure
  drain_timed_out : Failure
  service_referenced : Failure
  client_failed : ℕ → Failure

-- `get_or_insert_with`
abbrev pub or_insert : Option Failure → Failure → Option Failure
or_insert (some first) failure = some first
or_insert none failure = some failure

abbrev pub failure_of : Joined → Failure
failure_of (finished (ok u)) = worker_exited
failure_of (finished (err e)) = worker_failed e
failure_of panicked = task_failed

-- What `select!` takes up: a change of the shutdown channel, or the task at a place of `workers`.
pub data Event : Type 0 where
  changed : (is_err requested : Bool) → Event
  completed : (place : ℕ) → Joined → (requested : Bool) → Event

-- A round of the loop: whether a shutdown is requested at its start, and the event that it takes.
pub record Poll : Type 0 where
  pub requested : Bool
  pub event : Event

-- The loop's state as it leaves: the tasks not joined yet, the failure, and whether it requested
-- the shutdown itself.
pub record Left : Type 0 where
  pub workers : List ℕ
  pub first_failure : Option Failure
  pub sent : Bool

pub data Turn : Type 0 where
  waits : List ℕ → Turn
  breaks : Left → Turn

abbrev pub break_with : List ℕ → Turn
break_with workers = breaks (record { workers = workers; first_failure = none; sent = false })

abbrev pub fail_with : List ℕ → Failure → Turn
fail_with workers failure =
    breaks (record { workers = workers; first_failure = some failure; sent = true })

abbrev pub under_policy : WorkerFailurePolicy → List ℕ → Failure → Turn
under_policy ignore workers failure = waits workers
under_policy shutdown_app workers failure = fail_with workers failure
under_policy (restart initial max restarts window) workers failure = fail_with workers failure

unfoldable pub on_completed :
    WorkerFailurePolicy → List ℕ → Option (ℕ × List ℕ) → Joined → Bool → Turn
on_completed policy workers none joined requested = waits workers
on_completed policy workers (some (task, rest)) joined requested =
    if requested then break_with rest else under_policy policy rest (failure_of joined)

unfoldable pub on_event : WorkerFailurePolicy → List ℕ → Event → Turn
unfolding on_completed
on_event policy workers (changed is_err requested) =
    if is_err || requested then break_with workers else waits workers
on_event policy workers (completed place joined requested) =
    on_completed policy workers (remove workers place) joined requested

unfoldable pub run_round : WorkerFailurePolicy → List ℕ → Poll → Turn
unfolding on_event
run_round policy workers poll =
    if poll.requested then break_with workers else on_event policy workers poll.event

unfoldable pub run_loop : WorkerFailurePolicy → List ℕ → List Poll → Option Left
unfolding run_round
run_loop policy workers [] = none
run_loop policy workers (poll ∷ polls) = elim (run_round policy workers poll) [
  | breaks left ↦ some left
  | waits rest ↦ run_loop policy rest polls
]

-- A round of `drain_workers`: the clock, and the task that ends before the deadline, if one does.
pub record DrainPoll : Type 0 where
  pub now : ℕ
  pub ended : Option ℕ

-- What becomes of the tasks: joined, or aborted and then awaited.
pub record Drained : Type 0 where
  pub joined : List ℕ
  pub aborted : List ℕ
  pub first_failure : Option Failure

abbrev pub abort_all : List ℕ → Option Failure → Drained
abort_all workers failure = record {
  joined = [];
  aborted = workers;
  first_failure = or_insert failure drain_timed_out;
}

abbrev pub join_first : ℕ → Drained → Drained
join_first task drained = record drained { joined = task ∷ drained.joined }

-- `timed_out`, or the task that was joined and the others.
unfoldable pub next_drained : ℕ → List ℕ → DrainPoll → Option (ℕ × List ℕ)
next_drained deadline workers poll =
    if leb deadline poll.now
    then none
    else elim poll.ended [ none ↦ none | some place ↦ remove workers place ]

-- Each round ends a task or the loop; a list of polls that is too short stands for polls in which
-- nothing happens before the deadline.
unfoldable pub drain_workers : ℕ → List ℕ → List DrainPoll → Option Failure → Drained
unfolding next_drained
drain_workers deadline [] polls failure = record {
  joined = [];
  aborted = [];
  first_failure = failure;
}
drain_workers deadline (task ∷ workers) [] failure = abort_all (task ∷ workers) failure
drain_workers deadline (task ∷ workers) (poll ∷ polls) failure =
    elim (next_drained deadline (task ∷ workers) poll) [
      | none ↦ abort_all (task ∷ workers) failure
      | some (done, rest) ↦ join_first done (drain_workers deadline rest polls failure)
    ]

-- `if let Some(hook) = .. && let Err(error) = .. && first_failure.is_none()`
abbrev pub after_hook : Option (Result ℕ (Unit {0})) → Option Failure → Option Failure
after_hook none failure = failure
after_hook (some (ok u)) failure = failure
after_hook (some (err e)) failure = or_insert failure (hook_failed e)

-- For each service, whether `Arc::try_unwrap` gives it; an error of `stop` is only logged.
abbrev pub stop_services : List Bool → Option Failure → Option Failure
stop_services [] failure = failure
stop_services (true ∷ services) failure = stop_services services failure
stop_services (false ∷ services) failure =
    stop_services services (or_insert failure service_referenced)

abbrev pub drain_client : Result ℕ (Unit {0}) → Option Failure → Option Failure
drain_client (ok u) failure = failure
drain_client (err e) failure = or_insert failure (client_failed e)

abbrev pub outcome : Option Failure → Result Failure (Unit {0})
outcome none = ok tt
outcome (some failure) = err failure

-- What the calls after the loop answer.
pub record Closing : Type 0 where
  pub hook : Option (Result ℕ (Unit {0}))
  pub deadline : ℕ
  pub polls : List DrainPoll
  pub services : List Bool
  pub client : Result ℕ (Unit {0})

unfoldable pub close : Left → Closing → Result Failure (Unit {0}) × Drained
unfolding drain_workers
close left closing =
    let drained =
      drain_workers closing.deadline left.workers closing.polls
        (after_hook closing.hook left.first_failure) in
    (
      outcome (drain_client closing.client (stop_services closing.services drained.first_failure)),
      drained,
    )

unfoldable pub run :
    WorkerFailurePolicy
    → List ℕ
    → List Poll
    → Closing
    → Option (Result Failure (Unit {0}) × Drained)
unfolding run_loop close
run policy workers polls closing = elim (run_loop policy workers polls) [
  | none ↦ none
  | some left ↦ some (close left closing)
]
