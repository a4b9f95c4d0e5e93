-- ===== src/Runtime/Application/Events.antt =====
-- What becomes of the tasks of `Runtime::run`, read off the events.
use nats_micro.Runtime.Application.{completed, changed, failure_of, Event, Poll, Failure, DrainPoll}
use nats_micro.Runtime.Config.{WorkerFailurePolicy, ignore, shutdown_app, restart}
use nats_micro.Prelude.{
  not, ℕ, Bool, true, false, List, [], ◌∷◌, ◌++◌, Option, some, none, leb, remove, ◌||◌,
  if◌then◌else◌,
}

-- The task that an event of the loop joins, and the tasks after it.
abbrev pub joined_at : List ℕ → Event → List ℕ
joined_at workers (changed is_err requested) = []
joined_at workers (completed place joined requested) = elim (remove workers place) [
  | none ↦ []
  | some (task, rest) ↦ task ∷ []
]

abbrev pub rest_at : List ℕ → Event → List ℕ
rest_at workers (changed is_err requested) = workers
rest_at workers (completed place joined requested) = elim (remove workers place) [
  | none ↦ workers
  | some (task, rest) ↦ rest
]

abbrev pub joined_by : List ℕ → Poll → List ℕ
joined_by workers poll = if poll.requested then [] else joined_at workers poll.event

abbrev pub rest_by : List ℕ → Poll → List ℕ
rest_by workers poll = if poll.requested then workers else rest_at workers poll.event

abbrev pub ignores : WorkerFailurePolicy → Bool
ignores ignore = true
ignores shutdown_app = false
ignores (restart initial max restarts window) = false

-- The failure of a task that is there, which ends before a shutdown is requested, under a policy
-- other than `ignore`.
abbrev pub failed_at : WorkerFailurePolicy → List ℕ → Event → Option Failure
failed_at policy workers (changed is_err requested) = none
failed_at policy workers (completed place joined requested) = elim (remove workers place) [
  | none ↦ none
  | some (task, rest) ↦ if requested || ignores policy then none else some (failure_of joined)
]

abbrev pub failed_by : WorkerFailurePolicy → List ℕ → Poll → Option Failure
failed_by policy workers poll = if poll.requested then none else failed_at policy workers poll.event

-- An event leaves the loop if it shows a request, a shutdown channel that is gone, or a failure.
abbrev pub ends_at : WorkerFailurePolicy → List ℕ → Event → Bool
ends_at policy workers (changed is_err requested) = is_err || requested
ends_at policy workers (completed place joined requested) = elim (remove workers place) [
  | none ↦ false
  | some (task, rest) ↦ if requested then true else not (ignores policy)
]

abbrev pub ends_by : WorkerFailurePolicy → List ℕ → Poll → Bool
ends_by policy workers poll = poll.requested || ends_at policy workers poll.event

-- Over the polls up to the one that leaves the loop: the tasks that are joined, those left, and the
-- failure.
unfoldable pub joined_in_loop : WorkerFailurePolicy → List ℕ → List Poll → List ℕ
joined_in_loop policy workers [] = []
joined_in_loop policy workers (poll ∷ polls) =
    joined_by workers poll ++ elim (ends_by policy workers poll) [
      | true ↦ []
      | false ↦ joined_in_loop policy (rest_by workers poll) polls
    ]

unfoldable pub left_in_loop : WorkerFailurePolicy → List ℕ → List Poll → List ℕ
left_in_loop policy workers [] = workers
left_in_loop policy workers (poll ∷ polls) = elim (ends_by policy workers poll) [
  | true ↦ rest_by workers poll
  | false ↦ left_in_loop policy (rest_by workers poll) polls
]

unfoldable pub failed_in_loop : WorkerFailurePolicy → List ℕ → List Poll → Option Failure
failed_in_loop policy workers [] = none
failed_in_loop policy workers (poll ∷ polls) = elim (ends_by policy workers poll) [
  | true ↦ failed_by policy workers poll
  | false ↦ failed_in_loop policy (rest_by workers poll) polls
]

-- The tasks that end before the deadline, up to the first poll in which none does.
unfoldable pub joined_before : ℕ → List ℕ → List DrainPoll → List ℕ
joined_before deadline workers [] = []
joined_before deadline workers (poll ∷ polls) = elim (leb deadline poll.now) [
  | true ↦ []
  | false ↦ elim poll.ended [
    | none ↦ []
    | some place ↦ elim (remove workers place) [
      | none ↦ []
      | some (task, rest) ↦ task ∷ joined_before deadline rest polls
    ]
  ]
]
