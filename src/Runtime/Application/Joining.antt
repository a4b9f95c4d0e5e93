-- ===== src/Runtime/Application/Joining.antt =====
-- Each task of `Runtime::run` is joined, or left and aborted, as the events say.
use nats_micro.Runtime.Application.{
  Drained, close, after_hook, Closing, run, completed, changed, waits, breaks, failure_of, Left,
  Event, Poll, on_completed, Turn, run_round, on_event, run_loop, next_drained, Failure, DrainPoll,
  drain_workers, under_policy,
}
use mathlib.Core.List.{append-nil, Perm, append_assoc}
use mathlib.Core.List.Perm
use nats_micro.Runtime.Config.{WorkerFailurePolicy, ignore, shutdown_app, restart}
use nats_micro.Prelude.{
  ap, sym, not, Bool-cases, ℕ, ◌≡◌, refl, Bool, true, false, List, [], ◌∷◌, ◌++◌, Option, some,
  none, Result, arith, Option-cases, inl, inr, ◌⊎◌, leb, remove, if◌then◌else◌,
}
use nats_micro.Runtime.Worker.Conservation.{remove-perm}
use nats_micro.Runtime.Application.Events.{
  joined_at, rest_at, joined_by, rest_by, ignores, failed_at, failed_by, ends_at, ends_by,
  joined_in_loop, left_in_loop, failed_in_loop, joined_before,
}

at-Perm :
    (workers : List ℕ) (event : Event)
    → Perm workers (joined_at workers event ++ rest_at workers event)
at-Perm workers (changed is_err requested) = Perm.rfl
at-Perm workers (completed place joined requested) = elim (Option-cases (remove workers place)) [
  | inl nothing ↦ rw (joined_at, rest_at, nothing) Perm.rfl
  | inr ((task, rest), found) ↦
      rw (joined_at, rest_at, found) (remove-perm workers place task rest found)
]

by-Perm :
    (workers : List ℕ) (poll : Poll) → Perm workers (joined_by workers poll ++ rest_by workers poll)
by-Perm workers poll = elim (Bool-cases poll.requested) [
  | inl stop ↦ rw stop Perm.rfl
  | inr more ↦ rw more (at-Perm workers poll.event)
]

loop-Perm :
    (policy : WorkerFailurePolicy) (workers : List ℕ) (polls : List Poll)
    → Perm workers (joined_in_loop policy workers polls ++ left_in_loop policy workers polls)
unfolding joined_in_loop left_in_loop
loop-Perm policy workers [] = Perm.rfl
loop-Perm policy workers (poll ∷ polls) =
    let first = by-Perm workers poll in
    elim (Bool-cases (ends_by policy workers poll)) [
      | inl over ↦
          rw (joined_in_loop, left_in_loop, over, append-nil (joined_by workers poll)) first
      | inr more ↦
          let later = loop-Perm policy (rest_by workers poll) polls in
          rw
            (
              joined_in_loop,
              left_in_loop,
              more,
              append_assoc (joined_by workers poll)
                  (joined_in_loop policy (rest_by workers poll) polls)
                  (left_in_loop policy (rest_by workers poll) polls),
            )
            (Perm.trans first (Perm.append_left (joined_by workers poll) later))
    ]

-- A turn beside what the event shows.
abbrev Agrees : Turn → Bool → List ℕ → Option Failure → Type 0
Agrees (waits rest) over workers failure = (over ≡ false) × (rest ≡ workers)
Agrees (breaks left) over workers failure =
    (over ≡ true) × (left.workers ≡ workers) × (left.first_failure ≡ failure)

under_policy-Agrees :
    (policy : WorkerFailurePolicy) (workers : List ℕ) (failure : Failure)
    → Agrees
        (under_policy policy workers failure)
        (not (ignores policy))
        workers
        (if ignores policy then none else some failure)
under_policy-Agrees ignore workers failure = (refl, refl)
under_policy-Agrees shutdown_app workers failure = (refl, refl, refl)
under_policy-Agrees (restart initial max restarts window) workers failure = (refl, refl, refl)

event-Agrees :
    (policy : WorkerFailurePolicy) (workers : List ℕ) (event : Event)
    → Agrees
        (on_event policy workers event)
        (ends_at policy workers event)
        (rest_at workers event)
        (failed_at policy workers event)
unfolding on_event on_completed
event-Agrees policy workers (changed true requested) = (refl, refl, refl)
event-Agrees policy workers (changed false true) = (refl, refl, refl)
event-Agrees policy workers (changed false false) = (refl, refl)
event-Agrees policy workers (completed place joined requested) =
    elim (Option-cases (remove workers place)) [
      | inl nothing ↦ rw (ends_at, rest_at, failed_at, nothing, on_completed) (refl, refl)
      | inr ((task, rest), found) ↦ elim (Bool-cases requested) [
        | inl stop ↦ rw (ends_at, rest_at, failed_at, found, on_completed, stop) (refl, refl, refl)
        | inr more ↦
            rw (ends_at, rest_at, failed_at, found, on_completed, more)
              (under_policy-Agrees policy rest (failure_of joined))
      ]
    ]

round-Agrees :
    (policy : WorkerFailurePolicy) (workers : List ℕ) (poll : Poll)
    → Agrees
        (run_round policy workers poll)
        (ends_by policy workers poll)
        (rest_by workers poll)
        (failed_by policy workers poll)
unfolding run_round
round-Agrees policy workers poll = elim (Bool-cases poll.requested) [
  | inl stop ↦ rw stop (refl, refl, refl)
  | inr more ↦ rw more (event-Agrees policy workers poll.event)
]

Turn-cases : (t : Turn) → ((left : Left) × (t ≡ breaks left)) ⊎ ((rest : List ℕ) × (t ≡ waits rest))
Turn-cases (breaks left) = inl (left, refl)
Turn-cases (waits rest) = inr (rest, refl)

pub run_loop-left :
    (policy : WorkerFailurePolicy) (workers : List ℕ) (polls : List Poll) (left : Left)
    → run_loop policy workers polls ≡ some left
    → (left.workers ≡ left_in_loop policy workers polls)
      × (left.first_failure ≡ failed_in_loop policy workers polls)
unfolding run_loop left_in_loop failed_in_loop
run_loop-left policy workers [] left e = ground arith
run_loop-left policy workers (poll ∷ polls) left e =
    let agrees = round-Agrees policy workers poll in
    elim (Turn-cases (run_round policy workers poll)) [
      | inl (there, broke) ↦
          let same : there ≡ left = ground (arith, broke) in
          let (over, rest, failure) = rw (broke, same) at agrees in
          rw (left_in_loop, failed_in_loop, over) (rest, failure)
      | inr (rest, waited) ↦
          let later : run_loop policy rest polls ≡ some left = ground (arith, waited) in
          let (going, same) = rw waited at agrees in
          rw (left_in_loop, failed_in_loop, going, ← same)
            (run_loop-left policy rest polls left later)
    ]

next_drained-perm :
    (deadline : ℕ) (workers : List ℕ) (poll : DrainPoll) (done : ℕ) (rest : List ℕ)
    → next_drained deadline workers poll ≡ some (done, rest)
    → Perm workers (done ∷ rest)
unfolding next_drained
next_drained-perm deadline workers poll done rest e = elim (Bool-cases (leb deadline poll.now)) [
  | inl late ↦ ground arith
  | inr early ↦ elim (Option-cases poll.ended) [
    | inl nothing ↦ ground arith
    | inr (place, ended) ↦ remove-perm workers place done rest (ground arith)
  ]
]

-- Every task that is left is joined or aborted when the drain returns, and none is both.
drain_workers-Perm :
    (deadline : ℕ) (workers : List ℕ) (polls : List DrainPoll) (failure : Option Failure)
    → let d = drain_workers deadline workers polls failure in Perm workers (d.joined ++ d.aborted)
unfolding drain_workers
drain_workers-Perm deadline [] polls failure = Perm.rfl
drain_workers-Perm deadline (task ∷ workers) [] failure = Perm.rfl
drain_workers-Perm deadline (task ∷ workers) (poll ∷ polls) failure =
    elim (Option-cases (next_drained deadline (task ∷ workers) poll)) [
      | inl late ↦ rw (drain_workers, late) Perm.rfl
      | inr ((done, rest), next) ↦
          rw (drain_workers, next)
            (Perm.trans (next_drained-perm deadline (task ∷ workers) poll done rest next)
              (Perm.cons done (drain_workers-Perm deadline rest polls failure)))
    ]

joined_before-none : (deadline : ℕ) (polls : List DrainPoll) → joined_before deadline [] polls ≡ []
unfolding joined_before
joined_before-none deadline [] = refl
joined_before-none deadline (poll ∷ polls) = elim (Bool-cases (leb deadline poll.now)) [
  | inl late ↦ rw (joined_before, late) refl
  | inr early ↦ elim (Option-cases poll.ended) [
    | inl nothing ↦ rw (joined_before, early, nothing) refl
    | inr (place, ended) ↦ rw (joined_before, early, ended) refl
  ]
]

drain_workers-joined :
    (deadline : ℕ) (workers : List ℕ) (polls : List DrainPoll) (failure : Option Failure)
    → (drain_workers deadline workers polls failure).joined ≡ joined_before deadline workers polls
unfolding drain_workers next_drained joined_before
drain_workers-joined deadline [] polls failure = sym (joined_before-none deadline polls)
drain_workers-joined deadline (task ∷ workers) [] failure = refl
drain_workers-joined deadline (task ∷ workers) (poll ∷ polls) failure =
    elim (Bool-cases (leb deadline poll.now)) [
      | inl late ↦ rw (drain_workers, next_drained, joined_before, late) refl
      | inr early ↦ elim (Option-cases poll.ended) [
        | inl nothing ↦ rw (drain_workers, next_drained, joined_before, early, nothing) refl
        | inr (place, ended) ↦ elim (Option-cases (remove (task ∷ workers) place)) [
          | inl absent ↦ rw (drain_workers, next_drained, joined_before, early, ended, absent) refl
          | inr ((done, rest), found) ↦
              rw (drain_workers, next_drained, joined_before, early, ended, found)
                (ap (◌∷◌ done) (drain_workers-joined deadline rest polls failure))
        ]
      ]
    ]

-- When `run` returns, every worker's task has ended, and each in one way: those whose end the loop
-- took up before it was left are joined, then those that ended one after the other before the
-- deadline of the drain, and all the others are aborted and awaited.
pub run-Perm :
    (policy : WorkerFailurePolicy) (workers : List ℕ) (polls : List Poll) (closing : Closing)
    (result : Result Failure (Unit {0})) (drained : Drained)
    → run policy workers polls closing ≡ some (result, drained)
    → Perm workers (joined_in_loop policy workers polls ++ (drained.joined ++ drained.aborted))
      × (drained.joined
          ≡ joined_before closing.deadline (left_in_loop policy workers polls) closing.polls)
unfolding run close
run-Perm policy workers polls closing result drained e =
    elim (Option-cases (run_loop policy workers polls)) [
      | inl going ↦ ground arith
      | inr (left, over) ↦
          let failure = after_hook closing.hook left.first_failure in
          let same : drain_workers closing.deadline left.workers closing.polls failure ≡ drained =
            ground (arith, over) in
          let (there, failed) = run_loop-left policy workers polls left over in
          let ends = drain_workers-Perm closing.deadline left.workers closing.polls failure in
          let joined = drain_workers-joined closing.deadline left.workers closing.polls failure in
          (
            Perm.trans (loop-Perm policy workers polls)
                (Perm.append_left (joined_in_loop policy workers polls) (rw (same, there) at ends)),
            rw (same, there) at joined,
          )
    ]
