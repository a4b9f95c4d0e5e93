-- ===== src/Runtime/Application/Shutdown.antt =====
-- What a success of `Runtime::run` stands for.
use nats_micro.Runtime.Application.Joining.{run_loop-left}
use nats_micro.Runtime.Application.Events.{failed_in_loop}
use nats_micro.Runtime.Application.{
  Drained, drain_client, close, service_referenced, stop_services, after_hook, Closing, outcome,
  run, Left, Poll, WorkerFailurePolicy, run_loop, next_drained, Failure, DrainPoll, drain_workers,
}
use nats_micro.Prelude.{
  ap, ◌↔◌, sym, All, ℕ, ◌≡◌, ◌≢◌, refl, Bool, true, false, List, [], ◌∷◌, Option, some, none,
  Result, ok, err, arith, Option-cases, inl, inr,
}

drain_workers-none :
    (deadline : ℕ) (workers : List ℕ) (polls : List DrainPoll) (failure : Option Failure)
    → (drain_workers deadline workers polls failure).first_failure ≡ none
    → (failure ≡ none) × ((drain_workers deadline workers polls failure).aborted ≡ [])
unfolding drain_workers
drain_workers-none deadline [] polls failure e = (e, refl)
drain_workers-none deadline (task ∷ workers) [] none e = ground arith
drain_workers-none deadline (task ∷ workers) [] (some f) e = ground arith
drain_workers-none deadline (task ∷ workers) (poll ∷ polls) failure e =
    elim (Option-cases (next_drained deadline (task ∷ workers) poll)) [
      | inl late ↦ elim (Option-cases failure) [
        | inl free ↦ ground arith
        | inr (f, failed) ↦ ground arith
      ]
      | inr ((done, rest), next) ↦
          rw (drain_workers, next)
            (drain_workers-none deadline rest polls failure (rw (drain_workers, next) at e))
    ]

stop_services-none :
    (services : List Bool) (failure : Option Failure)
    → stop_services services failure ≡ none
    → (failure ≡ none) × All (λ given. given ≡ true) services
stop_services-none [] failure e = (e, tt)
stop_services-none (true ∷ services) failure e =
    let (free, others) = stop_services-none services failure e in (free, (refl, others))
stop_services-none (false ∷ services) none e =
    let (free, others) = stop_services-none services (some service_referenced) e in ground arith
stop_services-none (false ∷ services) (some f) e =
    let (free, others) = stop_services-none services (some f) e in ground arith

after_hook-none :
    (hook : Option (Result ℕ (Unit {0}))) (failure : Option Failure)
    → after_hook hook failure ≡ none
    → (failure ≡ none) × ((e : ℕ) → hook ≢ some (err e))
after_hook-none none failure e = (e, λ x h. ground arith)
after_hook-none (some (ok u)) failure e = (e, λ x h. ground arith)
after_hook-none (some (err x)) none e = ground arith
after_hook-none (some (err x)) (some f) e = ground arith

drain_client-ok :
    (client : Result ℕ (Unit {0})) (failure : Option Failure)
    → outcome (drain_client client failure) ≡ ok tt
    → (failure ≡ none) × (client ≡ ok tt)
drain_client-ok (ok u) none e = (refl, refl)
drain_client-ok (ok u) (some f) e = ground arith
drain_client-ok (err x) none e = ground arith
drain_client-ok (err x) (some f) e = ground arith

drain_workers-kept :
    (deadline : ℕ) (workers : List ℕ) (polls : List DrainPoll) (failure : Option Failure)
    → (drain_workers deadline workers polls failure).aborted ≡ []
    → (drain_workers deadline workers polls failure).first_failure ≡ failure
unfolding drain_workers
drain_workers-kept deadline [] polls failure e = refl
drain_workers-kept deadline (task ∷ workers) [] failure e = ground arith
drain_workers-kept deadline (task ∷ workers) (poll ∷ polls) failure e =
    elim (Option-cases (next_drained deadline (task ∷ workers) poll)) [
      | inl late ↦ ground (arith, late)
      | inr ((done, rest), next) ↦
          rw (drain_workers, next)
            (drain_workers-kept deadline rest polls failure (rw (drain_workers, next) at e))
    ]

stop_services-given :
    (services : List Bool)
    → All (λ given. given ≡ true) services
    → stop_services services none ≡ none
stop_services-given [] given = refl
stop_services-given (true ∷ services) (_, given) = stop_services-given services given
stop_services-given (false ∷ services) (wrong, given) = ground arith

after_hook-fine :
    (hook : Option (Result ℕ (Unit {0})))
    → ((e : ℕ) → hook ≢ some (err e))
    → after_hook hook none ≡ none
after_hook-fine none fine = refl
after_hook-fine (some (ok u)) fine = refl
after_hook-fine (some (err x)) fine = absurd (fine x refl)

-- What the calls after the loop answer, and what the drain leaves, where `run` succeeds.
pub record IsSuccess (closing : Closing) (drained : Drained) : Type 0 where
  pub none_aborted : drained.aborted ≡ []
  pub hook : (e : ℕ) → closing.hook ≢ some (err e)
  pub services : All (λ given. given ≡ true) closing.services
  pub client : closing.client ≡ ok tt

-- The loop is left without a failure, the tasks that are left are drained, and all is well.
abbrev pub Succeeds : WorkerFailurePolicy → List ℕ → List Poll → Closing → Drained → Type 0
Succeeds policy workers polls closing drained =
    (left : Left) × (run_loop policy workers polls ≡ some left)
    × (failed_in_loop policy workers polls ≡ none)
    × (drain_workers closing.deadline left.workers closing.polls none ≡ drained)
    × IsSuccess closing drained

to_Succeeds :
    (policy : WorkerFailurePolicy) (workers : List ℕ) (polls : List Poll) (closing : Closing)
    (drained : Drained) (left : Left)
    → run_loop policy workers polls ≡ some left
    → close left closing ≡ (ok tt, drained)
    → Succeeds policy workers polls closing drained
unfolding close
to_Succeeds policy workers polls closing drained left over e =
    let failure = after_hook closing.hook left.first_failure in
    let d = drain_workers closing.deadline left.workers closing.polls failure in
    let same : d ≡ drained = ground arith in
    let fine : outcome
          (drain_client closing.client (stop_services closing.services d.first_failure))
        ≡ ok tt =
      ground arith in
    let (stopped, client) =
      drain_client-ok closing.client (stop_services closing.services d.first_failure) fine in
    let (joined, services) = stop_services-none closing.services d.first_failure stopped in
    let (hooked, none_aborted) =
      drain_workers-none closing.deadline left.workers closing.polls failure joined in
    let (first, hook) = after_hook-none closing.hook left.first_failure hooked in
    let (there, failed) = run_loop-left policy workers polls left over in
    let success : IsSuccess closing drained = record {
      none_aborted = rw same at none_aborted;
      hook = hook;
      services = services;
      client = client;
    } in
    (left, over, rw first at (sym failed), rw hooked at same, success)

from_Succeeds :
    (policy : WorkerFailurePolicy) (workers : List ℕ) (polls : List Poll) (closing : Closing)
    (drained : Drained) (left : Left)
    → run_loop policy workers polls ≡ some left
    → left.first_failure ≡ none
    → drain_workers closing.deadline left.workers closing.polls none ≡ drained
    → IsSuccess closing drained
    → close left closing ≡ (ok tt, drained)
unfolding close
from_Succeeds policy workers polls closing drained left over first same success =
    let kept : drained.first_failure ≡ none = rw same at (
      drain_workers-kept closing.deadline left.workers closing.polls none
        (rw (← same) at success.none_aborted)) in
    rw
      (
        first,
        after_hook-fine closing.hook success.hook,
        same,
        kept,
        stop_services-given closing.services success.services,
        success.client,
      )
      refl

-- `run` returns `Ok(())`, after a drain with a given result, exactly if all of these hold: the loop
-- is left, and no task that was there ends in it before a shutdown is requested under a policy other
-- than `ignore`; the drain of the tasks that are left has that result and no task aborted; the
-- shutdown hook and the client's drain do not fail; and no service is still referenced. There is no
-- condition on how the tasks joined in the drain end, nor on what stopping a service answers.
pub run-Succeeds_iff :
    (policy : WorkerFailurePolicy) (workers : List ℕ) (polls : List Poll) (closing : Closing)
    (drained : Drained)
    → (run policy workers polls closing ≡ some (ok tt, drained))
      ↔ Succeeds policy workers polls closing drained
unfolding run
run-Succeeds_iff policy workers polls closing drained = (
  λ e. elim (Option-cases (run_loop policy workers polls)) [
    | inl going ↦ ground (arith, going)
    | inr (left, over) ↦
        to_Succeeds policy workers polls closing drained left over (ground (arith, over))
  ],
  λ h.
      let (left, over, free, same, success) = h in
      let (there, failed) = run_loop-left policy workers polls left over in
      let first : left.first_failure ≡ none = rw free at failed in
      rw (run, over)
        (ap some (from_Succeeds policy workers polls closing drained left over first same success)),
)
