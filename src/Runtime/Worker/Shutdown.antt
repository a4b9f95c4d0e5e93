-- ===== src/Runtime/Worker/Shutdown.antt =====
-- The rounds of a worker that sees a shutdown request.
use nats_micro.Prelude.{
  is_empty, ℕ, zero, suc, ◌<◌, ◌≡◌, refl, ap, ◌∙◌, Bool, true, false, List, [], ◌∷◌, Option, some,
  none, Result, ok, length, remove, arith,
}
use nats_micro.Runtime.Config.{HandlerPanicPolicy}
use nats_micro.Runtime.Worker.{
  poll_done, Loop, Ready, Source, Turn, Exit, Ending, Effect, ended, returned, going, left,
  completion, handle_completion, stop_with, complete_with, on_done, round, run_from, request_source,
  subscription_source, consumer_source,
}
use nats_micro.Runtime.Worker.Runs.{run_going, run_left}
use nats_micro.Runtime.Worker.Conservation.{started_of, started_of-append}
use nats_micro.Runtime.Worker.Bounds.{length-remove}

remove-some {ℓ} :
    {A : Type ℓ} (xs : List A) (i : ℕ)
    → i < length xs
    → (y : A) × (ys : List A) × (remove xs i ≡ some (y, ys))
remove-some [] i h = absurd (omega arith)
remove-some (x ∷ xs) zero h = (x, xs, refl)
remove-some (x ∷ xs) (suc i) h =
    let (y, ys, e) = remove-some xs i (omega arith) in (y, x ∷ ys, rw e)

busy_of_remove {ℓ} :
    {M : Type ℓ} (xs : List M) (i : ℕ) (y : M) (ys : List M)
    → remove xs i ≡ some (y, ys)
    → is_empty xs ≡ false
busy_of_remove [] i y ys e = cc
busy_of_remove (x ∷ xs) i y ys e = refl

-- An ending after which the worker goes on.
abbrev pub IsBenign : HandlerPanicPolicy → Ending → Type 0
IsBenign panic_policy ending =
    handle_completion panic_policy (completion panic_policy ending) ≡ none

-- Polls in each of which one of the tasks left ends, and the worker goes on, until none is left.
abbrev pub Drains : {I : Type 0} → HandlerPanicPolicy → ℕ → List (Ready I) → Type 0
Drains panic_policy n [] = ⊥
Drains panic_policy zero (ready ∷ polls) = Unit {0}
Drains panic_policy (suc n) (ready ∷ polls) =
    (place : ℕ) × (ending : Ending) × (ready.done ≡ some (place, ending))
    × (place < suc n)
    × IsBenign panic_policy ending
    × Drains panic_policy n polls

-- What a graceful shutdown comes to.
abbrev pub IsDrained : {M : Type 0} → Option Exit × Loop M × List (Effect M) → Type 0
IsDrained r = (r.0 ≡ some (returned (ok tt))) × (r.1.in_flight ≡ []) × (started_of r.2 ≡ [])

module _ {M I : Type 0} (source : Source M I) (concurrency : ℕ)
    (panic_policy : HandlerPanicPolicy) where
  round_over :
      (s : Loop M) (ready : Ready I)
      → s.accepting ≡ false
      → s.in_flight ≡ []
      → round source concurrency panic_policy s ready ≡ left (returned (ok tt)) s []
  unfolding round
  round_over s ready a e = ground arith

  round_closed :
      (s : Loop M) (ready : Ready I)
      → s.accepting ≡ false
      → is_empty s.in_flight ≡ false
      → round source concurrency panic_policy s ready
        ≡ poll_done source concurrency panic_policy s ready.done (going s [])
  unfolding round
  round_closed s ready a busy = simp (a, busy)

  poll_done_ends :
      (s : Loop M) (place : ℕ) (ending : Ending) (m : M) (rest : List M) (later : Turn M)
      → remove s.in_flight place ≡ some (m, rest)
      → IsBenign panic_policy ending
      → poll_done source concurrency panic_policy s (some (place, ending)) later
        ≡ going (record s { in_flight = rest }) (ended m ending ∷ [])
  unfolding poll_done complete_with
  poll_done_ends s place ending m rest later r benign =
      simp (busy_of_remove s.in_flight place m rest r, r) (rw (on_done, benign, complete_with))

  round_ends :
      (s : Loop M) (ready : Ready I) (place : ℕ) (ending : Ending) (m : M) (rest : List M)
      → s.accepting ≡ false
      → remove s.in_flight place ≡ some (m, rest)
      → ready.done ≡ some (place, ending)
      → IsBenign panic_policy ending
      → round source concurrency panic_policy s ready
        ≡ going (record s { in_flight = rest }) (ended m ending ∷ [])
  round_ends s ready place ending m rest a r d benign =
      round_closed s ready a (busy_of_remove s.in_flight place m rest r)
      ∙ ap (λ o. poll_done source concurrency panic_policy s o (going s [])) d
      ∙ poll_done_ends s place ending m rest (going s []) r benign

  run-Drains :
      (n : ℕ) (s : Loop M) (polls : List (Ready I))
      → s.accepting ≡ false
      → length s.in_flight ≡ n
      → Drains panic_policy n polls
      → let r = run_from source concurrency panic_policy s polls in
        (r.0 ≡ some (returned (ok tt))) × (r.1.in_flight ≡ []) × (started_of r.2 ≡ [])
  unfolding started_of
  run-Drains n s [] a l d = absurd d
  run-Drains zero s (ready ∷ polls) a l d =
      let idle : s.in_flight ≡ [] = ground arith in
      rw (run_left source concurrency panic_policy s ready polls (round_over s ready a idle))
        (refl, idle, refl)
  run-Drains (suc n) s (ready ∷ polls) a l (place, ending, d, lt, benign, more) =
      let (m, rest, r) = remove-some s.in_flight place (omega arith) in
      rw
        (run_going source concurrency panic_policy s ready polls
          (round_ends s ready place ending m rest a r d benign))
        (unfold started_of in
          run-Drains n (record s { in_flight = rest }) polls a
            (omega (arith, length-remove s.in_flight place m rest r)) more)

  -- A shutdown request is seen before anything else that is ready.
  round_stops :
      (s : Loop M) (ready : Ready I) (ok_stop : Bool)
      → s.accepting ≡ true
      → ready.changed ≡ some (true, ok_stop)
      → round source concurrency panic_policy s ready
        ≡ stop_with source concurrency panic_policy s (source.stop ok_stop)
  unfolding round
  round_stops s ready ok_stop a c = ground arith

  stop_goes_on :
      (s : Loop M) (effects : List (Effect M))
      → stop_with source concurrency panic_policy s (effects, none)
        ≡ going (record s { accepting = false }) effects
  unfolding stop_with
  stop_goes_on s effects = refl

  run_stops :
      (s : Loop M) (ready : Ready I) (ok_stop : Bool) (effects : List (Effect M))
      (polls : List (Ready I))
      → s.accepting ≡ true
      → ready.changed ≡ some (true, ok_stop)
      → source.stop ok_stop ≡ (effects, none)
      → started_of effects ≡ []
      → Drains panic_policy (length s.in_flight) polls
      → IsDrained (run_from source concurrency panic_policy s (ready ∷ polls))
  run_stops s ready ok_stop effects polls a c e quiet d =
      let (exit, idle, none_started) =
        run-Drains (length s.in_flight) (record s { accepting = false }) polls refl refl d in
      let stopped : round source concurrency panic_policy s ready
          ≡ going (record s { accepting = false }) effects =
        round_stops s ready ok_stop a c
        ∙ ap (stop_with source concurrency panic_policy s) e
        ∙ stop_goes_on s effects in
      rw (run_going source concurrency panic_policy s ready polls stopped)
        (exit, idle, rw (started_of-append effects, quiet) none_started)

-- A worker that accepts and sees a shutdown request, in a poll in which tasks or messages may be
-- ready too, takes no further message. If each of its tasks in flight then ends in a way that its
-- panic policy lets pass, in any order, the worker returns `Ok(())` with nothing in flight. A
-- subscription worker needs for this that unsubscribing succeeds.
pub workers-IsDrained :
    {M : Type 0} (concurrency : ℕ) (panic_policy : HandlerPanicPolicy) (s : Loop M) (ok_stop : Bool)
    (ready : Ready (Option M)) (polls : List (Ready (Option M)))
    (consumer_ready : Ready (Option (Result (Unit {0}) M)))
    (consumer_polls : List (Ready (Option (Result (Unit {0}) M))))
    → s.accepting ≡ true
    → ready.changed ≡ some (true, true)
    → consumer_ready.changed ≡ some (true, ok_stop)
    → Drains panic_policy (length s.in_flight) polls
    → Drains panic_policy (length s.in_flight) consumer_polls
    → IsDrained (run_from request_source concurrency panic_policy s (ready ∷ polls))
      × IsDrained (run_from subscription_source concurrency panic_policy s (ready ∷ polls))
      × IsDrained
          (run_from consumer_source concurrency panic_policy s (consumer_ready ∷ consumer_polls))
unfolding started_of
workers-IsDrained concurrency panic_policy s ok_stop ready polls consumer_ready consumer_polls a c k
      d e =
    (
      run_stops request_source concurrency panic_policy s ready true _ polls a c refl refl d,
      run_stops subscription_source concurrency panic_policy s ready true _ polls a c refl refl d,
      run_stops consumer_source concurrency panic_policy s consumer_ready ok_stop _ consumer_polls a
          k refl refl e,
    )
