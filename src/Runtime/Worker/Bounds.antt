-- ===== src/Runtime/Worker/Bounds.antt =====
-- The concurrency limit, and what is true of a worker that has returned.
use nats_micro.Prelude.{
  Option-cases, ℕ, zero, suc, ◌≤◌, ◌<◌, ◌≡◌, refl, inl, inr, false, List, [], ◌∷◌, Option, some,
  none, Result, ok, err, length, length-append, remove, arith, ltb, Bool-cases,
}
use nats_micro.Runtime.Config.{HandlerPanicPolicy}
use nats_micro.Runtime.Worker.{
  caught, completed, unwinds, completed, Loop, Ready, Source, Exit, Effect, WorkerError, returned,
  unwound, Completion, completion, handle_completion, stop_with, complete_with, receive_with, round,
  run_worker, fresh,
}
use nats_micro.Runtime.Worker.Runs.{loop_of, exit_of, AtExit, run_from-R, run_from-AtExit}
use nats_micro.Runtime.Worker.Rounds.{drained, waits, stops, completes, receives, round-Round}

pub length-remove {ℓ} :
    {A : Type ℓ} (xs : List A) (i : ℕ) (y : A) (ys : List A)
    → remove xs i ≡ some (y, ys)
    → length xs ≡ suc (length ys)
length-remove [] i y ys e = cc
length-remove (x ∷ xs) zero y ys e = ground arith
length-remove (x ∷ xs) (suc i) y ys e = elim (Option-cases (remove xs i)) [
  | inl gone ↦ cc (gone)
  | inr ((z, zs), found) ↦ ground (arith, length-remove xs i z zs found)
]

-- A worker that returns `Ok(())` accepts no more and has nothing in flight.
abbrev pub IsClean : {M : Type 0} → Exit → Loop M → Type 0
IsClean unwound s = Unit {0}
IsClean (returned (err e)) s = Unit {0}
IsClean (returned (ok u)) s = (s.accepting ≡ false) × (s.in_flight ≡ [])

module _ {M I : Type 0} (source : Source M I) (concurrency : ℕ)
    (panic_policy : HandlerPanicPolicy) where
  complete-exit :
      (e : Option Exit) (s : Loop M) (effects : List (Effect M))
      → loop_of (complete_with source concurrency panic_policy e s effects) ≡ s
  unfolding complete_with
  complete-exit none s effects = refl
  complete-exit (some exit) s effects = refl

  stop-loop :
      (s : Loop M) (r : List (Effect M) × Option WorkerError)
      → loop_of (stop_with source concurrency panic_policy s r) ≡ record s { accepting = false }
  unfolding stop_with
  stop-loop s (effects, none) = refl
  stop-loop s (effects, some e) = refl

  receive-le :
      (s : Loop M) (r : Result WorkerError (Option M))
      → length s.in_flight < concurrency
      → length (loop_of (receive_with source concurrency panic_policy s r)).in_flight ≤ concurrency
  unfolding receive_with
  receive-le s (ok (some m)) h = omega (arith, length-append s.in_flight (m ∷ []))
  receive-le s (ok none) h = omega arith
  receive-le s (err e) h = omega arith

  round-le :
      (s : Loop M) (ready : Ready I)
      → length s.in_flight ≤ concurrency
      → length (loop_of (round source concurrency panic_policy s ready)).in_flight ≤ concurrency
  round-le s ready h = elim (round-Round source concurrency panic_policy s ready) [
    | drained a e t ↦ rw t h
    | waits t ↦ rw t h
    | stops b a c t ↦ rw (t, stop-loop s (source.stop b)) h
    | completes place m rest ending d r t ↦
        rw
          (
            t,
            complete-exit (handle_completion panic_policy (completion panic_policy ending))
                (record s { in_flight = rest }) _,
          )
          (omega (arith, length-remove s.in_flight place m rest r))
    | receives item a room i t ↦ rw t (receive-le s (source.receive item) room)
  ]

  complete-IsClean :
      (c : Completion) (s : Loop M) (effects : List (Effect M))
      → let t =
          complete_with source concurrency panic_policy
            (handle_completion panic_policy c)
            s
            effects in
        AtExit IsClean (exit_of t) (loop_of t)
  unfolding complete_with handle_completion
  complete-IsClean (completed (ok u)) s effects = tt
  complete-IsClean (completed (err e)) s effects = tt
  complete-IsClean caught s effects = ground arith
  complete-IsClean unwinds s effects = tt

  stop-IsClean :
      (s : Loop M) (r : List (Effect M) × Option WorkerError)
      → let t = stop_with source concurrency panic_policy s r in
        AtExit IsClean (exit_of t) (loop_of t)
  unfolding stop_with
  stop-IsClean s (effects, none) = tt
  stop-IsClean s (effects, some e) = tt

  receive-IsClean :
      (s : Loop M) (r : Result WorkerError (Option M))
      → let t = receive_with source concurrency panic_policy s r in
        AtExit IsClean (exit_of t) (loop_of t)
  unfolding receive_with
  receive-IsClean s (ok (some m)) = tt
  receive-IsClean s (ok none) = tt
  receive-IsClean s (err e) = tt

  round-IsClean :
      (s : Loop M) (ready : Ready I)
      → let t = round source concurrency panic_policy s ready in
        AtExit IsClean (exit_of t) (loop_of t)
  round-IsClean s ready = elim (round-Round source concurrency panic_policy s ready) [
    | drained a e t ↦ rw t (a, e)
    | waits t ↦ rw t tt
    | stops b a c t ↦ rw t (stop-IsClean s (source.stop b))
    | completes place m rest ending d r t ↦
        rw t (complete-IsClean (completion panic_policy ending) (record s { in_flight = rest }) _)
    | receives item a room i t ↦ rw t (receive-IsClean s (source.receive item))
  ]

  -- However the source, the tasks and the shutdown channel behave, a worker never has more
  -- messages in flight than its concurrency; and if it returns `Ok(())`, it had stopped accepting
  -- and no message was in flight any more.
  pub run_worker-le :
      (polls : List (Ready I))
      → let r = run_worker source concurrency panic_policy polls in
        (length r.1.in_flight ≤ concurrency) × AtExit IsClean r.0 r.1
  unfolding run_worker
  run_worker-le polls = elim (Bool-cases (ltb 0 concurrency)) [
    | inl some_room ↦ rw some_room (
      run_from-R source concurrency panic_policy
          (λ s e t. length s.in_flight ≤ concurrency → length t.in_flight ≤ concurrency) (λ s h. h)
          (λ s ready h. round-le s ready h) (λ s t u e f p q h. q (p h)) fresh polls (omega arith),
      run_from-AtExit source concurrency panic_policy IsClean round-IsClean fresh polls,
    )
    | inr no_room ↦ rw no_room (omega arith, tt)
  ]
