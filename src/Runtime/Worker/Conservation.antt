-- ===== src/Runtime/Worker/Conservation.antt =====
-- The tasks started, in flight and ended over the rounds of a worker.
use mathlib.Core.List.{perm_append_singleton, perm_append_comm, Perm, append-nil, append_assoc}
use mathlib.Core.List.Perm
use nats_micro.Prelude.{
  subst, ℕ, zero, suc, ◌≡◌, refl, ap, inl, inr, Bool, List, [], ◌∷◌, ◌++◌, Option, some, none,
  Result, ok, err, remove, arith, ltb, Bool-cases, Option-cases,
}
use nats_micro.Runtime.Config.{HandlerPanicPolicy}
use nats_micro.Runtime.Worker.{
  consumer_source, request_source, subscription_source, Loop, Ready, Source, Exit, Ending, Effect,
  started, ended, source_stopped, receive_failed, WorkerError, stop_with, complete_with,
  receive_with, round, run_from, run_worker, fresh,
}
use nats_micro.Runtime.Worker.Runs.{loop_of, effects_of, run_from-R}
use nats_micro.Runtime.Worker.Rounds.{drained, waits, stops, completes, receives, round-Round}

module _ {M : Type 0} where
  -- The messages whose task the effects start, and those whose task they end.
  unfoldable pub started_of : List (Effect M) → List M
  started_of [] = []
  started_of (started m ∷ es) = m ∷ started_of es
  started_of (ended m ending ∷ es) = started_of es
  started_of (source_stopped ∷ es) = started_of es
  started_of (receive_failed ∷ es) = started_of es

  unfoldable pub ended_of : List (Effect M) → List M
  ended_of [] = []
  ended_of (started m ∷ es) = ended_of es
  ended_of (ended m ending ∷ es) = m ∷ ended_of es
  ended_of (source_stopped ∷ es) = ended_of es
  ended_of (receive_failed ∷ es) = ended_of es

  pub started_of-append :
      (es fs : List (Effect M)) → started_of (es ++ fs) ≡ started_of es ++ started_of fs
  unfolding started_of
  started_of-append [] fs = refl
  started_of-append (started m ∷ es) fs = ap (◌∷◌ m) (started_of-append es fs)
  started_of-append (ended m ending ∷ es) fs = started_of-append es fs
  started_of-append (source_stopped ∷ es) fs = started_of-append es fs
  started_of-append (receive_failed ∷ es) fs = started_of-append es fs

  pub ended_of-append : (es fs : List (Effect M)) → ended_of (es ++ fs) ≡ ended_of es ++ ended_of fs
  unfolding ended_of
  ended_of-append [] fs = refl
  ended_of-append (started m ∷ es) fs = ended_of-append es fs
  ended_of-append (ended m ending ∷ es) fs = ap (◌∷◌ m) (ended_of-append es fs)
  ended_of-append (source_stopped ∷ es) fs = ended_of-append es fs
  ended_of-append (receive_failed ∷ es) fs = ended_of-append es fs

  pub remove-perm :
      (xs : List M) (i : ℕ) (y : M) (ys : List M) → remove xs i ≡ some (y, ys) → Perm xs (y ∷ ys)
  remove-perm [] i y ys e = cc
  remove-perm (x ∷ xs) zero y ys e =
      Perm.cons' (ground arith) (subst (λ zs. Perm xs zs) (ground arith) Perm.rfl)
  remove-perm (x ∷ xs) (suc i) y ys e = elim (Option-cases (remove xs i)) [
    | inl gone ↦ cc (gone)
    | inr ((z, zs), found) ↦
        let same : y ≡ z = ground arith in
        let rest : ys ≡ x ∷ zs = ground arith in
        rw (same, rest) (Perm.trans (Perm.cons x (remove-perm xs i z zs found)) (Perm.swap z x zs))
  ]

  regroup : (a b c d : List M) → Perm ((a ++ b) ++ d) (b ++ (a ++ d))
  regroup a b c d = rw (← append_assoc b a d) (Perm.append_right d (perm_append_comm a b))

  chain :
      (a b s c d t u : List M)
      → Perm (a ++ s) (c ++ t)
      → Perm (b ++ t) (d ++ u)
      → Perm ((a ++ b) ++ s) ((c ++ d) ++ u)
  chain a b s c d t u p q = Perm.trans (regroup a b s s) (
      Perm.trans (Perm.append_left b p) (
        Perm.trans (Perm.symm (regroup c b t t))
          (rw (append_assoc c b t, append_assoc c d u) (Perm.append_left c q))))

  -- What was in flight or was started is in flight or has ended.
  abbrev pub Conserved : Loop M → List (Effect M) → Loop M → Type 0
  Conserved s es t = Perm (started_of es ++ s.in_flight) (ended_of es ++ t.in_flight)

  Conserved-trans :
      (s t u : Loop M) (es fs : List (Effect M))
      → Conserved s es t
      → Conserved t fs u
      → Conserved s (es ++ fs) u
  Conserved-trans s t u es fs p q =
      rw (started_of-append es fs, ended_of-append es fs)
        (chain (started_of es) (started_of fs) s.in_flight (ended_of es) (ended_of fs) t.in_flight
          u.in_flight p q)

-- Stopping the source neither starts nor ends a task.
abbrev pub IsQuiet : {M I : Type 0} → Source M I → Type 0
IsQuiet source =
    (b : Bool) → (started_of (source.stop b).0 ≡ []) × (ended_of (source.stop b).0 ≡ [])

module _ {M I : Type 0} (source : Source M I) (concurrency : ℕ) (panic_policy : HandlerPanicPolicy)
    (quiet : IsQuiet source) where
  stop-Conserved :
      (s : Loop M) (r : List (Effect M) × Option WorkerError)
      → (started_of r.0 ≡ []) × (ended_of r.0 ≡ [])
      → let t = stop_with source concurrency panic_policy s r in
        Conserved s (effects_of t) (loop_of t)
  unfolding stop_with
  stop-Conserved s (effects, none) (p, q) = rw (p, q) Perm.rfl
  stop-Conserved s (effects, some e) (p, q) = rw (p, q) Perm.rfl

  complete-Conserved :
      (s : Loop M) (rest : List M) (m : M) (ending : Ending) (e : Option Exit)
      → Perm s.in_flight (m ∷ rest)
      → let t =
          complete_with source concurrency panic_policy e
            (record s { in_flight = rest })
            (ended m ending ∷ []) in
        Conserved s (effects_of t) (loop_of t)
  unfolding complete_with started_of ended_of
  complete-Conserved s rest m ending none p = p
  complete-Conserved s rest m ending (some exit) p = p

  receive-Conserved :
      (s : Loop M) (r : Result WorkerError (Option M))
      → let t = receive_with source concurrency panic_policy s r in
        Conserved s (effects_of t) (loop_of t)
  unfolding receive_with started_of ended_of
  receive-Conserved s (ok (some m)) = Perm.symm (perm_append_singleton m s.in_flight)
  receive-Conserved s (ok none) = Perm.rfl
  receive-Conserved s (err e) = Perm.rfl

  pub nothing-Conserved : (s : Loop M) → Conserved s [] s
  unfolding started_of ended_of
  nothing-Conserved s = Perm.rfl

  round-Conserved :
      (s : Loop M) (ready : Ready I)
      → let t = round source concurrency panic_policy s ready in
        Conserved s (effects_of t) (loop_of t)
  round-Conserved s ready = elim (round-Round source concurrency panic_policy s ready) [
    | drained a e t ↦ rw t (nothing-Conserved s)
    | waits t ↦ rw t (nothing-Conserved s)
    | stops b a c t ↦ rw t (stop-Conserved s (source.stop b) (quiet b))
    | completes place m rest ending d r t ↦
        rw t (complete-Conserved s rest m ending _ (remove-perm s.in_flight place m rest r))
    | receives item a room i t ↦ rw t (receive-Conserved s (source.receive item))
  ]

  run_from-Conserved :
      (polls : List (Ready I))
      → let r = run_from source concurrency panic_policy fresh polls in
        Perm (started_of r.2) (ended_of r.2 ++ r.1.in_flight)
  run_from-Conserved polls =
      rw (append-nil (started_of (run_from source concurrency panic_policy fresh polls).2)) at (
        run_from-R source concurrency panic_policy Conserved nothing-Conserved round-Conserved
          Conserved-trans fresh polls)

  pub run_worker-Conserved :
      (polls : List (Ready I))
      → let r = run_worker source concurrency panic_policy polls in
        Perm (started_of r.2) (ended_of r.2 ++ r.1.in_flight)
  unfolding run_worker started_of ended_of
  run_worker-Conserved polls = elim (Bool-cases (ltb 0 concurrency)) [
    | inl some_room ↦ rw some_room (run_from-Conserved polls)
    | inr no_room ↦ rw no_room Perm.rfl
  ]

pub request-IsQuiet : {M : Type 0} → IsQuiet (request_source {M = M})
unfolding started_of ended_of
request-IsQuiet b = (refl, refl)

pub subscription-IsQuiet : {M : Type 0} → IsQuiet (subscription_source {M = M})
unfolding started_of ended_of
subscription-IsQuiet b = (refl, refl)

pub consumer-IsQuiet : {M : Type 0} → IsQuiet (consumer_source {M = M})
unfolding started_of ended_of
consumer-IsQuiet b = (refl, refl)
