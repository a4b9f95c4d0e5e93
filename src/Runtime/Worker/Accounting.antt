-- ===== src/Runtime/Worker/Accounting.antt =====
-- The messages that a worker takes are those that are in flight or have ended.
use nats_micro.Runtime.Worker.Runs.{run_left, run_going, Turn-cases, effects_of}
use nats_micro.Runtime.Worker.Conservation.{
  consumer-IsQuiet, ended_of-append, subscription-IsQuiet, request-IsQuiet, started_of-append,
  run_worker-Conserved, ended_of, started_of, IsQuiet,
}
use nats_micro.Runtime.Worker.{
  run_consumer, run_subscription, run_worker, run_from, request_source, subscription_source,
  consumer_source, run_request_endpoint, ended, going, Effect, on_changed, poll_incoming, stop_with,
  fresh, receive_with, poll_done, complete_with, poll_changed, round, Exit, on_done, Ready, Turn,
  WorkerError, Ending, Loop, Source,
}
use mathlib.Core.List.Perm
use nats_micro.Runtime.Worker.Polls.{
  taken, taken_from, ended_from, Accounts, offers, at_place, ends,
}
use nats_micro.Prelude.{
  ℕ, ◌≡◌, refl, inl, inr, Bool, true, false, not, ◌&&◌, ◌||◌, List, [], ◌∷◌, ◌++◌, Option, some,
  none, Result, ok, err, remove, arith, ltb, length, is_empty, is_some, if◌then◌else◌, Bool-cases,
}
use nats_micro.Runtime.Config.{HandlerPanicPolicy}

at_place-idle :
    {M : Type 0} (in_flight : List M) (done : Option (ℕ × Ending))
    → is_empty in_flight ≡ true
    → at_place in_flight done ≡ []
at_place-idle [] none e = refl
at_place-idle [] (some (place, ending)) e = refl
at_place-idle (m ∷ in_flight) ended_task e = ground arith

if_same {ℓ} : {A : Type ℓ} (b : Bool) (x : A) → (if b then x else x) ≡ x
if_same true x = refl
if_same false x = refl

if_and {ℓ} :
    {A : Type ℓ} (a b : Bool) (x y : A)
    → (if a && b then x else y) ≡ (if a then (if b then x else y) else y)
if_and true b x y = refl
if_and false b x y = refl

module _ {M : Type 0} where
  -- The tasks that a turn starts and ends.
  abbrev Shows : Turn M → List M → List M → Type 0
  Shows t begun over = (started_of (effects_of t) ≡ begun) × (ended_of (effects_of t) ≡ over)

-- The messages of a receipt.
abbrev message_of : {M : Type 0} → Result WorkerError (Option M) → List M
message_of (ok (some m)) = m ∷ []
message_of (ok none) = []
message_of (err e) = []

module _ {M I : Type 0} (source : Source M I) (concurrency : ℕ) (panic_policy : HandlerPanicPolicy)
    (offered : I → List M) (quiet : IsQuiet source)
    (received : (item : I) → message_of (source.receive item) ≡ offered item) where
  receive-Shows :
      (s : Loop M) (r : Result WorkerError (Option M))
      → Shows (receive_with source concurrency panic_policy s r) (message_of r) []
  unfolding receive_with started_of ended_of
  receive-Shows s (ok (some m)) = (refl, refl)
  receive-Shows s (ok none) = (refl, refl)
  receive-Shows s (err e) = (refl, refl)

  incoming-Shows :
      (s : Loop M) (incoming : Option I)
      → Shows
          (poll_incoming source concurrency panic_policy s incoming)
          (offers offered incoming)
          []
  unfolding poll_incoming started_of ended_of
  incoming-Shows s none = (refl, refl)
  incoming-Shows s (some item) = rw (← received item) (receive-Shows s (source.receive item))

  complete-Shows :
      (s : Loop M) (m : M) (ending : Ending) (exit : Option Exit)
      → Shows
          (complete_with source concurrency panic_policy exit s (ended m ending ∷ []))
          []
          (m ∷ [])
  unfolding complete_with started_of ended_of
  complete-Shows s m ending none = (refl, refl)
  complete-Shows s m ending (some exit) = (refl, refl)

  nothing-Shows : (s : Loop M) → Shows (going s []) [] []
  unfolding started_of ended_of
  nothing-Shows s = (refl, refl)

  on_done-Shows :
      (s : Loop M) (found : Option (M × List M)) (ending : Ending)
      → Shows
          (on_done source concurrency panic_policy s found ending)
          []
          (elim found [ none ↦ [] | some (m, rest) ↦ m ∷ [] ])
  unfolding on_done
  on_done-Shows s none ending = nothing-Shows s
  on_done-Shows s (some (m, rest)) ending = complete-Shows _ m ending _

  done-Shows :
      (s : Loop M) (done : Option (ℕ × Ending)) (later : Turn M) (begun : List M)
      → Shows later begun []
      → Shows
          (poll_done source concurrency panic_policy s done later)
          (if not (is_some done) || is_empty s.in_flight then begun else [])
          (at_place s.in_flight done)
  unfolding poll_done
  done-Shows s none later begun shows = shows
  done-Shows s (some (place, ending)) later begun shows = elim (Bool-cases (is_empty s.in_flight)) [
    | inl idle ↦ rw (idle, at_place-idle s.in_flight (some (place, ending)) idle) shows
    | inr busy ↦ rw busy (on_done-Shows s (remove s.in_flight place) ending)
  ]

  stop-Shows :
      (s : Loop M) (r : List (Effect M) × Option WorkerError)
      → (started_of r.0 ≡ []) × (ended_of r.0 ≡ [])
      → Shows (stop_with source concurrency panic_policy s r) [] []
  unfolding stop_with
  stop-Shows s (effects, none) shows = shows
  stop-Shows s (effects, some e) shows = shows

  changed-Shows :
      (s : Loop M) (changed : Option (Bool × Bool)) (later : Turn M) (begun over : List M)
      → Shows later begun over
      → Shows
          (poll_changed source concurrency panic_policy s changed later)
          (if not (is_some changed) then begun else [])
          (if not (is_some changed) then over else [])
  unfolding poll_changed on_changed
  changed-Shows s none later begun over shows = shows
  changed-Shows s (some (true, stops)) later begun over shows =
      stop-Shows s (source.stop stops) (quiet stops)
  changed-Shows s (some (false, stops)) later begun over shows = nothing-Shows s

  rest-Shows :
      (s : Loop M) (done : Option (ℕ × Ending))
      → Shows
          (poll_done source concurrency panic_policy s done (going s []))
          []
          (at_place s.in_flight done)
  rest-Shows s done =
      rw (if_same {A = List M} (not (is_some done) || is_empty s.in_flight) []) at
        (done-Shows s done (going s []) [] (nothing-Shows s))

  round-Shows :
      (s : Loop M) (ready : Ready I)
      → Shows
          (round source concurrency panic_policy s ready)
          (taken concurrency offered s ready)
          (ends s ready)
  unfolding round
  round-Shows s ready = elim (Bool-cases s.accepting) [
    | inl open_ ↦ elim (Bool-cases (ltb (length s.in_flight) concurrency)) [
      | inl room ↦
          simp (open_, room, if_and)
            (changed-Shows s ready.changed _ _ _
              (done-Shows s ready.done _ _ (incoming-Shows s ready.incoming)))
      | inr full ↦
          simp (open_, full, if_and)
            (rw (if_same {A = List M} (not (is_some ready.changed)) []) at (
              changed-Shows s ready.changed
                (poll_done source concurrency panic_policy s ready.done (going s [])) []
                (at_place s.in_flight ready.done) (rest-Shows s ready.done)))
    ]
    | inr closed ↦ elim (Bool-cases (is_empty s.in_flight)) [
      | inl idle ↦ simp (closed, idle, at_place-idle s.in_flight ready.done idle) (nothing-Shows s)
      | inr busy ↦ simp (closed, busy) (rest-Shows s ready.done)
    ]
  ]

  shown-append :
      (es fs : List (Effect M)) (begun over more later : List M)
      → started_of es ≡ begun
      → ended_of es ≡ over
      → started_of fs ≡ more
      → ended_of fs ≡ later
      → (started_of (es ++ fs) ≡ begun ++ more) × (ended_of (es ++ fs) ≡ over ++ later)
  shown-append es fs begun over more later p q r s =
      rw (started_of-append, ended_of-append, p, q, r, s) (refl, refl)

  run_from-Shows :
      (s : Loop M) (polls : List (Ready I))
      → let r = run_from source concurrency panic_policy s polls in
        (started_of r.2 ≡ taken_from source concurrency panic_policy offered s polls)
        × (ended_of r.2 ≡ ended_from source concurrency panic_policy offered s polls)
  unfolding taken_from ended_from started_of ended_of
  run_from-Shows s [] = unfold run_from started_of ended_of taken_from ended_from in (refl, refl)
  run_from-Shows s (ready ∷ polls) =
      let (begun, over) = round-Shows s ready in
      elim (Turn-cases (round source concurrency panic_policy s ready)) [
        | inl (t, es, e) ↦
            let (later_begun, later_over) = run_from-Shows t polls in
            let begun' : started_of es ≡ taken concurrency offered s ready = rw e at begun in
            let over' : ended_of es ≡ ends s ready = rw e at over in
            rw
              (run_going source concurrency panic_policy s ready polls e, taken_from, ended_from, e)
              (shown-append es _ _ _ _ _ begun' over' later_begun later_over)
        | inr (exit, t, es, e) ↦
            rw (run_left source concurrency panic_policy s ready polls e, taken_from, ended_from, e)
              ((rw e at begun, rw e at over))
      ]

  run_worker-Accounts :
      (polls : List (Ready I))
      → Accounts source concurrency panic_policy offered polls
          (run_worker source concurrency panic_policy polls)
  unfolding run_worker started_of ended_of
  run_worker-Accounts polls =
      let kept = run_worker-Conserved source concurrency panic_policy quiet polls in
      elim (Bool-cases (ltb 0 concurrency)) [
        | inl some_room ↦
            let (begun, over) = run_from-Shows fresh polls in
            rw some_room (rw (some_room, begun, over) at kept, begun, over)
        | inr no_room ↦ rw no_room (Perm.rfl, refl, refl)
      ]

-- The message that an item of a source holds.
abbrev pub next_message : {M : Type 0} → Option M → List M
next_message none = []
next_message (some m) = m ∷ []

abbrev pub next_pulled : {M : Type 0} → Option (Result (Unit {0}) M) → List M
next_pulled none = []
next_pulled (some (ok m)) = m ∷ []
next_pulled (some (err e)) = []

request-received :
    {M : Type 0} (item : Option M) → message_of (request_source.receive item) ≡ next_message item
request-received none = refl
request-received (some m) = refl

subscription-received :
    {M : Type 0} (item : Option M)
    → message_of (subscription_source.receive item) ≡ next_message item
subscription-received none = refl
subscription-received (some m) = refl

consumer-received :
    {M : Type 0} (item : Option (Result (Unit {0}) M))
    → message_of (consumer_source.receive item) ≡ next_pulled item
consumer-received none = refl
consumer-received (some (ok m)) = refl
consumer-received (some (err e)) = refl

-- At every point of the life of a request, subscription or consumer worker, the messages that its
-- source held in the rounds in which the loop takes one (it accepts, has room, the shutdown channel
-- has not changed, and no task is there that has ended) are, each as often as it was held, those
-- whose task has ended by then and those still in flight, and the loop has started and ended just
-- these: none is lost, invented or handled twice.
pub workers-Accounts :
    {M : Type 0} (concurrency : ℕ) (panic_policy : HandlerPanicPolicy)
    (polls : List (Ready (Option M))) (consumer_polls : List (Ready (Option (Result (Unit {0}) M))))
    → Accounts request_source concurrency panic_policy next_message polls
        (run_request_endpoint concurrency panic_policy polls)
      × Accounts subscription_source concurrency panic_policy next_message polls
          (run_subscription concurrency panic_policy polls)
      × Accounts consumer_source concurrency panic_policy next_pulled consumer_polls
          (run_consumer concurrency panic_policy consumer_polls)
unfolding run_request_endpoint run_subscription run_consumer
workers-Accounts concurrency panic_policy polls consumer_polls = (
  run_worker-Accounts request_source concurrency panic_policy next_message request-IsQuiet
      request-received polls,
  run_worker-Accounts subscription_source concurrency panic_policy next_message subscription-IsQuiet
      subscription-received polls,
  run_worker-Accounts consumer_source concurrency panic_policy next_pulled consumer-IsQuiet
      consumer-received consumer_polls,
)
