-- ===== src/Runtime/Worker/Rounds.antt =====
-- The outcomes of one round, so that a proof about a round is a proof for each of them.
use nats_micro.Prelude.{
  ℕ, ◌<◌, ◌≡◌, refl, inl, inr, Bool, true, false, List, [], ◌∷◌, Option, some, none, ok, length,
  remove, arith, Bool-cases, ◌&&◌, not, ltb, is_empty,
}
use nats_micro.Runtime.Config.{HandlerPanicPolicy}
use nats_micro.Runtime.Worker.{
  Loop, Ready, Source, Turn, Ending, returned, ended, completion, handle_completion, going, left,
  stop_with, complete_with, receive_with, on_changed, on_done, poll_incoming, poll_done,
  poll_changed, round,
}

module _ {M I : Type 0} (source : Source M I) (concurrency : ℕ)
    (panic_policy : HandlerPanicPolicy) where
  pub data Round (s : Loop M) (ready : Ready I) (t : Turn M) : Type 0 where
    drained :
        s.accepting ≡ false → s.in_flight ≡ [] → t ≡ left (returned (ok tt)) s [] → Round s ready t
    waits : t ≡ going s [] → Round s ready t
    stops :
        (ok_stop : Bool)
        → s.accepting ≡ true
        → ready.changed ≡ some (true, ok_stop)
        → t ≡ stop_with source concurrency panic_policy s (source.stop ok_stop)
        → Round s ready t
    completes :
        (place : ℕ) (m : M) (rest : List M) (ending : Ending)
        → ready.done ≡ some (place, ending)
        → remove s.in_flight place ≡ some (m, rest)
        → t
          ≡ complete_with source concurrency panic_policy
              (handle_completion panic_policy (completion panic_policy ending))
              (record s { in_flight = rest })
              (ended m ending ∷ [])
        → Round s ready t
    receives :
        (item : I)
        → s.accepting ≡ true
        → length s.in_flight < concurrency
        → ready.incoming ≡ some item
        → t ≡ receive_with source concurrency panic_policy s (source.receive item)
        → Round s ready t

  poll_incoming-Round :
      (s : Loop M) (ready : Ready I) (incoming : Option I)
      → ready.incoming ≡ incoming
      → s.accepting ≡ true
      → length s.in_flight < concurrency
      → Round s ready (poll_incoming source concurrency panic_policy s incoming)
  unfolding poll_incoming
  poll_incoming-Round s ready none e a l = waits refl
  poll_incoming-Round s ready (some item) e a l = receives item a l e refl

  on_done-Round :
      (s : Loop M) (ready : Ready I) (place : ℕ) (ending : Ending) (taken : Option (M × List M))
      → ready.done ≡ some (place, ending)
      → remove s.in_flight place ≡ taken
      → Round s ready (on_done source concurrency panic_policy s taken ending)
  unfolding on_done
  on_done-Round s ready place ending none e r = waits refl
  on_done-Round s ready place ending (some (m, rest)) e r = completes place m rest ending e r refl

  poll_done-Round :
      (s : Loop M) (ready : Ready I) (done : Option (ℕ × Ending)) (later : Turn M)
      → ready.done ≡ done
      → Round s ready later
      → Round s ready (poll_done source concurrency panic_policy s done later)
  unfolding poll_done
  poll_done-Round s ready none later e r = r
  poll_done-Round s ready (some (place, ending)) later e r =
      elim (Bool-cases (is_empty s.in_flight)) [
        | inl idle ↦ rw idle r
        | inr busy ↦ rw busy (on_done-Round s ready place ending (remove s.in_flight place) e refl)
      ]

  poll_changed-Round :
      (s : Loop M) (ready : Ready I) (changed : Option (Bool × Bool)) (later : Turn M)
      → ready.changed ≡ changed
      → s.accepting ≡ true
      → Round s ready later
      → Round s ready (poll_changed source concurrency panic_policy s changed later)
  unfolding poll_changed on_changed
  poll_changed-Round s ready none later e a r = r
  poll_changed-Round s ready (some (true, stops_ok)) later e a r = stops stops_ok a e refl
  poll_changed-Round s ready (some (false, stops_ok)) later e a r = waits refl

  pub round-Round :
      (s : Loop M) (ready : Ready I) → Round s ready (round source concurrency panic_policy s ready)
  unfolding round
  round-Round s ready = elim (Bool-cases (not s.accepting && is_empty s.in_flight)) [
    | inl over ↦ rw over (drained (ground arith) (ground arith) refl)
    | inr more ↦ elim (Bool-cases s.accepting) [
      | inl open_ ↦ elim (Bool-cases (ltb (length s.in_flight) concurrency)) [
        | inl room ↦
            simp (open_, room)
              (poll_changed-Round s ready ready.changed _ refl open_ (
                poll_done-Round s ready ready.done _ refl
                  (poll_incoming-Round s ready ready.incoming refl open_ (ground arith))))
        | inr full ↦
            simp (open_, full)
              (poll_changed-Round s ready ready.changed _ refl open_
                (poll_done-Round s ready ready.done _ refl (waits refl)))
      ]
      | inr closed ↦
          let busy : is_empty s.in_flight ≡ false = ground arith in
          simp (closed, busy) (poll_done-Round s ready ready.done _ refl (waits refl))
    ]
  ]
