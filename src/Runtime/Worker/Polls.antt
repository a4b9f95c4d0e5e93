-- ===== src/Runtime/Worker/Polls.antt =====
-- What the loop of a worker takes from its source, and which tasks end, read off the polls.
use nats_micro.Runtime.Worker.Conservation.{ended_of, started_of}
use nats_micro.Runtime.Worker.{going, Effect, left, fresh, round, Exit, Ready, Ending, Loop, Source}
use mathlib.Core.List.{Perm}
use nats_micro.Prelude.{
  ℕ, ◌≡◌, Bool, not, ◌&&◌, ◌||◌, List, [], ◌∷◌, ◌++◌, Option, some, none, remove, ltb, length,
  is_empty, is_some, if◌then◌else◌,
}
use nats_micro.Runtime.Config.{HandlerPanicPolicy}

-- A round receives only while the loop accepts messages and has room, if the shutdown channel has
-- not changed and no task is there that has ended.
abbrev pub takes : {M I : Type 0} → ℕ → Loop M → Ready I → Bool
takes concurrency s ready =
    (s.accepting && ltb (length s.in_flight) concurrency)
    && (not (is_some ready.changed) && (not (is_some ready.done) || is_empty s.in_flight))

abbrev pub offers : {M I : Type 0} → (I → List M) → Option I → List M
offers offered none = []
offers offered (some item) = offered item

abbrev pub taken : {M I : Type 0} → ℕ → (I → List M) → Loop M → Ready I → List M
taken concurrency offered s ready =
    if takes concurrency s ready then offers offered ready.incoming else []

-- The task at a place of those in flight.
abbrev pub at_place : {M : Type 0} → List M → Option (ℕ × Ending) → List M
at_place in_flight none = []
at_place in_flight (some (place, ending)) = elim (remove in_flight place) [
  | none ↦ []
  | some (m, rest) ↦ m ∷ []
]

-- A round ends the task that is there, unless a change of the shutdown channel comes first.
abbrev pub ends : {M I : Type 0} → Loop M → Ready I → List M
ends s ready =
    if not s.accepting || not (is_some ready.changed) then at_place s.in_flight ready.done else []

module _ {M I : Type 0} (source : Source M I) (concurrency : ℕ) (panic_policy : HandlerPanicPolicy)
    (offered : I → List M) where
  -- The rounds up to the one that leaves the loop.
  unfoldable pub taken_from : Loop M → List (Ready I) → List M
  taken_from s [] = []
  taken_from s (ready ∷ polls) = elim (round source concurrency panic_policy s ready) [
    | left exit t effects ↦ taken concurrency offered s ready
    | going t effects ↦ taken concurrency offered s ready ++ taken_from t polls
  ]

  unfoldable pub ended_from : Loop M → List (Ready I) → List M
  ended_from s [] = []
  ended_from s (ready ∷ polls) = elim (round source concurrency panic_policy s ready) [
    | left exit t effects ↦ ends s ready
    | going t effects ↦ ends s ready ++ ended_from t polls
  ]

  -- A worker without room for a task does not enter its loop.
  abbrev pub taken_by : List (Ready I) → List M
  taken_by polls = if ltb 0 concurrency then taken_from fresh polls else []

  abbrev pub ended_by : List (Ready I) → List M
  ended_by polls = if ltb 0 concurrency then ended_from fresh polls else []

  -- What was taken is what has ended and what is in flight.
  abbrev pub Accounts : List (Ready I) → Option Exit × Loop M × List (Effect M) → Type 0
  Accounts polls r =
      Perm (taken_by polls) (ended_by polls ++ r.1.in_flight)
      × (started_of r.2 ≡ taken_by polls)
      × (ended_of r.2 ≡ ended_by polls)
