-- ===== src/Runtime/Worker/Runs.antt =====
-- Induction over the rounds of a worker.
use nats_micro.Prelude.{ℕ, ◌≡◌, refl, ◌⊎◌, inl, inr, List, [], ◌∷◌, ◌++◌, Option, some, none}
use nats_micro.Runtime.Config.{HandlerPanicPolicy}
use nats_micro.Runtime.Worker.{
  Loop, Ready, Source, Turn, Exit, Effect, going, left, round, run_from,
}

-- The loop's variables after a round, what the round did, and how it left the loop.
module _ {M : Type 0} where
  abbrev pub loop_of : Turn M → Loop M
  loop_of (going s effects) = s
  loop_of (left exit s effects) = s

  abbrev pub effects_of : Turn M → List (Effect M)
  effects_of (going s effects) = effects
  effects_of (left exit s effects) = effects

  abbrev pub exit_of : Turn M → Option Exit
  exit_of (going s effects) = none
  exit_of (left exit s effects) = some exit

  pub Turn-cases :
      (t : Turn M)
      → ((s : Loop M) × (es : List (Effect M)) × (t ≡ going s es))
        ⊎ ((exit : Exit) × (s : Loop M) × (es : List (Effect M)) × (t ≡ left exit s es))
  Turn-cases (going s effects) = inl (s, effects, refl)
  Turn-cases (left exit s effects) = inr (exit, s, effects, refl)

  -- What holds whenever a round leaves the loop.
  abbrev pub AtExit : (Exit → Loop M → Type 0) → Option Exit → Loop M → Type 0
  AtExit Q none s = Unit {0}
  AtExit Q (some exit) s = Q exit s

module _ {M I : Type 0} (source : Source M I) (concurrency : ℕ)
    (panic_policy : HandlerPanicPolicy) where
  abbrev Outcome : Type 0
  Outcome = Option Exit × Loop M × List (Effect M)

  pub run_left :
      (s : Loop M) (ready : Ready I) (polls : List (Ready I)) {exit : Exit} {t : Loop M}
      {es : List (Effect M)}
      → round source concurrency panic_policy s ready ≡ left exit t es
      → run_from source concurrency panic_policy s (ready ∷ polls) ≡ (some exit, t, es)
  unfolding run_from
  run_left s ready polls e = rw (e, run_from)

  pub run_going :
      (s : Loop M) (ready : Ready I) (polls : List (Ready I)) {t : Loop M} {es : List (Effect M)}
      → round source concurrency panic_policy s ready ≡ going t es
      → let r = run_from source concurrency panic_policy t polls in
        run_from source concurrency panic_policy s (ready ∷ polls) ≡ (r.0, r.1, es ++ r.2)
  unfolding run_from
  run_going s ready polls e = rw (e, run_from)

  module _ (R : Loop M → List (Effect M) → Loop M → Type 0) (R_refl : (s : Loop M) → R s [] s)
      (R_round : (s : Loop M) (ready : Ready I)
        → let t = round source concurrency panic_policy s ready in R s (effects_of t) (loop_of t))
      (R_trans : (s t u : Loop M) (e f : List (Effect M))
        → R s e t
        → R t f u
        → R s (e ++ f) u) where
    -- What holds of each round and composes holds of a run.
    pub run_from-R :
        (s : Loop M) (polls : List (Ready I))
        → let r = run_from source concurrency panic_policy s polls in R s r.2 r.1
    run_from-R s [] = unfold run_from in R_refl s
    run_from-R s (ready ∷ polls) =
        elim (Turn-cases (round source concurrency panic_policy s ready)) [
          | inl (t, es, e) ↦
              rw (run_going s ready polls e)
                (R_trans s t _ es _ (rw e at (R_round s ready)) (run_from-R t polls))
          | inr (exit, t, es, e) ↦ rw (run_left s ready polls e) (rw e at (R_round s ready))
        ]

  module _ (Q : Exit → Loop M → Type 0)
      (Q_round : (s : Loop M) (ready : Ready I)
        → let t = round source concurrency panic_policy s ready in
          AtExit Q (exit_of t) (loop_of t)) where
    pub run_from-AtExit :
        (s : Loop M) (polls : List (Ready I))
        → let r = run_from source concurrency panic_policy s polls in AtExit Q r.0 r.1
    run_from-AtExit s [] = unfold run_from in tt
    run_from-AtExit s (ready ∷ polls) =
        elim (Turn-cases (round source concurrency panic_policy s ready)) [
          | inl (t, es, e) ↦ rw (run_going s ready polls e) (run_from-AtExit t polls)
          | inr (exit, t, es, e) ↦ rw (run_left s ready polls e) (rw e at (Q_round s ready))
        ]
