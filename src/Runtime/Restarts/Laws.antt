-- ===== src/Runtime/Restarts/Laws.antt =====
-- The delays that a restart tracker grants.
use native.Mathlib.Decide.{dec_lt}
use native.Mathlib.Nat.{pow-suc}
use nats_micro.Prelude.{
  inr, inl, ℕ, zero, suc, ◌+◌, ◌*◌, ◌^◌, ◌≤◌, ◌<◌, ◌≡◌, refl, ap, ◌∙◌, ◌⊎◌, min, List, [], ◌∷◌,
  Option, some, none, get_elem?, length, All, if◌then◌else◌, ltb, arith,
}
use nats_micro.Prelude.Durations.{saturating_mul, duration_max}
use nats_micro.Runtime.Config.{ignore, shutdown_app, restart}
use nats_micro.Runtime.Restarts.{RestartTracker, new, next_delay}

-- The answers to calls at the given times, in turn.
unfoldable pub delays : RestartTracker → List ℕ → List (Option ℕ)
delays tracker [] = []
delays tracker (now ∷ times) = (next_delay tracker now).1 ∷ delays (next_delay tracker now).0 times

module _ (initial_backoff max_backoff max_restarts window : ℕ) where
  -- After `n` grants in the window that began at `started`.
  pub IsAt : ℕ → ℕ → RestartTracker → Type 0
  IsAt started n t =
      (t.policy ≡ restart initial_backoff max_backoff max_restarts window)
      × (t.window_started ≡ started)
      × (t.restarts ≡ n)
      × (t.next_backoff ≡ min (initial_backoff * 2 ^ n) max_backoff)

  double :
      (n : ℕ)
      → max_backoff ≤ duration_max
      → min (saturating_mul (min (initial_backoff * 2 ^ n) max_backoff) 2) max_backoff
        ≡ min (initial_backoff * 2 ^ suc n) max_backoff
  unfolding saturating_mul
  double n h = omega (arith, ap (λ (t : ℕ). initial_backoff * t) (pow-suc 2 n))

  pub next_delay-grants :
      (started n now : ℕ) (t : RestartTracker)
      → max_backoff ≤ duration_max
      → max_restarts < 2 ^ 32
      → IsAt started n t
      → n < max_restarts
      → now ≤ started + window
      → ((next_delay t now).1 ≡ some (min (initial_backoff * 2 ^ n) max_backoff))
        × IsAt started (suc n) (next_delay t now).0
  unfolding next_delay IsAt
  next_delay-grants started n now t small few at more within = ground (arith, double n small)

  pub next_delay-refuses :
      (started n now : ℕ) (t : RestartTracker)
      → IsAt started n t
      → max_restarts ≤ n
      → now ≤ started + window
      → ((next_delay t now).1 ≡ none) × IsAt started n (next_delay t now).0
  unfolding next_delay IsAt
  next_delay-refuses started n now t at last within = ground arith

  -- The answer to the call after `n` grants.
  abbrev pub answer : ℕ → Option ℕ
  answer n = if ltb n max_restarts then some (min (initial_backoff * 2 ^ n) max_backoff) else none

  refused : (n i : ℕ) → max_restarts ≤ n → answer (n + i) ≡ answer (n + suc i)
  refused n i h = ground arith

  delays-grants :
      (started : ℕ) (times : List ℕ) (n : ℕ) (t : RestartTracker)
      → max_backoff ≤ duration_max
      → max_restarts < 2 ^ 32
      → IsAt started n t
      → All (λ now. now ≤ started + window) times
      → (i : ℕ) → i < length times
      → get_elem? (delays t times) i ≡ some (answer (n + i))
  unfolding delays
  delays-grants started [] n t small few at within i h = absurd (omega arith)
  delays-grants started (now ∷ times) n t small few at (first, later) zero h =
      elim (dec_lt n max_restarts) [
        | yes more ↦ ground (arith, next_delay-grants started n now t small few at more first)
        | no last ↦ ground (arith, next_delay-refuses started n now t at (omega arith) first)
      ]
  delays-grants started (now ∷ times) n t small few at (first, later) (suc i) h =
      elim (dec_lt n max_restarts) [
        | yes more ↦
            let (e, at') = next_delay-grants started n now t small few at more first in
            let sum : suc n + i ≡ n + suc i = omega arith in
            delays-grants started times (suc n) (next_delay t now).0 small few at' later i
              (omega arith)
            ∙ ap (λ k. some (answer k)) sum
        | no last ↦
            let (e, at') = next_delay-refuses started n now t at (omega arith) first in
            delays-grants started times n (next_delay t now).0 small few at' later i (omega arith)
            ∙ ap some (refused n i (omega arith))
      ]

  pub new-IsAt :
      (now : ℕ)
      → initial_backoff ≤ max_backoff
      → IsAt now 0 (new (restart initial_backoff max_backoff max_restarts window) now)
  unfolding new IsAt
  new-IsAt now h = (refl, refl, refl, omega arith)

  -- The calls that fall into the window that begins with the tracker are answered by the backoff
  -- that doubles from the initial one up to the maximum, for the first `max_restarts` calls, and
  -- by `None` from then on (`max_restarts` is a `u32`).
  pub delays-answer :
      (started : ℕ) (times : List ℕ) (i : ℕ)
      → initial_backoff ≤ max_backoff
      → max_backoff ≤ duration_max
      → max_restarts < 2 ^ 32
      → All (λ now. now ≤ started + window) times
      → i < length times
      → get_elem?
          (delays (new (restart initial_backoff max_backoff max_restarts window) started) times)
          i
        ≡ some (answer i)
  delays-answer started times i ordered small few within h =
      let sum : 0 + i ≡ i = omega arith in
      delays-grants started times 0
        (new (restart initial_backoff max_backoff max_restarts window) started) small few
        (new-IsAt started ordered) within i h
      ∙ ap (λ k. some (answer k)) sum

  -- Once more than the window has passed, the count starts again: the next call grants the
  -- initial backoff, whatever was granted before.
  pub next_delay-new_window :
      (t : RestartTracker) (now : ℕ)
      → t.policy ≡ restart initial_backoff max_backoff max_restarts window
      → 0 < max_restarts
      → t.window_started + window < now
      → ((next_delay t now).1 ≡ some initial_backoff)
        × ((next_delay t now).0.restarts ≡ 1)
        × ((next_delay t now).0.window_started ≡ now)
  unfolding next_delay
  next_delay-new_window t now e some_restarts late = ground arith

-- Under the other policies no delay is granted.
pub next_delay-none :
    (t : RestartTracker) (now : ℕ)
    → (t.policy ≡ ignore) ⊎ (t.policy ≡ shutdown_app)
    → next_delay t now ≡ (t, none)
unfolding next_delay
next_delay-none t now (inl e) = ground arith
next_delay-none t now (inr e) = ground arith
