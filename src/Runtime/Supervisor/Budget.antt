-- ===== src/Runtime/Supervisor/Budget.antt =====
-- How often a supervised worker is restarted, and when its task succeeds.
use nats_micro.Runtime.Restarts.Laws.{next_delay-refuses, next_delay-grants, new-IsAt, IsAt}
use nats_micro.Prelude.{
  ap, Bool, false, ltb, Result-cases, ◌≢◌, ℕ, suc, ◌+◌, ◌≤◌, ◌<◌, ◌^◌, ◌≡◌, refl, true, List, [],
  ◌∷◌, ◌++◌, Option, some, none, Result, ok, err, All, length, length-append, arith, Bool-cases,
  ◌⊎◌, inl, inr,
}
use nats_micro.Prelude.Durations.{duration_max}
use nats_micro.Runtime.Config.{restart}
use nats_micro.Runtime.Restarts.{
  new, RestartTracker, next_delay, wait_backoff, Woken, slept, changed,
}
use nats_micro.Runtime.Worker.{Exit, returned, unwound}
use nats_micro.Runtime.Supervisor.{
  SupervisorError, Attempt, Joined, finished, Verdict, restarts, ends, judge, after_delay,
  supervise, failure_of, rebind,
}

-- An attempt after which a shutdown was requested, or whose backoff the shutdown channel ended: its
-- sender was gone, or it held a request.
abbrev pub IsStopped : Attempt → Type 0
IsStopped attempt =
    (attempt.requested ≡ true)
    ⊎ ((is_err : Bool) × (requested : Bool) × (attempt.woken ≡ changed is_err requested)
        × ((is_err ≡ true) ⊎ (requested ≡ true)))

wait_backoff-changed :
    (woken : Woken)
    → wait_backoff woken ≡ true
    → (is_err : Bool) × (requested : Bool) × (woken ≡ changed is_err requested)
      × ((is_err ≡ true) ⊎ (requested ≡ true))
unfolding wait_backoff
wait_backoff-changed slept e = ground arith
wait_backoff-changed (changed true requested) e = (true, requested, refl, inl refl)
wait_backoff-changed (changed false true) e = (false, true, refl, inr refl)
wait_backoff-changed (changed false false) e = ground arith

rebind-ends : (t : RestartTracker) (r : Result ℕ (Unit {0})) → rebind t r ≢ ends (finished (ok tt))
rebind-ends t (ok u) e = ground arith
rebind-ends t (err x) e = ground arith

after_delay-ok :
    (a : Attempt) (x : SupervisorError) (d : RestartTracker × Option ℕ) (w : List ℕ)
    → after_delay a x d ≡ (ends (finished (ok tt)), w)
    → wait_backoff a.woken ≡ true
unfolding after_delay
after_delay-ok a x (t, none) w e = ground arith
after_delay-ok a x (t, some delay) w e = elim (Bool-cases (wait_backoff a.woken)) [
  | inl woken ↦ woken
  | inr sleeping ↦ ground (arith, rebind-ends t a.rebound)
]

judge-ok :
    (t : RestartTracker) (a : Attempt) (x : Exit) (w : List ℕ)
    → judge t a x ≡ (ends (finished (ok tt)), w)
    → IsStopped a
unfolding judge
judge-ok t a unwound w e = ground arith
judge-ok t a (returned r) w e = elim (Bool-cases a.requested) [
  | inl requested ↦ inl requested
  | inr not_yet ↦ inr (
      wait_backoff-changed a.woken
        (after_delay-ok a (failure_of r) (next_delay t a.now) w (rw not_yet at e)))
]

Verdict-cases :
    (r : Verdict × List ℕ)
    → ((j : Joined) × (w : List ℕ) × (r ≡ (ends j, w)))
      ⊎ ((t : RestartTracker) × (w : List ℕ) × (r ≡ (restarts t, w)))
Verdict-cases (ends j, w) = inl (j, w, refl)
Verdict-cases (restarts t, w) = inr (t, w, refl)

supervise-ends :
    (t : RestartTracker) (a : Attempt) (attempts : List Attempt) (j : Joined) (w : List ℕ)
    → judge t a a.exit ≡ (ends j, w)
    → supervise t (a ∷ attempts) ≡ (some j, w)
unfolding supervise
supervise-ends t a attempts j w e = ground (arith, e)

supervise-restarts :
    (t : RestartTracker) (a : Attempt) (attempts : List Attempt) (next : RestartTracker)
    (w : List ℕ)
    → judge t a a.exit ≡ (restarts next, w)
    → supervise t (a ∷ attempts) ≡ ((supervise next attempts).0, w ++ (supervise next attempts).1)
unfolding supervise
supervise-restarts t a attempts next w e = ground (arith, e)

-- The attempt that ends the task, which the ones before it have not ended.
abbrev pub EndsWith : (Attempt → Type 0) → RestartTracker → List Attempt → Type 0
EndsWith P t attempts =
    (before : List Attempt) × (last : Attempt) × (after : List Attempt) × (attempts
      ≡ before ++ last ∷ after)
    × ((supervise t before).0 ≡ none)
    × P last

-- A supervised task succeeds only if, for the attempt that ends it, a shutdown was requested when
-- the attempt ended, or the shutdown channel changed in the backoff after it, by a request or because
-- its sender is gone.
pub supervise-IsStopped :
    (t : RestartTracker) (attempts : List Attempt)
    → (supervise t attempts).0 ≡ some (finished (ok tt))
    → EndsWith IsStopped t attempts
unfolding supervise
supervise-IsStopped t [] e = ground arith
supervise-IsStopped t (a ∷ attempts) e = elim (Verdict-cases (judge t a a.exit)) [
  | inl (joined, w, ended) ↦ ([], a, attempts, refl, refl, judge-ok t a a.exit w (ground arith))
  | inr (next, w, more) ↦
      let (before, last, after, split, going, stopped) =
        supervise-IsStopped next attempts (ground arith) in
      (
        a ∷ before,
        last,
        after,
        ap (◌∷◌ a) split,
        rw (supervise-restarts t a before next w more) going,
        stopped,
      )
]

-- The delays of a run are grants of the tracker, so a window's budget bounds them.
module _ (initial_backoff max_backoff max_restarts window : ℕ) where
  -- What an attempt leaves of the budget, of which `n` grants are spent before it.
  Keeps : ℕ → ℕ → Verdict × List ℕ → Type 0
  Keeps started n (ends joined, w) = n + length w ≤ max_restarts
  Keeps started n (restarts next, w) =
      (length w ≡ 1)
      × (suc n ≤ max_restarts)
      × IsAt initial_backoff max_backoff max_restarts window started (suc n) next

  after_delay-Keeps :
      (started n : ℕ) (a : Attempt) (x : SupervisorError) (d : RestartTracker × Option ℕ)
      → n ≤ max_restarts
      → (d.1 ≡ none)
        ⊎ ((suc n ≤ max_restarts)
            × IsAt initial_backoff max_backoff max_restarts window started (suc n) d.0)
      → Keeps started n (after_delay a x d)
  unfolding after_delay Keeps
  after_delay-Keeps started n a x (t, none) within granted = omega arith
  after_delay-Keeps started n a x (t, some delay) within (inl refused) = ground arith
  after_delay-Keeps started n a x (t, some delay) within (inr (left, at)) =
      elim (Bool-cases (wait_backoff a.woken)) [
        | inl woken ↦ rw woken (omega (arith, left))
        | inr sleeping ↦ elim (Result-cases a.rebound) [
          | inl (e, refused) ↦ rw (sleeping, refused) (omega (arith, left))
          | inr (u, bound) ↦ rw (sleeping, bound) (refl, left, at)
        ]
      ]

  judge-Keeps :
      (started n : ℕ) (t : RestartTracker) (a : Attempt) (x : Exit)
      → max_backoff ≤ duration_max
      → max_restarts < 2 ^ 32
      → IsAt initial_backoff max_backoff max_restarts window started n t
      → n ≤ max_restarts
      → a.now ≤ started + window
      → Keeps started n (judge t a x)
  unfolding judge Keeps
  judge-Keeps started n t a unwound small few at within now = omega arith
  judge-Keeps started n t a (returned r) small few at within now = elim (Bool-cases a.requested) [
    | inl requested ↦ rw requested (omega arith)
    | inr not_yet ↦ rw not_yet (
        after_delay-Keeps started n a (failure_of r) (next_delay t a.now) within
          (elim (Bool-cases (ltb n max_restarts)) [
            | inl left ↦ inr (
              ground arith,
              (next_delay-grants initial_backoff max_backoff max_restarts window started n a.now t
                  small few at (ground arith) now).1,
            )
            | inr spent ↦
                inl
                  (next_delay-refuses initial_backoff max_backoff max_restarts window started n
                    a.now t at (ground arith) now).0
          ]))
  ]

  waits-bounded :
      (started n : ℕ) (t : RestartTracker) (attempts : List Attempt)
      → max_backoff ≤ duration_max
      → max_restarts < 2 ^ 32
      → IsAt initial_backoff max_backoff max_restarts window started n t
      → n ≤ max_restarts
      → All (λ a. a.now ≤ started + window) attempts
      → n + length (supervise t attempts).1 ≤ max_restarts
  unfolding Keeps supervise
  waits-bounded started n t [] small few at within times = omega arith
  waits-bounded started n t (a ∷ attempts) small few at within (now, times) =
      let kept = judge-Keeps started n t a a.exit small few at within now in
      elim (Verdict-cases (judge t a a.exit)) [
        | inl (joined, w, ended) ↦
            rw (supervise-ends t a attempts joined w ended) (rw ended at kept)
        | inr (next, w, more) ↦
            let (one, left, at_next) = rw more at kept in
            let rest = waits-bounded started (suc n) next attempts small few at_next left times in
            rw (supervise-restarts t a attempts next w more)
              (omega (arith, length-append w (supervise next attempts).1, one, rest))
      ]

  -- Within the window that begins with the task, a worker is restarted at most `max_restarts`
  -- times: the supervisor waits no more delays than that, however its runs end.
  pub supervise-le :
      (started : ℕ) (attempts : List Attempt)
      → initial_backoff ≤ max_backoff
      → max_backoff ≤ duration_max
      → max_restarts < 2 ^ 32
      → All (λ a. a.now ≤ started + window) attempts
      → length
          (supervise
            (new (restart initial_backoff max_backoff max_restarts window) started)
            attempts).1
        ≤ max_restarts
  supervise-le started attempts ordered small few times =
      let tracker = new (restart initial_backoff max_backoff max_restarts window) started in
      let fresh = new-IsAt initial_backoff max_backoff max_restarts window started ordered in
      omega (arith, waits-bounded started 0 tracker attempts small few fresh (omega arith) times)
