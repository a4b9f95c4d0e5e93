-- ===== src/Runtime/Config/Laws.antt =====
-- The validation of a configuration and the settings computed from it.
use nats_micro.Prelude.{ℕ, ◌≤◌, ◌<◌, ◌≡◌, ◌↔◌, ◌⊎◌, ok, arith}
use nats_micro.Runtime.Config.{
  WorkerFailurePolicy, ignore, shutdown_app, restart, AppConfig, Profile, development, for_profile,
  validate_failure_policy, validate, effective_concurrency,
}

-- The range of a restart policy.
abbrev pub IsPolicy : WorkerFailurePolicy → Type 0
IsPolicy ignore = Unit {0}
IsPolicy shutdown_app = Unit {0}
IsPolicy (restart initial_backoff max_backoff max_restarts window) =
    (0 < initial_backoff) × (initial_backoff ≤ max_backoff) × (0 < max_restarts) × (0 < window)

pub record IsConfig (c : AppConfig) : Type 0 where
  pub some_concurrency : 0 < c.default_concurrency
  pub ordered : c.default_concurrency ≤ c.max_concurrency
  pub startup : 0 < c.startup_timeout
  pub drain : 0 < c.shutdown_drain_timeout
  pub policy : IsPolicy c.worker_failure

policy_iff : (p : WorkerFailurePolicy) → (validate_failure_policy p ≡ ok tt) ↔ IsPolicy p
unfolding validate_failure_policy
policy_iff ignore = ground arith
policy_iff shutdown_app = ground arith
policy_iff (restart initial_backoff max_backoff max_restarts window) = ground arith

-- A configuration is accepted exactly if both timeouts are positive, the default concurrency is
-- positive and at most the maximum, and a restart policy has positive backoff, restarts and window
-- and a maximum backoff that is not below the initial one.
pub validate_iff : (c : AppConfig) → (validate c ≡ ok tt) ↔ IsConfig c
unfolding validate
validate_iff c = (
  λ e. record {
    some_concurrency = ground arith;
    ordered = ground arith;
    startup = ground arith;
    drain = ground arith;
    policy = (policy_iff c.worker_failure).0 (ground arith);
  },
  λ v. ground (arith, (policy_iff c.worker_failure).1 v.policy),
)

for_profile-IsConfig : (p : Profile) → IsConfig (for_profile p)
unfolding for_profile
for_profile-IsConfig development = omega arith
for_profile-IsConfig _ = omega arith

-- Every profile passes the validation.
pub validate-for_profile : (p : Profile) → validate (for_profile p) ≡ ok tt
validate-for_profile p = (validate_iff (for_profile p)).1 (for_profile-IsConfig p)

-- Under a configuration that was accepted, a worker's concurrency is at least one and at most the
-- maximum; it is the declared one where that is given and within the maximum.
pub effective_concurrency_bounds :
    (c : AppConfig) (declared : ℕ)
    → validate c ≡ ok tt
    → (1 ≤ effective_concurrency c declared)
      × (effective_concurrency c declared ≤ c.max_concurrency)
      × (((effective_concurrency c declared ≡ declared) × (1 ≤ declared))
          ⊎ ((declared ≡ 0) ⊎ (c.max_concurrency < declared)))
unfolding effective_concurrency
effective_concurrency_bounds c declared e =
    let v = (validate_iff c).0 e in ground (arith, v.some_concurrency, v.ordered)
