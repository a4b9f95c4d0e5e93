-- ===== src/Runtime/Config.antt =====
-- nats-micro/src/app/config.rs and typed_config.rs: policies, profiles and validation; and
-- `effective_concurrency` of app/typed_runtime.rs. Durations are in nanoseconds.
pub mod Laws
use nats_micro.Prelude.{
  ℕ, Bool, true, false, ltb, leb, ◌==◌, not, Result, ok, err, ensure, ◌>>=◌, ◌>>◌, if◌then◌else◌,
  min,
}
use nats_micro.Prelude.Durations.{from_secs, from_millis}

pub data WorkerFailurePolicy : Type 0 where
  ignore shutdown_app : WorkerFailurePolicy
  restart : (initial_backoff max_backoff max_restarts window : ℕ) → WorkerFailurePolicy

pub data HandlerPanicPolicy : Type 0 where
  log_and_continue fail_worker propagate : HandlerPanicPolicy

pub record TelemetryConfig : Type 0 where
  pub json_logs : Bool
  pub opentelemetry : Bool
  pub verbose_startup : Bool
  pub counters : Bool
  pub gauges : Bool
  pub histograms : Bool
  pub tracing : Bool

pub data Profile : Type 0 where
  development test production maximum_throughput : Profile

pub record AppConfig : Type 0 where
  pub default_concurrency : ℕ
  pub max_concurrency : ℕ
  pub shutdown_drain_timeout : ℕ
  pub startup_timeout : ℕ
  pub worker_failure : WorkerFailurePolicy
  pub handler_panic : HandlerPanicPolicy
  pub generate_missing_request_ids : Bool
  pub telemetry : TelemetryConfig

-- `TelemetryConfig::default()`
abbrev pub no_telemetry : TelemetryConfig
no_telemetry = record {
  json_logs = false;
  opentelemetry = false;
  verbose_startup = false;
  counters = false;
  gauges = false;
  histograms = false;
  tracing = false;
}

unfoldable pub for_profile : Profile → AppConfig
for_profile development = record {
  default_concurrency = 64;
  max_concurrency = 1024;
  shutdown_drain_timeout = from_secs 10;
  startup_timeout = from_secs 15;
  worker_failure = shutdown_app;
  handler_panic = log_and_continue;
  generate_missing_request_ids = true;
  telemetry = record no_telemetry { verbose_startup = true };
}
for_profile test = record {
  default_concurrency = 4;
  max_concurrency = 32;
  shutdown_drain_timeout = from_secs 2;
  startup_timeout = from_secs 5;
  worker_failure = shutdown_app;
  handler_panic = fail_worker;
  generate_missing_request_ids = false;
  telemetry = no_telemetry;
}
for_profile production = record {
  default_concurrency = 256;
  max_concurrency = 4096;
  shutdown_drain_timeout = from_secs 30;
  startup_timeout = from_secs 30;
  worker_failure = restart (from_millis 100) (from_secs 5) 8 (from_secs 60);
  handler_panic = log_and_continue;
  generate_missing_request_ids = false;
  telemetry = record {
    json_logs = true;
    opentelemetry = true;
    verbose_startup = false;
    counters = true;
    gauges = true;
    histograms = true;
    tracing = true;
  };
}
for_profile maximum_throughput = record {
  default_concurrency = 512;
  max_concurrency = 8192;
  shutdown_drain_timeout = from_secs 15;
  startup_timeout = from_secs 30;
  worker_failure = shutdown_app;
  handler_panic = propagate;
  generate_missing_request_ids = false;
  telemetry = no_telemetry;
}

-- `*self = Self::for_profile(profile)`
unfoldable pub apply_profile : AppConfig → Profile → AppConfig
unfolding for_profile
apply_profile config profile = for_profile profile

-- The messages of `validate`.
pub data ConfigError : Type 0 where
  no_default_concurrency max_below_default no_startup_timeout no_drain_timeout : ConfigError
  no_initial_backoff max_backoff_below_initial no_restarts no_window : ConfigError

validate_failure_policy : WorkerFailurePolicy → Result ConfigError (Unit {0})
validate_failure_policy ignore = ok tt
validate_failure_policy shutdown_app = ok tt
validate_failure_policy (restart initial_backoff max_backoff max_restarts window) = do
  ensure (not (initial_backoff == 0)) no_initial_backoff
  ensure (leb initial_backoff max_backoff) max_backoff_below_initial
  ensure (ltb 0 max_restarts) no_restarts
  ensure (not (window == 0)) no_window
  ok tt

unfoldable pub validate : AppConfig → Result ConfigError (Unit {0})
unfolding validate_failure_policy
validate config = do
  ensure (ltb 0 config.default_concurrency) no_default_concurrency
  ensure (leb config.default_concurrency config.max_concurrency) max_below_default
  ensure (not (config.startup_timeout == 0)) no_startup_timeout
  ensure (not (config.shutdown_drain_timeout == 0)) no_drain_timeout
  validate_failure_policy config.worker_failure

unfoldable pub effective_concurrency : AppConfig → ℕ → ℕ
effective_concurrency config declared =
    let requested = if declared == 0 then config.default_concurrency else declared in
    min requested config.max_concurrency
