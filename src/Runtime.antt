-- ===== src/Runtime.antt =====
-- nats-micro/src/app and nats-micro/src/runtime: configuration, workers and their supervision.
pub mod Config
pub mod Restarts
pub mod Supervisor
pub mod Application
pub mod Delivery
pub mod Worker
mod Tests
