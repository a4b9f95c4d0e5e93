-- ===== src/Errors.antt =====
-- nats-micro-shared/src/lib.rs and nats-micro/src/error.rs: error codes and error values.
mod Tables
pub mod Framework
pub mod Transport
pub mod Response
