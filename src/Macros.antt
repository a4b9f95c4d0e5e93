-- ===== src/Macros.antt =====
-- nats-micro-macros/src/service: what the `service` macro makes of an impl block, after parsing.
pub mod Template
pub mod Model
pub mod Checked
pub mod Checks
pub mod Classify
pub mod Dispatch
pub mod Arguments
pub mod Options
pub mod Parse
pub mod Paths
pub mod Validate
pub mod Metadata
pub mod Accepted
pub mod Indexes
pub mod Policy
mod Tests
