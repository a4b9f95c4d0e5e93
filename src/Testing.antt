-- ===== src/Testing.antt =====
-- nats-micro-testing: the event log, planned faults and the JetStream simulator.
pub mod EventLog
pub mod FaultPlan
pub mod JetStream
mod Tests
