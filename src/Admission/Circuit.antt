-- ===== src/Admission/Circuit.antt =====
-- The circuit breaker: when it trips, blocks, lets probes through and recovers.
pub mod Decisions
pub mod Runs
pub mod Reach
