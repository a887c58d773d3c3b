-- ===== src/Metrics.antt =====
-- internal/metrics/gateway: decorators that count what passes the core's ports.
pub mod Keyed
pub mod Recorder
pub mod Tally
pub mod Sums
pub mod Reported
pub mod Attempts
pub mod Attempted
