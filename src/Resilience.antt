-- ===== src/Resilience.antt =====
-- resilience/: the circuit breaker, its registry, and the retry loop.
pub mod Breaker
pub mod Retry
mod Tests
