-- ===== src/CircuitBreaker.antt =====
-- The circuit breaker (circuitbreaker/).
pub mod Config
pub mod Events
pub mod Metrics
pub mod Breaker
pub mod States
pub mod Execute
pub mod Sync
pub mod Instances
pub mod Thresholds
pub mod Recovery
pub mod Healing
pub mod HalfOpen
pub mod Opened
pub mod Followed
pub mod Log
pub mod Transitions
pub mod Consistent
pub mod Invariant
pub mod Listeners
