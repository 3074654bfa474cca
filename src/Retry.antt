-- ===== src/Retry.antt =====
-- The retry pattern (retry/).
pub mod Config
pub mod Loop
pub mod Events
pub mod Emitted
pub mod Interrupted
pub mod Waits
pub mod Attempts
pub mod Trace
pub mod Sync
pub mod Fibonacci
pub mod Intervals
pub mod Wrapper
pub mod Handlers
