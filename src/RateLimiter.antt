-- ===== src/RateLimiter.antt =====
-- The rate limiter (ratelimiter/).
pub mod Limiter
pub mod Reserve
pub mod Cycles
pub mod Window
pub mod Waiters
pub mod Registered
pub mod Facade
pub mod Service
pub mod Sharing
pub mod Listeners
