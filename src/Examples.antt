-- ===== src/Examples.antt =====
-- The applications under examples/, each over the components that it uses. Flask is what calls the view
-- functions: what they read from a request is an argument, and what they pass to `jsonify` their answer.
pub mod Attributes
pub mod RateLimiterFlask
pub mod RateLimited
pub mod Primes
pub mod Sieve
pub mod BulkheadFlask
pub mod Isolation
pub mod LoadTest
pub mod RetryFlask
pub mod Retried
pub mod CircuitBreakerFlask
pub mod Broken
pub mod RetryExample
pub mod Uncaught
