-- ===== src/Lib.antt =====
-- A verification of resilience4py: circuit breaker, rate limiter, bulkheads and retry.
--
-- The program decorates functions. Each pattern is an object with its own state and locks that decides
-- before a call whether it goes on, and books afterwards how it ended; the patterns share only the core
-- package, whose composite decorator puts one around the other. What each file models, by its path in the repository:
--
--   Prelude                names of the libraries passed on, tests into Bool, lists, integers, and the
--                          record `Float` of the float operations that the rates use
--   Outcome                how a Python call ends: a value, an Exception, or a cancellation, which is a
--                          BaseException and passes every `except Exception`
--   CircuitBreaker/Config, Events, Metrics
--                          src/resilience4py/circuitbreaker/config.py, events.py, metrics.py
--   CircuitBreaker/Breaker, Execute
--                          circuitbreaker/circuit_breaker.py: the object and its transitions, and
--                          `_execute_async` as `begin_call`, `finish_call` and `execute`
--   CircuitBreaker/Listeners
--                          the listeners of circuitbreaker/circuit_breaker.py and `_publish_event`
--   CircuitBreaker/Instances, Sync
--                          `get_or_create` of circuitbreaker/circuit_breaker.py, and the wrapper of synchronous functions
--   CircuitBreaker/States  circuitbreaker/states.py: the state classes' methods, by their state
--   RateLimiter/Limiter    ratelimiter/atomic_rate_limiter.py, config.py, events.py, and
--                          `acquire_permission` of rate_limiter.py
--   RateLimiter/Registered `RateLimiterRegistry` of ratelimiter/rate_limiter.py
--   RateLimiter/Facade     the limiter and the listeners of `RateLimiter` in ratelimiter/rate_limiter.py,
--                          and the listeners of atomic_rate_limiter.py
--   RateLimiter/Service    the operations of `RateLimiter` through the limiter that it holds, and the wrappers
--   RateLimiter/Listeners  the delivery of events by atomic_rate_limiter.py and the removal of listeners
--   Bulkhead/Permits       what bulkhead/semaphore_bulkhead.py and threadpool_bulkhead.py share, and the
--                          interface of bulkhead.py as the record `Bulkhead` of an operation and its laws
--   Bulkhead/Semaphore, ThreadPool
--                          the two implementations of that interface, and bulkhead/config.py
--   Bulkhead/Execute       `_execute_async` of both, over the interface
--   Bulkhead/Handlers      the event handlers of both
--   Bulkhead/Pool          the calls of bulkhead/threadpool_bulkhead.py and the jobs of its executor
--   Retry/Config, Loop, Sync, Wrapper, Fibonacci, Intervals
--                          retry/config.py; `_execute_with_retry`, `_execute_sync` and `_decorate_sync` of retry/retry.py;
--                          `FibonacciBackoff` and the other intervals of retry/interval_functions.py
--   Retry/Interrupted      `_execute_with_retry` of retry/retry.py with sleeps that are cancelled
--   Retry/Waits            `_execute_with_retry` with an interval function that may raise or answer a negative
--                          number; the other files of Retry have one that answers a natural number
--   Retry/Events           the properties of the events of retry/events.py
--   Retry/Handlers         the constructor and the event handlers of retry/retry.py
--   Registry               core/registry.py
--   Core/Configs           core/config.py: the validation at construction
--   Core/Decorators        core/decorators.py: `CompositeDecorator`, the dispatch and the synchronous wrapper
--   Core/Delivery          the loop over a live list of handlers, which circuitbreaker/circuit_breaker.py, the
--                          bulkheads and retry/retry.py share
--   Core/Retries, Chain    the patterns as the decorators of composites, and retries around these
--   Core/Events, Publisher core/events.py: the consumers and one delivery; the queue, the task and `stop`,
--                          whose interleavings are the relation of Publisher/Steps
--   Core/Metrics, Metrics/Sliding, Metrics/Store
--                          core/metrics.py: `BasicMetrics`, `SlidingWindowMetrics`, `MetricsRegistry`
--   Examples/Attributes    what the applications rely on in Python: attributes of the library's objects, statements
--                          in sequence and `except Exception`
--   Examples/RateLimiterFlask, CircuitBreakerFlask, RetryFlask, BulkheadFlask,
--   BulkheadFlask/Operations, Primes
--                          src/examples/rate_limiter_flask.py, circuit_breaker_flask.py, retry_flask.py and
--                          bulkhead_flask.py, over the components that they use
--   Examples/RetryExample  example_retry.py
--   Tests                  runs on concrete inputs
--
-- The other files hold proofs, and are named for what they prove.
--
-- An object is a record, an operation a function that takes the record and returns it anew. A method of a
-- coroutine is one step between two suspensions: everything under one lock, with listeners that do not
-- suspend. A method that suspends for long is cut there: the circuit breaker and the bulkheads where the
-- wrapped function runs, the bulkhead also where a call waits for a permit, the rate limiter where a call
-- sleeps. Concurrent calls are then lists of such steps in any order, or the relations `Step` and `Reach`.
-- A step takes the clock reading as an argument, one for all the readings that it makes; a difference of
-- two readings of the monotonic clock is never negative; core/metrics.py reads the wall clock, which may
-- fall. Published events are a log in the object, and an event is its class with its own fields, without
-- names and creation times.
--
-- Counts and durations are natural numbers, which are what the validation lets through; Python's int has
-- no bound, so no operation wraps around. Durations and clock readings are whole nanoseconds. The
-- signed answer of a reservation is an integer. Rates are floats, whose operations are the parameter `Float`, with the
-- laws of correct rounding that a theorem needs as `FloatLaws`; Tests/Decimal fills both. The intervals
-- that compute in floats take `Seconds` and `IntervalLaws` in the same way, and the product of a float and a
-- Fibonacci number is a parameter that may overflow. `_fibonacci` takes the number of nested calls that the
-- interpreter still allows, and answers a `RecursionError` where they do not suffice. Three functions run on
-- fuel: the loop of `EventPublisher.stop`, where one turn for each queued event and one more is enough; the
-- loop of `_process_event` over a live list of consumers, where one turn for each of them and one more is
-- enough if the registration stays as it is; and the loop over a live list of handlers, which handlers can
-- make endless, and where one turn for each handler and one more is enough if they add none.
--
-- Not modelled: a second background task of one event publisher; the context variables of a thread
-- pool's jobs; an interval function that raises or answers a negative number where `_execute_sync`
-- calls it; of the constructors in retry/events.py, all checks but that of the wait, which Retry/Waits
-- has; a handler of a live list that does anything to its own object but register and unregister;
-- tags; what Flask does around a view, and the texts that the examples print; that an asyncio
-- semaphore or lock refuses to wait in a second event loop, which the calls of the example
-- applications from several threads may meet: there it is a call that fails while it waits; nor what
-- else threads do to each other inside a step.
pub mod Prelude
pub mod Outcome
pub mod CircuitBreaker
pub mod RateLimiter
pub mod Bulkhead
pub mod Retry
pub mod Registry
pub mod Core
pub mod Examples
pub mod Tests
