-- ===== src/CircuitBreaker/Execute.antt =====
-- `CircuitBreaker._execute_async` (circuitbreaker/circuit_breaker.py). The wrapped function runs at
-- the one place where other calls run too, so the method is cut there: `begin_call` before it and
-- `finish_call` after it, each without a suspension.
use resilience4py.Prelude.{ℕ, ◌-◌, Bool, true, false, if◌then◌else◌}
use resilience4py.Prelude.Float.{Float}
use resilience4py.Outcome.{Exception, call_not_permitted, Outcome, returned, raised, cancelled}
use resilience4py.CircuitBreaker.Config.{should_record_exception}
use resilience4py.CircuitBreaker.Events.{
  on_success_event, on_error_event, on_call_not_permitted_event, on_ignored_error_event,
}
use resilience4py.CircuitBreaker.Breaker.{CircuitBreaker, publish}
use resilience4py.CircuitBreaker.States.{acquire_permission, on_success, on_error}

module _ {F : Type 0} where
  -- Whether the call may go on, and the breaker; a refusal is published.
  unfoldable pub begin_call : ℕ → CircuitBreaker F → Bool × CircuitBreaker F
  begin_call now cb =
      let (permitted, cb') = acquire_permission now cb in
      if permitted then (true, cb') else (false, publish on_call_not_permitted_event cb')

module _ {F : Type 0} {A : Type 0} ⦃fl : Float F⦄ where
  -- After `on_error`: its own exception replaces the one that is handled.
  after_error : ℕ → Exception → Outcome (Unit {0}) × CircuitBreaker F → Outcome A × CircuitBreaker F
  after_error d e (returned _, cb) = (raised e, publish (on_error_event d e) cb)
  after_error d e (raised e', cb) = (raised e', cb)
  after_error d e (cancelled, cb) = (cancelled, cb)

  -- The `except Exception as e` block.
  unfoldable pub handle_error : ℕ → ℕ → Exception → CircuitBreaker F → Outcome A × CircuitBreaker F
  unfolding after_error
  handle_error now d e cb =
      let cb' =
        if should_record_exception cb.config e then cb else publish (on_ignored_error_event e) cb in
      after_error d e (on_error now d e cb')

  -- After `on_success`: an exception of it is caught by the same `except` block.
  after_success : ℕ → ℕ → A → Outcome (Unit {0}) × CircuitBreaker F → Outcome A × CircuitBreaker F
  after_success now d a (returned _, cb) = (returned a, publish (on_success_event d) cb)
  after_success now d a (raised e, cb) = handle_error now d e cb
  after_success now d a (cancelled, cb) = (cancelled, cb)

  -- What the wrapped function did, from its start at `start` to `now`.
  unfoldable pub finish_call : ℕ → ℕ → Outcome A → CircuitBreaker F → Outcome A × CircuitBreaker F
  unfolding after_success
  finish_call start now (returned a) cb =
      after_success now (now - start) a (on_success now (now - start) cb)
  finish_call start now (raised e) cb = handle_error now (now - start) e cb
  finish_call start now cancelled cb = (cancelled, cb)

  -- One call with nothing in between: it starts at `start` and the function ends at `now`.
  unfoldable pub execute : ℕ → ℕ → Outcome A → CircuitBreaker F → Outcome A × CircuitBreaker F
  execute start now outcome cb =
      let (permitted, cb') = begin_call start cb in
      if permitted then finish_call start now outcome cb' else (raised call_not_permitted, cb')
