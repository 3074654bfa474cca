-- ===== src/CircuitBreaker/Events.antt =====
-- circuitbreaker/events.py: the states' names and the events. An event is its class with the
-- fields that its `create` fills; the breaker's name and the creation time are left out.
use resilience4py.Prelude.{ℕ, Bool, true, false}
use resilience4py.Outcome.{Exception}

pub data CircuitBreakerState : Type 0 where
  closed opened half_open disabled forced_open metrics_only : CircuitBreakerState

-- `old_state == new_state`
unfoldable pub same_state : CircuitBreakerState → CircuitBreakerState → Bool
same_state closed closed = true
same_state opened opened = true
same_state half_open half_open = true
same_state disabled disabled = true
same_state forced_open forced_open = true
same_state metrics_only metrics_only = true
same_state _ _ = false

pub data CircuitBreakerEvent (F : Type 0) : Type 0 where
  on_success_event : ℕ → CircuitBreakerEvent F
  on_error_event : ℕ → Exception → CircuitBreakerEvent F
  on_call_not_permitted_event : CircuitBreakerEvent F
  on_state_transition_event : CircuitBreakerState → CircuitBreakerState → CircuitBreakerEvent F
  on_reset_event : CircuitBreakerEvent F
  on_ignored_error_event : Exception → CircuitBreakerEvent F
  on_slow_call_rate_exceeded_event : F → CircuitBreakerEvent F
  on_failure_rate_exceeded_event : F → CircuitBreakerEvent F
