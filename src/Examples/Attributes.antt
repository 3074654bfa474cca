-- ===== src/Examples/Attributes.antt =====
-- What the view functions of the applications rely on in Python: `object.name` raises an `AttributeError`
-- where neither the class nor its constructor defines the name; statements in sequence; and `except
-- Exception`. The names are those of the classes in ratelimiter/rate_limiter.py,
-- circuitbreaker/circuit_breaker.py, metrics.py and states.py, and retry/retry.py, private ones of the breaker
-- left out. The value of an attribute is not read.
use Prim.Native.String.{String}
use text.Mathlib.Text.{◌==◌}
use resilience4py.Prelude.{ℕ, List, [], ◌∷◌, any_of, Bool, true, false, if◌then◌else◌}
use resilience4py.Outcome.{Exception, Outcome, returned, raised, cancelled, attribute_error}

-- The nanoseconds of a second.
abbrev pub seconds : ℕ
seconds = 1000000000

unfoldable pub read_attribute : List String → String → Outcome (Unit {0})
read_attribute names name = if any_of (name ==◌) names then returned tt else raised attribute_error

-- One statement behind another.
unfoldable pub and_then : {A B : Type 0} → Outcome A → (A → Outcome B) → Outcome B
and_then (returned a) f = f a
and_then (raised e) f = raised e
and_then cancelled f = cancelled

-- `try: ... except Exception as e: ...`
unfoldable pub except_exception : {A : Type 0} → Outcome A → (Exception → Outcome A) → Outcome A
except_exception (returned a) f = returned a
except_exception (raised e) f = f e
except_exception cancelled f = cancelled

-- An end that is no cancellation.
abbrev pub is_end : {A : Type 0} → Outcome A → Bool
is_end (returned a) = true
is_end (raised e) = true
is_end cancelled = false

-- What `jsonify(...), status` answers.
pub record Response (A : Type 0) : Type 0 where
  pub status_code : ℕ
  pub body : A

abbrev pub rate_limiter_names : List String
rate_limiter_names =
    "name" ∷ "config" ∷ "_atomic_limiter" ∷ "_pending_listeners" ∷ "_get_limiter" ∷ "_decorate_sync"
    ∷ "_decorate_async" ∷ "of" ∷ "set_default_config" ∷ "acquire_permission" ∷ "get_metrics"
    ∷ "reset" ∷ "add_event_listener" ∷ "remove_event_listener" ∷ []

abbrev pub retry_names : List String
retry_names =
    "name" ∷ "config" ∷ "_event_handlers" ∷ "_decorate_sync" ∷ "_execute_sync" ∷ "_decorate_async"
    ∷ "_execute_with_retry" ∷ "_emit_retry_event" ∷ "_emit_success_event" ∷ "_emit_error_event"
    ∷ "_emit_ignored_error_event" ∷ "_publish_event" ∷ "on_retry" ∷ "on_success" ∷ "on_error"
    ∷ "on_ignored_error" ∷ []

-- A state object of the circuit breaker.
abbrev pub state_names : List String
state_names =
    "circuit_breaker" ∷ "state_type" ∷ "acquire_permission" ∷ "on_success" ∷ "on_error"
    ∷ "should_transition" ∷ []

abbrev pub circuit_breaker_names : List String
circuit_breaker_names =
    "name" ∷ "config" ∷ "metrics" ∷ "state" ∷ "state_name" ∷ "get_or_create" ∷ "transition_to_state"
    ∷ "reset" ∷ "disable" ∷ "force_open" ∷ "close" ∷ "transition_to_metrics_only" ∷ "on_event"
    ∷ "remove_event_listener" ∷ "publish_failure_rate_exceeded" ∷ "publish_slow_call_rate_exceeded"
    ∷ "decorate" ∷ "get_metrics" ∷ []

-- The sliding window that a circuit breaker's `metrics` is.
abbrev pub window_names : List String
window_names =
    "window_size" ∷ "window_type" ∷ "slow_call_duration_threshold_ms" ∷ "record_success"
    ∷ "record_failure" ∷ "get_snapshot" ∷ "reset" ∷ []
