-- ===== src/CircuitBreaker/Breaker.antt =====
-- circuitbreaker/circuit_breaker.py: the object, its transitions and its manual operations, and the
-- fields of the state objects of circuitbreaker/states.py. A method takes one clock reading `now`
-- for the readings that it makes, and `published` is the log of the calls of `_publish_event`.
use resilience4py.Prelude.{ℕ, List, [], ◌∷◌, ◌++◌, if◌then◌else◌}
use resilience4py.Prelude.Float.{Float}
use resilience4py.CircuitBreaker.Config.{CircuitBreakerConfig}
use resilience4py.CircuitBreaker.Events.{
  CircuitBreakerState, closed, opened, half_open, disabled, forced_open, metrics_only, same_state,
  CircuitBreakerEvent, on_state_transition_event, on_reset_event, on_slow_call_rate_exceeded_event,
  on_failure_rate_exceeded_event,
}
use resilience4py.CircuitBreaker.Metrics.{
  Snapshot, SlidingWindowMetrics, HalfOpenMetrics, new_metrics, new_half_open_metrics,
  reset_metrics, get_snapshot,
}

-- `half_open_state metrics permits_used entered_at`, `open_state opened_at`.
pub data State : Type 0 where
  closed_state : State
  open_state : ℕ → State
  half_open_state : HalfOpenMetrics → ℕ → ℕ → State
  disabled_state : State
  forced_open_state : State
  metrics_only_state : State

abbrev pub state_type : State → CircuitBreakerState
state_type closed_state = closed
state_type (open_state _) = opened
state_type (half_open_state _ _ _) = half_open
state_type disabled_state = disabled
state_type forced_open_state = forced_open
state_type metrics_only_state = metrics_only

pub record CircuitBreaker (F : Type 0) : Type 0 where
  pub config : CircuitBreakerConfig F
  pub metrics : SlidingWindowMetrics
  pub state : State
  pub published : List (CircuitBreakerEvent F)

module _ {F : Type 0} where
  unfoldable pub new_breaker : CircuitBreakerConfig F → CircuitBreaker F
  unfolding new_metrics
  new_breaker c = record {
    config = c;
    metrics =
        new_metrics c.sliding_window_size c.sliding_window_type c.slow_call_duration_threshold;
    state = closed_state;
    published = [];
  }

  abbrev pub publish : CircuitBreakerEvent F → CircuitBreaker F → CircuitBreaker F
  publish e cb = record cb { published = cb.published ++ e ∷ [] }

  -- The constructors of the state classes.
  unfoldable pub new_state : ℕ → CircuitBreakerState → CircuitBreakerConfig F → State
  unfolding new_half_open_metrics
  new_state now closed c = closed_state
  new_state now opened c = open_state now
  new_state now half_open c =
      half_open_state
        (new_half_open_metrics c.permitted_calls_in_half_open c.slow_call_duration_threshold) 0 now
  new_state now disabled c = disabled_state
  new_state now forced_open c = forced_open_state
  new_state now metrics_only c = metrics_only_state

  unfoldable pub transition_to_state : ℕ → CircuitBreakerState → CircuitBreaker F → CircuitBreaker F
  unfolding same_state new_state
  transition_to_state now new cb =
      if same_state (state_type cb.state) new
      then cb
      else publish (on_state_transition_event (state_type cb.state) new)
          (record cb { state = new_state now new cb.config })

  unfoldable pub reset : CircuitBreaker F → CircuitBreaker F
  unfolding reset_metrics
  reset cb =
      publish on_reset_event
        (record cb { metrics = reset_metrics cb.metrics; state = closed_state })

  unfoldable pub disable : ℕ → CircuitBreaker F → CircuitBreaker F
  unfolding transition_to_state
  disable now = transition_to_state now disabled

  unfoldable pub force_open : ℕ → CircuitBreaker F → CircuitBreaker F
  unfolding transition_to_state
  force_open now = transition_to_state now forced_open

  unfoldable pub close : ℕ → CircuitBreaker F → CircuitBreaker F
  unfolding transition_to_state
  close now = transition_to_state now closed

  unfoldable pub transition_to_metrics_only : ℕ → CircuitBreaker F → CircuitBreaker F
  unfolding transition_to_state
  transition_to_metrics_only now = transition_to_state now metrics_only

  unfoldable pub publish_failure_rate_exceeded : F → CircuitBreaker F → CircuitBreaker F
  publish_failure_rate_exceeded rate = publish (on_failure_rate_exceeded_event rate)

  unfoldable pub publish_slow_call_rate_exceeded : F → CircuitBreaker F → CircuitBreaker F
  publish_slow_call_rate_exceeded rate = publish (on_slow_call_rate_exceeded_event rate)

  -- `get_metrics`: the snapshot beside the state's name, and the breaker without what has expired.
  unfoldable pub get_metrics :
      ⦃fl : Float F⦄ → ℕ → CircuitBreaker F → CircuitBreakerState × Snapshot F × CircuitBreaker F
  unfolding get_snapshot
  get_metrics now cb =
      let (snapshot, m) = get_snapshot now cb.metrics in
      (state_type cb.state, snapshot, record cb { metrics = m })
