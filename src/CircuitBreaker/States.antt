-- ===== src/CircuitBreaker/States.antt =====
-- circuitbreaker/states.py: what each state does with a request for permission, a success and an
-- error. `raise_misuse` is the `RuntimeError` of the states that admit no call.
use resilience4py.Prelude.{ℕ, ◌+◌, ◌-◌, Bool, true, false, not, ◌&&◌, if◌then◌else◌, ltb, leb}
use resilience4py.Prelude.Float.{Float}
use resilience4py.Outcome.{Exception, runtime_error, Outcome, returned, raised}
use resilience4py.CircuitBreaker.Config.{should_record_exception}
use resilience4py.CircuitBreaker.Events.{opened, half_open, closed}
use resilience4py.CircuitBreaker.Metrics.{
  Snapshot, HalfOpenMetrics, record_success, record_failure, get_snapshot, half_open_snapshot,
  snapshot_of, record_half_open, is_complete,
}
use resilience4py.CircuitBreaker.Breaker.{
  State, closed_state, open_state, half_open_state, disabled_state, forced_open_state,
  metrics_only_state, CircuitBreaker, transition_to_state, publish_failure_rate_exceeded,
  publish_slow_call_rate_exceeded,
}

-- What a handler returns: it ends with no value or by an exception, and leaves the breaker changed.
abbrev pub Reply : Type 0 → Type 0
Reply F = Outcome (Unit {0}) × CircuitBreaker F

module _ {F : Type 0} where
  -- `HalfOpenState.acquire_permission`: the wait limit first, then the permits.
  unfoldable pub acquire_half_open :
      ℕ → HalfOpenMetrics → ℕ → ℕ → CircuitBreaker F → Bool × CircuitBreaker F
  acquire_half_open now m used entered cb =
      if ltb 0 cb.config.max_wait_duration_in_half_open
        && leb cb.config.max_wait_duration_in_half_open (now - entered)
      then (false, transition_to_state now opened cb)
      else if ltb used cb.config.permitted_calls_in_half_open
      then (true, record cb { state = half_open_state m (used + 1) entered })
      else (false, cb)

  -- The call of `acquire_permission` on the state that a transition out of OPEN has installed.
  unfoldable pub acquire_after_open : ℕ → State → CircuitBreaker F → Bool × CircuitBreaker F
  acquire_after_open now closed_state cb = (true, cb)
  acquire_after_open now (open_state opened_at) cb = (false, cb)
  acquire_after_open now (half_open_state m used entered) cb =
      acquire_half_open now m used entered cb
  acquire_after_open now disabled_state cb = (true, cb)
  acquire_after_open now forced_open_state cb = (false, cb)
  acquire_after_open now metrics_only_state cb = (true, cb)

  -- `OpenState.acquire_permission`.
  unfoldable pub acquire_open : ℕ → ℕ → CircuitBreaker F → Bool × CircuitBreaker F
  acquire_open now opened_at cb =
      if cb.config.automatic_transition_from_open_to_half_open
        && leb cb.config.wait_duration_in_open_state (now - opened_at)
      then (let cb' = transition_to_state now half_open cb in acquire_after_open now cb'.state cb')
      else (false, cb)

  acquire_in : ℕ → State → CircuitBreaker F → Bool × CircuitBreaker F
  acquire_in now closed_state cb = (true, cb)
  acquire_in now (open_state opened_at) cb = acquire_open now opened_at cb
  acquire_in now (half_open_state m used entered) cb = acquire_half_open now m used entered cb
  acquire_in now disabled_state cb = (true, cb)
  acquire_in now forced_open_state cb = (false, cb)
  acquire_in now metrics_only_state cb = (true, cb)

  -- `self._state.acquire_permission()`
  unfoldable pub acquire_permission : ℕ → CircuitBreaker F → Bool × CircuitBreaker F
  unfolding acquire_in
  acquire_permission now cb = acquire_in now cb.state cb

module _ {F : Type 0} ⦃fl : Float F⦄ where
  -- The tests of `_check_thresholds` on one snapshot.
  unfoldable pub apply_thresholds : ℕ → Snapshot F → CircuitBreaker F → CircuitBreaker F
  unfolding publish_failure_rate_exceeded publish_slow_call_rate_exceeded
  apply_thresholds now s cb =
      if ltb s.total_calls cb.config.minimum_number_of_calls
      then cb
      else if fl.le_float cb.config.failure_rate_threshold s.failure_rate
      then publish_failure_rate_exceeded s.failure_rate (transition_to_state now opened cb)
      else if fl.le_float cb.config.slow_call_rate_threshold s.slow_call_rate
      then publish_slow_call_rate_exceeded s.slow_call_rate (transition_to_state now opened cb)
      else cb

  -- `ClosedState._check_thresholds`.
  unfoldable pub check_thresholds : ℕ → CircuitBreaker F → CircuitBreaker F
  unfolding apply_thresholds get_snapshot
  check_thresholds now cb =
      let (s, m) = get_snapshot now cb.metrics in apply_thresholds now s (record cb { metrics = m })

  -- The tests of `_check_transition` on the snapshot of a complete half-open state.
  unfoldable pub decide_half_open : ℕ → Snapshot F → CircuitBreaker F → CircuitBreaker F
  decide_half_open now s cb =
      if fl.le_float cb.config.failure_rate_threshold s.failure_rate
      then transition_to_state now opened cb
      else if fl.le_float cb.config.slow_call_rate_threshold s.slow_call_rate
      then transition_to_state now opened cb
      else transition_to_state now closed cb

  -- `HalfOpenState._check_transition`.
  unfoldable pub check_transition : ℕ → HalfOpenMetrics → CircuitBreaker F → CircuitBreaker F
  unfolding is_complete decide_half_open snapshot_of
  check_transition now m cb =
      if is_complete m then decide_half_open now (half_open_snapshot m) cb else cb

  -- The half-open state records an outcome in its own metrics and looks whether it is complete.
  unfoldable pub observe_half_open :
      ℕ → ℕ → Bool → HalfOpenMetrics → ℕ → ℕ → CircuitBreaker F → CircuitBreaker F
  unfolding check_transition record_half_open
  observe_half_open now d success m used entered cb =
      let m' = record_half_open now d success m in
      check_transition now m' (record cb { state = half_open_state m' used entered })

  on_success_in : ℕ → ℕ → State → CircuitBreaker F → Reply F
  on_success_in now d closed_state cb =
      (returned tt, check_thresholds now (record cb { metrics = record_success now d cb.metrics }))
  on_success_in now d (open_state opened_at) cb = (raised runtime_error, cb)
  on_success_in now d (half_open_state m used entered) cb =
      (returned tt, observe_half_open now d true m used entered cb)
  on_success_in now d disabled_state cb = (returned tt, cb)
  on_success_in now d forced_open_state cb = (raised runtime_error, cb)
  on_success_in now d metrics_only_state cb =
      (returned tt, record cb { metrics = record_success now d cb.metrics })

  -- `self._state.on_success(duration_ms)`
  unfoldable pub on_success : ℕ → ℕ → CircuitBreaker F → Reply F
  unfolding on_success_in
  on_success now d cb = on_success_in now d cb.state cb

  on_error_in : ℕ → ℕ → Bool → State → CircuitBreaker F → Reply F
  on_error_in now d true closed_state cb =
      (returned tt, check_thresholds now (record cb { metrics = record_failure now d cb.metrics }))
  on_error_in now d false closed_state cb =
      (returned tt, record cb { metrics = record_success now d cb.metrics })
  on_error_in now d counts (open_state opened_at) cb = (raised runtime_error, cb)
  on_error_in now d counts (half_open_state m used entered) cb =
      (returned tt, observe_half_open now d (not counts) m used entered cb)
  on_error_in now d counts disabled_state cb = (returned tt, cb)
  on_error_in now d counts forced_open_state cb = (raised runtime_error, cb)
  on_error_in now d true metrics_only_state cb =
      (returned tt, record cb { metrics = record_failure now d cb.metrics })
  on_error_in now d false metrics_only_state cb =
      (returned tt, record cb { metrics = record_success now d cb.metrics })

  -- `self._state.on_error(duration_ms, e)`
  unfoldable pub on_error : ℕ → ℕ → Exception → CircuitBreaker F → Reply F
  unfolding on_error_in
  on_error now d e cb = on_error_in now d (should_record_exception cb.config e) cb.state cb
