-- ===== src/CircuitBreaker/Thresholds.antt =====
-- When a closed breaker opens: `ClosedState._check_thresholds` (circuitbreaker/states.py).
use resilience4py.Prelude.{ℕ, ◌≡◌, Bool, ◌&&◌, ◌||◌, arith, leb, if◌then◌else◌}
use resilience4py.Prelude.Float.{Float}
use resilience4py.CircuitBreaker.Config.{CircuitBreakerConfig}
use resilience4py.CircuitBreaker.Metrics.{Snapshot, get_snapshot}
use resilience4py.CircuitBreaker.Breaker.{
  transition_to_state, closed_state, open_state, CircuitBreaker,
}
use resilience4py.CircuitBreaker.States.{check_thresholds}

module _ {F : Type 0} ⦃fl : Float F⦄ where
  -- The rule as the documentation of the configuration states it.
  abbrev pub exceeds : CircuitBreakerConfig F → Snapshot F → Bool
  exceeds c s =
      leb c.minimum_number_of_calls s.total_calls
      && (fl.le_float c.failure_rate_threshold s.failure_rate
          || fl.le_float c.slow_call_rate_threshold s.slow_call_rate)

  -- The check of a closed breaker opens it, at the clock of the check, exactly when enough calls are
  -- in the window and one of the two rates has reached its threshold, and else leaves it closed; it
  -- keeps the configuration, and leaves the window as taking the snapshot does.
  pub check_thresholds-opens :
      (now : ℕ) (cb : CircuitBreaker F)
      → cb.state ≡ closed_state
      → let (s, m) = get_snapshot {F = F} now cb.metrics in
        let cb' = check_thresholds now cb in
        (cb'.state ≡ (if exceeds cb.config s then open_state now else closed_state))
        × (cb'.metrics ≡ m)
        × (cb'.config ≡ cb.config)
  unfolding check_thresholds transition_to_state
  check_thresholds-opens now cb h =
      let (s, m) = get_snapshot {F = F} now cb.metrics in (ground arith, ground arith, ground arith)
