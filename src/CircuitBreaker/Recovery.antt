-- ===== src/CircuitBreaker/Recovery.antt =====
-- What the sliding window is worth after a recovery: it is kept across OPEN and HALF_OPEN
-- (circuitbreaker/states.py, circuitbreaker/circuit_breaker.py).
use resilience4py.Prelude.{ℕ, ◌-◌, ◌≡◌, refl, ◌≢◌, true, arith}
use resilience4py.Prelude.Float.{Float}
use resilience4py.Outcome.{Outcome, returned, raised, cancelled}
use resilience4py.CircuitBreaker.Events.{closed, half_open, metrics_only}
use resilience4py.CircuitBreaker.Metrics.{get_snapshot, record_success}
use resilience4py.CircuitBreaker.Breaker.{
  closed_state, open_state, CircuitBreaker, transition_to_state, state_type,
}
use resilience4py.CircuitBreaker.States.{
  acquire_half_open, acquire_open, acquire_after_open, acquire_permission, observe_half_open,
  on_success, on_error,
}
use resilience4py.CircuitBreaker.Execute.{begin_call, handle_error, finish_call}
use resilience4py.CircuitBreaker.Thresholds.{exceeds, check_thresholds-opens}

module _ {F : Type 0} where
  -- Neither a request for permission nor a transition touches the sliding window.
  pub begin_call_keeps_metrics :
      (now : ℕ) (cb : CircuitBreaker F) → (begin_call now cb).1.metrics ≡ cb.metrics
  unfolding begin_call acquire_permission acquire_open acquire_after_open acquire_half_open
      transition_to_state
  begin_call_keeps_metrics now cb = ground arith

module _ {F : Type 0} {A : Type 0} ⦃fl : Float F⦄ where
  -- A call that ends while the breaker is not closed (nor in METRICS_ONLY) leaves the sliding window
  -- as it was, also when its end is what closes the breaker again.
  pub finish_call_keeps_metrics :
      (start now : ℕ) (o : Outcome A) (cb : CircuitBreaker F)
      → state_type cb.state ≢ closed
      → state_type cb.state ≢ metrics_only
      → (finish_call start now o cb).1.metrics ≡ cb.metrics
  unfolding finish_call handle_error on_success on_error observe_half_open transition_to_state
  finish_call_keeps_metrics start now (returned a) cb nc nm = ground arith
  finish_call_keeps_metrics start now (raised x) cb nc nm = ground arith
  finish_call_keeps_metrics start now cancelled cb nc nm = refl

  -- A closed breaker whose window is over a threshold opens at the end of the next call, although that
  -- call succeeds.
  pub finish_call_reopens :
      (start now : ℕ) (a : A) (cb : CircuitBreaker F)
      → cb.state ≡ closed_state
      → exceeds cb.config (get_snapshot now (record_success now (now - start) cb.metrics)).0 ≡ true
      → ((finish_call start now (returned a) cb).1.state ≡ open_state now)
        × ((finish_call start now (returned a) cb).0 ≡ returned a)
  unfolding finish_call on_success
  finish_call_reopens start now a cb e x =
      let seen : CircuitBreaker F = record cb {
        metrics = record_success now (now - start) cb.metrics;
      } in
      let opens = (check_thresholds-opens now seen e).0 in ground (arith, opens, x)

  finish_call_keeps_config :
      (start now : ℕ) (o : Outcome A) (cb : CircuitBreaker F)
      → state_type cb.state ≢ closed
      → (finish_call start now o cb).1.config ≡ cb.config
  unfolding finish_call handle_error on_success on_error observe_half_open transition_to_state
  finish_call_keeps_config start now (returned a) cb nc = ground arith
  finish_call_keeps_config start now (raised x) cb nc = ground arith
  finish_call_keeps_config start now cancelled cb nc = refl

  -- A breaker that a half-open trial has just closed opens again at the end of the next call, although
  -- both that call and the trial calls were good enough, whenever the window from before the outage is
  -- still over a threshold with the one success added to it.
  pub recovery_reopens :
      (s₁ t₁ : ℕ) (o : Outcome A) (s₂ t₂ : ℕ) (a : A) (cb : CircuitBreaker F)
      → state_type cb.state ≡ half_open
      → (finish_call s₁ t₁ o cb).1.state ≡ closed_state
      → exceeds cb.config (get_snapshot t₂ (record_success t₂ (t₂ - s₂) cb.metrics)).0 ≡ true
      → (finish_call s₂ t₂ (returned a) (finish_call s₁ t₁ o cb).1).1.state ≡ open_state t₂
  recovery_reopens s₁ t₁ o s₂ t₂ a cb h c x =
      let n : state_type cb.state ≢ closed = ground arith in
      let m : state_type cb.state ≢ metrics_only = ground arith in
      let after = (finish_call s₁ t₁ o cb).1 in
      let kept = finish_call_keeps_metrics s₁ t₁ o cb n m in
      let same = finish_call_keeps_config s₁ t₁ o cb n in
      (finish_call_reopens s₂ t₂ a after c (rw (kept, same) x)).0
