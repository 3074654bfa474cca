-- ===== src/CircuitBreaker/Transitions.antt =====
-- The state machine of the circuit breaker, and its log of events.
use resilience4py.Prelude.{ℕ, ◌-◌, ◌≡◌, refl, Bool, true, not, arith}
use resilience4py.Prelude.Float.{Float}
use resilience4py.Outcome.{Exception, runtime_error, Outcome, returned, raised, cancelled}
use resilience4py.CircuitBreaker.Config.{should_record_exception}
use resilience4py.CircuitBreaker.Events.{
  CircuitBreakerState, closed, opened, half_open, on_ignored_error_event,
}
use resilience4py.CircuitBreaker.Metrics.{HalfOpenMetrics, record_success, record_failure}
use resilience4py.CircuitBreaker.Breaker.{
  State, closed_state, half_open_state, CircuitBreaker, transition_to_state, state_type, publish,
}
use resilience4py.CircuitBreaker.States.{
  acquire_half_open, acquire_open, acquire_after_open, acquire_permission, check_thresholds,
  on_success, on_error, observe_half_open,
}
use resilience4py.CircuitBreaker.Consistent.{on_success-cases}
use resilience4py.CircuitBreaker.Execute.{begin_call, handle_error, finish_call}

-- The transitions that calls make by themselves.
pub data Edge : CircuitBreakerState → CircuitBreakerState → Type 0 where
  stays : {s : CircuitBreakerState} → Edge s s
  trips : Edge closed opened
  probes : Edge opened half_open
  relapses : Edge half_open opened
  recovers : Edge half_open closed

ruleset edges = (stays, trips, probes, relapses, recovers)

module _ {F : Type 0} where
  -- Asking for permission moves a breaker along at most one edge of the diagram.
  pub begin_call-Edge :
      (now : ℕ) (cb : CircuitBreaker F)
      → Edge (state_type cb.state) (state_type (begin_call now cb).1.state)
  unfolding begin_call acquire_permission acquire_open acquire_after_open acquire_half_open
      transition_to_state
  begin_call-Edge now cb = grind (arith, edges)

module _ {F : Type 0} ⦃fl : Float F⦄ where
  check_thresholds-closed :
      (now : ℕ) (cb : CircuitBreaker F)
      → cb.state ≡ closed_state
      → Edge closed (state_type (check_thresholds now cb).state)
  unfolding check_thresholds transition_to_state
  check_thresholds-closed now cb h = grind (arith, edges)

  observe_half_open-Edge :
      (now d : ℕ) (ok : Bool) (m : HalfOpenMetrics) (used entered : ℕ) (cb : CircuitBreaker F)
      → Edge half_open (state_type (observe_half_open now d ok m used entered cb).state)
  unfolding observe_half_open transition_to_state
  observe_half_open-Edge now d ok m used entered cb = grind (arith, edges)

  module _ (now d : ℕ) (cb : CircuitBreaker F) where
    on_success_in-Edge :
        (s : State) → cb.state ≡ s → Edge (state_type s) (state_type (on_success now d cb).1.state)
    unfolding on_success
    on_success_in-Edge closed_state e = grind (
      arith,
      check_thresholds-closed now (record cb { metrics = record_success now d cb.metrics }) e,
    )
    on_success_in-Edge (half_open_state m used entered) e =
        grind (arith, observe_half_open-Edge now d true m used entered cb)
    on_success_in-Edge _ e = grind (arith, stays)

  module _ (now d : ℕ) (x : Exception) (cb : CircuitBreaker F) where
    on_error_in-Edge :
        (s : State) → cb.state ≡ s → Edge (state_type s) (state_type (on_error now d x cb).1.state)
    unfolding on_error
    on_error_in-Edge closed_state e = grind (
      arith,
      stays,
      check_thresholds-closed now (record cb { metrics = record_failure now d cb.metrics }) e,
    )
    on_error_in-Edge (half_open_state m used entered) e = grind (
      arith,
      observe_half_open-Edge now d (not (should_record_exception cb.config x)) m used entered cb,
    )
    on_error_in-Edge _ e = grind (arith, stays)

  on_error-Edge :
      (now d : ℕ) (x : Exception) (cb : CircuitBreaker F)
      → Edge (state_type cb.state) (state_type (on_error now d x cb).1.state)
  on_error-Edge now d x cb = on_error_in-Edge now d x cb cb.state refl

module _ {F : Type 0} (A : Type 0) ⦃fl : Float F⦄ where
  handle_error-Edge :
      (now d : ℕ) (x : Exception) (cb : CircuitBreaker F)
      → Edge (state_type cb.state) (state_type (handle_error {A = A} now d x cb).1.state)
  unfolding handle_error
  handle_error-Edge now d x cb = grind (
    arith,
    on_error-Edge now d x cb,
    on_error-Edge now d x (publish (on_ignored_error_event x) cb),
  )

  -- A call that ends, however it ends, moves a breaker along at most one edge of the diagram.
  pub finish_call-Edge :
      (start now : ℕ) (o : Outcome A) (cb : CircuitBreaker F)
      → Edge (state_type cb.state) (state_type (finish_call start now o cb).1.state)
  unfolding finish_call
  finish_call-Edge start now (returned a) cb = grind (
    arith,
    on_success-cases now (now - start) cb,
    on_success_in-Edge now (now - start) cb cb.state refl,
    handle_error-Edge now (now - start) runtime_error cb,
  )
  finish_call-Edge start now (raised x) cb = handle_error-Edge now (now - start) x cb
  finish_call-Edge start now cancelled cb = stays

  -- Whatever a call does, to ask for permission moves a breaker along at most one edge of the state diagram, and so
  -- does its end.
  pub call-Edge :
      (start now : ℕ) (o : Outcome A) (cb cb' : CircuitBreaker F)
      → Edge (state_type cb.state) (state_type (begin_call start cb).1.state)
        × Edge (state_type cb'.state) (state_type (finish_call start now o cb').1.state)
  call-Edge start now o cb cb' = (begin_call-Edge start cb, finish_call-Edge start now o cb')
