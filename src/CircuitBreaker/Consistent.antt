-- ===== src/CircuitBreaker/Consistent.antt =====
-- What makes a circuit breaker consistent, and that each operation keeps it so.
use resilience4py.Prelude.{
  ℕ, ◌-◌, ◌≤◌, ◌<◌, ◌≡◌, refl, ◌⊎◌, Bool, true, not, List, [], ◌∷◌, ◌++◌, arith, length,
  length-append, length-last_of,
}
use resilience4py.Prelude.Float.{Float}
use resilience4py.Outcome.{Exception, runtime_error, Outcome, returned, raised, cancelled}
use resilience4py.CircuitBreaker.Config.{CircuitBreakerConfig, should_record_exception, time_based}
use resilience4py.CircuitBreaker.Events.{CircuitBreakerState, closed, half_open}
use resilience4py.CircuitBreaker.Metrics.{
  CallOutcome, SlidingWindowMetrics, HalfOpenMetrics, record_success, record_failure, add_call,
  outcome_at, cleanup_old_entries, pop_expired,
}
use resilience4py.CircuitBreaker.Breaker.{
  State, closed_state, open_state, half_open_state, disabled_state, forced_open_state,
  metrics_only_state, CircuitBreaker, new_state, transition_to_state,
}
use resilience4py.CircuitBreaker.States.{
  acquire_half_open, acquire_open, acquire_after_open, acquire_permission, check_thresholds,
  on_success, on_error, observe_half_open,
}
use resilience4py.CircuitBreaker.Execute.{begin_call, handle_error, finish_call}

-- The window has the configured shape, and a count-based one holds at most `sliding_window_size`.
pub record WindowFits {F : Type 0} (c : CircuitBreakerConfig F) (m : SlidingWindowMetrics)
    : Type 0 where
  pub size_kept : m.window_size ≡ c.sliding_window_size
  pub type_kept : m.window_type ≡ c.sliding_window_type
  pub bounded : (c.sliding_window_type ≡ time_based) ⊎ (length m.calls ≤ c.sliding_window_size)

-- A half-open state has handed out at most its permits, and still waits for an outcome.
abbrev pub StateFits : {F : Type 0} → CircuitBreakerConfig F → State → Type 0
StateFits c closed_state = Unit
StateFits c (open_state _) = Unit
StateFits c (half_open_state m used _) =
    (m.permitted_calls ≡ c.permitted_calls_in_half_open)
    × (used ≤ c.permitted_calls_in_half_open)
    × (length m.half_open_calls < c.permitted_calls_in_half_open)
StateFits c disabled_state = Unit
StateFits c forced_open_state = Unit
StateFits c metrics_only_state = Unit

pub record IsConsistent {F : Type 0} (cb : CircuitBreaker F) : Type 0 where
  pub config_valid : 0 < cb.config.permitted_calls_in_half_open
  pub window_fits : WindowFits cb.config cb.metrics
  pub state_fits : StateFits cb.config cb.state

length-pop_expired : (start : ℕ) (cs : List CallOutcome) → length (pop_expired start cs) ≤ length cs
unfolding pop_expired
length-pop_expired start [] = omega arith
length-pop_expired start (c ∷ cs) = ground (arith, length-pop_expired start cs)

module _ {F : Type 0} where
  pub cleanup-WindowFits :
      (now : ℕ) (c : CircuitBreakerConfig F) (m : SlidingWindowMetrics)
      → WindowFits c m
      → WindowFits c (cleanup_old_entries now m)
  unfolding cleanup_old_entries
  cleanup-WindowFits now c m h = ground arith

  add_call-WindowFits :
      (now : ℕ) (o : CallOutcome) (c : CircuitBreakerConfig F) (m : SlidingWindowMetrics)
      → WindowFits c m
      → WindowFits c (add_call now o m)
  unfolding add_call
  add_call-WindowFits now o c m h =
      ground
        (arith, length-last_of m.window_size (m.calls ++ o ∷ []), length-append m.calls (o ∷ []))

  new_state-StateFits :
      (now : ℕ) (s : CircuitBreakerState) (c : CircuitBreakerConfig F)
      → 0 < c.permitted_calls_in_half_open
      → StateFits c (new_state now s c)
  unfolding new_state
  new_state-StateFits now closed c h = tt
  new_state-StateFits now half_open c h = omega arith
  new_state-StateFits now _ c h = tt

  pub transition-IsConsistent :
      (now : ℕ) (s : CircuitBreakerState) (cb : CircuitBreaker F)
      → IsConsistent cb
      → IsConsistent (transition_to_state now s cb)
  unfolding transition_to_state
  transition-IsConsistent now s cb h =
      ground (arith, new_state-StateFits now s cb.config h.config_valid)

  pub begin_call-IsConsistent :
      (now : ℕ) (cb : CircuitBreaker F) → IsConsistent cb → IsConsistent (begin_call now cb).1
  unfolding begin_call acquire_permission acquire_open acquire_after_open acquire_half_open
      transition_to_state
  begin_call-IsConsistent now cb h = ground arith

module _ {F : Type 0} ⦃fl : Float F⦄ where
  check_thresholds-IsConsistent :
      (now : ℕ) (cb : CircuitBreaker F) → IsConsistent cb → IsConsistent (check_thresholds now cb)
  unfolding check_thresholds transition_to_state
  check_thresholds-IsConsistent now cb h =
      ground (arith, cleanup-WindowFits now cb.config cb.metrics h.window_fits)

  -- Recording below the bound and deciding at the bound leaves no complete half-open state behind.
  observe-IsConsistent :
      (now d : ℕ) (ok : Bool) (m : HalfOpenMetrics) (used entered : ℕ) (cb : CircuitBreaker F)
      → 0 < cb.config.permitted_calls_in_half_open
      → WindowFits cb.config cb.metrics
      → StateFits cb.config (half_open_state m used entered)
      → IsConsistent (observe_half_open now d ok m used entered cb)
  unfolding observe_half_open transition_to_state
  observe-IsConsistent now d ok m used entered cb pos w s =
      ground (arith, length-append m.half_open_calls (outcome_at now d ok m.slow_threshold_ms ∷ []))

  record_success-WindowFits :
      (now d : ℕ) (c : CircuitBreakerConfig F) (m : SlidingWindowMetrics)
      → WindowFits c m
      → WindowFits c (record_success now d m)
  unfolding record_success
  record_success-WindowFits now d c m h = add_call-WindowFits now _ c m h

  record_failure-WindowFits :
      (now d : ℕ) (c : CircuitBreakerConfig F) (m : SlidingWindowMetrics)
      → WindowFits c m
      → WindowFits c (record_failure now d m)
  unfolding record_failure
  record_failure-WindowFits now d c m h = add_call-WindowFits now _ c m h

  -- A closed breaker that has taken in another window and checked it.
  rechecked-IsConsistent :
      (now : ℕ) (m : SlidingWindowMetrics) (cb : CircuitBreaker F)
      → IsConsistent cb
      → WindowFits cb.config m
      → IsConsistent (check_thresholds now (record cb { metrics = m }))
  rechecked-IsConsistent now m cb h w =
      check_thresholds-IsConsistent now (record cb { metrics = m })
        (record { config_valid = h.config_valid; window_fits = w; state_fits = h.state_fits })

  module _ (now d : ℕ) (cb : CircuitBreaker F) (h : IsConsistent cb) where
    on_success_at :
        (s : State) → cb.state ≡ s → StateFits cb.config s → IsConsistent (on_success now d cb).1
    unfolding on_success
    on_success_at closed_state e f = ground (
      arith,
      rechecked-IsConsistent now (record_success now d cb.metrics) cb h
          (record_success-WindowFits now d cb.config cb.metrics h.window_fits),
    )
    on_success_at (half_open_state m used entered) e f =
        ground
          (arith, observe-IsConsistent now d true m used entered cb h.config_valid h.window_fits f)
    on_success_at _ e f =
        ground (arith, record_success-WindowFits now d cb.config cb.metrics h.window_fits)

  on_success-IsConsistent :
      (now d : ℕ) (cb : CircuitBreaker F) → IsConsistent cb → IsConsistent (on_success now d cb).1
  on_success-IsConsistent now d cb h = on_success_at now d cb h cb.state refl h.state_fits

  -- `on_success` ends well, or is refused and touches nothing.
  pub on_success-cases :
      (now d : ℕ) (cb : CircuitBreaker F)
      → ((on_success now d cb).0 ≡ returned tt) ⊎ (on_success now d cb ≡ (raised runtime_error, cb))
  unfolding on_success
  on_success-cases now d cb = ground arith

  module _ (now d : ℕ) (e : Exception) (cb : CircuitBreaker F) (h : IsConsistent cb) where
    on_error_at :
        (s : State) → cb.state ≡ s → StateFits cb.config s → IsConsistent (on_error now d e cb).1
    unfolding on_error
    on_error_at closed_state q f = ground (
      arith,
      rechecked-IsConsistent now (record_failure now d cb.metrics) cb h
          (record_failure-WindowFits now d cb.config cb.metrics h.window_fits),
      record_success-WindowFits now d cb.config cb.metrics h.window_fits,
    )
    on_error_at (half_open_state m used entered) q f = ground (
      arith,
      observe-IsConsistent now d (not (should_record_exception cb.config e)) m used entered cb
          h.config_valid h.window_fits f,
    )
    on_error_at _ q f = ground (
      arith,
      record_success-WindowFits now d cb.config cb.metrics h.window_fits,
      record_failure-WindowFits now d cb.config cb.metrics h.window_fits,
    )

  on_error-IsConsistent :
      (now d : ℕ) (e : Exception) (cb : CircuitBreaker F)
      → IsConsistent cb
      → IsConsistent (on_error now d e cb).1
  on_error-IsConsistent now d e cb h = on_error_at now d e cb h cb.state refl h.state_fits

module _ {F : Type 0} (A : Type 0) ⦃fl : Float F⦄ where
  handle_error-IsConsistent :
      (now d : ℕ) (e : Exception) (cb : CircuitBreaker F)
      → IsConsistent cb
      → IsConsistent (handle_error {A = A} now d e cb).1
  unfolding handle_error
  handle_error-IsConsistent now d e cb h = grind (arith, on_error-IsConsistent)

  pub finish_call-IsConsistent :
      (start now : ℕ) (o : Outcome A) (cb : CircuitBreaker F)
      → IsConsistent cb
      → IsConsistent (finish_call start now o cb).1
  unfolding finish_call
  finish_call-IsConsistent start now (returned a) cb h = ground (
    arith,
    on_success-cases now (now - start) cb,
    on_success-IsConsistent now (now - start) cb h,
    handle_error-IsConsistent now (now - start) runtime_error cb h,
  )
  finish_call-IsConsistent start now (raised e) cb h =
      handle_error-IsConsistent now (now - start) e cb h
  finish_call-IsConsistent start now cancelled cb h = h
