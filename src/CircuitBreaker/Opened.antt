-- ===== src/CircuitBreaker/Opened.antt =====
-- An open breaker: `OpenState.acquire_permission` (circuitbreaker/states.py) as `_execute_async` sees it.
use resilience4py.Prelude.{
  ℕ, ◌-◌, ◌<◌, ◌≡◌, refl, ◌⊎◌, Bool, true, false, ◌&&◌, [], ◌∷◌, ◌++◌, arith, leb, if◌then◌else◌,
}
use resilience4py.Prelude.Float.{Float}
use resilience4py.Outcome.{Outcome, returned, raised, cancelled, runtime_error, call_not_permitted}
use resilience4py.CircuitBreaker.Events.{
  opened, half_open, on_call_not_permitted_event, on_state_transition_event,
}
use resilience4py.CircuitBreaker.Metrics.{new_half_open_metrics}
use resilience4py.CircuitBreaker.Breaker.{
  open_state, half_open_state, forced_open_state, CircuitBreaker, transition_to_state, publish,
}
use resilience4py.CircuitBreaker.States.{
  acquire_half_open, acquire_open, acquire_after_open, acquire_permission, on_success, on_error,
}
use resilience4py.CircuitBreaker.Execute.{begin_call, handle_error, finish_call, execute}

module _ {F : Type 0} where
  -- The wait is over, and the configuration lets the breaker leave OPEN by itself.
  abbrev pub is_due : ℕ → ℕ → CircuitBreaker F → Bool
  is_due now opened_at cb =
      cb.config.automatic_transition_from_open_to_half_open
      && leb cb.config.wait_duration_in_open_state (now - opened_at)

  -- An open breaker refuses every call that is not due, that is, before its wait is over or where it may
  -- not leave OPEN by itself, and a refusal changes nothing but the log; a call that is due is admitted,
  -- and leaves the breaker half-open with one permit used and no outcome recorded. At least one permit
  -- is configured.
  pub begin_call-opened :
      (now opened_at : ℕ) (cb : CircuitBreaker F)
      → cb.state ≡ open_state opened_at
      → 0 < cb.config.permitted_calls_in_half_open
      → begin_call now cb ≡ (
          if is_due now opened_at cb
          then (
            true,
            record cb {
              state =
                  half_open_state
                    (new_half_open_metrics cb.config.permitted_calls_in_half_open
                      cb.config.slow_call_duration_threshold)
                    1
                    now;
              published = cb.published ++ on_state_transition_event opened half_open ∷ [];
            },
          )
          else (false, publish on_call_not_permitted_event cb))
  unfolding begin_call acquire_permission acquire_open acquire_after_open acquire_half_open
      transition_to_state new_half_open_metrics
  begin_call-opened now opened_at cb e pos = ground arith

  -- A call that comes while the wait lasts.
  pub begin_call-refused_early :
      (now opened_at : ℕ) (cb : CircuitBreaker F)
      → cb.state ≡ open_state opened_at
      → now - opened_at < cb.config.wait_duration_in_open_state
      → begin_call now cb ≡ (false, publish on_call_not_permitted_event cb)
  unfolding begin_call acquire_permission acquire_open
  begin_call-refused_early now opened_at cb e early = ground arith

module _ {F : Type 0} {A : Type 0} ⦃fl : Float F⦄ where
  -- While the wait lasts the wrapped function is not called: whatever it would have done, the caller gets
  -- `CallNotPermittedException` and the breaker is as it was, but for the event.
  pub execute-opened :
      (start now opened_at : ℕ) (o : Outcome A) (cb : CircuitBreaker F)
      → cb.state ≡ open_state opened_at
      → start - opened_at < cb.config.wait_duration_in_open_state
      → execute start now o cb ≡ (raised call_not_permitted, publish on_call_not_permitted_event cb)
  unfolding execute begin_call acquire_permission acquire_open
  execute-opened start now opened_at o cb e early = ground arith

  -- A call that was admitted earlier and ends while the breaker is open or forced open is answered by the
  -- `RuntimeError` of the state, whether the function returned a value or raised an exception of its own;
  -- the state and the window stay as they are.
  pub finish_call-rejecting :
      (start now : ℕ) (o : Outcome A) (cb : CircuitBreaker F)
      → ((t : ℕ) × (cb.state ≡ open_state t)) ⊎ (cb.state ≡ forced_open_state)
      → ¬ (o ≡ cancelled)
      → ((finish_call start now o cb).0 ≡ raised runtime_error)
        × ((finish_call start now o cb).1.state ≡ cb.state)
        × ((finish_call start now o cb).1.metrics ≡ cb.metrics)
  unfolding finish_call handle_error on_success on_error
  finish_call-rejecting start now (returned a) cb h nc = ground arith
  finish_call-rejecting start now (raised x) cb h nc = ground arith
  finish_call-rejecting start now cancelled cb h nc = absurd (nc refl)
