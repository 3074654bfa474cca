-- ===== src/Examples/Broken.antt =====
-- What the views of examples/circuit_breaker_flask.py do with a call of the circuit breaker.
use resilience4py.Prelude.{
  ℕ, ◌-◌, ◌≡◌, refl, Bool, true, false, arith, inl, inr, ◌⊎◌, Bool-cases, ltb,
}
use resilience4py.Prelude.Float.{Float}
use resilience4py.Outcome.{
  Exception, Outcome, returned, raised, cancelled, attribute_error, runtime_error,
}
use resilience4py.CircuitBreaker.Breaker.{CircuitBreaker}
use resilience4py.CircuitBreaker.States.{on_error}
use resilience4py.CircuitBreaker.Execute.{begin_call, finish_call, handle_error, execute}
use resilience4py.CircuitBreaker.Consistent.{on_success-cases}
use resilience4py.Examples.Attributes.{is_end}
use resilience4py.Examples.CircuitBreakerFlask.{
  App, Draws, external_api, answer_data, get_data, health_check, reset_circuit_breaker,
}

external_api-is_end :
    (improved : Bool) (d : Draws) (now : ℕ) → is_end (external_api improved d now) ≡ true
unfolding external_api
external_api-is_end true d now = elim (Bool-cases (ltb d.failure_draw 10)) [
  | inl fails ↦ rw fails refl
  | inr succeeds ↦ rw succeeds refl
]
external_api-is_end false d now = elim (Bool-cases (ltb d.failure_draw 60)) [
  | inl fails ↦ rw fails refl
  | inr succeeds ↦ rw succeeds refl
]

answer_data-is_end : (o : Outcome ℕ) → is_end o ≡ true → answer_data o ≡ raised attribute_error
unfolding answer_data
answer_data-is_end (returned a) h = refl
answer_data-is_end (raised e) h = refl
answer_data-is_end cancelled h = cc

module _ {F : Type 0} ⦃fl : Float F⦄ where
  on_error-cases :
      (now d : ℕ) (e : Exception) (cb : CircuitBreaker F)
      → ((on_error now d e cb).0 ≡ returned tt) ⊎ ((on_error now d e cb).0 ≡ raised runtime_error)
  unfolding on_error
  on_error-cases now d e cb = ground arith

  handle_error-is_end :
      (now d : ℕ) (e : Exception) (cb : CircuitBreaker F)
      → is_end (handle_error {A = ℕ} now d e cb).0 ≡ true
  unfolding handle_error
  handle_error-is_end now d e cb = grind (arith, on_error-cases)

  finish_call-is_end :
      (start now : ℕ) (o : Outcome ℕ) (cb : CircuitBreaker F)
      → is_end o ≡ true
      → is_end (finish_call start now o cb).0 ≡ true
  unfolding finish_call
  finish_call-is_end start now (returned a) cb h = ground (
    arith,
    on_success-cases now (now - start) cb,
    handle_error-is_end now (now - start) runtime_error cb,
  )
  finish_call-is_end start now (raised e) cb h = handle_error-is_end now (now - start) e cb
  finish_call-is_end start now cancelled cb h = cc

  execute-is_end :
      (start now : ℕ) (o : Outcome ℕ) (cb : CircuitBreaker F)
      → is_end o ≡ true
      → is_end (execute start now o cb).0 ≡ true
  unfolding execute
  execute-is_end start now o cb h = elim (Bool-cases (begin_call start cb).0) [
    | inl permitted ↦ rw permitted (finish_call-is_end start now o (begin_call start cb).1 h)
    | inr refused ↦ rw refused refl
  ]

  -- A request to the data view goes through the circuit breaker, with the effect on it of one call of the
  -- external service, and then raises an `AttributeError`, whether the service answered, failed, or was not
  -- called. The health check and the reset view raise one too, and the reset view leaves the circuit breaker
  -- as it is.
  pub get_data-attribute_error :
      (start now : ℕ) (d : Draws) (app : App F)
      → let (reply, app') = get_data start now d app in
        (reply ≡ raised attribute_error)
        × (app'.api_circuit_breaker
            ≡ (execute start now (external_api app.improved d now) app.api_circuit_breaker).1)
        × (health_check app ≡ raised attribute_error)
        × (reset_circuit_breaker app ≡ (raised attribute_error, app))
  unfolding get_data health_check reset_circuit_breaker
  get_data-attribute_error start now d app = (
    answer_data-is_end _ (
        execute-is_end start now (external_api app.improved d now) app.api_circuit_breaker
          (external_api-is_end app.improved d now)),
    refl,
    refl,
    refl,
  )
