-- ===== src/Examples/Uncaught.antt =====
-- How the `main` of example_retry.py ends.
use resilience4py.Prelude.{
  ℕ, ◌≡◌, ◌<◌, refl, ◌∙◌, Bool, true, false, [], ◌∷◌, arith, inl, inr, Bool-cases, ltb,
}
use resilience4py.Outcome.{Outcome, returned, raised, cancelled}
use resilience4py.Core.Decorators.{seen_by_caller}
use resilience4py.Retry.Config.{RetryConfig, should_retry_exception}
use resilience4py.Retry.Loop.{execute_with_retry}
use resilience4py.Retry.Attempts.{answer, execute_with_retry-decided}
use resilience4py.Retry.Wrapper.{call_wrapped-execute_with_retry}
use resilience4py.Examples.RetryExample.{
  call_plain, is_runtime_error, try_catch, any_exception, is_value_error, is_connection_error,
  simple_config, exponential_config, conditional_config, result_config, flaky_function,
  async_api_call, network_operation, api_call_with_status, main,
}

module _ {A : Type 0} where
  -- Without a `RuntimeError` the wrapper passes every end on.
  seen_unchanged : (o : Outcome A) → seen_by_caller is_runtime_error true o ≡ o
  seen_unchanged (returned a) = refl
  seen_unchanged (raised e) = refl
  seen_unchanged cancelled = refl

  run_answer :
      (c : RetryConfig A) (func : ℕ → Outcome A)
      → 0 < c.max_attempts
      → (k : ℕ) × ((execute_with_retry c func).0 ≡ answer c k (func k))
  run_answer c func some_attempt =
      let (k, d) = execute_with_retry-decided c func some_attempt in (k, d.4)

  call_plain-answer :
      (c : RetryConfig A) (func : ℕ → Outcome A)
      → 0 < c.max_attempts
      → (k : ℕ) × (call_plain c func ≡ answer c k (func k))
  call_plain-answer c func some_attempt =
      let (k, e) = run_answer c func some_attempt in
      (
        k,
        (call_wrapped-execute_with_retry is_runtime_error true c func).0
            ∙ seen_unchanged (execute_with_retry c func).0
            ∙ e,
      )

-- The answers of the four functions, as `main` catches them.
flaky_function-caught :
    (k draw : ℕ)
    → (b : Bool) × (try_catch is_value_error (answer simple_config k (flaky_function draw))
        ≡ returned b)
unfolding flaky_function simple_config should_retry_exception
flaky_function-caught k draw = elim (Bool-cases (ltb draw 70)) [
  | inl fails ↦ (false, rw fails refl)
  | inr succeeds ↦ (true, rw succeeds refl)
]

async_api_call-caught :
    (k draw : ℕ)
    → (b : Bool) × (try_catch is_connection_error
          (answer exponential_config k (async_api_call draw))
        ≡ returned b)
unfolding async_api_call exponential_config should_retry_exception
async_api_call-caught k draw = elim (Bool-cases (ltb draw 60)) [
  | inl fails ↦ (false, rw fails refl)
  | inr succeeds ↦ (true, rw succeeds refl)
]

network_operation-caught :
    (k draw : ℕ)
    → (b : Bool) × (try_catch any_exception
          (answer conditional_config k (network_operation false draw))
        ≡ returned b)
unfolding network_operation conditional_config should_retry_exception
network_operation-caught k draw = elim (Bool-cases (ltb draw 50)) [
  | inl fails ↦ (false, rw fails refl)
  | inr succeeds ↦ (true, rw succeeds refl)
]

api_call_with_status-caught :
    (k draw : ℕ)
    → try_catch (λ e. false) (answer result_config k (api_call_with_status draw)) ≡ returned true
unfolding api_call_with_status result_config
api_call_with_status-caught k draw = elim (Bool-cases (ltb draw 60)) [
  | inl fails ↦ rw fails refl
  | inr succeeds ↦ rw succeeds refl
]

-- Whatever is drawn, `main` ends without an exception: of its five calls the first three succeed or end by an
-- exception that is caught, the fourth ends by one that is caught, and the fifth succeeds.
pub main-ends :
    (draws1 draws2 draws3 draws4 : ℕ → ℕ)
    → (a : Bool) × (b : Bool) × (c : Bool) × (main draws1 draws2 draws3 draws4
        ≡ returned (a ∷ b ∷ c ∷ false ∷ true ∷ []))
unfolding main network_operation conditional_config should_retry_exception
main-ends draws1 draws2 draws3 draws4 =
    let (k1, e1) = call_plain-answer simple_config (λ j. flaky_function (draws1 j)) (omega arith) in
    let (k2, e2) = run_answer exponential_config (λ j. async_api_call (draws2 j)) (omega arith) in
    let (k3, e3) =
      call_plain-answer conditional_config (λ j. network_operation false (draws3 j))
        (omega arith) in
    let (k4, e4) =
      call_plain-answer conditional_config (λ j. network_operation true (draws3 j)) (omega arith) in
    let (k5, e5) =
      call_plain-answer result_config (λ j. api_call_with_status (draws4 j)) (omega arith) in
    let (a, c1) = flaky_function-caught k1 (draws1 k1) in
    let (b, c2) = async_api_call-caught k2 (draws2 k2) in
    let (c, c3) = network_operation-caught k3 (draws3 k3) in
    let c5 = api_call_with_status-caught k5 (draws4 k5) in
    (a, b, c, rw (e1, e2, e3, e4, e5, c1, c2, c3, c5) refl)
