-- ===== src/Examples/Retried.antt =====
-- What the views of examples/retry_flask.py do with a run of the retry.
use Prim.Native.String.{String}
use resilience4py.Prelude.{
  ℕ, zero, suc, ◌<◌, ◌+◌, ◌-◌, ◌≡◌, ◌≤◌, refl, ap, ◌∙◌, true, Option, arith, length, inl, inr,
  Bool-cases, ltb,
}
use resilience4py.Outcome.{Outcome, returned, raised, cancelled, attribute_error}
use resilience4py.Retry.Config.{RetryConfig, should_retry_exception}
use resilience4py.Retry.Loop.{execute_with_retry}
use resilience4py.Retry.Attempts.{calls, count_from, answer, execute_with_retry-decided}
use resilience4py.Retry.Wrapper.{call_wrapped}
use resilience4py.Examples.Attributes.{is_end}
use resilience4py.Examples.RetryFlask.{
  Strategy, fixed_interval, exponential_backoff, fibonacci_backoff, database_specific,
  strategy_config, FailureCounts, failure_count, add_failures, Scenario, Draws,
  simulate_unreliable_service, call_service, answer_retry, test_retry, transient, improving,
  persistent, attempts_of, current_failure_rate, requested,
}

length-count_from : (a n : ℕ) → length (count_from a n) ≡ n
length-count_from a zero = refl
length-count_from a (suc n) = ap suc (length-count_from (a + 1) n)

answer-is_end :
    {A : Type 0} (c : RetryConfig A) (k : ℕ) (o : Outcome A)
    → is_end o ≡ true
    → is_end (answer c k o) ≡ true
answer-is_end c k (returned a) h = refl
answer-is_end c k (raised e) h = elim (Bool-cases (should_retry_exception c e)) [
  | inl retried ↦ rw retried refl
  | inr ignored ↦ rw ignored refl
]
answer-is_end c k cancelled h = h

simulate-is_end :
    (scenario : Scenario) (count : ℕ) (d : Draws)
    → is_end (simulate_unreliable_service scenario count d) ≡ true
unfolding simulate_unreliable_service
simulate-is_end scenario count d =
    elim (Bool-cases (ltb d.draw (current_failure_rate scenario count))) [
      | inl fails ↦ rw fails refl
      | inr succeeds ↦ rw succeeds refl
    ]

-- To read `metrics` makes every answer an `AttributeError`.
answer_retry-is_end :
    (strategy : Strategy) (o : Outcome ℕ)
    → is_end o ≡ true
    → answer_retry strategy o ≡ raised attribute_error
unfolding answer_retry
answer_retry-is_end strategy (returned a) h = refl
answer_retry-is_end strategy (raised e) h = refl
answer_retry-is_end strategy cancelled h = cc

failure_count-add_failures :
    (scenario : Scenario) (n : ℕ) (counts : FailureCounts)
    → failure_count scenario (add_failures scenario n counts) ≡ failure_count scenario counts + n
failure_count-add_failures transient n counts = refl
failure_count-add_failures improving n counts = refl
failure_count-add_failures persistent n counts = refl

attempts_of-pos : (strategy : Strategy) → 0 < attempts_of strategy
attempts_of-pos fixed_interval = omega arith
attempts_of-pos exponential_backoff = omega arith
attempts_of-pos fibonacci_backoff = omega arith
attempts_of-pos database_specific = omega arith

-- A request to a view of the fixed, exponential or Fibonacci retry calls the service at least once and at most
-- as often as the strategy allows, each call counted for its scenario, and then raises an `AttributeError`,
-- however the calls ended: also the answer to a success reads an attribute that a retry does not have.
pub test_retry-failure_count :
    (strategy : Strategy) (argument : Option String) (draws : ℕ → Draws) (counts : FailureCounts)
    → let scenario = requested argument in
      let (reply, counts') = test_retry strategy argument draws counts in
      (reply ≡ raised attribute_error)
      × (k : ℕ) × (1 ≤ k)
      × (k ≤ attempts_of strategy)
      × (failure_count scenario counts' ≡ failure_count scenario counts + k)
unfolding test_retry call_service call_wrapped strategy_config
test_retry-failure_count strategy argument draws counts =
    let scenario = requested argument in
    let config : RetryConfig ℕ = strategy_config (λ attempt. 0) strategy in
    let func : ℕ → Outcome ℕ =
      λ j. simulate_unreliable_service scenario (failure_count scenario counts + j) (draws j) in
    let (result, deeds) = execute_with_retry config func in
    let (k, d) = execute_with_retry-decided config func (attempts_of-pos strategy) in
    let number : length (calls deeds) ≡ k =
      ap length d.5 ∙ length-count_from 1 (suc k - 1) ∙ omega arith in
    (
      answer_retry-is_end strategy result
          (rw d.4 (answer-is_end config k (func k) (simulate-is_end scenario _ (draws k)))),
      k,
      d.0,
      d.1,
      failure_count-add_failures scenario (length (calls deeds)) counts
          ∙ ap (failure_count scenario counts +◌) number,
    )
