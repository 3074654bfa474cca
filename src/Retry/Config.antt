-- ===== src/Retry/Config.antt =====
-- retry/config.py. A list of exception classes that is `None` or empty is the empty list, since the code
-- only asks whether it is true; durations are whole nanoseconds.
use resilience4py.Prelude.{
  ℕ, Bool, false, Option, none, some, List, [], ◌∷◌, any_of, ◌==◌, if◌then◌else◌,
}
use resilience4py.Outcome.{Exception, Outcome, returned, raised, value_error}

-- A class: its identity, by which sets of classes compare, and its `isinstance` test.
pub record ExceptionClass : Type 0 where
  pub identity : ℕ
  pub isinstance : Exception → Bool

pub record RetryConfig (A : Type 0) : Type 0 where
  pub max_attempts : ℕ
  pub wait_duration : ℕ
  pub interval_function : Option (ℕ → ℕ)
  pub retry_on_exception : Exception → Bool
  pub retry_on_result : Option (A → Bool)
  pub fail_after_max_attempts : Bool
  pub retry_exceptions : List ExceptionClass
  pub abort_exceptions : List ExceptionClass

abbrev pub matches : List ExceptionClass → Exception → Bool
matches classes e = any_of (λ c. c.isinstance e) classes

-- `set(classes) & set(others)` is not empty.
abbrev pub overlap : List ExceptionClass → List ExceptionClass → Bool
overlap classes others = any_of (λ c. any_of (λ d. c.identity == d.identity) others) classes

-- The part of `should_retry_exception` below the abort list: a retry list, if there is one, must match.
retry_decision : List ExceptionClass → (Exception → Bool) → Exception → Bool
retry_decision [] p e = p e
retry_decision (c ∷ cs) p e = if matches (c ∷ cs) e then p e else false

module _ {A : Type 0} where
  -- A negative `wait_duration`, which `validate` also refuses, is no value here.
  unfoldable pub validate : RetryConfig A → Outcome (Unit {0})
  validate c =
      if c.max_attempts == 0
      then raised value_error
      else if overlap c.retry_exceptions c.abort_exceptions
      then raised value_error
      else returned tt

  unfoldable pub should_retry_exception : RetryConfig A → Exception → Bool
  unfolding retry_decision
  should_retry_exception c e =
      if matches c.abort_exceptions e
      then false
      else retry_decision c.retry_exceptions c.retry_on_exception e

  -- For an interval function that answers a natural number for every attempt. One that raises, or answers a
  -- negative number, is that of Retry/Waits.
  unfoldable pub get_wait_duration : RetryConfig A → ℕ → ℕ
  get_wait_duration c attempt = elim c.interval_function [
    | none ↦ c.wait_duration
    | some f ↦ f attempt
  ]

  -- `self.config.retry_on_result and self.config.retry_on_result(result)`
  abbrev pub wants_retry : RetryConfig A → A → Bool
  wants_retry c a = elim c.retry_on_result [ none ↦ false | some p ↦ p a ]
