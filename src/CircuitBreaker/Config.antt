-- ===== src/CircuitBreaker/Config.antt =====
-- circuitbreaker/config.py: the configuration and which exceptions count as failures. An exception
-- class is its `isinstance` test. Durations are whole nanoseconds.
use resilience4py.Prelude.{
  not, ◌&&◌, ◌==◌, ℕ, Bool, true, false, Option, none, some, List, [], ◌∷◌, any_of, if◌then◌else◌,
}
use resilience4py.Outcome.{Exception, Outcome, returned, raised, value_error}
use resilience4py.Prelude.Float.{Float}

pub data SlidingWindowType : Type 0 where
  count_based time_based : SlidingWindowType

pub record CircuitBreakerConfig (F : Type 0) : Type 0 where
  pub failure_rate_threshold : F
  pub slow_call_rate_threshold : F
  pub slow_call_duration_threshold : ℕ
  pub permitted_calls_in_half_open : ℕ
  pub sliding_window_size : ℕ
  pub sliding_window_type : SlidingWindowType
  pub minimum_number_of_calls : ℕ
  pub wait_duration_in_open_state : ℕ
  pub max_wait_duration_in_half_open : ℕ
  pub automatic_transition_from_open_to_half_open : Bool
  pub record_exceptions : List (Exception → Bool)
  pub ignore_exceptions : List (Exception → Bool)
  pub record_failure_predicate : Option (Exception → Bool)
  pub ignore_failure_predicate : Option (Exception → Bool)

module _ {F : Type 0} ⦃fl : Float F⦄ where
  -- `0 < rate <= 100`
  abbrev pub in_range : F → Bool
  in_range rate = fl.lt_float fl.zero_float rate && fl.le_float rate fl.hundred

  -- A negative count or duration, which `validate` also refuses, is no value here.
  unfoldable pub validate : CircuitBreakerConfig F → Outcome (Unit {0})
  validate c =
      if not (in_range c.failure_rate_threshold)
      then raised value_error
      else if not (in_range c.slow_call_rate_threshold)
      then raised value_error
      else if c.sliding_window_size == 0
      then raised value_error
      else if c.minimum_number_of_calls == 0
      then raised value_error
      else if c.permitted_calls_in_half_open == 0
      then raised value_error
      else if c.wait_duration_in_open_state == 0
      then raised value_error
      else if c.slow_call_duration_threshold == 0
      then raised value_error
      else returned tt

-- `predicate and predicate(exception)`, where `predicate` may be `None`.
abbrev pub holds : Option (Exception → Bool) → Exception → Bool
holds none e = false
holds (some p) e = p e

-- `for t in types: if isinstance(exception, t): …`
abbrev pub matches : List (Exception → Bool) → Exception → Bool
matches ts e = any_of (λ t. t e) ts

-- The part of `should_record_exception` below the ignore tests: the record list, if there is one,
-- decides alone.
record_decision : List (Exception → Bool) → Option (Exception → Bool) → Exception → Bool
record_decision [] none e = true
record_decision [] (some p) e = p e
record_decision (t ∷ ts) p e = matches (t ∷ ts) e

module _ {F : Type 0} where
  unfoldable pub should_record_exception : CircuitBreakerConfig F → Exception → Bool
  unfolding record_decision
  should_record_exception c e =
      if matches c.ignore_exceptions e
      then false
      else if holds c.ignore_failure_predicate e
      then false
      else record_decision c.record_exceptions c.record_failure_predicate e
