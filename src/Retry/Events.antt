-- ===== src/Retry/Events.antt =====
-- The properties of the events of retry/events.py. An event of the model holds the fields that its constructor
-- stores; the checks of the constructors are not modelled. A result, which is any value, may be an exception
-- without having been raised: `as_exception` is its test by `isinstance`.
use resilience4py.Prelude.{ℕ, ◌-◌, Bool, true, false, Option, none, some, ◌⊎◌, inl, inr, ltb}
use resilience4py.Outcome.{Exception}
use resilience4py.Retry.Loop.{
  RetryEvent, on_retry_event, on_success_event, on_error_event, on_ignored_error_event,
}

module _ {A : Type 0} where
  -- The field `attempt` of all four classes.
  abbrev pub event_attempt : RetryEvent A → ℕ
  event_attempt (on_retry_event attempt _ _) = attempt
  event_attempt (on_success_event attempt _) = attempt
  event_attempt (on_error_event attempt _) = attempt
  event_attempt (on_ignored_error_event attempt _) = attempt

  -- `had_retries` and `retry_count` of `RetryOnSuccessEvent`
  unfoldable pub had_retries : RetryEvent A → Bool
  had_retries event = ltb 1 (event_attempt event)

  unfoldable pub retry_count : RetryEvent A → ℕ
  retry_count event = event_attempt event - 1

module _ {A : Type 0} (as_exception : A → Option Exception) where
  -- `RetryOnRetryEvent.is_exception_retry`, `exception` and `result`, by the field `last_result`.
  unfoldable pub is_exception_retry : A ⊎ Exception → Bool
  is_exception_retry (inl a) = elim (as_exception a) [ none ↦ false | some e ↦ true ]
  is_exception_retry (inr e) = true

  unfoldable pub exception_of_retry : A ⊎ Exception → Option Exception
  exception_of_retry (inl a) = as_exception a
  exception_of_retry (inr e) = some e

  unfoldable pub result_of_retry : A ⊎ Exception → Option A
  result_of_retry (inl a) = elim (as_exception a) [ none ↦ some a | some e ↦ none ]
  result_of_retry (inr e) = none
