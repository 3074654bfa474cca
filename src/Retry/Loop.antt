-- ===== src/Retry/Loop.antt =====
-- retry/retry.py: `_execute_with_retry`. The wrapped function is what it does at each attempt. A run is
-- its result and what it did meanwhile, in order; the total duration in an event is left out.
use resilience4py.Prelude.{
  ℕ, zero, suc, ◌+◌, not, ◌&&◌, Option, none, some, List, [], ◌∷◌, ◌++◌, ◌⊎◌, inl, inr, ltb,
  if◌then◌else◌,
}
use resilience4py.Outcome.{
  Exception, assertion_error, max_retries_exceeded, Outcome, returned, raised, cancelled,
}
use resilience4py.Retry.Config.{RetryConfig, should_retry_exception, get_wait_duration, wants_retry}

-- retry/events.py
pub data RetryEvent (A : Type 0) : Type 0 where
  on_retry_event : ℕ → A ⊎ Exception → ℕ → RetryEvent A
  on_success_event : ℕ → Option Exception → RetryEvent A
  on_error_event : ℕ → Exception → RetryEvent A
  on_ignored_error_event : ℕ → Exception → RetryEvent A

pub data Deed (A : Type 0) : Type 0 where
  called : ℕ → Deed A
  emitted : RetryEvent A → Deed A
  slept : ℕ → Deed A

-- How an attempt leaves the loop's body: with the function's end, or for the next attempt with
-- `last_exception`.
pub data Next (A : Type 0) : Type 0 where
  ends : Outcome A → List (Deed A) → Next A
  goes_on : Option Exception → List (Deed A) → Next A

module _ {A : Type 0} (c : RetryConfig A) where
  -- The exception behind the last attempt.
  abbrev pub exhausted : ℕ → Exception → Exception
  exhausted attempt e = if c.fail_after_max_attempts then max_retries_exceeded e attempt else e

  -- The loop's body after the call of the function.
  unfoldable pub after_attempt : ℕ → Option Exception → Outcome A → Next A
  after_attempt attempt last (returned a) =
      if wants_retry c a && ltb attempt c.max_attempts
      then goes_on last (
          emitted (on_retry_event attempt (inl a) (get_wait_duration c attempt))
          ∷ slept (get_wait_duration c attempt)
          ∷ [])
      else ends (returned a) (emitted (on_success_event attempt last) ∷ [])
  after_attempt attempt last (raised e) =
      if not (should_retry_exception c e)
      then ends (raised e) (emitted (on_ignored_error_event attempt e) ∷ [])
      else if ltb attempt c.max_attempts
      then goes_on (some e) (
          emitted (on_retry_event attempt (inr e) (get_wait_duration c attempt))
          ∷ slept (get_wait_duration c attempt)
          ∷ [])
      else ends (raised (exhausted attempt e)) (emitted (on_error_event attempt e) ∷ [])
  after_attempt attempt last cancelled = ends cancelled []

  -- Below the loop: `assert last_exception is not None; raise last_exception`.
  abbrev pub fall_through : Option Exception → Outcome A
  fall_through none = raised assertion_error
  fall_through (some e) = raised e

  -- `for attempt in range(1, max_attempts + 1)`, with the rounds that are left.
  unfoldable pub retry_loop : ℕ → ℕ → Option Exception → (ℕ → Outcome A) → Outcome A × List (Deed A)
  retry_loop zero attempt last func = (fall_through last, [])
  retry_loop (suc rounds) attempt last func = elim (after_attempt attempt last (func attempt)) [
    | ends o deeds ↦ (o, called attempt ∷ deeds)
    | goes_on last' deeds ↦
        let (o, more) = retry_loop rounds (attempt + 1) last' func in
        (o, called attempt ∷ (deeds ++ more))
  ]

  unfoldable pub execute_with_retry : (ℕ → Outcome A) → Outcome A × List (Deed A)
  execute_with_retry func = retry_loop c.max_attempts 1 none func
