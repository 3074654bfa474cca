-- ===== src/Retry/Waits.antt =====
-- retry/retry.py: `_execute_with_retry` with an interval function that may raise or answer a negative number of
-- nanoseconds. Where an interval is asked for twice at one attempt, the answers are alike.
use resilience4py.Prelude.{
  ℕ, zero, suc, ◌+◌, ◌≡◌, ◌<◌, refl, not, ◌&&◌, inl, inr, Option, none, some, List, [], ◌∷◌, ◌++◌,
  ltb, if◌then◌else◌, Bool-cases, arith,
}
use resilience4py.Prelude.Int.{ℤ, pos, negsuc}
use resilience4py.Outcome.{Exception, value_error, Outcome, returned, raised, cancelled}
use resilience4py.Retry.Config.{RetryConfig, should_retry_exception, get_wait_duration, wants_retry}
use resilience4py.Retry.Loop.{
  on_retry_event, on_success_event, on_error_event, on_ignored_error_event, Deed, called, emitted,
  slept, Next, ends, goes_on, exhausted, fall_through, after_attempt, retry_loop,
  execute_with_retry,
}

-- What the interval function answers, once the constructor of `RetryOnRetryEvent` has checked it:
-- "wait_interval must be non-negative".
unfoldable pub checked_wait : Outcome ℤ → Outcome ℕ
checked_wait (returned (pos n)) = returned n
checked_wait (returned (negsuc n)) = raised value_error
checked_wait (raised e) = raised e
checked_wait cancelled = cancelled

module _ {A : Type 0} (c : RetryConfig A) (interval : ℕ → Outcome ℤ) where
  -- The `except` block, where an exception of the interval function leaves the loop.
  unfoldable pub on_exception : ℕ → Exception → Next A
  unfolding checked_wait
  on_exception attempt e =
      if not (should_retry_exception c e)
      then ends (raised e) (emitted (on_ignored_error_event attempt e) ∷ [])
      else if ltb attempt c.max_attempts
      then elim (checked_wait (interval attempt)) [
        | returned w ↦ goes_on (some e) (emitted (on_retry_event attempt (inr e) w) ∷ slept w ∷ [])
        | raised x ↦ ends (raised x) []
        | cancelled ↦ ends cancelled []
      ]
      else ends (raised (exhausted c attempt e)) (emitted (on_error_event attempt e) ∷ [])

  -- The loop's body after the call of the function. Behind a result that is to be retried the interval
  -- function is called within the `try`.
  unfoldable pub after_attempt_waiting : ℕ → Option Exception → Outcome A → Next A
  unfolding on_exception
  after_attempt_waiting attempt last (returned a) =
      if wants_retry c a && ltb attempt c.max_attempts
      then elim (checked_wait (interval attempt)) [
        | returned w ↦ goes_on last (emitted (on_retry_event attempt (inl a) w) ∷ slept w ∷ [])
        | raised x ↦ on_exception attempt x
        | cancelled ↦ ends cancelled []
      ]
      else ends (returned a) (emitted (on_success_event attempt last) ∷ [])
  after_attempt_waiting attempt last (raised e) = on_exception attempt e
  after_attempt_waiting attempt last cancelled = ends cancelled []

  unfoldable pub waiting_loop :
      ℕ → ℕ → Option Exception → (ℕ → Outcome A) → Outcome A × List (Deed A)
  unfolding after_attempt_waiting
  waiting_loop zero attempt last func = (fall_through c last, [])
  waiting_loop (suc rounds) attempt last func =
      elim (after_attempt_waiting attempt last (func attempt)) [
        | ends o deeds ↦ (o, called attempt ∷ deeds)
        | goes_on last' deeds ↦
            let (o, more) = waiting_loop rounds (attempt + 1) last' func in
            (o, called attempt ∷ (deeds ++ more))
      ]

  unfoldable pub execute_waiting : (ℕ → Outcome A) → Outcome A × List (Deed A)
  unfolding waiting_loop
  execute_waiting func = waiting_loop c.max_attempts 1 none func

  module _
      (waits : (j : ℕ)
        → j < c.max_attempts
        → interval j ≡ returned (pos (get_wait_duration c j))) where
    after_attempt_waiting-after_attempt :
        (attempt : ℕ) (last : Option Exception) (o : Outcome A)
        → after_attempt_waiting attempt last o ≡ after_attempt c attempt last o
    unfolding after_attempt_waiting after_attempt on_exception checked_wait
    after_attempt_waiting-after_attempt attempt last (returned a) =
        elim (Bool-cases (wants_retry c a && ltb attempt c.max_attempts)) [
          | inl again ↦ rw (again, waits attempt (ground (arith, again))) refl
          | inr done ↦ rw done refl
        ]
    after_attempt_waiting-after_attempt attempt last (raised e) =
        elim (Bool-cases (should_retry_exception c e)) [
          | inl retried ↦ elim (Bool-cases (ltb attempt c.max_attempts)) [
            | inl again ↦ rw (retried, again, waits attempt (ground (arith, again))) refl
            | inr done ↦ rw (retried, done) refl
          ]
          | inr ignored ↦ rw ignored refl
        ]
    after_attempt_waiting-after_attempt attempt last cancelled = refl

    after_round :
        (rounds attempt : ℕ) (last : Option Exception) (func : ℕ → Outcome A) (x : Next A)
        → after_attempt_waiting attempt last (func attempt) ≡ x
        → after_attempt c attempt last (func attempt) ≡ x
        → ((last' : Option Exception)
            → waiting_loop rounds (attempt + 1) last' func
              ≡ retry_loop c rounds (attempt + 1) last' func)
        → waiting_loop (suc rounds) attempt last func ≡ retry_loop c (suc rounds) attempt last func
    unfolding waiting_loop retry_loop
    after_round rounds attempt last func (ends o deeds) e e' rest =
        rw (waiting_loop, retry_loop, e, e') refl
    after_round rounds attempt last func (goes_on last' deeds) e e' rest =
        rw (waiting_loop, retry_loop, e, e', rest last') refl

    waiting_loop-retry_loop :
        (rounds attempt : ℕ) (last : Option Exception) (func : ℕ → Outcome A)
        → waiting_loop rounds attempt last func ≡ retry_loop c rounds attempt last func
    unfolding waiting_loop retry_loop
    waiting_loop-retry_loop zero attempt last func = refl
    waiting_loop-retry_loop (suc rounds) attempt last func =
        after_round rounds attempt last func (after_attempt c attempt last (func attempt))
          (after_attempt_waiting-after_attempt attempt last (func attempt)) refl
          (λ last'. waiting_loop-retry_loop rounds (attempt + 1) last' func)

    -- Where the interval function answers a natural number for every attempt below the last, which is the wait of
    -- the configuration, the run is that of `execute_with_retry`.
    pub execute_waiting-execute_with_retry :
        (func : ℕ → Outcome A) → execute_waiting func ≡ execute_with_retry c func
    unfolding execute_waiting execute_with_retry
    execute_waiting-execute_with_retry func = waiting_loop-retry_loop c.max_attempts 1 none func
