-- ===== src/Core/Retries.antt =====
-- The coroutine function that a retry makes of another, `Retry.__call__` of retry/retry.py:
-- `_execute_with_retry` over what the wrapped function does to the objects that it shares with others. The
-- retry's own events and sleeps change none of them.
use resilience4py.Prelude.{ℕ, zero, suc, ◌+◌, ◌≡◌, refl, Option, none, some}
use resilience4py.Outcome.{Exception, Outcome}
use resilience4py.Retry.Config.{RetryConfig}
use resilience4py.Retry.Loop.{Next, ends, goes_on, after_attempt, fall_through}
use resilience4py.Core.Decorators.{Action}

module _ {W A : Type 0} (c : RetryConfig A) where
  -- The rounds that are left, as `retry_loop` has them.
  unfoldable pub retry_rounds : ℕ → ℕ → Option Exception → Action W A → Action W A
  retry_rounds zero attempt last func w = some (fall_through c last, w)
  retry_rounds (suc rounds) attempt last func w = elim (func w) [
    | none ↦ none
    | some (o, w') ↦ elim (after_attempt c attempt last o) [
      | ends o' deeds ↦ some (o', w')
      | goes_on last' deeds ↦ retry_rounds rounds (attempt + 1) last' func w'
    ]
  ]

  unfoldable pub retry_wrapper : Action W A → Action W A
  unfolding retry_rounds
  retry_wrapper func w = retry_rounds c.max_attempts 1 none func w

  module _ (I : W → Type 0) (func : Action W A)
      (keeps : (w : W) → I w → (o : Outcome A) × (w' : W) × (func w ≡ some (o, w')) × I w') where
    after_round :
        (rounds attempt : ℕ) (last : Option Exception) (w w' : W) (o : Outcome A) (x : Next A)
        → func w ≡ some (o, w')
        → after_attempt c attempt last o ≡ x
        → I w'
        → ((last' : Option Exception)
            → (o' : Outcome A) × (w'' : W) × (retry_rounds rounds (attempt + 1) last' func w'
                ≡ some (o', w''))
              × I w'')
        → (o' : Outcome A) × (w'' : W) × (retry_rounds (suc rounds) attempt last func w
            ≡ some (o', w''))
          × I w''
    unfolding retry_rounds
    after_round rounds attempt last w w' o (ends o' deeds) ran next i rest =
        (o', w', rw (retry_rounds, ran, next) refl, i)
    after_round rounds attempt last w w' o (goes_on last' deeds) ran next i rest =
        let (o', w'', e, i') = rest last' in (o', w'', rw (retry_rounds, ran, next) e, i')

    retry_rounds-keeps :
        (rounds attempt : ℕ) (last : Option Exception) (w : W)
        → I w
        → (o : Outcome A) × (w' : W) × (retry_rounds rounds attempt last func w ≡ some (o, w'))
          × I w'
    unfolding retry_rounds
    retry_rounds-keeps zero attempt last w i = (fall_through c last, w, refl, i)
    retry_rounds-keeps (suc rounds) attempt last w i =
        let (o, w', ran, i') = keeps w i in
        after_round rounds attempt last w w' o (after_attempt c attempt last o) ran refl i'
          (λ last'. retry_rounds-keeps rounds (attempt + 1) last' w' i')

    -- What each call of the function keeps, a retry around it keeps, and it ends.
    pub retry_wrapper-keeps :
        (w : W) → I w → (o : Outcome A) × (w' : W) × (retry_wrapper func w ≡ some (o, w')) × I w'
    unfolding retry_wrapper
    retry_wrapper-keeps w i = retry_rounds-keeps c.max_attempts 1 none w i
