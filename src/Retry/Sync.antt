-- ===== src/Retry/Sync.antt =====
-- retry/retry.py: `_execute_sync`, the loop for a plain function that is called where an event loop
-- already runs. It emits no events.
use resilience4py.Prelude.{
  ℕ, zero, suc, ◌+◌, ◌≡◌, refl, sym, ap, ◌∙◌, not, Option, none, some, List, [], ◌∷◌, ◌++◌, ltb,
  arith, if◌then◌else◌,
}
use resilience4py.Outcome.{Exception, Outcome, returned, raised, cancelled}
use resilience4py.Retry.Config.{RetryConfig, should_retry_exception, get_wait_duration, wants_retry}
use resilience4py.Retry.Loop.{
  Deed, called, emitted, slept, Next, ends, goes_on, exhausted, after_attempt, fall_through,
  retry_loop, execute_with_retry,
}

-- A run without its events.
abbrev pub without_events : {A : Type 0} → List (Deed A) → List (Deed A)
without_events [] = []
without_events (called n ∷ ds) = called n ∷ without_events ds
without_events (emitted _ ∷ ds) = without_events ds
without_events (slept w ∷ ds) = slept w ∷ without_events ds

without_events-append :
    {A : Type 0} (ds more : List (Deed A))
    → without_events (ds ++ more) ≡ without_events ds ++ without_events more
without_events-append [] more = refl
without_events-append (called n ∷ ds) more = ap (called n ∷◌) (without_events-append ds more)
without_events-append (emitted _ ∷ ds) more = without_events-append ds more
without_events-append (slept w ∷ ds) more = ap (slept w ∷◌) (without_events-append ds more)

abbrev silent : {A : Type 0} → Next A → Next A
silent (ends o ds) = ends o (without_events ds)
silent (goes_on last ds) = goes_on last (without_events ds)

module _ {A : Type 0} (c : RetryConfig A) where
  -- The body of the loop below the call of the function.
  unfoldable pub after_sync_attempt : ℕ → Option Exception → Outcome A → Next A
  after_sync_attempt attempt last (returned a) =
      if wants_retry c a
      then if ltb attempt c.max_attempts
        then goes_on last (slept (get_wait_duration c attempt) ∷ [])
        else ends (returned a) []
      else ends (returned a) []
  after_sync_attempt attempt last (raised e) =
      if not (should_retry_exception c e)
      then ends (raised e) []
      else if ltb attempt c.max_attempts
      then goes_on (some e) (slept (get_wait_duration c attempt) ∷ [])
      else ends (raised (exhausted c attempt e)) []
  after_sync_attempt attempt last cancelled = ends cancelled []

  unfoldable pub sync_loop : ℕ → ℕ → Option Exception → (ℕ → Outcome A) → Outcome A × List (Deed A)
  sync_loop zero attempt last func = (fall_through c last, [])
  sync_loop (suc rounds) attempt last func = elim (after_sync_attempt attempt last (func attempt)) [
    | ends o deeds ↦ (o, called attempt ∷ deeds)
    | goes_on last' deeds ↦
        let (o, more) = sync_loop rounds (attempt + 1) last' func in
        (o, called attempt ∷ (deeds ++ more))
  ]

  unfoldable pub execute_sync : (ℕ → Outcome A) → Outcome A × List (Deed A)
  execute_sync func = sync_loop c.max_attempts 1 none func

  after_sync_attempt-silent :
      (attempt : ℕ) (last : Option Exception) (o : Outcome A)
      → after_sync_attempt attempt last o ≡ silent (after_attempt c attempt last o)
  unfolding after_sync_attempt after_attempt
  after_sync_attempt-silent attempt last (returned a) = ground arith
  after_sync_attempt-silent attempt last (raised e) = ground arith
  after_sync_attempt-silent attempt last cancelled = refl

  -- Two runs of the loops that agree.
  abbrev Agree : (run run' : Outcome A × List (Deed A)) → Type 0
  Agree run run' = (run.0 ≡ run'.0) × (run.1 ≡ without_events run'.1)

  sync_loop-step :
      (n a : ℕ) (last : Option Exception) (func : ℕ → Outcome A) (x : Next A)
      → after_attempt c a last (func a) ≡ x
      → ((last' : Option Exception)
          → Agree (sync_loop n (a + 1) last' func) (retry_loop c n (a + 1) last' func))
      → Agree (sync_loop (suc n) a last func) (retry_loop c (suc n) a last func)
  unfolding sync_loop retry_loop
  sync_loop-step n a last func (ends o ds) e rest =
      rw (after_sync_attempt-silent a last (func a), e, sync_loop, retry_loop) (refl, refl)
  sync_loop-step n a last func (goes_on last' ds) e rest =
      let appended = without_events-append ds (retry_loop c n (a + 1) last' func).1 in
      rw (after_sync_attempt-silent a last (func a), e, sync_loop, retry_loop)
        (
          (rest last').0,
          ap (called a ∷◌) (ap (without_events ds ++◌) (rest last').1 ∙ sym appended),
        )

  sync_loop-retry_loop :
      (n a : ℕ) (last : Option Exception) (func : ℕ → Outcome A)
      → Agree (sync_loop n a last func) (retry_loop c n a last func)
  unfolding sync_loop retry_loop
  sync_loop-retry_loop zero a last func = (refl, refl)
  sync_loop-retry_loop (suc n) a last func =
      sync_loop-step n a last func (after_attempt c a last (func a)) refl
        (λ last'. sync_loop-retry_loop n (a + 1) last' func)

  -- The synchronous loop ends as the asynchronous one does, and does the same but for the events: the
  -- same calls and the same waits in the same order.
  pub execute_sync-execute_with_retry :
      (func : ℕ → Outcome A)
      → ((execute_sync func).0 ≡ (execute_with_retry c func).0)
        × ((execute_sync func).1 ≡ without_events (execute_with_retry c func).1)
  unfolding execute_sync execute_with_retry
  execute_sync-execute_with_retry func = sync_loop-retry_loop c.max_attempts 1 none func
