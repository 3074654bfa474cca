-- ===== src/CircuitBreaker/Healing.antt =====
-- The way back of an open breaker whose calls succeed again: `_execute_async` of
-- circuitbreaker/circuit_breaker.py through the states of circuitbreaker/states.py.
use resilience4py.Prelude.{
  ℕ, suc, ◌+◌, ◌-◌, ◌<◌, ◌≡◌, refl, ap, ◌∙◌, true, false, ◌&&◌, ◌++◌, List, [], ◌∷◌, map, inl, not,
  arith, ltb, leb, length, length-append, count_if-append,
}
use resilience4py.Prelude.Float.{Float, FloatLaws}
use resilience4py.Outcome.{Outcome, returned}
use resilience4py.CircuitBreaker.Config.{CircuitBreakerConfig, validate}
use resilience4py.CircuitBreaker.Metrics.{
  CallOutcome, HalfOpenMetrics, new_half_open_metrics, outcome_at, snapshot_of, failed_in, slow_in,
}
use resilience4py.CircuitBreaker.Breaker.{closed_state, open_state, half_open_state, CircuitBreaker}
use resilience4py.CircuitBreaker.States.{acquire_half_open, acquire_permission}
use resilience4py.CircuitBreaker.Execute.{begin_call, finish_call, execute}
use resilience4py.CircuitBreaker.Opened.{is_due, begin_call-opened}
use resilience4py.CircuitBreaker.HalfOpen.{verdict, finish_call-After}

-- A call that succeeds: its start, its end and its value.
abbrev pub Success : Type 0 → Type 0
Success A = ℕ × ℕ × A

abbrev pub value_of : {A : Type 0} → Success A → Outcome A
value_of (start, now, a) = returned a

module _ {F : Type 0} {A : Type 0} where
  -- The call is faster than the threshold for slow calls, and starts before the longest stay in HALF_OPEN,
  -- if there is one, is over.
  abbrev pub IsGood : CircuitBreakerConfig F → ℕ → Success A → Type 0
  IsGood c entered (start, now, a) =
      (now - start < c.slow_call_duration_threshold)
      × ((ltb 0 c.max_wait_duration_in_half_open
            && leb c.max_wait_duration_in_half_open (start - entered))
          ≡ false)

  abbrev pub AreGood : CircuitBreakerConfig F → ℕ → List (Success A) → Type 0
  AreGood c entered [] = Unit
  AreGood c entered (call ∷ calls) = IsGood c entered call × AreGood c entered calls

same_cons : {A : Type 0} {x y : A} {xs ys : List A} → x ≡ y → xs ≡ ys → x ∷ xs ≡ y ∷ ys
same_cons {y = y} {xs = xs} e es = ap (◌∷ xs) e ∙ ap (y ∷◌) es

module _ {F : Type 0} {A : Type 0} ⦃fl : Float F⦄ where
  -- Calls one after another, with what each answers.
  abbrev pub execute_all : List (Success A) → CircuitBreaker F → List (Outcome A) × CircuitBreaker F
  execute_all [] cb = ([], cb)
  execute_all ((start, now, a) ∷ calls) cb =
      let (o, cb') = execute start now (returned a) cb in
      let (os, cb'') = execute_all calls cb' in (o ∷ os, cb'')

  execute_admitted :
      (start now : ℕ) (o : Outcome A) (cb : CircuitBreaker F)
      → (begin_call start cb).0 ≡ true
      → execute start now o cb ≡ finish_call start now o (begin_call start cb).1
  unfolding execute
  execute_admitted start now o cb h = rw h refl

module _ {F : Type 0} (c : CircuitBreakerConfig F) (entered : ℕ) where
  -- The metrics of `ended` trial calls, all of them fast successes.
  abbrev IsClean : ℕ → HalfOpenMetrics → Type 0
  IsClean ended m =
      (length m.half_open_calls ≡ ended)
      × (m.permitted_calls ≡ c.permitted_calls_in_half_open)
      × (m.slow_threshold_ms ≡ c.slow_call_duration_threshold)
      × (failed_in m.half_open_calls ≡ 0)
      × (slow_in m.half_open_calls ≡ 0)

  -- Half-open with `used` permits used, and with such metrics.
  abbrev IsHealing : ℕ → ℕ → CircuitBreaker F → Type 0
  IsHealing used ended cb =
      (m : HalfOpenMetrics) × IsClean ended m
      × (cb.state ≡ half_open_state m used entered)
      × (cb.config ≡ c)

  -- A permit that is left is given.
  begin_call-IsHealing :
      {A : Type 0} (call : Success A) (used ended : ℕ) (cb : CircuitBreaker F)
      → IsGood c entered call
      → used < c.permitted_calls_in_half_open
      → IsHealing used ended cb
      → ((begin_call call.0 cb).0 ≡ true) × IsHealing (used + 1) ended (begin_call call.0 cb).1
  unfolding begin_call acquire_permission acquire_half_open
  begin_call-IsHealing (start, now, a) used ended cb good room (m, clean, e, k) = (
    ground (arith, e, k, good, room),
    (m, clean, ground (arith, e, k, good, room), ground (arith, e, k, good, room)),
  )

  -- The first permit is that of the call that finds the wait over.
  begin_call-opened_IsHealing :
      (opened_at : ℕ) (cb : CircuitBreaker F)
      → cb.state ≡ open_state opened_at
      → cb.config ≡ c
      → is_due entered opened_at cb ≡ true
      → 0 < c.permitted_calls_in_half_open
      → ((begin_call entered cb).0 ≡ true) × IsHealing 1 0 (begin_call entered cb).1
  unfolding new_half_open_metrics
  begin_call-opened_IsHealing opened_at cb e k due room =
      let h = begin_call-opened entered opened_at cb e (ground (arith, k, room)) in
      let m = new_half_open_metrics c.permitted_calls_in_half_open c.slow_call_duration_threshold in
      (
        ground (arith, h, due),
        (m, (refl, refl, refl, refl, refl), ground (arith, h, due, k), ground (arith, h, due, k)),
      )

module _ {F : Type 0} ⦃fl : Float F⦄ (laws : FloatLaws fl) (c : CircuitBreakerConfig F)
    (valid : validate c ≡ returned tt) where
  thresholds_positive :
      (fl.lt_float fl.zero_float c.failure_rate_threshold ≡ true)
      × (fl.lt_float fl.zero_float c.slow_call_rate_threshold ≡ true)
  unfolding validate
  thresholds_positive = ground (arith, valid)

  -- Rates of zero are below every threshold that a configuration may have.
  verdict-closed :
      (now : ℕ) (calls : List CallOutcome)
      → 0 < length calls
      → failed_in calls ≡ 0
      → slow_in calls ≡ 0
      → verdict now c (snapshot_of calls) ≡ closed_state
  unfolding snapshot_of
  verdict-closed now calls some_calls good fast =
      let (failures, slowness) = thresholds_positive in
      let none_failed = laws.lt_not_le fl.zero_float c.failure_rate_threshold failures in
      let none_slow = laws.lt_not_le fl.zero_float c.slow_call_rate_threshold slowness in
      let zero_rate = laws.ratio_none (length calls) some_calls in
      ground (arith, some_calls, good, fast, none_failed, none_slow, zero_rate)

  module _ {A : Type 0} (entered : ℕ) where
    -- A fast success is recorded as such; the last that was waited for closes the breaker.
    finish_call-IsHealing :
        (call : Success A) (used ended : ℕ) (cb : CircuitBreaker F)
        → IsGood c entered call
        → ended < c.permitted_calls_in_half_open
        → IsHealing c entered used ended cb
        → let (o, cb') = finish_call call.0 call.1 (value_of call) cb in
          (o ≡ value_of call)
          × (ended + 1 < c.permitted_calls_in_half_open → IsHealing c entered used (ended + 1) cb')
          × (ended + 1 ≡ c.permitted_calls_in_half_open → cb'.state ≡ closed_state)
    finish_call-IsHealing (start, now, a) used ended cb good room (m, clean, e, k) =
        let o = outcome_at now (now - start) true m.slow_threshold_ms in
        let calls = m.half_open_calls ++ o ∷ [] in
        let step =
          finish_call-After (start, now, inl a) m used entered cb e (omega (arith, clean, room)) in
        let longer : length calls ≡ ended + 1 =
          omega (arith, length-append m.half_open_calls (o ∷ []), clean.0) in
        let none_failed : failed_in calls ≡ 0 =
          ground (arith, count_if-append (λ x. not x.success) m.half_open_calls (o ∷ []), clean) in
        let none_slow : slow_in calls ≡ 0 =
          ground (arith, count_if-append (λ x. x.slow) m.half_open_calls (o ∷ []), clean, good) in
        (
          step.1,
          λ more. (
            record m { half_open_calls = calls },
            (longer, clean.1, clean.2, none_failed, none_slow),
            step.0.0 (omega (arith, longer, more, clean)),
            step.2 ∙ k,
          ),
          λ last.
              step.0.1 (omega (arith, longer, last, clean))
              ∙ rw k (verdict-closed now calls (omega (arith, longer)) none_failed none_slow),
        )

    -- From the admission of a call on.
    execute_all-heals :
        (call : Success A) (calls : List (Success A)) (ended : ℕ) (cb : CircuitBreaker F)
        → IsGood c entered call
        → AreGood c entered calls
        → ended + suc (length calls) ≡ c.permitted_calls_in_half_open
        → IsHealing c entered (ended + 1) ended cb
        → let (o, cb') = finish_call call.0 call.1 (value_of call) cb in
          let (os, cb'') = execute_all calls cb' in
          (o ∷ os ≡ map value_of (call ∷ calls)) × (cb''.state ≡ closed_state)
    execute_all-heals call [] ended cb good rest n h =
        let step = finish_call-IsHealing call (ended + 1) ended cb good (omega (arith, n)) h in
        (ap (◌∷ []) step.0, step.2 (omega (arith, n)))
    execute_all-heals call ((start, now, a) ∷ calls) ended cb good (good', rest) n h =
        let step = finish_call-IsHealing call (ended + 1) ended cb good (omega (arith, n)) h in
        let (o, cb') = finish_call call.0 call.1 (value_of call) cb in
        let healing = step.1 (omega (arith, n)) in
        let (admitted, begun) =
          begin_call-IsHealing c entered (start, now, a) (ended + 1) (ended + 1) cb' good'
            (omega (arith, n)) healing in
        let runs = execute_admitted start now (returned a) cb' admitted in
        let ih =
          execute_all-heals (start, now, a) calls (ended + 1) (begin_call start cb').1 good' rest
            (omega (arith, n)) begun in
        rw runs (same_cons step.0 ih.0, ih.1)

  -- An open breaker whose wait is over closes again once as many calls as it permits in HALF_OPEN have come one
  -- after another, each a success faster than the threshold for slow calls, and within the longest stay in
  -- HALF_OPEN if there is one: all of them are admitted and answered with their own values. The breaker may
  -- leave OPEN by itself, its configuration is valid, and the floats have the laws of rounding.
  pub execute_all-closed :
      {A : Type 0} (first : Success A) (calls : List (Success A)) (opened_at : ℕ)
      (cb : CircuitBreaker F)
      → cb.state ≡ open_state opened_at
      → cb.config ≡ c
      → is_due first.0 opened_at cb ≡ true
      → suc (length calls) ≡ c.permitted_calls_in_half_open
      → AreGood c first.0 (first ∷ calls)
      → let (answers, cb') = execute_all (first ∷ calls) cb in
        (answers ≡ map value_of (first ∷ calls)) × (cb'.state ≡ closed_state)
  execute_all-closed (start, now, a) calls opened_at cb e k due n (good, rest) =
      let (admitted, begun) =
        begin_call-opened_IsHealing c start opened_at cb e k due (omega (arith, n)) in
      rw (execute_admitted start now (returned a) cb admitted) (
        execute_all-heals start (start, now, a) calls 0 (begin_call start cb).1 good rest
          (omega (arith, n)) begun)
