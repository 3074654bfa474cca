-- ===== src/CircuitBreaker/HalfOpen.antt =====
-- The half-open state (circuitbreaker/states.py): what its trial calls decide.
use mathlib.Core.List.{append_assoc}
use resilience4py.Prelude.{
  ℕ, suc, ◌+◌, ◌-◌, ◌≤◌, ◌<◌, ◌≡◌, refl, ap, ◌∙◌, ◌⊎◌, inl, inr, Bool, true, false, not, List, [],
  ◌∷◌, ◌++◌, arith, if◌then◌else◌, Bool-cases, length, length-append, replicate,
}
use resilience4py.Prelude.Float.{Float}
use resilience4py.Outcome.{Outcome, returned, raised, Exception}
use resilience4py.CircuitBreaker.Config.{CircuitBreakerConfig, should_record_exception}
use resilience4py.CircuitBreaker.Events.{on_call_not_permitted_event, on_ignored_error_event}
use resilience4py.CircuitBreaker.Metrics.{
  CallOutcome, Snapshot, HalfOpenMetrics, new_half_open_metrics, outcome_at, snapshot_of,
}
use resilience4py.CircuitBreaker.Breaker.{
  State, closed_state, open_state, half_open_state, CircuitBreaker, transition_to_state, publish,
}
use resilience4py.CircuitBreaker.States.{
  acquire_half_open, acquire_permission, observe_half_open, on_success, on_error,
}
use resilience4py.CircuitBreaker.Execute.{begin_call, handle_error, finish_call}

-- How a trial call ended: its start, its end, and a value or an exception.
abbrev pub Trial : Type 0 → Type 0
Trial A = ℕ × ℕ × (A ⊎ Exception)

abbrev pub outcome_of : {A : Type 0} → A ⊎ Exception → Outcome A
outcome_of (inl a) = returned a
outcome_of (inr e) = raised e

module _ {F : Type 0} {A : Type 0} where
  -- A value is a success, and so is an exception that the configuration does not record.
  abbrev pub succeeded : CircuitBreakerConfig F → A ⊎ Exception → Bool
  succeeded c (inl a) = true
  succeeded c (inr e) = not (should_record_exception c e)

  -- What a trial call leaves in the metrics.
  abbrev pub trace : CircuitBreakerConfig F → ℕ → Trial A → CallOutcome
  trace c slow (start, now, o) = outcome_at now (now - start) (succeeded c o) slow

  abbrev pub traces : CircuitBreakerConfig F → ℕ → List (Trial A) → List CallOutcome
  traces c slow [] = []
  traces c slow (t ∷ ts) = trace c slow t ∷ traces c slow ts

module _ {F : Type 0} ⦃fl : Float F⦄ where
  -- Where the rule of the documentation sends a complete half-open state.
  abbrev pub verdict : ℕ → CircuitBreakerConfig F → Snapshot F → State
  verdict now c s =
      if fl.le_float c.failure_rate_threshold s.failure_rate
      then open_state now
      else if fl.le_float c.slow_call_rate_threshold s.slow_call_rate
      then open_state now
      else closed_state

  -- Where a half-open state stands after an outcome `o` was recorded as the last of `calls`.
  abbrev pub After :
      ℕ → CircuitBreakerConfig F → HalfOpenMetrics → ℕ → ℕ → List CallOutcome → State → Type 0
  After now c m used entered calls s =
      (length calls < m.permitted_calls
        → s ≡ half_open_state (record m { half_open_calls = calls }) used entered)
      × (length calls ≡ m.permitted_calls → s ≡ verdict now c (snapshot_of calls))

  observe-After :
      (now d : ℕ) (ok : Bool) (m : HalfOpenMetrics) (used entered : ℕ) (cb : CircuitBreaker F)
      → length m.half_open_calls < m.permitted_calls
      → After now cb.config m used entered
          (m.half_open_calls ++ outcome_at now d ok m.slow_threshold_ms ∷ [])
          (observe_half_open now d ok m used entered cb).state
  unfolding observe_half_open transition_to_state
  observe-After now d ok m used entered cb room =
      let longer = length-append m.half_open_calls (outcome_at now d ok m.slow_threshold_ms ∷ []) in
      (λ h. ground (arith, longer), λ h. ground (arith, longer))

  observe_keeps :
      (now d : ℕ) (ok : Bool) (m : HalfOpenMetrics) (used entered : ℕ) (cb : CircuitBreaker F)
      → ((observe_half_open now d ok m used entered cb).config ≡ cb.config)
        × ((observe_half_open now d ok m used entered cb).metrics ≡ cb.metrics)
  unfolding observe_half_open transition_to_state
  observe_keeps now d ok m used entered cb = ground arith

  module _ (now d : ℕ) (m : HalfOpenMetrics) (used entered : ℕ) (cb : CircuitBreaker F)
      (e : cb.state ≡ half_open_state m used entered) where
    on_success_observes :
        on_success now d cb ≡ (returned tt, observe_half_open now d true m used entered cb)
    unfolding on_success
    on_success_observes = ground arith

    on_error_observes :
        (x : Exception) (b : Bool)
        → should_record_exception cb.config x ≡ b
        → on_error now d x cb ≡ (returned tt, observe_half_open now d (not b) m used entered cb)
    unfolding on_error
    on_error_observes x b h = ground arith

module _ {F : Type 0} {A : Type 0} ⦃fl : Float F⦄ where
  -- One trial call that ends while a half-open state still waits for an outcome is recorded there; with
  -- the last outcome that was waited for the two rates decide between OPEN and CLOSED, and before it the
  -- breaker stays half-open. The result is the function's own, and the sliding window is not touched.
  pub finish_call-After :
      (t : Trial A) (m : HalfOpenMetrics) (used entered : ℕ) (cb : CircuitBreaker F)
      → cb.state ≡ half_open_state m used entered
      → length m.half_open_calls < m.permitted_calls
      → let (o, cb') = finish_call t.0 t.1 (outcome_of t.2) cb in
        After t.1 cb.config m used entered
          (m.half_open_calls ++ trace cb.config m.slow_threshold_ms t ∷ [])
          cb'.state
        × (o ≡ outcome_of t.2)
        × (cb'.config ≡ cb.config)
        × (cb'.metrics ≡ cb.metrics)
  unfolding finish_call handle_error
  finish_call-After (start, now, inl a) m used entered cb e room =
      let d : ℕ = now - start in
      let kept = observe_keeps now d true m used entered cb in
      rw (on_success_observes now d m used entered cb e)
        (observe-After now d true m used entered cb room, refl, kept.0, kept.1)
  finish_call-After (start, now, inr x) m used entered cb e room =
      let d : ℕ = now - start in
      elim (Bool-cases (should_record_exception cb.config x)) [
        | inl counted ↦
            let kept = observe_keeps now d false m used entered cb in
            rw (counted, on_error_observes now d m used entered cb e x true counted)
              (observe-After now d false m used entered cb room, refl, kept.0, kept.1)
        | inr ignored ↦
            let n = publish (on_ignored_error_event x) cb in
            let kept = observe_keeps now d true m used entered n in
            rw (ignored, on_error_observes now d m used entered n e x false ignored)
              (observe-After now d true m used entered n room, refl, kept.0, kept.1)
      ]

  -- Trial calls that end one after another.
  abbrev pub finish_trials : List (Trial A) → CircuitBreaker F → CircuitBreaker F
  finish_trials [] cb = cb
  finish_trials (t ∷ ts) cb = finish_trials ts (finish_call t.0 t.1 (outcome_of t.2) cb).1

  trials_from :
      (ts : List (Trial A)) (last : Trial A) (m : HalfOpenMetrics) (used entered : ℕ)
      (cb : CircuitBreaker F) (c : CircuitBreakerConfig F)
      → cb.state ≡ half_open_state m used entered
      → cb.config ≡ c
      → length m.half_open_calls + suc (length ts) ≡ m.permitted_calls
      → (finish_trials (ts ++ last ∷ []) cb).state
        ≡ verdict last.1 c
            (snapshot_of (m.half_open_calls ++ traces c m.slow_threshold_ms (ts ++ last ∷ [])))
  trials_from [] last m used entered cb c e k n =
      let step = finish_call-After last m used entered cb e (omega arith) in
      let longer =
        length-append m.half_open_calls (trace cb.config m.slow_threshold_ms last ∷ []) in
      rw (← k) (step.0.1 (omega (arith, longer)))
  trials_from (t ∷ ts) last m used entered cb c e k n =
      let step = finish_call-After t m used entered cb e (omega arith) in
      let o = trace cb.config m.slow_threshold_ms t in
      let longer = length-append m.half_open_calls (o ∷ []) in
      let m' : HalfOpenMetrics = record m { half_open_calls = m.half_open_calls ++ o ∷ [] } in
      let ih =
        trials_from ts last m' used entered (finish_call t.0 t.1 (outcome_of t.2) cb).1 c
          (step.0.0 (omega (arith, longer))) (step.2 ∙ k) (omega (arith, longer)) in
      ih ∙ rw append_assoc (rw k)

  -- A half-open breaker that has recorded no outcome has decided once as many trial calls have ended as it
  -- permits, by a value or an exception: it is then open, as of the end of the last one, if the failure rate
  -- or the slow call rate of these calls has reached its threshold, and closed if neither has.
  pub finish_trials-verdict :
      (ts : List (Trial A)) (last : Trial A) (slow used entered : ℕ) (cb : CircuitBreaker F)
      → cb.state
        ≡ half_open_state
            (new_half_open_metrics cb.config.permitted_calls_in_half_open slow)
            used
            entered
      → suc (length ts) ≡ cb.config.permitted_calls_in_half_open
      → (finish_trials (ts ++ last ∷ []) cb).state
        ≡ verdict last.1 cb.config (snapshot_of (traces cb.config slow (ts ++ last ∷ [])))
  unfolding new_half_open_metrics
  finish_trials-verdict ts last slow used entered cb e n =
      trials_from ts last (new_half_open_metrics cb.config.permitted_calls_in_half_open slow) used
        entered cb cb.config e refl (omega arith)

module _ {F : Type 0} where
  -- Calls that ask for permission one after the other, at these times: the answers, in their order.
  unfoldable pub begin_calls : List ℕ → CircuitBreaker F → List Bool × CircuitBreaker F
  begin_calls [] cb = ([], cb)
  begin_calls (now ∷ times) cb =
      let (permitted, asked) = begin_call now cb in
      let (answers, left) = begin_calls times asked in (permitted ∷ answers, left)

  begin_call-exhausted :
      (now : ℕ) (m : HalfOpenMetrics) (used entered : ℕ) (cb : CircuitBreaker F)
      → cb.state ≡ half_open_state m used entered
      → cb.config.max_wait_duration_in_half_open ≡ 0
      → cb.config.permitted_calls_in_half_open ≤ used
      → begin_call now cb ≡ (false, publish on_call_not_permitted_event cb)
  unfolding begin_call acquire_permission acquire_half_open
  begin_call-exhausted now m used entered cb e w u = ground arith

  -- A half-open breaker whose permits are used up and that has no maximum wait refuses every call that
  -- asks for permission, however many they are and however late, and stays in that state, its permits and
  -- outcomes as they were.
  pub begin_calls-exhausted :
      (times : List ℕ) (m : HalfOpenMetrics) (used entered : ℕ) (cb : CircuitBreaker F)
      → cb.state ≡ half_open_state m used entered
      → cb.config.max_wait_duration_in_half_open ≡ 0
      → cb.config.permitted_calls_in_half_open ≤ used
      → let (answers, left) = begin_calls times cb in
        (answers ≡ replicate (length times) false) × (left.state ≡ half_open_state m used entered)
  unfolding begin_calls
  begin_calls-exhausted [] m used entered cb e w u = (refl, e)
  begin_calls-exhausted (now ∷ times) m used entered cb e w u =
      let quiet = publish on_call_not_permitted_event cb in
      let (refused, kept) = begin_calls-exhausted times m used entered quiet e w u in
      rw (begin_calls, begin_call-exhausted now m used entered cb e w u)
        (ap (false ∷◌) refused, kept)
