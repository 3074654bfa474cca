-- ===== src/CircuitBreaker/Followed.antt =====
-- A listener that follows the published events, and that each operation of the circuit breaker agrees
-- with it.
use resilience4py.Prelude.{
  ℕ, ◌-◌, ◌≡◌, refl, ◌∙◌, sym, ap, Bool, true, not, Option, some, none, List, [], ◌∷◌, ◌++◌, arith,
  if◌then◌else◌,
}
use resilience4py.Prelude.Float.{Float}
use resilience4py.Outcome.{Exception, runtime_error, Outcome, returned, raised, cancelled}
use resilience4py.CircuitBreaker.Config.{CircuitBreakerConfig, should_record_exception}
use resilience4py.CircuitBreaker.Events.{
  CircuitBreakerState, closed, opened, half_open, same_state, CircuitBreakerEvent, on_success_event,
  on_error_event, on_call_not_permitted_event, on_state_transition_event, on_reset_event,
  on_ignored_error_event, on_slow_call_rate_exceeded_event, on_failure_rate_exceeded_event,
}
use resilience4py.CircuitBreaker.Metrics.{
  record_half_open, HalfOpenMetrics, record_success, record_failure, get_snapshot,
}
use resilience4py.CircuitBreaker.Breaker.{
  State, closed_state, open_state, half_open_state, CircuitBreaker, new_state, transition_to_state,
  reset, state_type, publish,
}
use resilience4py.CircuitBreaker.States.{
  acquire_half_open, acquire_open, acquire_after_open, acquire_permission, check_thresholds,
  on_success, on_error, observe_half_open,
}
use resilience4py.CircuitBreaker.Consistent.{on_success-cases}
use resilience4py.CircuitBreaker.Execute.{begin_call, handle_error, finish_call}

same_state_self : (s : CircuitBreakerState) → same_state s s ≡ true
unfolding same_state
same_state_self closed = refl
same_state_self _ = refl

module _ {F : Type 0} where
  -- A listener that follows the transition and reset events from the state `s`: it ends in `none` when a
  -- transition does not start where it stands.
  abbrev pub follow : CircuitBreakerState → CircuitBreakerEvent F → Option CircuitBreakerState
  follow s (on_state_transition_event from to) = if same_state s from then some to else none
  follow s on_reset_event = some closed
  follow s _ = some s

  abbrev pub follow_all :
      Option CircuitBreakerState → List (CircuitBreakerEvent F) → Option CircuitBreakerState
  follow_all s [] = s
  follow_all none (e ∷ es) = none
  follow_all (some s) (e ∷ es) = follow_all (follow s e) es

  follow_all-none : (es : List (CircuitBreakerEvent F)) → follow_all none es ≡ none
  follow_all-none [] = refl
  follow_all-none (e ∷ es) = refl

  follow_all-append :
      (s : Option CircuitBreakerState) (es fs : List (CircuitBreakerEvent F))
      → follow_all s (es ++ fs) ≡ follow_all (follow_all s es) fs
  follow_all-append s [] fs = refl
  follow_all-append none (e ∷ es) fs = sym (follow_all-none fs)
  follow_all-append (some s) (e ∷ es) fs = follow_all-append (follow s e) es fs

  -- The log, followed from CLOSED, ends in the state of the breaker.
  abbrev pub IsFollowed : CircuitBreaker F → Type 0
  IsFollowed cb = follow_all (some closed) cb.published ≡ some (state_type cb.state)

  publish-follow :
      (e : CircuitBreakerEvent F) (cb : CircuitBreaker F)
      → IsFollowed cb
      → follow_all (some closed) (publish e cb).published ≡ follow (state_type cb.state) e
  publish-follow e cb h =
      follow_all-append (some closed) cb.published (e ∷ []) ∙ ap (λ s. follow_all s (e ∷ [])) h

  state_type-new_state :
      (now : ℕ) (s : CircuitBreakerState) (c : CircuitBreakerConfig F)
      → state_type (new_state now s c) ≡ s
  unfolding new_state
  state_type-new_state now closed c = refl
  state_type-new_state now _ c = refl

  pub transition-IsFollowed :
      (now : ℕ) (s : CircuitBreakerState) (cb : CircuitBreaker F)
      → IsFollowed cb
      → IsFollowed (transition_to_state now s cb)
  unfolding transition_to_state
  transition-IsFollowed now s cb h = ground (
    arith,
    publish-follow (on_state_transition_event (state_type cb.state) s) cb h,
    same_state_self (state_type cb.state),
  )

  acquire_half_open-IsFollowed :
      (now : ℕ) (m : HalfOpenMetrics) (used entered : ℕ) (cb : CircuitBreaker F)
      → state_type cb.state ≡ half_open
      → IsFollowed cb
      → IsFollowed (acquire_half_open now m used entered cb).1
  unfolding acquire_half_open
  acquire_half_open-IsFollowed now m used entered cb e h =
      ground (arith, transition-IsFollowed now opened cb h)

  acquire_after_open-IsFollowed :
      (now : ℕ) (s : State) (cb : CircuitBreaker F)
      → cb.state ≡ s
      → IsFollowed cb
      → IsFollowed (acquire_after_open now s cb).1
  unfolding acquire_after_open
  acquire_after_open-IsFollowed now (half_open_state m used entered) cb e h =
      acquire_half_open-IsFollowed now m used entered cb (ap state_type e) h
  acquire_after_open-IsFollowed now closed_state cb e h = h
  acquire_after_open-IsFollowed now _ cb e h = h

  acquire_open-IsFollowed :
      (now opened_at : ℕ) (cb : CircuitBreaker F)
      → IsFollowed cb
      → IsFollowed (acquire_open now opened_at cb).1
  unfolding acquire_open
  acquire_open-IsFollowed now opened_at cb h =
      let t = transition_to_state now half_open cb in
      ground (
        arith,
        acquire_after_open-IsFollowed now t.state t refl (transition-IsFollowed now half_open cb h),
      )

  module _ (now : ℕ) (cb : CircuitBreaker F) (h : IsFollowed cb) where
    acquire_in-IsFollowed : (s : State) → cb.state ≡ s → IsFollowed (acquire_permission now cb).1
    unfolding acquire_permission
    acquire_in-IsFollowed (open_state opened_at) e =
        ground (arith, acquire_open-IsFollowed now opened_at cb h)
    acquire_in-IsFollowed (half_open_state m used entered) e =
        ground (arith, acquire_half_open-IsFollowed now m used entered cb)
    acquire_in-IsFollowed _ e = ground arith

    pub begin_call-IsFollowed : IsFollowed (begin_call now cb).1
    unfolding begin_call
    begin_call-IsFollowed =
        let followed = acquire_in-IsFollowed cb.state refl in
        ground (
          arith,
          followed,
          publish-follow on_call_not_permitted_event (acquire_permission now cb).1 followed,
        )

  pub reset-IsFollowed : (cb : CircuitBreaker F) → IsFollowed cb → IsFollowed (reset cb)
  unfolding reset
  reset-IsFollowed cb h = publish-follow on_reset_event cb h

module _ {F : Type 0} ⦃fl : Float F⦄ where
  check_thresholds-IsFollowed :
      (now : ℕ) (cb : CircuitBreaker F) → IsFollowed cb → IsFollowed (check_thresholds now cb)
  unfolding check_thresholds
  check_thresholds-IsFollowed now cb h =
      let (s, m) = get_snapshot {F = F} now cb.metrics in
      let t = transition_to_state now opened (record cb { metrics = m }) in
      let followed = transition-IsFollowed now opened (record cb { metrics = m }) h in
      ground (
        arith,
        followed,
        publish-follow (on_failure_rate_exceeded_event s.failure_rate) t followed,
        publish-follow (on_slow_call_rate_exceeded_event s.slow_call_rate) t followed,
      )

  observe-IsFollowed :
      (now d : ℕ) (ok : Bool) (m : HalfOpenMetrics) (used entered : ℕ) (cb : CircuitBreaker F)
      → state_type cb.state ≡ half_open
      → IsFollowed cb
      → IsFollowed (observe_half_open now d ok m used entered cb)
  unfolding observe_half_open
  observe-IsFollowed now d ok m used entered cb e h =
      let seen : CircuitBreaker F = record cb {
        state = half_open_state (record_half_open now d ok m) used entered;
      } in
      let same : IsFollowed seen = h ∙ ap some e in
      ground (
        arith,
        same,
        transition-IsFollowed now opened seen same,
        transition-IsFollowed now closed seen same,
      )

  module _ (now d : ℕ) (cb : CircuitBreaker F) (h : IsFollowed cb) where
    on_success_in-IsFollowed : (s : State) → cb.state ≡ s → IsFollowed (on_success now d cb).1
    unfolding on_success
    on_success_in-IsFollowed closed_state e = ground (
      arith,
      check_thresholds-IsFollowed now (record cb { metrics = record_success now d cb.metrics }) h,
    )
    on_success_in-IsFollowed (half_open_state m used entered) e =
        ground (arith, observe-IsFollowed now d true m used entered cb)
    on_success_in-IsFollowed _ e = ground arith

    on_error_in-IsFollowed :
        (x : Exception) (s : State) → cb.state ≡ s → IsFollowed (on_error now d x cb).1
    unfolding on_error
    on_error_in-IsFollowed x closed_state e = ground (
      arith,
      check_thresholds-IsFollowed now (record cb { metrics = record_failure now d cb.metrics }) h,
    )
    on_error_in-IsFollowed x (half_open_state m used entered) e = ground (
      arith,
      observe-IsFollowed now d (not (should_record_exception cb.config x)) m used entered cb,
    )
    on_error_in-IsFollowed x _ e = ground arith

  handle_error-IsFollowed :
      (A : Type 0) (now d : ℕ) (x : Exception) (cb : CircuitBreaker F)
      → IsFollowed cb
      → IsFollowed (handle_error {A = A} now d x cb).1
  unfolding handle_error
  handle_error-IsFollowed A now d x cb h =
      let noted = publish (on_ignored_error_event x) cb in
      let noted_followed = publish-follow (on_ignored_error_event x) cb h in
      let plain = on_error_in-IsFollowed now d cb h x cb.state refl in
      let after = on_error_in-IsFollowed now d noted noted_followed x noted.state refl in
      ground (
        arith,
        plain,
        after,
        publish-follow (on_error_event d x) (on_error now d x cb).1 plain,
        publish-follow (on_error_event d x) (on_error now d x noted).1 after,
      )

  pub finish_call-IsFollowed :
      {A : Type 0} (start now : ℕ) (o : Outcome A) (cb : CircuitBreaker F)
      → IsFollowed cb
      → IsFollowed (finish_call start now o cb).1
  unfolding finish_call
  finish_call-IsFollowed {A} start now (returned a) cb h =
      let d : ℕ = now - start in
      let fine = on_success_in-IsFollowed now d cb h cb.state refl in
      ground (
        arith,
        on_success-cases now d cb,
        publish-follow (on_success_event d) (on_success now d cb).1 fine,
        handle_error-IsFollowed A now d runtime_error cb h,
      )
  finish_call-IsFollowed {A} start now (raised x) cb h =
      handle_error-IsFollowed A now (now - start) x cb h
  finish_call-IsFollowed start now cancelled cb h = h
