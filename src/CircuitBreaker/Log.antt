-- ===== src/CircuitBreaker/Log.antt =====
-- The published events of the circuit breaker against its state.
use resilience4py.Prelude.{refl}
use resilience4py.Prelude.Float.{Float}
use resilience4py.CircuitBreaker.Config.{CircuitBreakerConfig}
use resilience4py.CircuitBreaker.Breaker.{CircuitBreaker, new_breaker, get_metrics}
use resilience4py.CircuitBreaker.Invariant.{
  Step, begins, finishes, moved, is_reset, inspected, Reach, here, next,
}
use resilience4py.CircuitBreaker.Followed.{
  IsFollowed, begin_call-IsFollowed, finish_call-IsFollowed, transition-IsFollowed,
  reset-IsFollowed,
}

module _ {F : Type 0} {A : Type 0} {fl : Float F} where
  Step-IsFollowed : {s t : CircuitBreaker F} → Step A fl s t → IsFollowed s → IsFollowed t
  Step-IsFollowed (begins now cb) h = begin_call-IsFollowed now cb h
  Step-IsFollowed (finishes start now o cb) h = finish_call-IsFollowed ⦃fl = fl⦄ start now o cb h
  Step-IsFollowed (moved now s cb) h = transition-IsFollowed now s cb h
  Step-IsFollowed (is_reset cb) h = reset-IsFollowed cb h
  Step-IsFollowed (inspected now cb) h = unfold get_metrics in h

  Reach-IsFollowed : {s t : CircuitBreaker F} → Reach A fl s t → IsFollowed s → IsFollowed t
  Reach-IsFollowed here h = h
  Reach-IsFollowed (next r st) h = Step-IsFollowed st (Reach-IsFollowed r h)

  -- The published events tell the state: whatever calls and manual operations a new breaker has been
  -- through, each transition event starts in the state in which the events before it ended, and the last
  -- one ends in the state that the breaker is in.
  pub published-IsFollowed :
      (c : CircuitBreakerConfig F) {t : CircuitBreaker F}
      → Reach A fl (new_breaker c) t
      → IsFollowed t
  published-IsFollowed c r = Reach-IsFollowed r (unfold new_breaker in refl)
