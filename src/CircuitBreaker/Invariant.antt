-- ===== src/CircuitBreaker/Invariant.antt =====
-- What holds of a circuit breaker between any two steps of the event loop.
use resilience4py.Prelude.{ℕ, ◌≡◌, arith}
use resilience4py.Prelude.Float.{Float}
use resilience4py.Outcome.{Outcome, returned}
use resilience4py.CircuitBreaker.Config.{CircuitBreakerConfig, validate}
use resilience4py.CircuitBreaker.Events.{CircuitBreakerState}
use resilience4py.CircuitBreaker.Breaker.{
  CircuitBreaker, new_breaker, transition_to_state, reset, get_metrics,
}
use resilience4py.CircuitBreaker.Execute.{begin_call, finish_call}
use resilience4py.CircuitBreaker.Consistent.{
  cleanup-WindowFits, IsConsistent, begin_call-IsConsistent, finish_call-IsConsistent,
  transition-IsConsistent,
}

-- A breaker and what may happen to it between two suspensions, in any order: calls begin and finish,
-- several at a time and however they end, and the manual operations are used.
pub data Step {F : Type 0} (A : Type 0) (fl : Float F)
    : CircuitBreaker F → CircuitBreaker F → Type 0 where
  begins : (now : ℕ) (cb : CircuitBreaker F) → Step A fl cb (begin_call now cb).1
  finishes :
      (start now : ℕ) (o : Outcome A) (cb : CircuitBreaker F)
      → Step A fl cb (finish_call ⦃fl = fl⦄ start now o cb).1
  moved :
      (now : ℕ) (s : CircuitBreakerState) (cb : CircuitBreaker F)
      → Step A fl cb (transition_to_state now s cb)
  is_reset : (cb : CircuitBreaker F) → Step A fl cb (reset cb)
  inspected : (now : ℕ) (cb : CircuitBreaker F) → Step A fl cb (get_metrics ⦃fl = fl⦄ now cb).2

pub data Reach {F : Type 0} (A : Type 0) (fl : Float F) (s : CircuitBreaker F)
    : CircuitBreaker F → Type 0 where
  here : Reach A fl s s
  next : {t u : CircuitBreaker F} → Reach A fl s t → Step A fl t u → Reach A fl s u

module _ {F : Type 0} where
  new_breaker-IsConsistent :
      ⦃fl : Float F⦄
      → (c : CircuitBreakerConfig F) → validate c ≡ returned tt
      → IsConsistent (new_breaker c)
  unfolding new_breaker validate
  new_breaker-IsConsistent c v = ground arith

  reset-IsConsistent : (cb : CircuitBreaker F) → IsConsistent cb → IsConsistent (reset cb)
  unfolding reset
  reset-IsConsistent cb h = ground arith

  get_metrics-IsConsistent :
      ⦃fl : Float F⦄
      → (now : ℕ) (cb : CircuitBreaker F) → IsConsistent cb
      → IsConsistent (get_metrics now cb).2
  unfolding get_metrics
  get_metrics-IsConsistent now cb h =
      ground (arith, cleanup-WindowFits now cb.config cb.metrics h.window_fits)

module _ {F : Type 0} {A : Type 0} {fl : Float F} where
  Step-IsConsistent : {s t : CircuitBreaker F} → Step A fl s t → IsConsistent s → IsConsistent t
  Step-IsConsistent (begins now cb) h = begin_call-IsConsistent now cb h
  Step-IsConsistent (finishes start now o cb) h =
      finish_call-IsConsistent A ⦃fl = fl⦄ start now o cb h
  Step-IsConsistent (moved now s cb) h = transition-IsConsistent now s cb h
  Step-IsConsistent (is_reset cb) h = reset-IsConsistent cb h
  Step-IsConsistent (inspected now cb) h = get_metrics-IsConsistent ⦃fl = fl⦄ now cb h

  pub Reach-IsConsistent :
      {s t : CircuitBreaker F} → Reach A fl s t → IsConsistent s → IsConsistent t
  Reach-IsConsistent here h = h
  Reach-IsConsistent (next r st) h = Step-IsConsistent st (Reach-IsConsistent r h)

  -- Every breaker that a valid configuration leads to, by any calls in any order and any manual
  -- operations, is consistent: the window has the configured shape and a count-based one holds at most
  -- `sliding_window_size` calls, and a half-open state has handed out no more than its permits and holds
  -- fewer outcomes than it waits for.
  pub reachable-IsConsistent :
      (c : CircuitBreakerConfig F) {t : CircuitBreaker F}
      → validate ⦃fl = fl⦄ c ≡ returned tt
      → Reach A fl (new_breaker c) t
      → IsConsistent t
  reachable-IsConsistent c v r = Reach-IsConsistent r (new_breaker-IsConsistent ⦃fl = fl⦄ c v)
