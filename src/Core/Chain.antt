-- ===== src/Core/Chain.antt =====
-- The patterns around one function: a circuit breaker, a rate limiter and a bulkhead as the decorators of
-- composites (core/decorators.py), and retries around these. A `Retry` has no `_execute_async`, so it is no
-- decorator of a composite: it wraps the function that a composite makes.
use resilience4py.Prelude.{
  ℕ, ◌-◌, ◌≡◌, refl, ◌<◌, none, some, List, [], ◌∷◌, map, Bool, true, false, arith, if◌then◌else◌,
  suc, inl, inr, Option-cases, Bool-cases, ◌≢◌,
}
use resilience4py.Prelude.Float.{Float}
use resilience4py.Outcome.{
  request_not_permitted, bulkhead_full, call_not_permitted, Outcome, raised,
}
use resilience4py.CircuitBreaker.Events.{on_call_not_permitted_event}
use resilience4py.CircuitBreaker.Breaker.{CircuitBreaker, open_state, publish}
use resilience4py.CircuitBreaker.Opened.{begin_call-refused_early}
use resilience4py.CircuitBreaker.Execute
use resilience4py.RateLimiter.Limiter
use resilience4py.RateLimiter.Limiter.{AtomicRateLimiter}
use resilience4py.Bulkhead.Permits.{Permits, Bulkhead, IsBalanced}
use resilience4py.Bulkhead.Execute as BulkheadExecute
use resilience4py.Bulkhead.Balance.{
  begin_call-admitted, begin_call-refused, begin_call-none, finish_call-IsBalanced,
}
use resilience4py.Retry.Config.{RetryConfig}
use resilience4py.Core.Retries.{retry_wrapper, retry_wrapper-keeps}
use resilience4py.Core.Decorators.{Action, Decorator, composite, composite_nil, composite_cons}

-- What the decorated calls share, with the clock and the waits: `reading n` is what the clock shows, and
-- `late n` whether a wait for a permit times out, when they are asked for the `n`-th time.
pub record World (F : Type 0) : Type 0 where
  pub breaker : CircuitBreaker F
  pub limiter : AtomicRateLimiter
  pub permits : Permits
  pub reading : ℕ → ℕ
  pub late : ℕ → Bool
  pub asked : ℕ

-- One decorator of a composite.
pub data Pattern : Type 0 where
  breaks limits isolates : Pattern

-- What is around a function: a composite, or a retry.
pub data Layer (A : Type 0) : Type 0 where
  composed : List Pattern → Layer A
  retried : RetryConfig A → Layer A

-- A bulkhead that never makes a call wait for a permit.
abbrev pub AnswersAtOnce : Bulkhead → Type 0
AnswersAtOnce b =
    (late : Bool) (n : ℕ) (p : Permits) → IsBalanced n p → b.acquire_permission late p ≢ none

module _ {F A : Type 0} ⦃fl : Float F⦄ where
  -- `CircuitBreaker._execute_async`
  unfoldable pub breaker_decorator : Decorator (World F) A
  breaker_decorator func w =
      let start = w.reading w.asked in
      let (permitted, cb) = Execute.begin_call start w.breaker in
      if permitted
      then elim (func (record w { breaker = cb; asked = suc w.asked })) [
        | none ↦ none
        | some (o, w') ↦
            let (o', cb') = Execute.finish_call start (w'.reading w'.asked) o w'.breaker in
            some (o', record w' { breaker = cb'; asked = suc w'.asked })
      ]
      else some (raised call_not_permitted, record w { breaker = cb; asked = suc w.asked })

  -- `AtomicRateLimiter._execute_async`. The sleep changes nothing here.
  unfoldable pub limiter_decorator : Decorator (World F) A
  limiter_decorator func w =
      let (slept, l) = Limiter.admit (w.reading w.asked) w.limiter in
      elim slept [
        | none ↦ some (raised request_not_permitted, record w { limiter = l; asked = suc w.asked })
        | some _ ↦
            func (record w {
              limiter = Limiter.publish Limiter.on_success_event l;
              asked = suc w.asked;
            })
      ]

  -- `_execute_async` of a bulkhead.
  unfoldable pub bulkhead_decorator : Bulkhead → Decorator (World F) A
  bulkhead_decorator b func w = elim (BulkheadExecute.begin_call b (w.late w.asked) w.permits) [
    | none ↦ none
    | some (admitted, q) ↦
        if admitted
        then elim (func (record w { permits = q; asked = suc w.asked })) [
          | none ↦ none
          | some (o, w') ↦ some (o, record w' { permits = BulkheadExecute.finish_call w'.permits })
        ]
        else some (raised bulkhead_full, record w { permits = q; asked = suc w.asked })
  ]

  abbrev pub decorator_of : Bulkhead → Pattern → Decorator (World F) A
  decorator_of b breaks = breaker_decorator
  decorator_of b limits = limiter_decorator
  decorator_of b isolates = bulkhead_decorator b

  -- The function under these layers, the outermost first.
  unfoldable pub stack : Bulkhead → List (Layer A) → Action (World F) A → Action (World F) A
  stack b [] func = func
  stack b (composed pats ∷ layers) func =
      composite (map (decorator_of b) pats) (stack b layers func)
  stack b (retried c ∷ layers) func = retry_wrapper c (stack b layers func)

  -- A function that ends, whatever the number of calls that hold a permit, and leaves that number.
  abbrev pub Keeps : Action (World F) A → Type 0
  Keeps func =
      (n : ℕ) (w : World F)
      → IsBalanced n w.permits
      → (o : Outcome A) × (w' : World F) × (func w ≡ some (o, w')) × IsBalanced n w'.permits

  breaker-Keeps : (func : Action (World F) A) → Keeps func → Keeps (breaker_decorator func)
  unfolding breaker_decorator
  breaker-Keeps func k n w h =
      elim (Bool-cases (Execute.begin_call (w.reading w.asked) w.breaker).0) [
        | inl permitted ↦
            let start = w.reading w.asked in
            let cb = (Execute.begin_call start w.breaker).1 in
            let (o, w', ran, kept) = k n (record w { breaker = cb; asked = suc w.asked }) h in
            let done = Execute.finish_call start (w'.reading w'.asked) o w'.breaker in
            (
              done.0,
              record w' { breaker = done.1; asked = suc w'.asked },
              ground (arith, ran),
              kept,
            )
        | inr refused ↦ (
          raised call_not_permitted,
          record w {
            breaker = (Execute.begin_call (w.reading w.asked) w.breaker).1;
            asked = suc w.asked;
          },
          ground arith,
          h,
        )
      ]

  limiter-Keeps : (func : Action (World F) A) → Keeps func → Keeps (limiter_decorator func)
  unfolding limiter_decorator
  limiter-Keeps func k n w h = elim (Option-cases (Limiter.admit (w.reading w.asked) w.limiter).0) [
    | inl denied ↦ (
      raised request_not_permitted,
      record w { limiter = (Limiter.admit (w.reading w.asked) w.limiter).1; asked = suc w.asked },
      ground arith,
      h,
    )
    | inr (slept, granted) ↦
        let l =
          Limiter.publish Limiter.on_success_event
            (Limiter.admit (w.reading w.asked) w.limiter).1 in
        let (o, w', ran, kept) = k n (record w { limiter = l; asked = suc w.asked }) h in
        (o, w', ground (arith, ran), kept)
  ]

  module _ (b : Bulkhead) (at_once : AnswersAtOnce b) where
    bulkhead-Keeps : (func : Action (World F) A) → Keeps func → Keeps (bulkhead_decorator b func)
    unfolding bulkhead_decorator
    bulkhead-Keeps func k n w h =
        let late = w.late w.asked in
        elim (Option-cases (BulkheadExecute.begin_call b late w.permits)) [
          | inl waits ↦ absurd (at_once late n w.permits h (begin_call-none b late w.permits waits))
          | inr ((true, q), went) ↦
              let s = begin_call-admitted b late n w.permits q h went in
              let (o, w', ran, kept) =
                k (suc n) (record w { permits = q; asked = suc w.asked }) s.1 in
              (
                o,
                record w' { permits = BulkheadExecute.finish_call w'.permits },
                ground (arith, went, ran),
                (finish_call-IsBalanced n w'.permits kept (ground (arith, kept))).0,
              )
          | inr ((false, q), went) ↦
              let s = begin_call-refused b late n w.permits q h went in
              (
                raised bulkhead_full,
                record w { permits = q; asked = suc w.asked },
                ground (arith, went),
                s.0,
              )
        ]

    decorator-Keeps :
        (pat : Pattern) (func : Action (World F) A) → Keeps func → Keeps (decorator_of b pat func)
    decorator-Keeps breaks func k = breaker-Keeps func k
    decorator-Keeps limits func k = limiter-Keeps func k
    decorator-Keeps isolates func k = bulkhead-Keeps func k

    chain-Keeps :
        (pats : List Pattern) (func : Action (World F) A)
        → Keeps func
        → Keeps (composite (map (decorator_of b) pats) func)
    chain-Keeps [] func k = rw (composite_nil func) k
    chain-Keeps (pat ∷ pats) func k =
        rw (composite_cons (decorator_of b pat) (map (decorator_of b) pats) func) (
          decorator-Keeps pat (composite (map (decorator_of b) pats) func)
            (chain-Keeps pats func k))

    stack-Keeps :
        (layers : List (Layer A)) (func : Action (World F) A)
        → Keeps func
        → Keeps (stack b layers func)
    unfolding stack
    stack-Keeps [] func k = k
    stack-Keeps (composed pats ∷ layers) func k =
        chain-Keeps pats (stack b layers func) (stack-Keeps layers func k)
    stack-Keeps (retried c ∷ layers) func k = λ n w h.
        retry_wrapper-keeps c (λ w'. IsBalanced n w'.permits) (stack b layers func)
          (λ w' h'. stack-Keeps layers func k n w' h') w h

    -- However composites of a circuit breaker, a rate limiter and a bulkhead, and retries are put around a
    -- function, the decorators of a composite and the layers in any order and number: if the function always
    -- ends and leaves as many calls with a permit of the bulkhead as it found, so does a call through all
    -- layers, whichever pattern refuses it, however often it is tried again and however the function ends.
    -- The bulkhead is one that answers at once.
    pub chain_balances :
        (layers : List (Layer A)) (func : Action (World F) A) (n : ℕ) (w : World F)
        → Keeps func
        → IsBalanced n w.permits
        → (o : Outcome A) × (w' : World F) × (stack b layers func w ≡ some (o, w'))
          × IsBalanced n w'.permits
    chain_balances layers func n w k h = stack-Keeps layers func k n w h

    -- While an open breaker's wait lasts, a composite that it stands first in refuses every call: the
    -- function is not run, whatever the other patterns are, and neither the limiter nor the bulkhead is
    -- asked.
    pub chain_refuses :
        (opened_at : ℕ) (pats : List Pattern) (func : Action (World F) A) (w : World F)
        → w.breaker.state ≡ open_state opened_at
        → w.reading w.asked - opened_at < w.breaker.config.wait_duration_in_open_state
        → composite (map (decorator_of b) (breaks ∷ pats)) func w
          ≡ some (
            raised call_not_permitted,
            record w {
              breaker = publish on_call_not_permitted_event w.breaker;
              asked = suc w.asked;
            },
          )
    unfolding breaker_decorator
    chain_refuses opened_at pats func w e early =
        let refused = begin_call-refused_early (w.reading w.asked) opened_at w.breaker e early in
        rw (composite_cons (decorator_of b breaks) (map (decorator_of b) pats) func, refused) refl
