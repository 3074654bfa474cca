-- ===== src/CircuitBreaker/Sync.antt =====
-- The wrapper that `_decorate_sync` of circuitbreaker/circuit_breaker.py makes of a synchronous function. Where
-- an event loop runs on the calling thread, it hands its coroutine to that loop and waits for the
-- result on the loop's own thread. Coroutines are named by the future that `run_coroutine_threadsafe` makes.
use resilience4py.Prelude.{
  ℕ, Bool, if◌then◌else◌, ◌≡◌, Option, none, some, List, [], ◌∷◌, ◌++◌, arith,
}
use resilience4py.Outcome.{Outcome}
use resilience4py.Registry.{lookup}
use resilience4py.Core.Decorators.{Action}

-- A loop, as other threads see it: the future that its thread is blocked on, the coroutines that have been handed
-- over, those that it has begun to run, and the results that it has set.
pub record EventLoop (A : Type 0) : Type 0 where
  pub waits_for : Option ℕ
  pub ready : List ℕ
  pub started : List ℕ
  pub results : List (ℕ × Outcome A)

module _ {A : Type 0} where
  -- `asyncio.run_coroutine_threadsafe(self._execute_async(...), loop).result()` on the loop's own thread.
  unfoldable pub call_in_loop : ℕ → EventLoop A → EventLoop A
  call_in_loop future l = record l { waits_for = some future; ready = l.ready ++ future ∷ [] }

-- How a call of the wrapper goes on: it ends as the coroutine does, `none` while that waits, or it has blocked the
-- loop of its thread.
pub data Called (W A : Type 0) : Type 0 where
  answered : Option (Outcome A × W) → Called W A
  blocked : EventLoop A → Called W A

-- The wrapper, by the loop that runs on the calling thread. Without one the coroutine runs in a new loop.
unfoldable pub call_breaker_sync :
    {W A : Type 0} → Option (EventLoop A) → ℕ → Action W A → W → Called W A
call_breaker_sync none future run w = answered (run w)
call_breaker_sync (some l) future run w = blocked (call_in_loop future l)

-- `CircuitBreaker.__call__` and `decorate`: a coroutine function is awaited in its caller's own loop.
unfoldable pub call_breaker :
    {W A : Type 0} → Bool → Option (EventLoop A) → ℕ → Action W A → W → Called W A
unfolding call_breaker_sync
call_breaker is_coroutine loop future run w =
    if is_coroutine then answered (run w) else call_breaker_sync loop future run w

module _ {A : Type 0} where
  -- What may happen next. A thread that is not blocked may do anything; one that is blocked goes on once its
  -- future has a result. The other threads may hand over coroutines at any time.
  pub data Step : EventLoop A → EventLoop A → Type 0 where
    hands_over :
        (future : ℕ) (l : EventLoop A) → Step l (record l { ready = l.ready ++ future ∷ [] })
    runs : {l l' : EventLoop A} → l.waits_for ≡ none → Step l l'
    wakes :
        {future : ℕ} {o : Outcome A} {l : EventLoop A}
        → l.waits_for ≡ some future
        → lookup future l.results ≡ some o
        → Step l (record l { waits_for = none })

  pub data Steps : EventLoop A → EventLoop A → Type 0 where
    stays : {l : EventLoop A} → Steps l l
    later : {l l' l'' : EventLoop A} → Steps l l' → Step l' l'' → Steps l l''

  abbrev IsStuck : ℕ → EventLoop A → EventLoop A → Type 0
  IsStuck future l l' =
      (l'.waits_for ≡ some future) × (l'.started ≡ l.started) × (l'.results ≡ l.results)

  Step-IsStuck :
      (future : ℕ) (l l' l'' : EventLoop A)
      → lookup future l.results ≡ none
      → Step l' l''
      → IsStuck future l l'
      → IsStuck future l l''
  Step-IsStuck future l l' l'' fresh (hands_over other _) stuck = stuck
  Step-IsStuck future l l' l'' fresh (runs free) stuck = ground (arith, free, stuck)
  Step-IsStuck future l l' l'' fresh (wakes waits done) stuck =
      ground (arith, fresh, waits, done, stuck)

  Steps-IsStuck :
      (future : ℕ) (l m l' : EventLoop A)
      → lookup future l.results ≡ none
      → Steps m l'
      → IsStuck future l m
      → IsStuck future l l'
  Steps-IsStuck future l m l' fresh stays stuck = stuck
  Steps-IsStuck future l m l' fresh (later {l' = n} steps step) stuck =
      Step-IsStuck future l n l' fresh step (Steps-IsStuck future l m n fresh steps stuck)

  -- A call of a synchronous function that a circuit breaker decorates hangs where an event loop runs on the
  -- calling thread, whatever other threads do: the thread waits for the call's own future, which had no result
  -- before, and the loop begins no coroutine, so that the function is not called, and sets no result.
  pub call_breaker_sync_hangs :
      {W : Type 0} (run : Action W A) (w : W) (future : ℕ) (l m l' : EventLoop A)
      → lookup future l.results ≡ none
      → call_breaker_sync (some l) future run w ≡ blocked m
      → Steps m l'
      → (l'.waits_for ≡ some future) × (l'.started ≡ l.started) × (l'.results ≡ l.results)
  unfolding call_in_loop call_breaker_sync
  call_breaker_sync_hangs run w future l m l' fresh calls steps =
      Steps-IsStuck future l m l' fresh steps (ground (arith, calls))
