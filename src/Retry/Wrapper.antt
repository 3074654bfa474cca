-- ===== src/Retry/Wrapper.antt =====
-- retry/retry.py: the wrapper that `_decorate_sync` makes of a plain function, by whether an event loop runs on
-- the calling thread. `is_runtime_error` is the test of `except RuntimeError`, which subclasses pass too.
use resilience4py.Prelude.{ℕ, ◌≡◌, refl, ap, ◌∙◌, Bool, true, false, List, if◌then◌else◌, arith}
use resilience4py.Outcome.{Exception, runtime_error, Outcome, returned, raised, cancelled}
use resilience4py.Retry.Config.{RetryConfig}
use resilience4py.Retry.Loop.{Deed, execute_with_retry}
use resilience4py.Retry.Sync.{execute_sync, without_events, execute_sync-execute_with_retry}
use resilience4py.Core.Decorators.{seen_by_caller}

module _ {A : Type 0} (is_runtime_error : Exception → Bool) where
  -- `future.result()` inside the `try`: the handler of a `RuntimeError` makes a second loop, which refuses to run.
  unfoldable pub after_thread : Outcome A × List (Deed A) → Outcome A × List (Deed A)
  after_thread (returned a, deeds) = (returned a, deeds)
  after_thread (raised e, deeds) =
      if is_runtime_error e then (raised runtime_error, deeds) else (raised e, deeds)
  after_thread (cancelled, deeds) = (cancelled, deeds)

  -- The wrapper: a worker thread runs `_execute_sync` where a loop runs, and a new loop runs
  -- `_execute_with_retry` where none does.
  unfoldable pub call_wrapped : Bool → RetryConfig A → (ℕ → Outcome A) → Outcome A × List (Deed A)
  unfolding after_thread
  call_wrapped loop_runs c func =
      if loop_runs then after_thread (execute_sync c func) else execute_with_retry c func

  -- `Retry.__call__`: a coroutine function is retried in its caller's own loop.
  unfoldable pub call_retried :
      Bool → Bool → RetryConfig A → (ℕ → Outcome A) → Outcome A × List (Deed A)
  unfolding call_wrapped
  call_retried is_coroutine loop_runs c func =
      if is_coroutine then execute_with_retry c func else call_wrapped loop_runs c func

  after_thread-seen :
      (r : Outcome A × List (Deed A))
      → ((after_thread r).0 ≡ seen_by_caller is_runtime_error true r.0) × ((after_thread r).1 ≡ r.1)
  unfolding after_thread
  after_thread-seen (returned a, deeds) = (refl, refl)
  after_thread-seen (raised e, deeds) = ground arith
  after_thread-seen (cancelled, deeds) = (refl, refl)

  seen_outside : (o : Outcome A) → o ≡ seen_by_caller is_runtime_error false o
  seen_outside (returned a) = refl
  seen_outside (raised e) = refl
  seen_outside cancelled = refl

  -- A decorated plain function is called at the same attempts, with the same waits between them, and ends
  -- the same way whether or not an event loop runs on the calling thread, with two exceptions: where one
  -- runs no events are emitted, and a `RuntimeError` at the end, of any subclass, is replaced by the one
  -- of the second loop.
  pub call_wrapped-execute_with_retry :
      (loop_runs : Bool) (c : RetryConfig A) (func : ℕ → Outcome A)
      → let run = execute_with_retry c func in
        ((call_wrapped loop_runs c func).0 ≡ seen_by_caller is_runtime_error loop_runs run.0)
        × ((call_wrapped loop_runs c func).1 ≡ (if loop_runs then without_events run.1 else run.1))
  unfolding call_wrapped
  call_wrapped-execute_with_retry true c func =
      let (ends, does) = after_thread-seen (execute_sync c func) in
      let (ends', does') = execute_sync-execute_with_retry c func in
      (ends ∙ ap (seen_by_caller is_runtime_error true) ends', does ∙ does')
  call_wrapped-execute_with_retry false c func = (seen_outside (execute_with_retry c func).0, refl)
