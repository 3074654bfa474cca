-- ===== src/Tests/Attempts.antt =====
-- The retry loop on concrete inputs.
use resilience4py.Prelude.{
  Bool, false, some, refl, ◌∷◌, ◌==◌, ℕ, zero, suc, ◌≡◌, true, none, [], arith,
}
use resilience4py.Outcome.{Exception, user, overflow_error, Outcome, returned, raised}
use resilience4py.Retry.Config.{RetryConfig, should_retry_exception}
use resilience4py.Retry.Loop.{execute_with_retry, called, emitted, on_ignored_error_event}
use resilience4py.Retry.Waits.{
  execute_waiting, waiting_loop, after_attempt_waiting, on_exception, checked_wait,
}
use resilience4py.Prelude.Int.{ℤ}
use resilience4py.Retry.Trace.{IsTrace, execute_with_retry-IsTrace}
use resilience4py.Retry.Sync.{without_events}
use resilience4py.Retry.Wrapper.{call_wrapped, call_wrapped-execute_with_retry}
use resilience4py.Core.Decorators.{seen_by_caller}

abbrev retry_config : RetryConfig ℕ
retry_config = record {
  max_attempts = 3;
  wait_duration = 40;
  interval_function = none;
  retry_on_exception = λ e. true;
  retry_on_result = none;
  fail_after_max_attempts = true;
  retry_exceptions = [];
  abort_exceptions = [];
}

-- It raises at its first call only.
abbrev flaky : ℕ → Outcome ℕ
flaky (suc zero) = raised (user 1)
flaky n = returned n

execute_with_retry-IsTrace_example :
    (k : ℕ) × IsTrace retry_config flaky 1 none k (execute_with_retry retry_config flaky)
execute_with_retry-IsTrace_example = execute_with_retry-IsTrace retry_config flaky (omega arith)

-- The user's exception 1 is a `RuntimeError`.
abbrev is_runtime_error : Exception → Bool
is_runtime_error (user n) = n == 1
is_runtime_error _ = false

call_wrapped-execute_with_retry_example :
    let run = execute_with_retry retry_config flaky in
    ((call_wrapped is_runtime_error true retry_config flaky).0
      ≡ seen_by_caller is_runtime_error true run.0)
    × ((call_wrapped is_runtime_error true retry_config flaky).1 ≡ without_events run.1)
call_wrapped-execute_with_retry_example =
    call_wrapped-execute_with_retry is_runtime_error true retry_config flaky

-- The first result is to be retried, and the interval function fails: the caller gets its exception instead, as if
-- the function had raised it.
abbrev overflowing : ℕ → Outcome ℤ
overflowing attempt = raised overflow_error

overflow_ends_run :
    execute_waiting
      (record retry_config { retry_on_result = some (λ a. true); retry_on_exception = λ e. false })
      overflowing
      (λ attempt. returned 7)
    ≡ (raised overflow_error, called 1 ∷ emitted (on_ignored_error_event 1 overflow_error) ∷ [])
unfolding execute_waiting waiting_loop after_attempt_waiting on_exception checked_wait
    should_retry_exception
overflow_ends_run = refl
