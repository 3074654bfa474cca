-- ===== src/Examples/RetryExample.antt =====
-- example_retry.py: four functions under the retry, and the `main` that calls them, in an event loop. Draws
-- are in hundredths; intervals are in nanoseconds, up to the rounding of the float 0.1. What the code prints
-- is left out.
use resilience4py.Prelude.{
  ℕ, ◌-◌, ◌*◌, ◌^◌, min, Bool, true, false, none, some, List, [], ◌∷◌, ltb, ◌==◌, if◌then◌else◌,
}
use resilience4py.Outcome.{Exception, user, value_error, Outcome, returned, raised, cancelled}
use resilience4py.Retry.Config.{RetryConfig}
use resilience4py.Retry.Loop.{execute_with_retry}
use resilience4py.Retry.Wrapper.{call_wrapped}

abbrev milliseconds : ℕ
milliseconds = 1000000

abbrev pub connection_error : Exception
connection_error = user 0

abbrev timeout_error : Exception
timeout_error = user 1

-- The classes `ConnectionError`, `TimeoutError` and `ValueError`.
abbrev pub is_connection_error : Exception → Bool
is_connection_error (user n) = n == 0
is_connection_error _ = false

abbrev is_timeout_error : Exception → Bool
is_timeout_error (user n) = n == 1
is_timeout_error _ = false

abbrev pub is_value_error : Exception → Bool
is_value_error value_error = true
is_value_error _ = false

-- The default values of `RetryConfig`, with the number of attempts.
abbrev attempts_only : {A : Type 0} → ℕ → RetryConfig A
attempts_only n = record {
  max_attempts = n;
  wait_duration = 500 * milliseconds;
  interval_function = none;
  retry_on_exception = λ e. true;
  retry_on_result = none;
  fail_after_max_attempts = false;
  retry_exceptions = [];
  abort_exceptions = [];
}

unfoldable pub simple_config : RetryConfig (Unit {0})
simple_config = attempts_only 3

unfoldable pub flaky_function : ℕ → Outcome (Unit {0})
flaky_function draw = if ltb draw 70 then raised value_error else returned tt

unfoldable pub exponential_config : RetryConfig (Unit {0})
exponential_config = record (attempts_only 5) {
  interval_function =
      some (λ attempt. min (100 * milliseconds * 2 ^ (attempt - 1)) (5000 * milliseconds));
}

unfoldable pub async_api_call : ℕ → Outcome (Unit {0})
async_api_call draw = if ltb draw 60 then raised connection_error else returned tt

unfoldable pub conditional_config : RetryConfig (Unit {0})
conditional_config = record (attempts_only 3) {
  retry_exceptions =
      record { identity = 0; isinstance = is_connection_error }
      ∷ record { identity = 1; isinstance = is_timeout_error }
      ∷ [];
  abort_exceptions = record { identity = 2; isinstance = is_value_error } ∷ [];
  fail_after_max_attempts = true;
}

-- By the argument `should_fail_with_value_error`.
unfoldable pub network_operation : Bool → ℕ → Outcome (Unit {0})
network_operation should_fail draw =
    if should_fail
    then raised value_error
    else if ltb draw 50
    then raised connection_error
    else returned tt

-- The entry "status" of a result.
pub data ApiStatus : Type 0 where
  error_status success_status : ApiStatus

unfoldable pub should_retry_result : ApiStatus → Bool
should_retry_result error_status = true
should_retry_result success_status = false

unfoldable pub result_config : RetryConfig ApiStatus
unfolding should_retry_result
result_config = record (attempts_only 3) { retry_on_result = some should_retry_result }

unfoldable pub api_call_with_status : ℕ → Outcome ApiStatus
api_call_with_status draw = if ltb draw 60 then returned error_status else returned success_status

-- None of the functions raises a `RuntimeError`.
abbrev pub is_runtime_error : Exception → Bool
is_runtime_error e = false

-- A plain function that is called from `main`, where a loop runs.
abbrev pub call_plain : {A : Type 0} → RetryConfig A → (ℕ → Outcome A) → Outcome A
call_plain c func = (call_wrapped is_runtime_error true c func).0

-- `try: ... except <class>`: whether the call succeeded, or the exception that was not caught.
abbrev pub try_catch : {A : Type 0} → (Exception → Bool) → Outcome A → Outcome Bool
try_catch catches (returned a) = returned true
try_catch catches (raised e) = if catches e then returned false else raised e
try_catch catches cancelled = cancelled

abbrev pub any_exception : Exception → Bool
any_exception e = true

-- The next example of `main`, behind those that have ended.
abbrev pub next_example : Outcome Bool → Outcome (List Bool) → Outcome (List Bool)
next_example (returned b) (returned bs) = returned (b ∷ bs)
next_example (returned b) rest = rest
next_example (raised e) rest = raised e
next_example cancelled rest = cancelled

-- `main`, by the draws of each example's attempts: which of the five calls succeeded.
unfoldable pub main : (ℕ → ℕ) → (ℕ → ℕ) → (ℕ → ℕ) → (ℕ → ℕ) → Outcome (List Bool)
unfolding flaky_function async_api_call network_operation api_call_with_status simple_config
    exponential_config conditional_config result_config
main draws1 draws2 draws3 draws4 =
    next_example
      (try_catch is_value_error (call_plain simple_config (λ j. flaky_function (draws1 j))))
      (next_example
        (try_catch is_connection_error
          (execute_with_retry exponential_config (λ j. async_api_call (draws2 j))).0)
        (next_example
          (try_catch any_exception
            (call_plain conditional_config (λ j. network_operation false (draws3 j))))
          (next_example
            (try_catch any_exception
              (call_plain conditional_config (λ j. network_operation true (draws3 j))))
            (next_example
              (try_catch (λ e. false)
                (call_plain result_config (λ j. api_call_with_status (draws4 j))))
              (returned [])))))
