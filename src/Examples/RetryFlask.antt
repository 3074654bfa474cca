-- ===== src/Examples/RetryFlask.antt =====
-- examples/retry_flask.py. Flask runs the functions on threads without an event loop. The state is the count
-- of calls of each failure scenario; a request is taken as one step. Rates and draws are in hundredths, where
-- the code has floats; intervals are in nanoseconds, and `database_interval` is that of the database retry,
-- whose powers of 1.5 are not whole.
use Prim.Native.String.{String}
use text.Mathlib.Text.{◌==◌}
use resilience4py.Prelude.{
  ℕ, zero, suc, ◌+◌, ◌-◌, ◌*◌, ◌%◌, ◌^◌, min, max, Bool, true, false, Option, none, some, List, [],
  ◌∷◌, length, ltb, if◌then◌else◌,
}
use resilience4py.Outcome.{Exception, user, Outcome, returned, raised}
use resilience4py.Retry.Config.{RetryConfig}
use resilience4py.Retry.Loop.{Deed}
use resilience4py.Retry.Wrapper.{call_wrapped}
use resilience4py.Retry.Attempts.{calls}
use resilience4py.Retry.Fibonacci.{fib}
use resilience4py.Examples.Attributes.{
  seconds, read_attribute, retry_names, and_then, except_exception, Response,
}

pub data Strategy : Type 0 where
  fixed_interval exponential_backoff fibonacci_backoff database_specific : Strategy

abbrev pub attempts_of : Strategy → ℕ
attempts_of fixed_interval = 3
attempts_of exponential_backoff = 4
attempts_of fibonacci_backoff = 5
attempts_of database_specific = 3

-- `ExponentialBackoff(initial_interval=0.5, multiplier=2.0, max_interval=10.0)`: these floats are exact.
abbrev doubled_interval : ℕ → ℕ
doubled_interval attempt = min (500000000 * 2 ^ (attempt - 1)) (10 * seconds)

abbrev interval_of : (ℕ → ℕ) → Strategy → ℕ → ℕ
interval_of database_interval fixed_interval = λ attempt. 1 * seconds
interval_of database_interval exponential_backoff = doubled_interval
interval_of database_interval fibonacci_backoff = λ attempt. 100000000 * fib (max 1 attempt)
interval_of database_interval database_specific = database_interval

-- The messages of a service failure name its class first, in the order of the list; those of a database
-- failure are behind them.
abbrev service_error : ℕ → Exception
service_error kind = user (kind % 4)

abbrev database_error : ℕ → Exception
database_error kind = user (4 + kind % 3)

-- `"Database" in str(ex) or "Connection" in str(ex)`: the message of every database failure ends with
-- "Database operation failed", and the first service error is "ConnectionTimeout".
abbrev pub names_database : Exception → Bool
names_database (user zero) = true
names_database (user (suc others)) = ltb 2 others
names_database _ = false

abbrev predicate_of : Strategy → Exception → Bool
predicate_of database_specific e = names_database e
predicate_of _ e = true

-- The configurations of the four retries.
unfoldable pub strategy_config : {A : Type 0} → (ℕ → ℕ) → Strategy → RetryConfig A
strategy_config database_interval strategy = record {
  max_attempts = attempts_of strategy;
  wait_duration = (elim strategy [ database_specific ↦ 2 | _ ↦ 1 ]) * seconds;
  interval_function = some (interval_of database_interval strategy);
  retry_on_exception = predicate_of strategy;
  retry_on_result = none;
  fail_after_max_attempts = false;
  retry_exceptions = [];
  abort_exceptions = [];
}

-- `failure_scenarios`
pub data Scenario : Type 0 where
  transient improving persistent : Scenario

pub record FailureCounts : Type 0 where
  pub transient_count : ℕ
  pub improving_count : ℕ
  pub persistent_count : ℕ

abbrev pub no_failures : FailureCounts
no_failures = record { transient_count = 0; improving_count = 0; persistent_count = 0 }

-- `failure_scenarios.get(scenario, failure_scenarios["transient"])`
unfoldable pub scenario_named : String → Scenario
scenario_named name =
    if name == "improving"
    then improving
    else if name == "persistent"
    then persistent
    else transient

abbrev pub failure_count : Scenario → FailureCounts → ℕ
failure_count transient counts = counts.transient_count
failure_count improving counts = counts.improving_count
failure_count persistent counts = counts.persistent_count

abbrev pub add_failures : Scenario → ℕ → FailureCounts → FailureCounts
add_failures transient n counts = record counts { transient_count = counts.transient_count + n }
add_failures improving n counts = record counts { improving_count = counts.improving_count + n }
add_failures persistent n counts = record counts { persistent_count = counts.persistent_count + n }

-- `current_failure_rate`, where `count` calls have been made, this one included.
unfoldable pub current_failure_rate : Scenario → ℕ → ℕ
current_failure_rate transient count = 70
current_failure_rate improving count = max (90 - min (count * 10) 80) 10
current_failure_rate persistent count = 95

-- The draws of one call: for its failure, and which error.
pub record Draws : Type 0 where
  pub draw : ℕ
  pub kind : ℕ

-- `simulate_unreliable_service` behind the count, which a success reports.
unfoldable pub simulate_unreliable_service : Scenario → ℕ → Draws → Outcome ℕ
unfolding current_failure_rate
simulate_unreliable_service scenario count d =
    if ltb d.draw (current_failure_rate scenario count)
    then raised (service_error d.kind)
    else returned count

-- `simulate_database_operation`, undecorated: the number of rows is a draw too.
unfoldable pub simulate_database_operation : Draws → Outcome ℕ
simulate_database_operation d =
    if ltb d.draw 60 then raised (database_error d.kind) else returned d.kind

-- The services raise an `Exception`, never a `RuntimeError`.
abbrev is_runtime_error : Exception → Bool
is_runtime_error e = false

-- The functions that are decorated with the first three retries. The attempts of a run follow each other, so
-- the `j`-th finds the count `j` above the one at the start.
unfoldable pub call_service :
    Strategy → Scenario → (ℕ → Draws) → FailureCounts → Outcome ℕ × List (Deed ℕ) × FailureCounts
unfolding strategy_config simulate_unreliable_service
call_service strategy scenario draws counts =
    let (result, deeds) =
      call_wrapped is_runtime_error false (strategy_config (λ attempt. 0) strategy)
        (λ j. simulate_unreliable_service scenario (failure_count scenario counts + j) (draws j)) in
    (result, deeds, add_failures scenario (length (calls deeds)) counts)

unfoldable pub call_database : (ℕ → ℕ) → (ℕ → Draws) → Outcome ℕ × List (Deed ℕ)
unfolding strategy_config simulate_database_operation
call_database database_interval draws =
    call_wrapped is_runtime_error false (strategy_config database_interval database_specific)
      (λ j. simulate_database_operation (draws j))

pub data RetryReply : Type 0 where
  -- the result, the strategy, and the value of `metrics`
  retry_success : ℕ → Strategy → Unit {0} → RetryReply
  retry_failed : Exception → Strategy → Unit {0} → RetryReply

-- The four views from the end of the call: both answers read `metrics` of the retry.
unfoldable pub answer_retry : Strategy → Outcome ℕ → Outcome (Response RetryReply)
unfolding and_then except_exception read_attribute
answer_retry strategy result =
    let metrics = read_attribute retry_names "metrics" in
    except_exception
      (and_then result (λ value.
        and_then metrics
          (λ m. returned (record { status_code = 200; body = retry_success value strategy m }))))
      (λ e.
        and_then metrics
          (λ m. returned (record { status_code = 503; body = retry_failed e strategy m })))

-- `request.args.get('scenario', 'transient')`, looked up.
abbrev pub requested : Option String → Scenario
requested none = scenario_named "transient"
requested (some name) = scenario_named name

-- `test_fixed_retry`, `test_exponential_retry` and `test_fibonacci_retry`
unfoldable pub test_retry :
    Strategy
    → Option String
    → (ℕ → Draws)
    → FailureCounts
    → Outcome (Response RetryReply) × FailureCounts
unfolding call_service answer_retry
test_retry strategy argument draws counts =
    let (result, deeds, counts') = call_service strategy (requested argument) draws counts in
    (answer_retry strategy result, counts')

-- `test_database_retry`
unfoldable pub test_database_retry : (ℕ → ℕ) → (ℕ → Draws) → Outcome (Response RetryReply)
unfolding call_database answer_retry
test_database_retry database_interval draws =
    answer_retry database_specific (call_database database_interval draws).0

-- `get_retry_metrics`, up to the first counter that it reads.
unfoldable pub get_retry_metrics : Outcome (Unit {0})
unfolding and_then read_attribute
get_retry_metrics =
    and_then (read_attribute retry_names "name") (λ _. read_attribute retry_names "metrics")

-- `reset_scenarios`: the keys that it answers, and the counts.
unfoldable pub reset_scenarios : FailureCounts → List Scenario × FailureCounts
reset_scenarios counts = (transient ∷ improving ∷ persistent ∷ [], no_failures)
