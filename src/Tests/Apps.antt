-- ===== src/Tests/Apps.antt =====
-- The example applications, and the events of a retry, on concrete inputs.
use resilience4py.Prelude.{
  ℕ, ◌==◌, Bool, ◌+◌, ◌≡◌, ◌≤◌, refl, true, false, none, some, List, [], ◌∷◌, map, arith, ltb,
  if◌then◌else◌,
}
use resilience4py.Outcome.{Outcome, user, returned, raised, cancelled}
use resilience4py.Bulkhead.Permits.{new_permits}
use resilience4py.Bulkhead.Execute.{begin_call}
use resilience4py.Bulkhead.Semaphore.{semaphore_bulkhead, acquire_semaphore, new_semaphore}
use resilience4py.Retry.Config.{RetryConfig}
use resilience4py.Retry.Loop.{execute_with_retry}
use resilience4py.Retry.Interrupted.{IsCut, execute_interrupted, execute_interrupted-IsCut}
use resilience4py.Examples.BulkheadFlask
use resilience4py.Examples.BulkheadFlask.{
  new_app, bulkhead_config, bulkhead_entry, cpu_operations, database_operations, update,
  begin_operation, simulate, load_test, operation_of,
}
use resilience4py.Examples.Isolation.{
  Running, AppReach, started, then_step, begins, AppReach-bulkhead_entry,
}
use resilience4py.Examples.LoadTest.{exception_of, patient, load_test-map}

-- Two calls fail, and the third is cancelled.
abbrev config : RetryConfig ℕ
config = record {
  max_attempts = 4;
  wait_duration = 5;
  interval_function = none;
  retry_on_exception = λ e. true;
  retry_on_result = none;
  fail_after_max_attempts = false;
  retry_exceptions = [];
  abort_exceptions = [];
}

abbrev func : ℕ → Outcome ℕ
func attempt = if ltb attempt 3 then raised (user attempt) else cancelled

-- The sleep behind the second call is cancelled.
abbrev interrupts : ℕ → Bool
interrupts attempt = attempt == 2

execute_interrupted-IsCut_example :
    (before : List ℕ) × (j : ℕ) × IsCut config interrupts before j
      (execute_interrupted config interrupts func)
      (execute_with_retry config func)
execute_interrupted-IsCut_example = execute_interrupted-IsCut config interrupts func (omega arith)

-- For the load test the root does not matter.
abbrev root : ℕ → ℕ
root num = num

-- One request computes primes, and others have been answered.
abbrev busy : BulkheadFlask.App
busy = elim (begin_operation cpu_operations false new_app) [ none ↦ new_app | some (b, app) ↦ app ]

begun : begin_operation cpu_operations false new_app ≡ some (true, busy)
unfolding begin_operation begin_call semaphore_bulkhead acquire_semaphore bulkhead_config new_app
    new_semaphore new_permits
begun = refl

abbrev at_work : Running
at_work = update cpu_operations 1 (λ op. 0)

busy-AppReach : AppReach at_work busy
busy-AppReach = then_step started (begins cpu_operations false begun)

-- The one permit that is left has been handed to a request that waited.
AppReach-bulkhead_entry_example :
    let entry = bulkhead_entry 1 cpu_operations busy in
    let stats = busy.operation_stats cpu_operations in
    (entry.available_concurrent_calls + 1 + 1 ≡ entry.max_concurrent_calls)
    × (entry.max_concurrent_calls ≡ 2)
    × (1 ≤ entry.max_concurrent_calls)
    × (stats.active ≡ stats.completed + 1)
unfolding bulkhead_config begin_operation begin_call semaphore_bulkhead acquire_semaphore new_app
    new_semaphore new_permits
AppReach-bulkhead_entry_example =
    AppReach-bulkhead_entry 1 cpu_operations busy-AppReach (omega arith)

-- Every second query fails.
abbrev draws : List BulkheadFlask.Draws
draws =
    record { delay = 100; size = 7; fails = false }
    ∷ record { delay = 900; size = 1; fails = true }
    ∷ record { delay = 300; size = 2; fails = false }
    ∷ []

load_test-map_example :
    (app : BulkheadFlask.App) × (load_test root "database" (map patient draws) busy
      ≡ some (returned (map (λ d. exception_of (simulate root database_operations d)) draws), app))
unfolding operation_of bulkhead_config
load_test-map_example =
    load_test-map root "database" database_operations draws at_work busy refl busy-AppReach
      (omega arith)
