-- ===== src/Examples/BulkheadFlask/Operations.antt =====
-- The operations of examples/bulkhead_flask.py: their bulkheads, their statistics, and their simulated work.
use resilience4py.Prelude.{ℕ, ◌+◌, ◌*◌, Bool, true, false, Option, none, some, if◌then◌else◌}
use resilience4py.Outcome.{Exception, user, Outcome, returned, raised}
use resilience4py.Bulkhead.Permits.{Permits}
use resilience4py.Bulkhead.Semaphore.{BulkheadConfig, semaphore_bulkhead, new_semaphore}
use resilience4py.Bulkhead.Execute.{begin_call, finish_call, wait_cancelled}
use resilience4py.Examples.Attributes.{seconds}
use resilience4py.Examples.Primes.{primes_below}

-- The keys of `operation_stats`.
pub data Operation : Type 0 where
  cpu_operations io_operations database_operations premium_operations : Operation

abbrev pub same_operation : Operation → Operation → Bool
same_operation cpu_operations cpu_operations = true
same_operation io_operations io_operations = true
same_operation database_operations database_operations = true
same_operation premium_operations premium_operations = true
same_operation _ _ = false

-- The configurations of the four bulkheads.
unfoldable pub bulkhead_config : Operation → BulkheadConfig
bulkhead_config cpu_operations = record {
  max_concurrent_calls = 2;
  max_wait_duration = 5 * seconds;
}
bulkhead_config io_operations = record {
  max_concurrent_calls = 10;
  max_wait_duration = 3 * seconds;
}
bulkhead_config database_operations = record {
  max_concurrent_calls = 5;
  max_wait_duration = 2 * seconds;
}
bulkhead_config premium_operations = record {
  max_concurrent_calls = 20;
  max_wait_duration = 1 * seconds;
}

pub record OperationStats : Type 0 where
  pub active : ℕ
  pub completed : ℕ
  pub rejected : ℕ

pub data Status : Type 0 where
  active_status completed_status rejected_status : Status

pub record App : Type 0 where
  pub bulkheads : Operation → Permits
  pub operation_stats : Operation → OperationStats

unfoldable pub new_app : App
new_app = record {
  bulkheads = λ op. new_semaphore (bulkhead_config op);
  operation_stats = λ op. record { active = 0; completed = 0; rejected = 0 };
}

-- The value for one operation, with the others kept.
abbrev pub update {ℓ} : {V : Type ℓ} → Operation → V → (Operation → V) → Operation → V
update op v f other = if same_operation other op then v else f other

abbrev pub set_bulkhead : Operation → Permits → App → App
set_bulkhead op p app = record app { bulkheads = update op p app.bulkheads }

abbrev pub add_one : Status → OperationStats → OperationStats
add_one active_status s = record s { active = s.active + 1 }
add_one completed_status s = record s { completed = s.completed + 1 }
add_one rejected_status s = record s { rejected = s.rejected + 1 }

unfoldable pub track_operation : Operation → Status → App → App
track_operation op status app = record app {
  operation_stats = update op (add_one status (app.operation_stats op)) app.operation_stats;
}

-- What an operation draws at random: its delay in milliseconds, the size or the number of rows, and whether
-- the draw for a database error is below 0.1.
pub record Draws : Type 0 where
  pub delay : ℕ
  pub size : ℕ
  pub fails : Bool

pub data OperationData : Type 0 where
  -- the number of primes
  cpu_intensive : ℕ → OperationData
  -- the delay, with the size of the data or the number of rows
  io_operation : ℕ → ℕ → OperationData
  database_query : ℕ → ℕ → OperationData
  premium_service : ℕ → OperationData

-- `Exception("Database connection timeout")`
abbrev pub database_timeout : Exception
database_timeout = user 0

-- What the four `simulate_` functions return or raise; `root` is `int(num ** 0.5)`.
unfoldable pub simulate : (ℕ → ℕ) → Operation → Draws → Outcome OperationData
unfolding primes_below
simulate root cpu_operations d = returned (cpu_intensive (primes_below root 10000))
simulate root io_operations d = returned (io_operation d.delay d.size)
simulate root database_operations d =
    if d.fails then raised database_timeout else returned (database_query d.delay d.size)
simulate root premium_operations d = returned (premium_service d.delay)

-- A protected operation up to its work: admitted, it is tracked as active. `late` says that the wait for a
-- permit runs into its timeout, and `none` that the call waits.
unfoldable pub begin_operation : Operation → Bool → App → Option (Bool × App)
unfolding track_operation
begin_operation op late app =
    elim (begin_call (semaphore_bulkhead (bulkhead_config op)) late (app.bulkheads op)) [
      | none ↦ none
      | some (true, p) ↦ some (true, track_operation op active_status (set_bulkhead op p app))
      | some (false, p) ↦ some (false, set_bulkhead op p app)
    ]

-- The end of its work, successful or not, and of the call.
unfoldable pub end_operation : Operation → App → App
unfolding track_operation finish_call
end_operation op app =
    let worked = track_operation op completed_status app in
    set_bulkhead op (finish_call (worked.bulkheads op)) worked

-- An exception while it waits, such as that of a semaphore that another event loop has waited on.
unfoldable pub fail_waiting : Operation → App → App
unfolding wait_cancelled
fail_waiting op app = set_bulkhead op (wait_cancelled (app.bulkheads op)) app
