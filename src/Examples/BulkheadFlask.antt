-- ===== src/Examples/BulkheadFlask.antt =====
-- examples/bulkhead_flask.py: its four operations, their statistics and their bulkheads. Flask serves each
-- request on a thread of its own, so a request is cut where its function runs, and where it waits for a
-- permit. Random draws are arguments; measured times and thread identities are left out of the answers.
use Prim.Native.String.{String}
use text.Mathlib.Text.{◌==◌}
use resilience4py.Prelude.{
  ℕ, ◌+◌, ◌-◌, ◌*◌, Bool, true, false, Option, none, some, List, [], ◌∷◌, if◌then◌else◌,
}
use resilience4py.Prelude.Float.{Float}
use resilience4py.Outcome.{
  Exception, user, key_error, bulkhead_full, Outcome, returned, raised, cancelled,
}
use resilience4py.CircuitBreaker.Metrics.{percent}
use resilience4py.Bulkhead.Permits.{Permits}
use resilience4py.Bulkhead.Semaphore.{BulkheadConfig, semaphore_bulkhead, new_semaphore}
use resilience4py.Bulkhead.Execute.{begin_call, finish_call, wait_cancelled}
use resilience4py.Examples.Attributes.{seconds, Response}
mod Operations
unfoldable pub use Operations.*

-- The "bulkhead" entry of an answer: `_semaphore._value` and the configured maximum. When asyncio wakes a
-- request that waits, it may take the permit out of `_value` at once, while the permits of the model still
-- count it until that request goes on: `handed` is the number of these permits when the answer is made.
pub record BulkheadEntry : Type 0 where
  pub name : Operation
  pub available_concurrent_calls : ℕ
  pub max_concurrent_calls : ℕ

unfoldable pub bulkhead_entry : ℕ → Operation → App → BulkheadEntry
bulkhead_entry handed op app = record {
  name = op;
  available_concurrent_calls = (app.bulkheads op).semaphore - handed;
  max_concurrent_calls = (bulkhead_config op).max_concurrent_calls;
}

pub data BulkheadReply : Type 0 where
  success : OperationData → BulkheadEntry → BulkheadReply
  rejected_reply : Exception → BulkheadEntry → BulkheadReply
  database_error_reply : Exception → BulkheadEntry → BulkheadReply
  forbidden : BulkheadReply

-- `"bulkhead" in str(e).lower()`: of the exceptions that reach the view only the one of a full bulkhead has a
-- message with that word.
abbrev pub mentions_bulkhead : Exception → Bool
mentions_bulkhead bulkhead_full = true
mentions_bulkhead _ = false

abbrev rejected_response : ℕ → Operation → Exception → App → Outcome (Response BulkheadReply) × App
rejected_response handed op e app =
    let app' = track_operation op rejected_status app in
    (
      returned
          (record { status_code = 503; body = rejected_reply e (bulkhead_entry handed op app') }),
      app',
    )

-- The `except` blocks of the four views.
unfoldable pub failed_response :
    ℕ → Operation → Exception → App → Outcome (Response BulkheadReply) × App
unfolding track_operation bulkhead_entry
failed_response handed database_operations e app =
    if mentions_bulkhead e then rejected_response handed database_operations e app else (
      returned (record {
        status_code = 500;
        body = database_error_reply e (bulkhead_entry handed database_operations app);
      }),
      app,
    )
failed_response handed op e app = rejected_response handed op e app

-- The views from the end of the protected call.
unfoldable pub answer_request :
    ℕ → Operation → Outcome OperationData → App → Outcome (Response BulkheadReply) × App
unfolding failed_response bulkhead_entry
answer_request handed op (returned result) app = (
  returned (record { status_code = 200; body = success result (bulkhead_entry handed op app) }),
  app,
)
answer_request handed op (raised e) app = failed_response handed op e app
answer_request handed op cancelled app = (cancelled, app)

-- A protected call with nothing in between.
unfoldable pub protected_operation :
    (ℕ → ℕ) → Operation → Bool → Draws → App → Option (Outcome OperationData × App)
unfolding begin_operation end_operation
protected_operation root op late draws app = elim (begin_operation op late app) [
  | none ↦ none
  | some (true, app') ↦ some (simulate root op draws, end_operation op app')
  | some (false, app') ↦ some (raised bulkhead_full, app')
]

-- A view with nothing in between, behind the check of the premium view.
unfoldable pub handle_request :
    (ℕ → ℕ) → ℕ → Operation → Bool → Draws → App → Option (Outcome (Response BulkheadReply) × App)
unfolding protected_operation answer_request
handle_request root handed op late draws app = elim (protected_operation root op late draws app) [
  | none ↦ none
  | some (o, app') ↦ some (answer_request handed op o app')
]

-- `premium_endpoint`, by the lower-cased header `X-User-Premium`, if there is one.
unfoldable pub premium_endpoint :
    (ℕ → ℕ)
    → ℕ
    → Option String
    → Bool
    → Draws
    → App
    → Option (Outcome (Response BulkheadReply) × App)
unfolding handle_request
premium_endpoint root handed header late draws app =
    let value : String = elim header [ none ↦ "false" | some v ↦ v ] in
    if value == "true"
    then handle_request root handed premium_operations late draws app
    else some (returned (record { status_code = 403; body = forbidden }), app)

pub record BulkheadUsage (F : Type 0) : Type 0 where
  pub entry : BulkheadEntry
  pub current_usage_percent : F

-- `bulkhead_status`: the entry of each bulkhead, with the statistics of its operation.
unfoldable pub bulkhead_status :
    {F : Type 0}
    → ⦃fl : Float F⦄ → (Operation → ℕ)
    → App
    → Operation
    → BulkheadUsage F × OperationStats
unfolding bulkhead_entry
bulkhead_status handed app op =
    let entry = bulkhead_entry (handed op) op app in
    (
      record {
        entry = entry;
        current_usage_percent =
            percent (entry.max_concurrent_calls - entry.available_concurrent_calls)
              entry.max_concurrent_calls;
      },
      app.operation_stats op,
    )

-- The operation of a load test's type, if there is one of that name.
unfoldable pub operation_of : String → Option Operation
operation_of name =
    if name == "cpu"
    then some cpu_operations
    else if name == "io"
    then some io_operations
    else if name == "database"
    then some database_operations
    else if name == "premium"
    then some premium_operations
    else none

-- An entry in front of the results of the other requests.
abbrev pub with_entry :
    Option Exception
    → Option (Outcome (List (Option Exception)) × App)
    → Option (Outcome (List (Option Exception)) × App)
with_entry entry (some (returned results, app)) = some (returned (entry ∷ results), app)
with_entry entry rest = rest

-- The loop of `load_test`, by what happens to each request: for each, in order, the exception that it was
-- rejected with, if any. `none` while a request waits.
unfoldable pub load_requests :
    (ℕ → ℕ)
    → Operation
    → List (Bool × Draws)
    → App
    → Option (Outcome (List (Option Exception)) × App)
unfolding protected_operation
load_requests root op [] app = some (returned [], app)
load_requests root op ((late, draws) ∷ requests) app =
    elim (protected_operation root op late draws app) [
      | none ↦ none
      | some (returned result, app') ↦ with_entry none (load_requests root op requests app')
      | some (raised e, app') ↦ with_entry (some e) (load_requests root op requests app')
      | some (cancelled, app') ↦ some (cancelled, app')
    ]

-- `load_test`, up to the text "N/A" for the calls that are available: no bulkhead has that attribute. Of an
-- unknown type no request is made, and the lookup of its bulkhead raises a `KeyError`.
unfoldable pub load_test :
    (ℕ → ℕ) → String → List (Bool × Draws) → App → Option (Outcome (List (Option Exception)) × App)
unfolding operation_of load_requests
load_test root name requests app = elim (operation_of name) [
  | none ↦ some (raised key_error, app)
  | some op ↦ load_requests root op requests app
]
