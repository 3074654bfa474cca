-- ===== src/Examples/LoadTest.antt =====
-- What `load_test` of examples/bulkhead_flask.py gets from the bulkheads, since it makes its requests one by
-- one.
use Prim.Native.String.{String}
use resilience4py.Prelude.{
  ℕ, suc, ◌≡◌, ◌<◌, refl, Bool, true, false, Option, none, some, List, [], ◌∷◌, map, inl, inr,
  arith, ap, ◌∙◌, ◌⊎◌, Bool-cases,
}
use resilience4py.Outcome.{Exception, Outcome, returned, raised}
use resilience4py.Bulkhead.Semaphore.{semaphore_bulkhead}
use resilience4py.Bulkhead.Balance.{begin_call_room}
use resilience4py.Examples.BulkheadFlask.{
  Operation, App, bulkhead_config, track_operation, active_status, set_bulkhead, update,
  begin_operation, end_operation, Draws, OperationData, simulate, protected_operation,
  load_requests, load_test, operation_of, cpu_operations, io_operations, database_operations,
  premium_operations, with_entry, database_timeout, database_query,
}
use resilience4py.Examples.Isolation.{
  Running, AppReach, AllBooked, AppReach-AllBooked, AppStep-AllBooked, max_calls, begins, works,
  same_operation_refl,
}

-- With room, a call that does not time out goes through.
begin_operation_room :
    (op : Operation) (n : Running) (app : App)
    → AllBooked n app
    → n op < max_calls op
    → (app' : App) × (begin_operation op false app ≡ some (true, app'))
unfolding begin_operation
begin_operation_room op n app h room =
    let s = (h op).sound in
    let (q, went) =
      begin_call_room (semaphore_bulkhead (bulkhead_config op)) (n op) (app.bulkheads op) s.balanced
        (omega (arith, room, s.capacity_kept)) in
    (track_operation op active_status (set_bulkhead op q app), rw (begin_operation, went) refl)

protected_operation_room :
    (root : ℕ → ℕ) (op : Operation) (draws : Draws) (n : Running) (app : App)
    → AllBooked n app
    → n op < max_calls op
    → (m : Running) × (app' : App) × (protected_operation root op false draws app
        ≡ some (simulate root op draws, app'))
      × AllBooked m app'
      × (m op ≡ n op)
unfolding protected_operation
protected_operation_room root op draws n app h room =
    let (app', began) = begin_operation_room op n app h room in
    let at_work = AppStep-AllBooked (begins op false began) h in
    let busy : update op (suc (n op)) n op ≡ suc (n op) = rw (same_operation_refl op) refl in
    (
      update op (n op) (update op (suc (n op)) n),
      end_operation op app',
      rw (protected_operation, began) refl,
      AppStep-AllBooked (works op (n op) busy) at_work,
      rw (same_operation_refl op) refl,
    )

-- The exception, if any, that an operation's work ends with.
abbrev pub exception_of : Outcome OperationData → Option Exception
exception_of (raised e) = some e
exception_of _ = none

abbrev pub patient : Draws → Bool × Draws
patient draws = (false, draws)

-- What the work of an operation gives: a result, or an exception.
simulate-ends :
    (root : ℕ → ℕ) (op : Operation) (draws : Draws)
    → ((data_of : OperationData) × (simulate root op draws ≡ returned data_of))
      ⊎ ((e : Exception) × (simulate root op draws ≡ raised e))
unfolding simulate
simulate-ends root cpu_operations draws = inl (_, refl)
simulate-ends root io_operations draws = inl (_, refl)
simulate-ends root premium_operations draws = inl (_, refl)
simulate-ends root database_operations draws = elim (Bool-cases draws.fails) [
  | inl fails ↦ inr (database_timeout, rw fails refl)
  | inr succeeds ↦ inl (database_query draws.delay draws.size, rw succeeds refl)
]

load_requests-step :
    (root : ℕ → ℕ) (op : Operation) (draws : Draws) (requests : List (Bool × Draws))
    (app app' : App)
    → protected_operation root op false draws app ≡ some (simulate root op draws, app')
    → load_requests root op (patient draws ∷ requests) app
      ≡ with_entry (exception_of (simulate root op draws)) (load_requests root op requests app')
unfolding load_requests
load_requests-step root op draws requests app app' e = elim (simulate-ends root op draws) [
  | inl (result, worked) ↦ rw (load_requests, e, worked) refl
  | inr (error, failed) ↦ rw (load_requests, e, failed) refl
]

load_requests-patient :
    (root : ℕ → ℕ) (op : Operation) (drawn : List Draws) (n : Running) (app : App)
    → AllBooked n app
    → n op < max_calls op
    → (app' : App) × (load_requests root op (map patient drawn) app
        ≡ some (returned (map (λ d. exception_of (simulate root op d)) drawn), app'))
unfolding load_requests
load_requests-patient root op [] n app h room = (app, refl)
load_requests-patient root op (draws ∷ drawn) n app h room =
    let (m, app', goes, booked, same) = protected_operation_room root op draws n app h room in
    let (last, rest) = load_requests-patient root op drawn m app' booked (rw same room) in
    (
      last,
      load_requests-step root op draws (map patient drawn) app app' goes ∙ ap (with_entry _) rest,
    )

load_test_eq :
    (root : ℕ → ℕ) (name : String) (op : Operation) (requests : List (Bool × Draws)) (app : App)
    → operation_of name ≡ some op
    → load_test root name requests app ≡ load_requests root op requests app
unfolding load_test
load_test_eq root name op requests app e = rw (load_test, e) refl

-- A load test of an operation that is not full, during which no other request comes and no wait for a permit
-- times out, gets through to the work with every request, however many they are: it ends, and the results are
-- those of the work of each request, in order, instead of those of a full bulkhead.
pub load_test-map :
    (root : ℕ → ℕ) (name : String) (op : Operation) (drawn : List Draws) (n : Running) (app : App)
    → operation_of name ≡ some op
    → AppReach n app
    → n op < max_calls op
    → (app' : App) × (load_test root name (map patient drawn) app
        ≡ some (returned (map (λ d. exception_of (simulate root op d)) drawn), app'))
load_test-map root name op drawn n app e r room =
    let (last, all_through) =
      load_requests-patient root op drawn n app (AppReach-AllBooked r) room in
    (last, load_test_eq root name op (map patient drawn) app e ∙ all_through)
