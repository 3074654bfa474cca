-- ===== src/Examples/Isolation.antt =====
-- What examples/bulkhead_flask.py keeps true of each of its operations, whatever requests overlap.
use resilience4py.Prelude.{
  ℕ, suc, ◌+◌, ◌≡◌, ◌≤◌, refl, inl, inr, Bool, true, false, none, some, arith, Bool-cases,
  Option-cases, if◌then◌else◌,
}
use resilience4py.Outcome.{Exception, Outcome, returned, raised, cancelled}
use resilience4py.Bulkhead.Permits.{Permits}
use resilience4py.Bulkhead.Semaphore.{new_semaphore, semaphore_bulkhead}
use resilience4py.Bulkhead.Execute.{begin_call}
use resilience4py.Bulkhead.Balance.{
  IsSound, Step-IsSound, admits, refuses, ends, new_permits-IsSound, wait_cancelled-IsSound,
}
use resilience4py.Examples.BulkheadFlask.{
  Operation, App, same_operation, bulkhead_config, new_app, OperationStats, update, set_bulkhead,
  track_operation, active_status, rejected_status, mentions_bulkhead, OperationData,
  begin_operation, end_operation, fail_waiting, answer_request, cpu_operations, io_operations,
  database_operations, premium_operations, failed_response, bulkhead_entry,
}

-- How many requests are at work, by operation.
abbrev pub Running : Type 0
Running = Operation → ℕ

-- What may happen next: a request is admitted, refused, or fails while it waits, the work of one ends, or a
-- view answers, whatever the protected call gave it.
pub data AppStep : Running → App → Running → App → Type 0 where
  begins :
      {n : Running} {app app' : App} (op : Operation) (late : Bool)
      → begin_operation op late app ≡ some (true, app')
      → AppStep n app (update op (suc (n op)) n) app'
  is_refused :
      {n : Running} {app app' : App} (op : Operation) (late : Bool)
      → begin_operation op late app ≡ some (false, app')
      → AppStep n app n app'
  fails :
      {n : Running} {app : App} (op : Operation) (late : Bool)
      → begin_operation op late app ≡ none
      → AppStep n app n (fail_waiting op app)
  works :
      {n : Running} {app : App} (op : Operation) (others : ℕ)
      → n op ≡ suc others
      → AppStep n app (update op others n) (end_operation op app)
  answers :
      {n : Running} {app : App} (handed : ℕ) (op : Operation) (o : Outcome OperationData)
      → AppStep n app n (answer_request handed op o app).1

pub data AppReach : Running → App → Type 0 where
  started : AppReach (λ _. 0) new_app
  then_step :
      {n m : Running} {app app' : App} → AppReach n app → AppStep n app m app' → AppReach m app'

-- A bulkhead for `c` calls and the statistics of its operation, with `running` requests at work.
pub record IsBooked (c running : ℕ) (p : Permits) (stats : OperationStats) : Type 0 where
  pub sound : IsSound c running p
  pub tracked : stats.active ≡ stats.completed + running

abbrev pub max_calls : Operation → ℕ
max_calls op = (bulkhead_config op).max_concurrent_calls

abbrev pub AllBooked : Running → App → Type 0
AllBooked n app =
    (op : Operation) → IsBooked (max_calls op) (n op) (app.bulkheads op) (app.operation_stats op)

same_operation-eq : (a b : Operation) → same_operation a b ≡ true → a ≡ b
same_operation-eq a b h = ground arith

pub same_operation_refl : (op : Operation) → same_operation op op ≡ true
same_operation_refl cpu_operations = refl
same_operation_refl io_operations = refl
same_operation_refl database_operations = refl
same_operation_refl premium_operations = refl

-- Nothing but one operation changes.
abbrev KeepsOthers : Operation → Running → App → Running → App → Type 0
KeepsOthers op n app n' app' =
    (other : Operation)
    → same_operation other op ≡ false
    → (n' other ≡ n other)
      × (app'.bulkheads other ≡ app.bulkheads other)
      × (app'.operation_stats other ≡ app.operation_stats other)

KeepsOthers-AllBooked :
    (op : Operation) (n n' : Running) (app app' : App)
    → AllBooked n app
    → IsBooked (max_calls op) (n' op) (app'.bulkheads op) (app'.operation_stats op)
    → KeepsOthers op n app n' app'
    → AllBooked n' app'
KeepsOthers-AllBooked op n n' app app' h new keeps other =
    elim (Bool-cases (same_operation other op)) [
      | inl same ↦ rw (same_operation-eq other op same) new
      | inr apart ↦ let k = keeps other apart in rw (k.0, k.1, k.2) (h other)
    ]

begin_operation-call :
    (op : Operation) (late admitted : Bool) (app app' : App)
    → begin_operation op late app ≡ some (admitted, app')
    → (p : Permits) × (begin_call (semaphore_bulkhead (bulkhead_config op)) late (app.bulkheads op)
        ≡ some (admitted, p))
      × (app' ≡ (
          if admitted
          then track_operation op active_status (set_bulkhead op p app)
          else set_bulkhead op p app))
unfolding begin_operation
begin_operation-call op late admitted app app' e =
    elim (Option-cases
      (begin_call (semaphore_bulkhead (bulkhead_config op)) late (app.bulkheads op))) [
        | inl waits ↦ ground (arith, waits)
        | inr ((true, p), went) ↦ (p, ground (arith, went), ground (arith, went))
        | inr ((false, p), went) ↦ (p, ground (arith, went), ground (arith, went))
      ]

-- An answer keeps the permits and the numbers of active and completed operations.
abbrev SameWork : App → App → Type 0
SameWork app app' =
    (other : Operation)
    → (app'.bulkheads other ≡ app.bulkheads other)
      × ((app'.operation_stats other).active ≡ (app.operation_stats other).active)
      × ((app'.operation_stats other).completed ≡ (app.operation_stats other).completed)

track_rejected-SameWork :
    (op : Operation) (app : App) → SameWork app (track_operation op rejected_status app)
unfolding track_operation
track_rejected-SameWork op app other = elim (Bool-cases (same_operation other op)) [
  | inl same ↦ rw (same, same_operation-eq other op same) (refl, refl, refl)
  | inr apart ↦ rw apart (refl, refl, refl)
]

failed_response-SameWork :
    (handed : ℕ) (op : Operation) (e : Exception) (app : App)
    → SameWork app (failed_response handed op e app).1
unfolding failed_response
failed_response-SameWork handed cpu_operations e app = track_rejected-SameWork cpu_operations app
failed_response-SameWork handed io_operations e app = track_rejected-SameWork io_operations app
failed_response-SameWork handed premium_operations e app =
    track_rejected-SameWork premium_operations app
failed_response-SameWork handed database_operations e app =
    elim (Bool-cases (mentions_bulkhead e)) [
      | inl full ↦ rw full (track_rejected-SameWork database_operations app)
      | inr other_error ↦ rw other_error (λ other. (refl, refl, refl))
    ]

answer_request-SameWork :
    (handed : ℕ) (op : Operation) (o : Outcome OperationData) (app : App)
    → SameWork app (answer_request handed op o app).1
unfolding answer_request
answer_request-SameWork handed op (returned result) app other = (refl, refl, refl)
answer_request-SameWork handed op (raised e) app other =
    failed_response-SameWork handed op e app other
answer_request-SameWork handed op cancelled app other = (refl, refl, refl)

pub AppStep-AllBooked :
    {n m : Running} {app app' : App} → AppStep n app m app' → AllBooked n app → AllBooked m app'
unfolding track_operation end_operation fail_waiting
AppStep-AllBooked {n} {app = app} {app' = app'} (begins op late e) h =
    let (p, went, now) = begin_operation-call op late true app app' e in
    let s =
      Step-IsSound (semaphore_bulkhead (bulkhead_config op)) (max_calls op) (admits late went)
        (h op).sound in
    rw now (
      KeepsOthers-AllBooked op n _ app _ h
        (rw (same_operation_refl op)
          (record { sound = s; tracked = omega (arith, (h op).tracked) }))
        (λ other apart. rw apart (refl, refl, refl)))
AppStep-AllBooked {n} {app = app} {app' = app'} (is_refused op late e) h =
    let (p, went, now) = begin_operation-call op late false app app' e in
    let s =
      Step-IsSound (semaphore_bulkhead (bulkhead_config op)) (max_calls op) (refuses late went)
        (h op).sound in
    rw now (
      KeepsOthers-AllBooked op n _ app _ h
        (rw (same_operation_refl op) (record { sound = s; tracked = (h op).tracked }))
        (λ other apart. rw apart (refl, refl, refl)))
AppStep-AllBooked {n} {app = app} (fails op late e) h =
    let s = wait_cancelled-IsSound (h op).sound in
    KeepsOthers-AllBooked op n _ app _ h
      (rw (same_operation_refl op) (record { sound = s; tracked = (h op).tracked }))
      (λ other apart. rw apart (refl, refl, refl))
AppStep-AllBooked {n} {app = app} (works op others some_running) h =
    let s =
      Step-IsSound (semaphore_bulkhead (bulkhead_config op)) (max_calls op)
        (ends others (app.bulkheads op)) (rw some_running at ((h op).sound)) in
    KeepsOthers-AllBooked op n _ app _ h
      (rw (same_operation_refl op)
        (record { sound = s; tracked = omega (arith, (h op).tracked, some_running) }))
      (λ other apart. rw apart (refl, refl, refl))
AppStep-AllBooked {n} {app = app} (answers handed op o) h = λ other.
    let (permits, active, completed) = answer_request-SameWork handed op o app other in
    record {
      sound = rw permits (h other).sound;
      tracked = omega (arith, active, completed, (h other).tracked);
    }

pub AppReach-AllBooked : {n : Running} {app : App} → AppReach n app → AllBooked n app
unfolding new_app new_semaphore
AppReach-AllBooked started = λ op. record {
  sound = new_permits-IsSound (semaphore_bulkhead (bulkhead_config op)) (max_calls op);
  tracked = refl;
}
AppReach-AllBooked (then_step r s) = AppStep-AllBooked s (AppReach-AllBooked r)

-- At any time, whatever requests to the four operations have come, gone or failed, overlapping or not: if
-- asyncio has handed no more permits of an operation to requests that waited and are not at work yet than are
-- not in use, then the calls that an answer reports as available for the operation, the permits handed so and
-- its requests at work make up its configured maximum; the requests at work are never more than that; and the
-- statistics of the operation count as active all its completed requests and those at work.
pub AppReach-bulkhead_entry :
    {n : Running} {app : App} (handed : ℕ) (op : Operation)
    → AppReach n app
    → handed ≤ (app.bulkheads op).semaphore
    → let entry = bulkhead_entry handed op app in
      let stats = app.operation_stats op in
      (entry.available_concurrent_calls + handed + n op ≡ entry.max_concurrent_calls)
      × (entry.max_concurrent_calls ≡ (bulkhead_config op).max_concurrent_calls)
      × (n op ≤ entry.max_concurrent_calls)
      × (stats.active ≡ stats.completed + n op)
unfolding bulkhead_entry
AppReach-bulkhead_entry {n} {app = app} handed op r some_left =
    let h = AppReach-AllBooked r op in
    let free : (app.bulkheads op).semaphore + n op ≡ max_calls op =
      omega (arith, h.sound.balanced.counted, h.sound.balanced.conserved, h.sound.capacity_kept) in
    (omega (arith, free, some_left), refl, omega (arith, free), h.tracked)
