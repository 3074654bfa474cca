-- ===== src/Bulkhead/Semaphore.antt =====
-- bulkhead/semaphore_bulkhead.py: taking a permit, with or without a wait.
use resilience4py.Prelude.{
  ℕ, suc, ◌-◌, ◌≡◌, ◌<◌, Bool, true, false, Option, none, some, ltb, ◌==◌, if◌then◌else◌, arith,
}
use resilience4py.Outcome.{Outcome, returned, raised, value_error}
use resilience4py.Bulkhead.Permits.{
  Permits, new_permits, IsBalanced, Bulkhead, init_metrics, semaphore_acquire, count_taken,
}

pub record BulkheadConfig : Type 0 where
  pub max_concurrent_calls : ℕ
  pub max_wait_duration : ℕ

unfoldable pub validate : BulkheadConfig → Outcome (Unit {0})
validate c = if c.max_concurrent_calls == 0 then raised value_error else returned tt

-- `__init__`
unfoldable pub new_semaphore : BulkheadConfig → Permits
new_semaphore c = new_permits c.max_concurrent_calls

abbrev taken : Option Permits → Option (Bool × Permits)
taken none = none
taken (some p) = some (true, count_taken p)

-- `acquire_permission`. With a wait duration, `late` says that `wait_for` runs into its timeout.
unfoldable pub acquire_semaphore : BulkheadConfig → Bool → Permits → Option (Bool × Permits)
unfolding init_metrics semaphore_acquire count_taken
acquire_semaphore c late p =
    let p' = init_metrics p in
    if ltb 0 c.max_wait_duration
    then (if late then some (false, p') else taken (semaphore_acquire p'))
    else if p'.available_permits == 0
    then some (false, p')
    else taken (semaphore_acquire p')

module _ (c : BulkheadConfig) where
  pub granted :
      (late : Bool) (n : ℕ) (p q : Permits)
      → IsBalanced n p
      → acquire_semaphore c late p ≡ some (true, q)
      → IsBalanced (suc n) q
        × (q.capacity ≡ p.capacity)
        × (q.metrics_initialized ≡ true)
        × (q.published ≡ p.published)
  unfolding acquire_semaphore
  granted late n p q h e = ground arith

  pub refused :
      (late : Bool) (n : ℕ) (p q : Permits)
      → IsBalanced n p
      → acquire_semaphore c late p ≡ some (false, q)
      → IsBalanced n q
        × (q.capacity ≡ p.capacity)
        × (q.metrics_initialized ≡ true)
        × (q.published ≡ p.published)
  unfolding acquire_semaphore
  refused late n p q h e = ground arith

  pub free :
      (n : ℕ) (p : Permits)
      → IsBalanced n p
      → n < p.capacity
      → (q : Permits) × (acquire_semaphore c false p ≡ some (true, q))
  unfolding acquire_semaphore
  free n p h room =
      let p' = init_metrics p in
      (count_taken (record p' { semaphore = p'.semaphore - 1 }), ground arith)

  unfoldable pub semaphore_bulkhead : Bulkhead
  semaphore_bulkhead = record {
    acquire_permission = acquire_semaphore c;
    granted_law = granted;
    refused_law = refused;
    free_law = free;
  }
