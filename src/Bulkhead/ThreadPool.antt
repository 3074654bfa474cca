-- ===== src/Bulkhead/ThreadPool.antt =====
-- bulkhead/threadpool_bulkhead.py: taking a permit of the pool's threads and queue, without a wait.
use resilience4py.Prelude.{
  ◌≢◌, ltb, ℕ, suc, ◌+◌, ◌-◌, ◌≡◌, ◌<◌, Bool, true, false, Option, none, some, ◌==◌, if◌then◌else◌,
  arith,
}
use resilience4py.Outcome.{Outcome, returned, raised, value_error}
use resilience4py.Bulkhead.Permits.{
  Permits, IsBalanced, Bulkhead, new_permits, init_metrics, semaphore_acquire, count_taken,
}

pub record ThreadPoolBulkheadConfig : Type 0 where
  pub max_thread_pool_size : ℕ
  pub core_thread_pool_size : ℕ
  pub queue_capacity : ℕ

unfoldable pub validate : ThreadPoolBulkheadConfig → Outcome (Unit {0})
validate c =
    if c.max_thread_pool_size == 0
    then raised value_error
    else if c.core_thread_pool_size == 0
    then raised value_error
    else if ltb c.max_thread_pool_size c.core_thread_pool_size
    then raised value_error
    else returned tt

-- `__init__`: a permit for each thread and for each place in the queue.
unfoldable pub new_thread_pool : ThreadPoolBulkheadConfig → Permits
new_thread_pool c = new_permits (c.max_thread_pool_size + c.queue_capacity)

abbrev taken : Option Permits → Option (Bool × Permits)
taken none = none
taken (some p) = some (true, count_taken p)

-- `acquire_permission`: nothing in it times out.
unfoldable pub acquire_thread_pool : Permits → Option (Bool × Permits)
unfolding init_metrics semaphore_acquire count_taken
acquire_thread_pool p =
    let p' = init_metrics p in
    if p'.available_permits == 0 then some (false, p') else taken (semaphore_acquire p')

pub granted :
    (late : Bool) (n : ℕ) (p q : Permits)
    → IsBalanced n p
    → acquire_thread_pool p ≡ some (true, q)
    → IsBalanced (suc n) q
      × (q.capacity ≡ p.capacity)
      × (q.metrics_initialized ≡ true)
      × (q.published ≡ p.published)
unfolding acquire_thread_pool
granted late n p q h e = ground arith

pub refused :
    (late : Bool) (n : ℕ) (p q : Permits)
    → IsBalanced n p
    → acquire_thread_pool p ≡ some (false, q)
    → IsBalanced n q
      × (q.capacity ≡ p.capacity)
      × (q.metrics_initialized ≡ true)
      × (q.published ≡ p.published)
unfolding acquire_thread_pool
refused late n p q h e = ground arith

pub free :
    (n : ℕ) (p : Permits)
    → IsBalanced n p
    → n < p.capacity
    → (q : Permits) × (acquire_thread_pool p ≡ some (true, q))
unfolding acquire_thread_pool
free n p h room =
    let p' = init_metrics p in
    (count_taken (record p' { semaphore = p'.semaphore - 1 }), ground arith)

unfoldable pub thread_pool_bulkhead : Bulkhead
thread_pool_bulkhead = record {
  acquire_permission = λ late. acquire_thread_pool;
  granted_law = granted;
  refused_law = refused;
  free_law = free;
}

-- Nothing in it waits: a free permit of the counter is one of the semaphore.
pub thread_pool_answers :
    (late : Bool) (n : ℕ) (p : Permits)
    → IsBalanced n p
    → thread_pool_bulkhead.acquire_permission late p ≢ none
unfolding thread_pool_bulkhead acquire_thread_pool
thread_pool_answers late n p h e = ground arith
