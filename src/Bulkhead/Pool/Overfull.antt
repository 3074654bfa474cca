-- ===== src/Bulkhead/Pool/Overfull.antt =====
-- What cancelled calls do to the executor's queue of a `ThreadPoolBulkhead` (bulkhead/threadpool_bulkhead.py).
use resilience4py.Prelude.{ℕ, zero, suc, ◌+◌, ◌≤◌, ◌<◌, ◌≡◌, refl, false, some, arith}
use resilience4py.Outcome.{returned}
use resilience4py.Bulkhead.ThreadPool.{ThreadPoolBulkheadConfig, thread_pool_bulkhead}
use resilience4py.Bulkhead.Execute.{finish_call}
use resilience4py.Bulkhead.Balance.{begin_call_room}
use resilience4py.Bulkhead.Pool.{
  ThreadPoolBulkhead, new_pool, submit, job_starts, running_cancelled, submits, job_begins,
  abandons, Reach, built, goes_on,
}
use resilience4py.Bulkhead.Pool.Sound.{admitted, pool-IsSound}

module _ (c : ThreadPoolBulkheadConfig) where
  -- A reachable pool with `k` threads on abandoned jobs, `m` jobs that wait for a thread and nothing else.
  record Holds (k m : ℕ) : Type 0 where
    pool : ThreadPoolBulkhead
    reached : Reach c pool
    waiting_is : pool.waiting ≡ m
    running_is : pool.running ≡ 0
    abandoned_is : pool.abandoned ≡ k
    direct_is : pool.direct ≡ 0
    open_still : pool.is_shut_down ≡ false

  begin : Holds 0 0
  unfolding new_pool
  begin = record {
    pool = new_pool c;
    reached = built;
    waiting_is = refl;
    running_is = refl;
    abandoned_is = refl;
    direct_is = refl;
    open_still = refl;
  }

  one_more : (k m : ℕ) → m < c.max_thread_pool_size + c.queue_capacity → Holds k m → Holds k (suc m)
  unfolding submit
  one_more k m room h =
      let p = h.pool in
      let s = pool-IsSound c h.reached in
      let (r, went) =
        begin_call_room thread_pool_bulkhead (admitted p) p.permits s.balanced
          (ground (arith, s.capacity_kept, h.waiting_is, h.running_is, h.direct_is, room)) in
      let q = record p { permits = r; waiting = suc m } in
      let submitted : submit p ≡ some (returned tt, q) =
        ground (arith, went, h.open_still, h.waiting_is) in
      record {
        pool = q;
        reached = goes_on h.reached (submits (returned tt) submitted);
        waiting_is = refl;
        running_is = h.running_is;
        abandoned_is = h.abandoned_is;
        direct_is = h.direct_is;
        open_still = h.open_still;
      }

  abandon_one : (k : ℕ) → k < c.max_thread_pool_size → Holds k 0 → Holds (suc k) 0
  unfolding job_starts running_cancelled
  abandon_one k room h =
      let h' = one_more k 0 (omega arith) h in
      let p = h'.pool in
      let s = pool-IsSound c h'.reached in
      let q = record p { waiting = 0; running = 1 } in
      let r = record p {
        waiting = 0;
        running = 0;
        abandoned = suc k;
        permits = finish_call p.permits;
      } in
      let started : job_starts p ≡ some q =
        ground (arith, s.workers_kept, h'.waiting_is, h'.running_is, h'.abandoned_is, room) in
      let cancelled' : running_cancelled q ≡ some r = ground (arith, h'.abandoned_is) in
      record {
        pool = r;
        reached = goes_on (goes_on h'.reached (job_begins started)) (abandons cancelled');
        waiting_is = refl;
        running_is = refl;
        abandoned_is = refl;
        direct_is = h'.direct_is;
        open_still = h'.open_still;
      }

  abandon_all : (k : ℕ) → k ≤ c.max_thread_pool_size → Holds k 0
  abandon_all zero le = begin
  abandon_all (suc k) le = abandon_one k (omega arith) (abandon_all k (omega arith))

  fill : (k m : ℕ) → m ≤ c.max_thread_pool_size + c.queue_capacity → Holds k 0 → Holds k m
  fill k zero le h = h
  fill k (suc m) le h = one_more k m (omega arith) (fill k m (omega arith) h)

  -- A call that is cancelled while its job runs gives its permit back although the thread stays busy. So a pool
  -- can come to have every thread on such a job and as many further jobs in its queue as there are threads
  -- and places in the queue together, whatever its configuration.
  pub pool_overfull :
      (p : ThreadPoolBulkhead) × Reach c p
      × (p.abandoned ≡ c.max_thread_pool_size)
      × (p.waiting ≡ c.queue_capacity + c.max_thread_pool_size)
  pool_overfull =
      let t = c.max_thread_pool_size in
      let h = fill t (t + c.queue_capacity) (omega arith) (abandon_all t (omega arith)) in
      (h.pool, h.reached, h.abandoned_is, ground (arith, h.waiting_is))
