-- ===== src/Tests/Pools.antt =====
-- The thread pool bulkhead on concrete inputs.
use resilience4py.Prelude.{◌+◌, ◌≡◌, refl, some}
use resilience4py.Outcome.{returned}
use resilience4py.Bulkhead.Permits.{new_permits, init_metrics, count_taken, on_call_permitted}
use resilience4py.Bulkhead.ThreadPool.{
  ThreadPoolBulkheadConfig, new_thread_pool, thread_pool_bulkhead, acquire_thread_pool,
}
use resilience4py.Bulkhead.Execute.{begin_call, finish_call}
use resilience4py.Bulkhead.Pool.{
  ThreadPoolBulkhead, new_pool, submit, job_starts, running_cancelled, submits, job_begins,
  abandons, Reach, built, goes_on,
}
use resilience4py.Bulkhead.Pool.Sound.{IsSound, pool-IsSound}
use resilience4py.Bulkhead.Pool.Overfull.{pool_overfull}

abbrev config : ThreadPoolBulkheadConfig
config = record { max_thread_pool_size = 1; core_thread_pool_size = 1; queue_capacity = 2 }

abbrev fresh_pool : ThreadPoolBulkhead
fresh_pool = new_pool config

-- The first call submitted, running, and cancelled.
abbrev queued_pool : ThreadPoolBulkhead
queued_pool = record fresh_pool {
  permits =
      on_call_permitted (count_taken (record (init_metrics (new_permits 3)) { semaphore = 2 }));
  waiting = 1;
}

abbrev running_pool : ThreadPoolBulkhead
running_pool = record queued_pool { waiting = 0; running = 1 }

abbrev cancelled_pool : ThreadPoolBulkhead
cancelled_pool = record running_pool {
  running = 0;
  abandoned = 1;
  permits = finish_call queued_pool.permits;
}

submitted : submit fresh_pool ≡ some (returned tt, queued_pool)
unfolding submit new_pool new_thread_pool new_permits begin_call thread_pool_bulkhead
    acquire_thread_pool
submitted = refl

started : job_starts queued_pool ≡ some running_pool
unfolding job_starts new_pool
started = refl

gave_up : running_cancelled running_pool ≡ some cancelled_pool
unfolding running_cancelled new_pool
gave_up = refl

reached : Reach config cancelled_pool
reached =
    goes_on (goes_on (goes_on built (submits (returned tt) submitted)) (job_begins started))
      (abandons gave_up)

pool-IsSound_example : IsSound config cancelled_pool
pool-IsSound_example = pool-IsSound config reached

pool_overfull_example :
    (p : ThreadPoolBulkhead) × Reach config p × (p.abandoned ≡ 1) × (p.waiting ≡ 2 + 1)
pool_overfull_example = pool_overfull config
