-- ===== src/Bulkhead/Pool/Sound.antt =====
-- The permits and the threads of a `ThreadPoolBulkhead` (bulkhead/threadpool_bulkhead.py).
use resilience4py.Prelude.{
  ℕ, suc, ◌+◌, ◌≤◌, ◌≡◌, refl, true, false, some, inl, inr, Option-cases, Bool-cases, arith,
}
use resilience4py.Outcome.{Outcome}
use resilience4py.Bulkhead.Permits.{new_permits, Permits, IsBalanced}
use resilience4py.Bulkhead.ThreadPool.{
  ThreadPoolBulkheadConfig, new_thread_pool, thread_pool_bulkhead,
}
use resilience4py.Bulkhead.Execute.{begin_call, finish_call}
use resilience4py.Bulkhead.Balance.{
  begin_call-admitted, begin_call-refused, finish_call-IsBalanced, new_permits-IsBalanced,
}
use resilience4py.Bulkhead.Pool.{
  ThreadPoolBulkhead, new_pool, submit, run_direct, direct_ends, job_starts, job_ends,
  abandoned_ends, waiting_cancelled, running_cancelled, shutdown, Step, submits, runs, ends_direct,
  job_begins, job_done, abandoned_done, gives_up, abandons, shuts_down, Reach, built, goes_on,
}

-- The calls that have been admitted and not ended.
abbrev pub admitted : ThreadPoolBulkhead → ℕ
admitted p = p.waiting + p.running + p.direct

pub record IsSound (c : ThreadPoolBulkheadConfig) (p : ThreadPoolBulkhead) : Type 0 where
  pub balanced : IsBalanced (admitted p) p.permits
  pub capacity_kept : p.permits.capacity ≡ c.max_thread_pool_size + c.queue_capacity
  pub workers_kept : p.max_workers ≡ c.max_thread_pool_size
  pub busy : p.running + p.abandoned ≤ c.max_thread_pool_size

-- One call ends.
ended :
    (n m : ℕ) (q : Permits)
    → IsBalanced n q
    → n ≡ suc m
    → IsBalanced m (finish_call q) × ((finish_call q).capacity ≡ q.capacity)
ended n m q h e =
    let h' : IsBalanced (suc m) q = ground (arith, h, e) in
    let f = finish_call-IsBalanced m q h' (ground (arith, h')) in (f.0, f.1)

module _ (c : ThreadPoolBulkheadConfig) where
  next-IsSound :
      (p q : ThreadPoolBulkhead) (n : ℕ) (r : Permits)
      → IsSound c p
      → IsBalanced n r
      → r.capacity ≡ p.permits.capacity
      → r ≡ q.permits
      → n ≡ admitted q
      → q.max_workers ≡ p.max_workers
      → q.running + q.abandoned ≤ c.max_thread_pool_size
      → IsSound c q
  next-IsSound p q n r s h k e f w b = record {
    balanced = ground (arith, h, e, f);
    capacity_kept = ground (arith, s.capacity_kept, k, e);
    workers_kept = ground (arith, s.workers_kept, w);
    busy = b;
  }

  submit-IsSound :
      (o : Outcome (Unit {0})) (p q : ThreadPoolBulkhead)
      → submit p ≡ some (o, q)
      → IsSound c p
      → IsSound c q
  unfolding submit
  submit-IsSound o p q h s = elim (Option-cases (begin_call thread_pool_bulkhead false p.permits)) [
    | inl waits ↦ absurd (ground arith)
    | inr ((true, r), went) ↦
        let g =
          begin_call-admitted thread_pool_bulkhead false (admitted p) p.permits r s.balanced went in
        let g' = ended (suc (admitted p)) (admitted p) r g.1 refl in
        elim (Bool-cases p.is_shut_down) [
          | inl shut ↦
              next-IsSound p q (admitted p) (finish_call r) s g'.0 (ground (arith, g, g'))
                (ground arith) (ground arith) (ground arith) (ground (arith, s.busy))
          | inr open' ↦
              next-IsSound p q (suc (admitted p)) r s g.1 (ground (arith, g)) (ground arith)
                (ground arith) (ground arith) (ground (arith, s.busy))
        ]
    | inr ((false, r), went) ↦
        let g =
          begin_call-refused thread_pool_bulkhead false (admitted p) p.permits r s.balanced went in
        next-IsSound p q (admitted p) r s g.0 (ground (arith, g)) (ground arith) (ground arith)
          (ground arith) (ground (arith, s.busy))
  ]

  run_direct-IsSound :
      (o : Outcome (Unit {0})) (p q : ThreadPoolBulkhead)
      → run_direct p ≡ some (o, q)
      → IsSound c p
      → IsSound c q
  unfolding run_direct
  run_direct-IsSound o p q h s =
      elim (Option-cases (begin_call thread_pool_bulkhead false p.permits)) [
        | inl waits ↦ absurd (ground arith)
        | inr ((true, r), went) ↦
            let g =
              begin_call-admitted thread_pool_bulkhead false (admitted p) p.permits r s.balanced
                went in
            next-IsSound p q (suc (admitted p)) r s g.1 (ground (arith, g)) (ground arith)
              (ground arith) (ground arith) (ground (arith, s.busy))
        | inr ((false, r), went) ↦
            let g =
              begin_call-refused thread_pool_bulkhead false (admitted p) p.permits r s.balanced
                went in
            next-IsSound p q (admitted p) r s g.0 (ground (arith, g)) (ground arith) (ground arith)
              (ground arith) (ground (arith, s.busy))
      ]

  -- A call ends and gives its permit back, whatever becomes of its job.
  call_ends-IsSound :
      (p q : ThreadPoolBulkhead)
      → IsSound c p
      → admitted p ≡ suc (admitted q)
      → finish_call p.permits ≡ q.permits
      → q.max_workers ≡ p.max_workers
      → q.running + q.abandoned ≤ p.running + p.abandoned
      → IsSound c q
  call_ends-IsSound p q s one_less e w b =
      let g = ended (admitted p) (admitted q) p.permits s.balanced one_less in
      next-IsSound p q (admitted q) (finish_call p.permits) s g.0 g.1 e refl w
        (ground (arith, s.busy, b))

  Step-IsSound : {p q : ThreadPoolBulkhead} → Step p q → IsSound c p → IsSound c q
  unfolding direct_ends job_starts job_ends abandoned_ends waiting_cancelled running_cancelled
      shutdown
  Step-IsSound {p} {q} (submits o h) s = submit-IsSound o p q h s
  Step-IsSound {p} {q} (runs o h) s = run_direct-IsSound o p q h s
  Step-IsSound {p} {q} (ends_direct h) s =
      call_ends-IsSound p q s (ground arith) (ground arith) (ground arith) (ground arith)
  Step-IsSound {p} {q} (job_begins h) s =
      next-IsSound p q (admitted p) p.permits s s.balanced refl (ground arith) (ground arith)
        (ground arith) (ground (arith, s.workers_kept))
  Step-IsSound {p} {q} (job_done h) s =
      call_ends-IsSound p q s (ground arith) (ground arith) (ground arith) (ground arith)
  Step-IsSound {p} {q} (abandoned_done h) s =
      next-IsSound p q (admitted p) p.permits s s.balanced refl (ground arith) (ground arith)
        (ground arith) (ground (arith, s.busy))
  Step-IsSound {p} {q} (gives_up h) s =
      call_ends-IsSound p q s (ground arith) (ground arith) (ground arith) (ground arith)
  Step-IsSound {p} {q} (abandons h) s =
      call_ends-IsSound p q s (ground arith) (ground arith) (ground arith) (ground arith)
  Step-IsSound (shuts_down p) s = record {
    balanced = s.balanced;
    capacity_kept = s.capacity_kept;
    workers_kept = s.workers_kept;
    busy = s.busy;
  }

  new_pool-IsSound : IsSound c (new_pool c)
  unfolding new_pool new_thread_pool new_permits
  new_pool-IsSound = record {
    balanced = new_permits-IsBalanced (c.max_thread_pool_size + c.queue_capacity);
    capacity_kept = refl;
    workers_kept = refl;
    busy = omega arith;
  }

  -- However calls are submitted, awaited, cancelled and refused, also after a shutdown: the free permits and the
  -- calls that have been admitted and not ended make up the threads and the places in the queue that the
  -- bulkhead was built for, the metrics report the free permits, and no more jobs run at once than it has
  -- threads, those of cancelled calls included.
  pub pool-IsSound : {p : ThreadPoolBulkhead} → Reach c p → IsSound c p
  pool-IsSound built = new_pool-IsSound
  pool-IsSound (goes_on r step) = Step-IsSound step (pool-IsSound r)
