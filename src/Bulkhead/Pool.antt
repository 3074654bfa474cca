-- ===== src/Bulkhead/Pool.antt =====
-- The calls of a `ThreadPoolBulkhead` (bulkhead/threadpool_bulkhead.py): `submit` and `_execute_async`, cut
-- where they wait for the function, with the `ThreadPoolExecutor` as the jobs that wait for a thread or run
-- in one. A job's result reaches the call that waits for it in the same step. To cancel a call takes its job
-- out of the executor's queue, but does not stop one that runs.
use resilience4py.Prelude.{
  ℕ, zero, suc, ◌+◌, ◌-◌, ◌≤◌, ◌<◌, ◌≡◌, refl, ap, ◌∙◌, Bool, true, false, Option, none, some, ltb,
  ◌==◌, if◌then◌else◌, inl, inr, Option-cases, arith,
}
use resilience4py.Outcome.{bulkhead_full, runtime_error, Outcome, returned, raised}
use resilience4py.Bulkhead.Permits.{Permits, IsBalanced}
use resilience4py.Bulkhead.ThreadPool.{
  ThreadPoolBulkheadConfig, validate, new_thread_pool, thread_pool_bulkhead,
}
use resilience4py.Bulkhead.Execute.{begin_call, finish_call}
pub mod Sound
pub mod Overfull

pub record ThreadPoolBulkhead : Type 0 where
  pub permits : Permits
  pub max_workers : ℕ
  -- the calls whose job waits for a thread, and those whose job runs in one
  pub waiting : ℕ
  pub running : ℕ
  -- the jobs that run although their call was cancelled
  pub abandoned : ℕ
  -- the coroutine functions that run in the event loop
  pub direct : ℕ
  pub is_shut_down : Bool

unfoldable pub new_pool : ThreadPoolBulkheadConfig → ThreadPoolBulkhead
unfolding new_thread_pool
new_pool c = record {
  permits = new_thread_pool c;
  max_workers = c.max_thread_pool_size;
  waiting = 0;
  running = 0;
  abandoned = 0;
  direct = 0;
  is_shut_down = false;
}

-- `submit` until it awaits the result. The executor raises a `RuntimeError` after its shutdown, and the
-- `finally` block runs.
unfoldable pub submit : ThreadPoolBulkhead → Option (Outcome (Unit {0}) × ThreadPoolBulkhead)
submit p = elim (begin_call thread_pool_bulkhead false p.permits) [
  | none ↦ none
  | some (acquired, q) ↦
      if acquired
      then (if p.is_shut_down
          then some (raised runtime_error, record p { permits = finish_call q })
          else some (returned tt, record p { permits = q; waiting = p.waiting + 1 }))
      else some (raised bulkhead_full, record p { permits = q })
]

-- `_execute_async` of a coroutine function until it awaits it. Any other function is submitted.
unfoldable pub run_direct : ThreadPoolBulkhead → Option (Outcome (Unit {0}) × ThreadPoolBulkhead)
run_direct p = elim (begin_call thread_pool_bulkhead false p.permits) [
  | none ↦ none
  | some (acquired, q) ↦
      if acquired
      then some (returned tt, record p { permits = q; direct = p.direct + 1 })
      else some (raised bulkhead_full, record p { permits = q })
]

-- A coroutine function ends, however.
unfoldable pub direct_ends : ThreadPoolBulkhead → Option ThreadPoolBulkhead
direct_ends p = elim p.direct [
  | zero ↦ none
  | suc n ↦ some (record p { direct = n; permits = finish_call p.permits })
]

-- A thread takes the next job, if one is free.
unfoldable pub job_starts : ThreadPoolBulkhead → Option ThreadPoolBulkhead
job_starts p = elim p.waiting [
  | zero ↦ none
  | suc n ↦
      if ltb (p.running + p.abandoned) p.max_workers
      then some (record p { waiting = n; running = p.running + 1 })
      else none
]

-- A job ends, and with it its call.
unfoldable pub job_ends : ThreadPoolBulkhead → Option ThreadPoolBulkhead
job_ends p = elim p.running [
  | zero ↦ none
  | suc n ↦ some (record p { running = n; permits = finish_call p.permits })
]

unfoldable pub abandoned_ends : ThreadPoolBulkhead → Option ThreadPoolBulkhead
abandoned_ends p = elim p.abandoned [ zero ↦ none | suc n ↦ some (record p { abandoned = n }) ]

-- A call is cancelled while its job waits, and while it runs.
unfoldable pub waiting_cancelled : ThreadPoolBulkhead → Option ThreadPoolBulkhead
waiting_cancelled p = elim p.waiting [
  | zero ↦ none
  | suc n ↦ some (record p { waiting = n; permits = finish_call p.permits })
]

unfoldable pub running_cancelled : ThreadPoolBulkhead → Option ThreadPoolBulkhead
running_cancelled p = elim p.running [
  | zero ↦ none
  | suc n ↦
      some (record p { running = n; abandoned = p.abandoned + 1; permits = finish_call p.permits })
]

unfoldable pub shutdown : ThreadPoolBulkhead → ThreadPoolBulkhead
shutdown p = record p { is_shut_down = true }

-- What may happen, in any order.
pub data Step : ThreadPoolBulkhead → ThreadPoolBulkhead → Type 0 where
  submits : {p q : ThreadPoolBulkhead} (o : Outcome (Unit {0})) → submit p ≡ some (o, q) → Step p q
  runs : {p q : ThreadPoolBulkhead} (o : Outcome (Unit {0})) → run_direct p ≡ some (o, q) → Step p q
  ends_direct : {p q : ThreadPoolBulkhead} → direct_ends p ≡ some q → Step p q
  job_begins : {p q : ThreadPoolBulkhead} → job_starts p ≡ some q → Step p q
  job_done : {p q : ThreadPoolBulkhead} → job_ends p ≡ some q → Step p q
  abandoned_done : {p q : ThreadPoolBulkhead} → abandoned_ends p ≡ some q → Step p q
  gives_up : {p q : ThreadPoolBulkhead} → waiting_cancelled p ≡ some q → Step p q
  abandons : {p q : ThreadPoolBulkhead} → running_cancelled p ≡ some q → Step p q
  shuts_down : (p : ThreadPoolBulkhead) → Step p (shutdown p)

pub data Reach (c : ThreadPoolBulkheadConfig) : ThreadPoolBulkhead → Type 0 where
  built : Reach c (new_pool c)
  goes_on : {p q : ThreadPoolBulkhead} → Reach c p → Step p q → Reach c q
