-- ===== src/Bulkhead/Permits.antt =====
-- What bulkhead/semaphore_bulkhead.py and bulkhead/threadpool_bulkhead.py have in common: their fields,
-- with `BulkheadMetrics` of bulkhead/bulkhead.py and the events of bulkhead/events.py, and the methods that
-- both classes spell alike. `asyncio.Semaphore` is its value: a wait on 0 suspends, and a waiter that is
-- woken takes its permit and counts it in one step.
use resilience4py.Prelude.{
  ℕ, suc, ◌+◌, ◌-◌, ◌≡◌, ◌⊎◌, ◌<◌, Bool, true, false, Option, none, some, List, [], ◌∷◌, ◌++◌, ◌==◌,
  if◌then◌else◌,
}

pub data BulkheadEvent : Type 0 where
  on_call_permitted_event on_call_rejected_event on_call_finished_event : BulkheadEvent

pub record BulkheadMetrics : Type 0 where
  pub available_concurrent_calls : ℕ
  pub max_allowed_concurrent_calls : ℕ

pub record Permits : Type 0 where
  -- `_max_calls`, or `_total_capacity`
  pub capacity : ℕ
  -- the semaphore's value
  pub semaphore : ℕ
  pub available_permits : ℕ
  pub metrics : BulkheadMetrics
  pub metrics_initialized : Bool
  pub published : List BulkheadEvent

unfoldable pub new_permits : ℕ → Permits
new_permits n = record {
  capacity = n;
  semaphore = n;
  available_permits = n;
  metrics = record { available_concurrent_calls = 0; max_allowed_concurrent_calls = 0 };
  metrics_initialized = false;
  published = [];
}

abbrev pub publish : BulkheadEvent → Permits → Permits
publish e p = record p { published = p.published ++ e ∷ [] }

abbrev pub update_available : ℕ → Permits → Permits
update_available n p = record p {
  metrics = record {
    available_concurrent_calls = n;
    max_allowed_concurrent_calls = p.metrics.max_allowed_concurrent_calls;
  };
}

-- `_init_metrics_if_needed`, `_ensure_metrics_initialized`.
unfoldable pub init_metrics : Permits → Permits
init_metrics p = if p.metrics_initialized then p else record p {
  metrics = record {
    available_concurrent_calls = p.capacity;
    max_allowed_concurrent_calls = p.capacity;
  };
  metrics_initialized = true;
}

-- `semaphore.acquire()`: `none` while it has to wait.
unfoldable pub semaphore_acquire : Permits → Option Permits
semaphore_acquire p =
    if p.semaphore == 0 then none else some (record p { semaphore = p.semaphore - 1 })

-- The counter and the metrics behind a successful `semaphore.acquire()`.
unfoldable pub count_taken : Permits → Permits
count_taken p =
    update_available (p.available_permits - 1)
      (record p { available_permits = p.available_permits - 1 })

unfoldable pub release_permission : Permits → Permits
release_permission p =
    update_available (p.available_permits + 1)
      (record p { semaphore = p.semaphore + 1; available_permits = p.available_permits + 1 })

unfoldable pub on_call_permitted : Permits → Permits
on_call_permitted = publish on_call_permitted_event

unfoldable pub on_call_rejected : Permits → Permits
on_call_rejected = publish on_call_rejected_event

unfoldable pub on_call_finished : Permits → Permits
on_call_finished = publish on_call_finished_event

-- The counter equals the semaphore's value, what the metrics report equals the counter once they are
-- initialised, and with the `active` calls that hold a permit it makes up the capacity. No call holds one before that.
pub record IsBalanced (active : ℕ) (p : Permits) : Type 0 where
  pub counted : p.available_permits ≡ p.semaphore
  pub conserved : p.available_permits + active ≡ p.capacity
  -- Until the metrics are built no call runs; from then on they report the permits.
  pub reported :
      (p.metrics_initialized ≡ false) × (active ≡ 0)
      ⊎ (p.metrics_initialized ≡ true)
        × (p.metrics.available_concurrent_calls ≡ p.available_permits)
        × (p.metrics.max_allowed_concurrent_calls ≡ p.capacity)

-- The abstract class of bulkhead/bulkhead.py: how an implementation takes a permit, given whether a wait
-- for one would time out. `none` means that the call is still waiting. The laws are what a caller relies on.
pub record Bulkhead : Type 0 where
  pub acquire_permission : Bool → Permits → Option (Bool × Permits)
  pub granted_law :
      (late : Bool) (n : ℕ) (p q : Permits)
      → IsBalanced n p
      → acquire_permission late p ≡ some (true, q)
      → IsBalanced (suc n) q
        × (q.capacity ≡ p.capacity)
        × (q.metrics_initialized ≡ true)
        × (q.published ≡ p.published)
  pub refused_law :
      (late : Bool) (n : ℕ) (p q : Permits)
      → IsBalanced n p
      → acquire_permission late p ≡ some (false, q)
      → IsBalanced n q
        × (q.capacity ≡ p.capacity)
        × (q.metrics_initialized ≡ true)
        × (q.published ≡ p.published)
  -- A free permit is never refused without a time-out, and never waited for.
  pub free_law :
      (n : ℕ) (p : Permits)
      → IsBalanced n p
      → n < p.capacity
      → (q : Permits) × (acquire_permission false p ≡ some (true, q))
