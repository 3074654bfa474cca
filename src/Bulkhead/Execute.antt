-- ===== src/Bulkhead/Execute.antt =====
-- `_execute_async` of both bulkheads and `ThreadPoolBulkhead.submit`, over the interface of
-- bulkhead/bulkhead.py. The method is cut where the wrapped function runs, and where a call waits.
use resilience4py.Prelude.{Bool, true, false, Option, none, some, if◌then◌else◌}
use resilience4py.Outcome.{Outcome, raised, bulkhead_full}
use resilience4py.Bulkhead.Permits.{
  Permits, Bulkhead, init_metrics, release_permission, on_call_permitted, on_call_rejected,
  on_call_finished,
}

module _ (b : Bulkhead) where
  open b use {acquire_permission}

  -- Until the function is called: whether the call goes on, or `none` while it waits for a permit.
  unfoldable pub begin_call : Bool → Permits → Option (Bool × Permits)
  unfolding on_call_permitted on_call_rejected
  begin_call late p = elim (acquire_permission late p) [
    | none ↦ none
    | some (acquired, q) ↦
        if acquired then some (true, on_call_permitted q) else some (false, on_call_rejected q)
  ]

-- A call that is cancelled while it waits for a permit: it has brought the metrics up to date, and takes,
-- counts and publishes nothing.
unfoldable pub wait_cancelled : Permits → Permits
unfolding init_metrics
wait_cancelled p = init_metrics p

-- The `finally` block: it runs however the function ended, a cancellation included.
unfoldable pub finish_call : Permits → Permits
unfolding release_permission on_call_finished
finish_call p = on_call_finished (release_permission p)

module _ {A : Type 0} (b : Bulkhead) where
  -- One call with nothing in between: what the caller gets, and the bulkhead.
  unfoldable pub execute : Bool → Outcome A → Permits → Option (Outcome A × Permits)
  unfolding finish_call
  execute late o p = elim (begin_call b late p) [
    | none ↦ none
    | some (admitted, q) ↦
        if admitted then some (o, finish_call q) else some (raised bulkhead_full, q)
  ]
