-- ===== src/RateLimiter/Service.antt =====
-- What a `RateLimiter` of ratelimiter/rate_limiter.py does with the limiter that it gets from the registry, and
-- the wrapper of synchronous functions of both ratelimiter files. The limiters' states are kept by their
-- identity; one without an entry is as it was constructed.
use resilience4py.Prelude.{ℕ, ◌*◌, Bool, Option, none, some, List, if◌then◌else◌}
use resilience4py.Prelude.Int.{ℤ}
use resilience4py.Outcome.{Outcome, returned, raised, cancelled, runtime_error}
use resilience4py.Core.Configs.{post_init}
use resilience4py.Registry.{lookup, store, Instance}
use resilience4py.RateLimiter.Limiter.{
  RateLimiterConfig, validate, AtomicRateLimiter, new_limiter, reset, reserve_permission, execute,
  acquire_permission,
}
use resilience4py.RateLimiter.Registered.{set_default_config}
use resilience4py.RateLimiter.Facade.{Shared, RateLimiter, new_rate_limiter, get_limiter}

pub record LimiterMetrics : Type 0 where
  pub available_permissions : ℕ
  pub limit_for_period : ℕ
  pub current_cycle : ℕ

-- `AtomicRateLimiter.get_metrics`
unfoldable pub limiter_metrics : AtomicRateLimiter → LimiterMetrics
limiter_metrics l = record {
  available_permissions = l.state.active_permissions;
  limit_for_period = l.config.limit_for_period;
  current_cycle = l.state.active_cycle;
}

-- `AtomicRateLimiter._decorate_sync`, by whether the calling thread's event loop runs: a second loop is refused
-- there before the coroutine starts.
unfoldable pub limiter_call_sync :
    {A : Type 0} → Bool → ℕ → Outcome A → AtomicRateLimiter → Outcome A × AtomicRateLimiter
limiter_call_sync loop_runs now o l =
    if loop_runs then (raised runtime_error, l) else execute now o l

pub record Service : Type 0 where
  pub shared : Shared
  pub limiters : List (ℕ × AtomicRateLimiter)

unfoldable pub limiter_of : Instance RateLimiterConfig → Service → AtomicRateLimiter
limiter_of i s = elim (lookup i.identity s.limiters) [ none ↦ new_limiter i.config | some l ↦ l ]

module _ {B : Type 0} where
  -- `limiter = await self._get_limiter()`, and an operation of it.
  unfoldable pub with_limiter :
      (AtomicRateLimiter → B × AtomicRateLimiter)
      → RateLimiter
      → Service
      → B × RateLimiter × Service
  with_limiter act f s =
      let (i, f', shared') = get_limiter f s.shared in
      let (b, l) = act (limiter_of i s) in
      (b, f', record { shared = shared'; limiters = store i.identity l s.limiters })

-- `RateLimiter.acquire_permission` up to the sleep: whether, and after how long.
unfoldable pub acquire_through : ℕ → RateLimiter → Service → (Bool × ℕ) × RateLimiter × Service
acquire_through now =
    with_limiter (λ l. let (granted, wait, l') = acquire_permission now l in ((granted, wait), l'))

-- The answer of `_reserve_permission` that `acquire_permission` and the wrappers act on.
unfoldable pub reserve_through : ℕ → RateLimiter → Service → ℤ × RateLimiter × Service
reserve_through now = with_limiter (reserve_permission now)

unfoldable pub metrics_through : RateLimiter → Service → LimiterMetrics × RateLimiter × Service
metrics_through = with_limiter (λ l. (limiter_metrics l, l))

unfoldable pub reset_through : RateLimiter → Service → Unit {0} × RateLimiter × Service
reset_through = with_limiter (λ l. (tt, reset l))

module _ {A : Type 0} where
  -- `RateLimiter._decorate_async`
  unfoldable pub call_async :
      ℕ → Outcome A → RateLimiter → Service → Outcome A × RateLimiter × Service
  call_async now o = with_limiter (execute now o)

  -- `RateLimiter._decorate_sync`: one new loop for `_get_limiter` and, in the limiter's own wrapper, another
  -- for the call.
  unfoldable pub call_sync :
      Bool → ℕ → Outcome A → RateLimiter → Service → Outcome A × RateLimiter × Service
  call_sync loop_runs now o f s =
      if loop_runs
      then (raised runtime_error, f, s)
      else with_limiter (limiter_call_sync loop_runs now o) f s

  -- `RateLimiter.__call__` of a coroutine function or of a plain one, called where a loop runs or not.
  unfoldable pub call_limited :
      Bool → Bool → ℕ → Outcome A → RateLimiter → Service → Outcome A × RateLimiter × Service
  unfolding call_async call_sync
  call_limited is_coroutine loop_runs now o f s =
      if is_coroutine then call_async now o f s else call_sync loop_runs now o f s

-- The static `RateLimiter.set_default_config`, on the registry of the module.
unfoldable pub set_shared_default : RateLimiterConfig → Service → Service
unfolding set_default_config
set_shared_default config s = record s {
  shared = record s.shared { registry = set_default_config config s.shared.registry };
}

-- `RateLimiter.of`
unfoldable pub rate_limiter_of : ℕ → Option RateLimiterConfig → RateLimiter
rate_limiter_of = new_rate_limiter

-- `rate_limit`: the period is in nanoseconds, and the name is formatted from the arguments.
unfoldable pub rate_limit : (ℕ → ℕ → ℕ) → ℕ → ℕ → Outcome RateLimiter
unfolding new_rate_limiter post_init
rate_limit name_of limit period =
    let config : RateLimiterConfig = record {
      limit_for_period = limit;
      limit_refresh_period = period;
      timeout_duration = 5 * 1000000000;
    } in
    elim (post_init validate config) [
      | returned c ↦ returned (new_rate_limiter (name_of limit period) (some c))
      | raised e ↦ raised e
      | cancelled ↦ cancelled
    ]
