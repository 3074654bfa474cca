-- ===== src/Tests/Chains.antt =====
-- The core package's decorators on concrete inputs.
use resilience4py.Prelude.{
  Bool, ltb, none, ◌+◌, ℕ, ◌≡◌, refl, true, false, some, List, [], ◌∷◌, arith,
}
use resilience4py.Outcome.{Exception, runtime_error, user, Outcome, returned, raised}
use resilience4py.CircuitBreaker.Breaker.{CircuitBreaker, new_breaker}
use resilience4py.Bulkhead.Permits.{Permits, IsBalanced}
use resilience4py.Bulkhead.ThreadPool.{thread_pool_bulkhead, thread_pool_answers}
use resilience4py.Retry.Config.{RetryConfig}
use resilience4py.Core.Decorators.{
  Action, seen_by_caller, with_outcome, decorate_sync, decorate_sync-eq-run,
}
use resilience4py.Core.Chain.{
  World, breaks, limits, isolates, Layer, composed, retried, stack, Keeps, chain_balances,
}
use resilience4py.Tests.Decimal.{decimal_float}
use resilience4py.Tests.Breaker.{config}

abbrev pool : Permits
pool = record {
  capacity = 2;
  semaphore = 2;
  available_permits = 2;
  metrics_initialized = false;
  metrics = record { available_concurrent_calls = 0; max_allowed_concurrent_calls = 0 };
  published = [];
}

pool-IsBalanced : IsBalanced 0 pool
pool-IsBalanced = ground arith

abbrev world_with : CircuitBreaker ℕ → World ℕ
world_with cb = record {
  breaker = cb;
  limiter = record {
    config = record { timeout_duration = 8; limit_refresh_period = 10; limit_for_period = 2 };
    state = record { active_permissions = 1; active_cycle = 1; nanoseconds_to_wait = 0 };
    published = [];
  };
  permits = pool;
  reading = λ n. 13 + n;
  late = λ n. false;
  asked = 0;
}

abbrev at_rest : CircuitBreaker ℕ
at_rest = new_breaker config

abbrev trying_twice : RetryConfig ℕ
trying_twice = record {
  max_attempts = 2;
  wait_duration = 40;
  interval_function = none;
  retry_on_exception = λ e. true;
  retry_on_result = none;
  fail_after_max_attempts = false;
  retry_exceptions = [];
  abort_exceptions = [];
}

abbrev layers : List (Layer ℕ)
layers = composed (limits ∷ []) ∷ retried trying_twice ∷ composed (breaks ∷ isolates ∷ []) ∷ []

abbrev nine : Action (World ℕ) ℕ
nine w = some (returned 9, w)

nine-Keeps : Keeps nine
nine-Keeps n w h = (returned 9, w, refl, h)

chain_balances_example :
    (o : Outcome ℕ) × (w' : World ℕ) × (stack thread_pool_bulkhead layers nine (world_with at_rest)
      ≡ some (o, w'))
    × IsBalanced 0 w'.permits
chain_balances_example =
    chain_balances thread_pool_bulkhead thread_pool_answers layers nine 0 (world_with at_rest)
      nine-Keeps pool-IsBalanced

-- A function that counts its calls and raises an exception; the exceptions of its own below 3 are subclasses of
-- `RuntimeError`.
abbrev counts : Action ℕ ℕ
counts calls = some (raised (user 2), calls + 1)

abbrev is_runtime_error : Exception → Bool
is_runtime_error runtime_error = true
is_runtime_error (user n) = ltb n 3
is_runtime_error _ = false

decorate_sync-eq-run_example :
    decorate_sync is_runtime_error true counts 7
    ≡ with_outcome (seen_by_caller is_runtime_error true) (some (raised (user 2), 8))
decorate_sync-eq-run_example = decorate_sync-eq-run is_runtime_error true counts 7
