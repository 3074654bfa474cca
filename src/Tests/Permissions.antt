-- ===== src/Tests/Permissions.antt =====
-- The rate limiter and the bulkheads on concrete inputs.
use resilience4py.Prelude.{
  ℕ, ◌≤◌, ◌≡◌, refl, true, false, some, List, [], ◌∷◌, ◌++◌, arith, replicate, count_if,
}
use resilience4py.RateLimiter.Limiter.{AtomicRateLimiter, new_limiter}
use resilience4py.RateLimiter.Cycles.{reserve_all, granted_in, reserve_all-le-limit}
use resilience4py.RateLimiter.Window.{window_answers, reserve_all-window_answers}
use resilience4py.RateLimiter.Waiters.{run_times, MustWait, waiters_exceed_limit}
use resilience4py.Bulkhead.Permits.{
  Permits, IsBalanced, Bulkhead, new_permits, on_call_permitted_event, on_call_permitted,
}
use resilience4py.Bulkhead.Semaphore.{acquire_semaphore, semaphore_bulkhead}
use resilience4py.Bulkhead.Execute.{begin_call, finish_call}
use resilience4py.Bulkhead.Balance.{Reach, here, next, admits, ends, IsSound, Reach-IsSound}

-- Two permits in each ten nanoseconds; the second cycle has one left, or none.
abbrev limiter_with : ℕ → AtomicRateLimiter
limiter_with permits = record {
  config = record { timeout_duration = 8; limit_refresh_period = 10; limit_for_period = 2 };
  state = record { active_permissions = permits; active_cycle = 1; nanoseconds_to_wait = 0 };
  published = [];
}

abbrev times : List ℕ
times = 13 ∷ 14 ∷ 15 ∷ 21 ∷ []

reserve_all-window_answers_example :
    reserve_all times (new_limiter (limiter_with 2).config)
    ≡ window_answers (limiter_with 2).config [] times
reserve_all-window_answers_example =
    reserve_all-window_answers (limiter_with 2).config times (omega arith)
      (omega arith, (omega arith, (omega arith, (omega arith, tt))))

reserve_all-le-limit_example :
    count_if (granted_in (limiter_with 2).config 1) (reserve_all times (limiter_with 2)) ≤ 2
reserve_all-le-limit_example =
    reserve_all-le-limit 1 12 times (limiter_with 2)
      (omega arith, (omega arith, (omega arith, (omega arith, tt)))) (omega arith) (omega arith)
      (omega arith)

must_wait : MustWait 15 (limiter_with 0)
must_wait = (omega arith, refl, omega arith, omega arith)

waiters_exceed_limit_example :
    run_times (replicate 5 15 ++ replicate 2 20) (limiter_with 0) ≡ replicate 7 (some 20)
waiters_exceed_limit_example = waiters_exceed_limit 15 5 (limiter_with 0) must_wait

abbrev one_permit : Permits
one_permit = record {
  capacity = 1;
  semaphore = 1;
  available_permits = 1;
  metrics_initialized = false;
  metrics = record { available_concurrent_calls = 0; max_allowed_concurrent_calls = 0 };
  published = [];
}

abbrev one_running : Permits
one_running = record {
  capacity = 1;
  semaphore = 0;
  available_permits = 0;
  metrics_initialized = true;
  metrics = record { available_concurrent_calls = 0; max_allowed_concurrent_calls = 1 };
  published = on_call_permitted_event ∷ [];
}

abbrev bulkhead : Bulkhead
bulkhead = semaphore_bulkhead (record { max_concurrent_calls = 1; max_wait_duration = 0 })

one_permit-IsBalanced : IsBalanced 0 one_permit
one_permit-IsBalanced = ground arith

one_running-IsBalanced : IsBalanced 1 one_running
one_running-IsBalanced = ground arith

begins_first : begin_call bulkhead false one_permit ≡ some (true, one_running)
unfolding begin_call semaphore_bulkhead acquire_semaphore on_call_permitted
begins_first = refl

abbrev started : Permits
started = new_permits 1

starts : begin_call bulkhead false started ≡ some (true, one_running)
unfolding begin_call semaphore_bulkhead acquire_semaphore on_call_permitted new_permits
starts = refl

abbrev run : Reach bulkhead 1 0 (finish_call one_running)
run = next (next here (admits false starts)) (ends 0 one_running)

Reach-IsSound_example : IsSound 1 0 (finish_call one_running)
Reach-IsSound_example = Reach-IsSound bulkhead 1 run
