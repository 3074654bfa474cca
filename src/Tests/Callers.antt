-- ===== src/Tests/Callers.antt =====
-- The table of the circuit breakers and their synchronous wrapper on concrete inputs.
use resilience4py.Prelude.{ℕ, ◌≡◌, refl, none, some, List, [], ◌∷◌, ◌++◌}
use resilience4py.Outcome.{returned}
use resilience4py.Registry.{lookup}
use resilience4py.Core.Decorators.{Action}
use resilience4py.CircuitBreaker.Breaker.{CircuitBreaker, disable, force_open}
use resilience4py.CircuitBreaker.Instances.{
  Use, gets, operates, no_breakers, run_uses, effects_on, get_or_create_breaker,
  get_or_create_breaker-same,
}
use resilience4py.CircuitBreaker.Sync.{
  EventLoop, call_in_loop, call_breaker_sync, stays, later, hands_over, call_breaker_sync_hangs,
}
use resilience4py.Tests.Breaker.{config}

abbrev used_before : List (Use ℕ)
used_before = gets 3 none ∷ operates 0 (disable 9) ∷ []

abbrev used_after : List (Use ℕ)
used_after = gets 4 none ∷ operates 1 (force_open 9) ∷ operates 0 (force_open 9) ∷ []

get_or_create_breaker-same_example :
    let (i, r) = get_or_create_breaker config 3 none (run_uses config used_before no_breakers) in
    let s = run_uses config used_after r in
    (get_or_create_breaker config 3 (some config) s ≡ (i, s))
    × ((b : CircuitBreaker ℕ) × (lookup i r.objects ≡ some b)
        × (lookup i s.objects ≡ some (effects_on config i used_after b)))
get_or_create_breaker-same_example =
    get_or_create_breaker-same config used_before used_after 3 none (some config)

-- A loop that has run one coroutine, and is asked for another by a thread that hangs on the second.
abbrev loop : EventLoop ℕ
loop = record { waits_for = none; ready = []; started = 4 ∷ []; results = (4, returned 8) ∷ [] }

abbrev run : Action ℕ ℕ
run w = some (returned 8, w)

call_breaker_sync_hangs_example :
    let l' = record (call_in_loop 5 loop) { ready = (call_in_loop 5 loop).ready ++ 6 ∷ [] } in
    (l'.waits_for ≡ some 5) × (l'.started ≡ loop.started) × (l'.results ≡ loop.results)
unfolding lookup call_breaker_sync
call_breaker_sync_hangs_example =
    call_breaker_sync_hangs run 0 5 loop (call_in_loop 5 loop) _ refl refl
      (later stays (hands_over 6 (call_in_loop 5 loop)))
