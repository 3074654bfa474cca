-- ===== src/Tests/Facades.antt =====
-- The rate limiter's registry and interface on concrete inputs.
use resilience4py.Prelude.{ℕ, ◌≡◌, refl, none, some, [], ◌∷◌, ◌==◌, if◌then◌else◌}
use resilience4py.Registry.{new_registry}
use resilience4py.RateLimiter.Limiter.{RateLimiterConfig}
use resilience4py.RateLimiter.Registered.{LimiterRegistry}
use resilience4py.RateLimiter.Cycles.{reserve_all}
use resilience4py.RateLimiter.Service.{Service, limiter_of}
use resilience4py.RateLimiter.Sharing.{Users, reserve_all_through, reserve_all_through-one_limiter}
use resilience4py.RateLimiter.Facade.{Shared, new_rate_limiter, get_limiter}

abbrev permitting : ℕ → RateLimiterConfig
permitting n = record { limit_for_period = n; limit_refresh_period = 10; timeout_duration = 5 }

abbrev limiters : LimiterRegistry
limiters = new_registry (permitting 50)

-- Another user of the limiter that is constructed next has registered listener 4.
abbrev shared : Shared
shared = record { registry = limiters; attached = (0, (1, 4 ∷ []) ∷ []) ∷ [] }

-- Object 0 brings a configuration of its own, and the others none.
abbrev users : Users
users j = new_rate_limiter 7 (if j == 0 then some (permitting 3) else none)

abbrev service : Service
service = record { shared = shared; limiters = [] }

reserve_all_through-one_limiter_example :
    let i = (get_limiter (users 1) service.shared).0 in
    reserve_all_through ((1, 12) ∷ (0, 13) ∷ (2, 13) ∷ (0, 25) ∷ []) users service
    ≡ reserve_all (12 ∷ 13 ∷ 13 ∷ 25 ∷ []) (limiter_of i service)
unfolding new_rate_limiter
reserve_all_through-one_limiter_example =
    reserve_all_through-one_limiter 7 1 12 ((0, 13) ∷ (2, 13) ∷ (0, 25) ∷ []) users service
      (λ j. (refl, refl))
