-- ===== src/RateLimiter/Reserve.antt =====
-- One reservation of ratelimiter/atomic_rate_limiter.py: what it answers and what it leaves.
use native.Mathlib.Nat.{lt-div-mul-add, div-mul-le_self}
use resilience4py.Prelude.{
  ℕ, zero, suc, ◌+◌, ◌-◌, ◌*◌, ◌≤◌, ◌<◌, ◌≡◌, refl, ◌⊎◌, inl, inr, arith, ltb, leb, ◌==◌,
  if◌then◌else◌, Bool-cases,
}
use resilience4py.Prelude.Int.{pos, neg}
use resilience4py.RateLimiter.Limiter.{AtomicRateLimiter, cycle_at, refresh, reserve_permission}

-- The permits that a call at `now` finds, once the cycle has been brought up to date: in another cycle
-- than the last call's they are the full limit.
abbrev pub available : ℕ → AtomicRateLimiter → ℕ
available now l =
    if cycle_at l.config now == l.state.active_cycle
    then l.state.active_permissions
    else l.config.limit_for_period

-- The start of the cycle after that of `now`.
abbrev pub next_cycle_start : ℕ → AtomicRateLimiter → ℕ
next_cycle_start now l = (cycle_at l.config now + 1) * l.config.limit_refresh_period

-- The clock has not fallen behind the last call.
abbrev pub IsCurrent : ℕ → AtomicRateLimiter → Type 0
IsCurrent now l = l.state.active_cycle ≤ cycle_at l.config now

mul_pos-le : (k n : ℕ) → 0 < k → n ≤ k * n
mul_pos-le zero n h = absurd (omega arith)
mul_pos-le (suc k) n h = grind arith

-- Up to date, the state has the permits that are available and the cycle of the clock.
refreshed :
    (now : ℕ) (l : AtomicRateLimiter)
    → IsCurrent now l
    → let s = refresh l.config (cycle_at l.config now) l.state in
      (s.active_permissions ≡ available now l) × (s.active_cycle ≡ cycle_at l.config now)
unfolding refresh
refreshed now l h =
    ground
      (arith, mul_pos-le (cycle_at l.config now - l.state.active_cycle) l.config.limit_for_period)

-- The branches of a reservation, each under its condition.
pub reserve_permission-branches :
    (now : ℕ) (l : AtomicRateLimiter)
    → IsCurrent now l
    → let (wait, l') = reserve_permission now l in
      let left = next_cycle_start now l - now in
      (0 < available now l → (wait ≡ pos 0) × (l'.state.active_permissions + 1 ≡ available now l))
      × (available now l ≡ 0
          → (left ≤ l.config.timeout_duration → wait ≡ pos left)
            × (l.config.timeout_duration < left → wait ≡ neg left)
            × (l'.state.active_permissions ≡ 0))
      × (l'.state.active_cycle ≡ cycle_at l.config now)
      × (l'.config ≡ l.config)
unfolding reserve_permission
reserve_permission-branches now l h =
    let r = refreshed now l h in
    (
      λ p. (ground (arith, r), ground (arith, r)),
      λ z. (λ t. ground (arith, r), λ t. ground (arith, r), ground (arith, r)),
      ground (arith, r),
      refl,
    )

-- A reservation takes one permit of the clock's cycle if one is available, and answers 0. Otherwise it
-- takes nothing and answers the time that is left of the cycle, negated if that is more than the timeout.
-- Either way the state is then in the clock's cycle, and the configuration is kept.
pub reserve_permission_lem :
    (now : ℕ) (l : AtomicRateLimiter)
    → IsCurrent now l
    → let (wait, l') = reserve_permission now l in
      let left = next_cycle_start now l - now in
      ((wait ≡ pos 0) × (l'.state.active_permissions + 1 ≡ available now l)
        ⊎ (available now l ≡ 0)
          × (wait ≡ (if leb left l.config.timeout_duration then pos left else neg left))
          × (l'.state.active_permissions ≡ 0))
      × (l'.state.active_cycle ≡ cycle_at l.config now)
      × (l'.config ≡ l.config)
unfolding reserve_permission
reserve_permission_lem now l h =
    let r = refreshed now l h in
    (
      elim (Bool-cases (ltb 0 (available now l))) [
        | inl free ↦ inl (ground (arith, r), ground (arith, r))
        | inr none_free ↦ inr (ground arith, ground (arith, r), ground (arith, r))
      ],
      ground (arith, r),
      refl,
    )

-- The time that is left of a cycle is positive and at most the cycle's length.
pub left_bounds :
    (now : ℕ) (l : AtomicRateLimiter)
    → 0 < l.config.limit_refresh_period
    → (0 < next_cycle_start now l - now)
      × (next_cycle_start now l - now ≤ l.config.limit_refresh_period)
left_bounds now l pos_period =
    let p = l.config.limit_refresh_period in
    grind (arith, lt-div-mul-add {a = now} {b = p} pos_period, div-mul-le_self now p)
