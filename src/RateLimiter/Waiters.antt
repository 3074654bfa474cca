-- ===== src/RateLimiter/Waiters.antt =====
-- What a positive answer of `_reserve_permission` is worth: a call that waits reserves nothing
-- (ratelimiter/atomic_rate_limiter.py), and `RateLimiter.acquire_permission` against the decorator.
use native.Mathlib.Nat.{mul-div_left}
use resilience4py.Prelude.{
  ℕ, zero, suc, ◌+◌, ◌-◌, ◌≤◌, ◌<◌, ◌≡◌, refl, ap, Option, none, some, List, ◌++◌, map, arith,
  if◌then◌else◌, replicate,
}
use resilience4py.Prelude.Int.{ℤ, pos, negsuc}
use resilience4py.RateLimiter.Limiter.{
  AtomicRateLimiter, cycle_at, reserve_permission, admit, acquire_permission,
}
use resilience4py.RateLimiter.Reserve.{
  available, next_cycle_start, IsCurrent, reserve_permission-branches, left_bounds,
}
use resilience4py.RateLimiter.Cycles.{reserve_all}

-- When the function of a call with this answer runs: after its sleep, or never.
abbrev pub runs_at : ℕ × ℤ → Option ℕ
runs_at (now, pos w) = some (now + w)
runs_at (now, negsuc w) = none

-- When the functions of the calls at `times` run, in the calls' order.
abbrev pub run_times : List ℕ → AtomicRateLimiter → List (Option ℕ)
run_times times l = map runs_at (reserve_all times l)

-- The calls at one time run at it, as far as permits are available.
grants_all :
    (k t : ℕ) (l : AtomicRateLimiter)
    → IsCurrent t l
    → available t l ≡ k
    → run_times (replicate k t) l ≡ replicate k (some t)
grants_all zero t l current h = refl
grants_all (suc k) t l current h =
    let s = reserve_permission-branches t l current in
    let got = s.0 (ground (arith, h)) in
    let rest =
      grants_all k t (reserve_permission t l).1 (rw s.3 (ground (arith, s.2)))
        (ground (arith, got, s.2, s.3)) in
    let now_runs : runs_at (t, (reserve_permission t l).0) ≡ some t =
      rw got.0 (ap some (omega arith)) in
    rw (now_runs, rest)

module _ (now : ℕ) where
  -- No permit is available, and the rest of the cycle is within the timeout.
  abbrev pub MustWait : AtomicRateLimiter → Type 0
  MustWait l =
      IsCurrent now l
      × (available now l ≡ 0)
      × (next_cycle_start now l - now ≤ l.config.timeout_duration)
      × (0 < l.config.limit_refresh_period)

  -- A call that waits leaves the limiter as it found it.
  waits :
      (l : AtomicRateLimiter)
      → MustWait l
      → let (wait, l') = reserve_permission now l in
        (runs_at (now, wait) ≡ some (next_cycle_start now l))
        × MustWait l'
        × (l'.config ≡ l.config)
        × (l'.state.active_cycle ≡ cycle_at l.config now)
  waits l h =
      let s = reserve_permission-branches now l h.0 in
      let left = left_bounds now l h.3 in
      let t = s.1 h.1 in
      (
        rw (t.0 h.2) (ap some (omega (arith, left))),
        (rw s.3 (ground (arith, s.2)), ground (arith, t.2, s.2, s.3), rw s.3 h.2, rw s.3 h.3),
        s.3,
        s.2,
      )

  -- A limiter that must make calls wait gives its full limit at the start of the next cycle.
  next_cycle :
      (l : AtomicRateLimiter)
      → MustWait l
      → IsCurrent (next_cycle_start now l) l
        × (available (next_cycle_start now l) l ≡ l.config.limit_for_period)
  next_cycle l h =
      let c : cycle_at l.config (next_cycle_start now l) ≡ cycle_at l.config now + 1 =
        mul-div_left _ h.3 in
      (rw c (omega (arith, h.0)), ground (arith, c, h.0))

  -- Waiting reserves no permit. When none is left in a cycle and the timeout covers the rest of it, any
  -- number of calls are told to wait for the next cycle, and all of them run at its very start, beside the
  -- `limit_for_period` calls that are granted there at once: `n + limit_for_period` functions run at that
  -- one time, for every `n`.
  pub waiters_exceed_limit :
      (n : ℕ) (l : AtomicRateLimiter)
      → MustWait l
      → let t = next_cycle_start now l in
        let limit = l.config.limit_for_period in
        run_times (replicate n now ++ replicate limit t) l ≡ replicate (n + limit) (some t)
  waiters_exceed_limit zero l h =
      let nc = next_cycle l h in
      let e : 0 + l.config.limit_for_period ≡ l.config.limit_for_period = omega arith in
      rw e (grants_all l.config.limit_for_period (next_cycle_start now l) l nc.0 nc.1)
  waiters_exceed_limit (suc n) l h =
      let w = waits l h in
      let limit = l.config.limit_for_period in
      let e : suc n + limit ≡ suc (n + limit) = omega arith in
      let rest = rw w.2 at (waiters_exceed_limit n (reserve_permission now l).1 w.1) in
      rw (e, w.0, rest)

-- `RateLimiter.acquire_permission` answers as the decorator decides: it is refused exactly when a decorated
-- call would be denied, and else sleeps as long; the limiter's state after it is the same.
pub acquire_permission-admit :
    (now : ℕ) (l : AtomicRateLimiter)
    → let (granted, slept, l') = acquire_permission now l in
      let (decision, l'') = admit now l in
      (decision ≡ (if granted then some slept else none)) × (l'.state ≡ l''.state)
unfolding acquire_permission admit
acquire_permission-admit now l = ground arith
