-- ===== src/RateLimiter/Window.antt =====
-- ratelimiter/atomic_rate_limiter.py against an abstract fixed-window limiter, which has no counters.
use native.Mathlib.Nat.{le_trans}
use resilience4py.Prelude.{
  ℕ, suc, ◌+◌, ◌-◌, ◌*◌, ◌/◌, ◌≤◌, ◌<◌, ◌≡◌, refl, ap, ◌∙◌, inl, inr, List, [], ◌∷◌, arith, ltb,
  leb, ◌==◌, if◌then◌else◌, Bool-cases, count_if, ◌&&◌,
}
use resilience4py.Prelude.Int.{ℤ, pos, neg}
use resilience4py.RateLimiter.Limiter.{
  RateLimiterConfig, AtomicRateLimiter, cycle_at, new_limiter, reserve_permission,
}
use resilience4py.RateLimiter.Reserve.{IsCurrent, reserve_permission_lem}
use resilience4py.RateLimiter.Cycles.{reserve_all, IsOrdered, div_mono}

-- How many of the times lie in the cycle `k`.
abbrev pub used_in : RateLimiterConfig → ℕ → List ℕ → ℕ
used_in c k times = count_if (λ t. cycle_at c t == k) times

-- The answer at `now` after the grants at the given times.
abbrev window_answer : RateLimiterConfig → List ℕ → ℕ → ℤ
window_answer c grants now =
    let left = (cycle_at c now + 1) * c.limit_refresh_period - now in
    if ltb (used_in c (cycle_at c now) grants) c.limit_for_period
    then pos 0
    else if leb left c.timeout_duration
    then pos left
    else neg left

-- The grants once `now` has been answered.
abbrev window_grants : RateLimiterConfig → List ℕ → ℕ → List ℕ
window_grants c grants now =
    if ltb (used_in c (cycle_at c now) grants) c.limit_for_period then now ∷ grants else grants

-- The answers of the abstract limiter: a request is granted while the earlier grants of its cycle are fewer
-- than the limit, and nothing else of the past counts.
abbrev pub window_answers : RateLimiterConfig → List ℕ → List ℕ → List (ℕ × ℤ)
window_answers c grants [] = []
window_answers c grants (now ∷ times) =
    (now, window_answer c grants now) ∷ window_answers c (window_grants c grants now) times

-- The limiter's state after the grants: what is left of a cycle and what was granted in it make the limit.
abbrev Follows : AtomicRateLimiter → List ℕ → Type 0
Follows l grants =
    (k : ℕ)
    → l.state.active_cycle ≤ k
    → (if l.state.active_cycle == k then l.state.active_permissions else l.config.limit_for_period)
        + used_in l.config k grants
      ≡ l.config.limit_for_period

-- One more answer counts in its cycle if it is a grant.
window_grants-used :
    (c : RateLimiterConfig) (grants : List ℕ) (now k : ℕ)
    → used_in c k (window_grants c grants now) ≡ (
        if ltb (used_in c (cycle_at c now) grants) c.limit_for_period && (cycle_at c now == k)
        then suc (used_in c k grants)
        else used_in c k grants)
window_grants-used c grants now k = ground arith

-- One request: the limiter answers as the abstract one, and follows its grants.
reserve_permission-window :
    (now : ℕ) (l : AtomicRateLimiter) (grants : List ℕ)
    → IsCurrent now l
    → Follows l grants
    → let (wait, l') = reserve_permission now l in
      (wait ≡ window_answer l.config grants now) × Follows l' (window_grants l.config grants now)
reserve_permission-window now l grants h f =
    let s = reserve_permission_lem now l h in
    let g = f (cycle_at l.config now) h in
    (
      ground (arith, s, g),
      λ k le.
          let more = window_grants-used l.config grants now k in
          let before = f k (le_trans h (ground (arith, s.1, le))) in
          elim (Bool-cases (cycle_at l.config now == k)) [
            | inl here ↦ ground (arith, s, g, more, before, here, le)
            | inr later ↦ ground (arith, s, more, before, later, le)
          ],
    )

reserve_all_following :
    (lo : ℕ) (times : List ℕ) (l : AtomicRateLimiter) (grants : List ℕ)
    → IsOrdered lo times
    → l.state.active_cycle ≤ lo / l.config.limit_refresh_period
    → 0 < l.config.limit_refresh_period
    → Follows l grants
    → reserve_all times l ≡ window_answers l.config grants times
unfolding reserve_permission
reserve_all_following lo [] l grants o h p f = refl
reserve_all_following lo (now ∷ times) l grants o h p f =
    let l' = (reserve_permission now l).1 in
    let current : IsCurrent now l = le_trans h (div_mono lo now _ p o.0) in
    let s = reserve_permission_lem now l current in
    let (same, f') = reserve_permission-window now l grants current f in
    let ih =
      reserve_all_following now times l' (window_grants l.config grants now) o.1
        (ground (arith, s.1)) p f' in
    ap (λ w. (now, w) ∷ reserve_all times l') same
    ∙ ap ((now, window_answer l.config grants now) ∷◌) ih

-- A new limiter with a positive period answers a sequence of requests at times that do not fall just as the
-- abstract fixed-window limiter does: a request gets 0 if fewer than `limit_for_period` of the earlier ones in its cycle got 0, and
-- else the time to the cycle's end, negated beyond the timeout.
pub reserve_all-window_answers :
    (c : RateLimiterConfig) (times : List ℕ)
    → 0 < c.limit_refresh_period
    → IsOrdered 0 times
    → reserve_all times (new_limiter c) ≡ window_answers c [] times
unfolding new_limiter
reserve_all-window_answers c times p o =
    reserve_all_following 0 times (new_limiter c) [] o (omega arith) p (λ k le. ground arith)
