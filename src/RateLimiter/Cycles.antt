-- ===== src/RateLimiter/Cycles.antt =====
-- The limit of ratelimiter/atomic_rate_limiter.py over a sequence of reservations.
use native.Mathlib.Nat.{le-div_iff_mul-le, div-mul-le_self, le_trans}
use resilience4py.Prelude.{
  ℕ, zero, suc, ◌+◌, ◌-◌, ◌/◌, ◌≤◌, ◌<◌, ◌≡◌, refl, inl, inr, Bool, false, ◌&&◌, List, [], ◌∷◌,
  arith, ltb, ◌==◌, if◌then◌else◌, Bool-cases, count_if, ltb→lt,
}
use resilience4py.Prelude.Int.{ℤ, pos, negsuc, neg}
use resilience4py.RateLimiter.Limiter.{
  RateLimiterConfig, AtomicRateLimiter, cycle_at, reserve_permission,
}
use resilience4py.RateLimiter.Reserve.{
  available, next_cycle_start, IsCurrent, reserve_permission-branches, left_bounds,
}

-- Reservations at the given times, each with its answer, in order.
abbrev pub reserve_all : List ℕ → AtomicRateLimiter → List (ℕ × ℤ)
reserve_all [] l = []
reserve_all (now ∷ times) l =
    let (wait, l') = reserve_permission now l in (now, wait) ∷ reserve_all times l'

-- The times do not fall, from `lo` on.
abbrev pub IsOrdered : ℕ → List ℕ → Type 0
IsOrdered lo [] = Unit
IsOrdered lo (t ∷ ts) = (lo ≤ t) × IsOrdered t ts

-- A permit taken at once in the cycle `c`.
abbrev pub granted_in : RateLimiterConfig → ℕ → ℕ × ℤ → Bool
granted_in g c (now, pos n) = (cycle_at g now == c) && (n == 0)
granted_in g c (now, negsuc n) = false

-- No more permits than the limit are left over.
abbrev pub IsBounded : AtomicRateLimiter → Type 0
IsBounded l = l.state.active_permissions ≤ l.config.limit_for_period

-- How many permits the limiter can still give in the cycle `c`.
abbrev budget : ℕ → AtomicRateLimiter → ℕ
budget c l =
    if l.state.active_cycle == c
    then l.state.active_permissions
    else if ltb l.state.active_cycle c
    then l.config.limit_for_period
    else 0

pub div_mono : (a b d : ℕ) → 0 < d → a ≤ b → a / d ≤ b / d
div_mono a b d p h = (le-div_iff_mul-le p).1 (le_trans (div-mul-le_self a d) h)

granted_in-wait :
    (g : RateLimiterConfig) (c now left : ℕ) → 0 < left → granted_in g c (now, pos left) ≡ false
granted_in-wait g c now left h = ground arith

granted_in-neg :
    (g : RateLimiterConfig) (c now left : ℕ) → 0 < left → granted_in g c (now, neg left) ≡ false
granted_in-neg g c now zero h = absurd (omega arith)
granted_in-neg g c now (suc n) h = refl

-- A reservation keeps what is left within the limit, and spends of the cycle's budget what it grants.
reserve_spends :
    (c now : ℕ) (l : AtomicRateLimiter)
    → IsCurrent now l
    → IsBounded l
    → 0 < l.config.limit_refresh_period
    → let (wait, l') = reserve_permission now l in
      IsBounded l'
      × (count_if (granted_in l.config c) ((now, wait) ∷ []) + budget c l' ≤ budget c l)
reserve_spends c now l h b p =
    let s = reserve_permission-branches now l h in
    let left = left_bounds now l p in
    let w : ℕ = next_cycle_start now l - now in
    elim (Bool-cases (ltb 0 (available now l))) [
      | inl some_left ↦
          let t = s.0 (ltb→lt 0 _ some_left) in
          (ground (arith, t, s.3), ground (arith, t, s.2, s.3))
      | inr none_left ↦
          let t = s.1 (ground arith) in
          (
            ground (arith, t.2, s.3),
            elim (Bool-cases (ltb l.config.timeout_duration w)) [
              | inl late ↦
                  rw (t.1 (ltb→lt _ _ late), granted_in-neg l.config c now w left.0)
                    (ground (arith, t.2, s.2, s.3))
              | inr fine ↦
                  rw (t.0 (ground arith), granted_in-wait l.config c now w left.0)
                    (ground (arith, t.2, s.2, s.3))
            ],
          )
    ]

reserve_all-budget :
    (c lo : ℕ) (times : List ℕ) (l : AtomicRateLimiter)
    → IsOrdered lo times
    → l.state.active_cycle ≤ lo / l.config.limit_refresh_period
    → IsBounded l
    → 0 < l.config.limit_refresh_period
    → count_if (granted_in l.config c) (reserve_all times l) ≤ budget c l
reserve_all-budget c lo [] l o h b p = omega arith
reserve_all-budget c lo (now ∷ times) l o h b p =
    let l' = (reserve_permission now l).1 in
    let current : IsCurrent now l = le_trans h (div_mono lo now _ p o.0) in
    let lem = reserve_permission-branches now l current in
    let spends = reserve_spends c now l current b p in
    let ih =
      reserve_all-budget c now times l' o.1 (rw lem.3 (ground (arith, lem.2))) spends.0
        (rw lem.3 p) in
    let same = rw lem.3 at ih in ground (arith, same, spends.1, lem.3)

-- In no cycle does a limiter hand out more permits than `limit_for_period`: of the reservations at times
-- that do not fall, at most so many are answered 0 in any one cycle. That holds from any state that is not
-- ahead of the clock and within the limit, as a new limiter's is.
pub reserve_all-le-limit :
    (c lo : ℕ) (times : List ℕ) (l : AtomicRateLimiter)
    → IsOrdered lo times
    → l.state.active_cycle ≤ lo / l.config.limit_refresh_period
    → IsBounded l
    → 0 < l.config.limit_refresh_period
    → count_if (granted_in l.config c) (reserve_all times l) ≤ l.config.limit_for_period
reserve_all-le-limit c lo times l o h b p = ground (arith, reserve_all-budget c lo times l o h b p)
