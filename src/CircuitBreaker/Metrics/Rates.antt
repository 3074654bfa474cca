-- ===== src/CircuitBreaker/Metrics/Rates.antt =====
-- The snapshots of circuitbreaker/metrics.py: counts and rates.
use resilience4py.Prelude.{
  ℕ, ◌+◌, ◌≤◌, ◌<◌, ◌≡◌, true, not, List, [], ◌∷◌, arith, length, count_if, count_if-le,
}
use resilience4py.Prelude.Float.{Float, FloatLaws}
use resilience4py.CircuitBreaker.Metrics.{
  CallOutcome, Snapshot, snapshot_of, successful_calls, failed_in, slow_in, percent,
}

failed-add-succeeded :
    (cs : List CallOutcome) → failed_in cs + count_if (λ c. c.success) cs ≡ length cs
failed-add-succeeded [] = omega arith
failed-add-succeeded (c ∷ cs) = ground (arith, failed-add-succeeded cs)

module _ (F : Type 0) ⦃fl : Float F⦄ where
  -- Every call is counted once: failed and successful calls add up to the total, which is the number
  -- of calls held, and slow calls are among them.
  pub snapshot_of-counts :
      (cs : List CallOutcome)
      → let s : Snapshot F = snapshot_of cs in
        (s.total_calls ≡ length cs)
        × (s.failed_calls + successful_calls s ≡ s.total_calls)
        × (successful_calls s ≡ count_if (λ c. c.success) cs)
        × (s.slow_calls ≤ s.total_calls)
  unfolding snapshot_of successful_calls
  snapshot_of-counts [] = omega arith
  snapshot_of-counts (c ∷ cs) =
      ground
        (arith, failed-add-succeeded (c ∷ cs), count_if-le (λ (d : CallOutcome). d.slow) (c ∷ cs))

module _ {F : Type 0} ⦃fl : Float F⦄ (laws : FloatLaws fl) where
  pub percent_bounds :
      (part whole : ℕ)
      → part ≤ whole
      → 0 < whole
      → (fl.le_float fl.zero_float (percent part whole) ≡ true)
        × (fl.le_float (percent part whole) fl.hundred ≡ true)
  percent_bounds part whole h pos = (
    rw (laws.ratio_none whole pos) at (
        laws.times_mono (fl.ratio 0 whole) (fl.ratio part whole)
          (laws.ratio_mono 0 part whole (omega arith))),
    rw (laws.ratio_all whole pos) at (
        laws.times_mono (fl.ratio part whole) (fl.ratio whole whole)
          (laws.ratio_mono part whole whole h)),
  )

  -- Both rates of a snapshot lie between 0 and 100 percent, also for an empty window.
  pub snapshot_of-rates :
      (cs : List CallOutcome)
      → let s : Snapshot F = snapshot_of cs in
        (fl.le_float fl.zero_float s.failure_rate ≡ true)
        × (fl.le_float s.failure_rate fl.hundred ≡ true)
        × (fl.le_float fl.zero_float s.slow_call_rate ≡ true)
        × (fl.le_float s.slow_call_rate fl.hundred ≡ true)
  unfolding snapshot_of
  snapshot_of-rates [] =
      let low =
        rw (laws.ratio_none 1 (omega arith)) at (percent_bounds 0 1 (omega arith) (omega arith)) in
      (low.0, low.1, low.0, low.1)
  snapshot_of-rates (c ∷ cs) =
      let f =
        percent_bounds (failed_in (c ∷ cs)) (length (c ∷ cs))
          (count_if-le (λ (d : CallOutcome). not d.success) (c ∷ cs)) (omega arith) in
      let w =
        percent_bounds (slow_in (c ∷ cs)) (length (c ∷ cs))
          (count_if-le (λ (d : CallOutcome). d.slow) (c ∷ cs)) (omega arith) in
      ground (arith, f, w)
