-- ===== src/Examples/Primes.antt =====
-- The prime numbers that `simulate_cpu_intensive_work` of examples/bulkhead_flask.py computes, by trial
-- division.
use resilience4py.Prelude.{
  ℕ, zero, suc, ◌+◌, ◌-◌, ◌%◌, Bool, true, false, List, [], ◌∷◌, ◌==◌, length, if◌then◌else◌,
}

-- `for i in range(...): if num % i == 0: break`, with `else`, by the turns that are left.
unfoldable pub trial_division : ℕ → ℕ → ℕ → Bool
trial_division zero i num = true
trial_division (suc turns) i num =
    let rest = trial_division turns (i + 1) num in if num % i == 0 then false else rest

-- `for num in range(2, n)`, by the numbers that are left; `root` is `int(num ** 0.5)`.
unfoldable pub primes_from : (ℕ → ℕ) → ℕ → ℕ → List ℕ
unfolding trial_division
primes_from root zero num = []
primes_from root (suc others) num =
    let rest = primes_from root others (num + 1) in
    if trial_division (root num + 1 - 2) 2 num then num ∷ rest else rest

unfoldable pub primes : (ℕ → ℕ) → ℕ → List ℕ
unfolding primes_from
primes root n = primes_from root (n - 2) 2

-- `len(primes)`
unfoldable pub primes_below : (ℕ → ℕ) → ℕ → ℕ
unfolding primes
primes_below root n = length (primes root n)
