-- ===== src/Tests/Intervals.antt =====
-- The computed intervals of the retry package on concrete inputs.
use resilience4py.Prelude.{
  ℕ, ◌+◌, ◌*◌, ◌^◌, ◌≡◌, refl, ◌⊎◌, Option, none, some, [], ◌∷◌, ltb, leb, if◌then◌else◌, arith,
}
use resilience4py.Prelude.Int.{ℤ, pos, negsuc}
use resilience4py.Outcome.{overflow_error, recursion_error, returned, raised}
use resilience4py.Retry.Fibonacci.{
  FibonacciBackoff, new_backoff, call, call_all, fibonacci, get, AllAnswered, call_all-intervals,
}
use resilience4py.Retry.Intervals.{
  Seconds, IntervalLaws, ExponentialBackoff, new_exponential, call_exponential,
}
use resilience4py.Retry.Intervals.Within.{IsWithin, call_exponential-IsWithin}

-- Whole seconds, whose powers overflow beyond the fourth.
abbrev whole_power : ℕ → ℤ → Option ℕ
whole_power a (pos n) = if ltb 4 n then none else some (a ^ n)
whole_power a (negsuc n) = some 0

abbrev whole_product : ℕ → ℤ → ℕ
whole_product a (pos n) = a * n
whole_product a (negsuc n) = 0

instance abbrev whole_seconds : Seconds ℕ
whole_seconds = record {
  nought = 0;
  one = 1;
  plus = ◌+◌;
  times = ◌*◌;
  times_int = whole_product;
  power = whole_power;
  below = ltb;
  at_most = leb;
  uniform = λ r a b. if ltb (a + r) b then a + r else b;
}

whole_laws : IntervalLaws whole_seconds
whole_laws = record {
  not_at_most = λ a b h. ground arith;
  one_sign = refl;
  below_irreflexive = λ a. ground arith;
  below_asymmetric = λ a b h. ground arith;
  not_below_trans = λ a b c h k. ground arith;
  times_sign = λ a b h k. ground arith;
  power_sign = λ a b n h k. ground arith;
  uniform_low = λ r a b h. ground arith;
  uniform_high = λ r a b h. ground arith;
}

abbrev doubling : ExponentialBackoff ℕ
doubling = record { initial_interval = 3; multiplier = 2; max_interval = some 20 }

accepted : new_exponential 3 2 (some 20) ≡ returned doubling
unfolding new_exponential
accepted = refl

call_exponential-IsWithin_example :
    (whole_power 2 (pos 3) ≡ none) × (call_exponential 4 doubling ≡ raised overflow_error)
    ⊎ (v : ℕ) × (call_exponential 4 doubling ≡ returned v) × IsWithin (some 20) v
call_exponential-IsWithin_example =
    call_exponential-IsWithin whole_laws 3 2 (some 20) doubling 4 accepted

-- A product with a number above 100 overflows.
abbrev product : ℕ → ℕ → Option ℕ
product a n = if ltb 100 n then none else some (a * n)

abbrev growing : FibonacciBackoff ℕ
growing = record { initial_interval = 2; max_interval = some 7; fib_cache = (1, 1) ∷ (2, 1) ∷ [] }

accepted_growing : new_backoff 2 (some 7) ≡ returned growing
unfolding new_backoff
accepted_growing = refl

-- The first call meets the limit of the recursion.
call_all-intervals_example :
    AllAnswered product 2
      (some 7)
      ((3, 9) ∷ (30, 5) ∷ (30, 0) ∷ (30, 20) ∷ [])
      (call_all product ((3, 9) ∷ (30, 5) ∷ (30, 0) ∷ (30, 20) ∷ []) growing)
call_all-intervals_example =
    call_all-intervals product 2 (some 7) growing ((3, 9) ∷ (30, 5) ∷ (30, 0) ∷ (30, 20) ∷ [])
      accepted_growing

growing_intervals :
    call_all product ((3, 9) ∷ (30, 5) ∷ (30, 0) ∷ (30, 20) ∷ []) growing
    ≡ raised recursion_error ∷ returned 7 ∷ returned 2 ∷ raised overflow_error ∷ []
unfolding call_all call fibonacci get
growing_intervals = refl
