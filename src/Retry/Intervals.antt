-- ===== src/Retry/Intervals.antt =====
-- retry/interval_functions.py: the intervals that are computed in floats. Their operations are a parameter:
-- `IntervalLaws` says what IEEE arithmetic and `random.uniform` promise of numbers that are not NaN.
use resilience4py.Prelude.{
  ℕ, zero, suc, ◌≡◌, refl, ap, ◌∙◌, ◌⊎◌, inl, inr, Bool, true, false, Option, none, some,
  if◌then◌else◌, Bool-cases, Option-cases, arith,
}
use resilience4py.Prelude.Int.{ℤ, pos, negsuc}
use resilience4py.Outcome.{value_error, overflow_error, Outcome, returned, raised}
pub mod Within

pub record Seconds (F : Type 0) : Type 0 where
  pub nought : F
  pub one : F
  pub plus : F → F → F
  pub times : F → F → F
  -- a product with an int
  pub times_int : F → ℤ → F
  -- `a ** n`: `none` is an `OverflowError`.
  pub power : F → ℤ → Option F
  pub below : F → F → Bool
  pub at_most : F → F → Bool
  -- `random.uniform(a, b)`, by a draw
  pub uniform : ℕ → F → F → F

pub record IntervalLaws {F : Type 0} (fs : Seconds F) : Type 0 where
  pub below_irreflexive : (a : F) → fs.below a a ≡ false
  pub not_at_most : (a b : F) → fs.at_most a b ≡ false → fs.below b a ≡ true
  pub one_sign : fs.below fs.one fs.nought ≡ false
  pub below_asymmetric : (a b : F) → fs.below a b ≡ true → fs.below b a ≡ false
  pub not_below_trans :
      (a b c : F) → fs.below b a ≡ false → fs.below c b ≡ false → fs.below c a ≡ false
  pub times_sign :
      (a b : F)
      → fs.below a fs.nought ≡ false
      → fs.below b fs.nought ≡ false
      → fs.below (fs.times a b) fs.nought ≡ false
  pub power_sign :
      (a b : F) (n : ℤ)
      → fs.below a fs.nought ≡ false
      → fs.power a n ≡ some b
      → fs.below b fs.nought ≡ false
  pub uniform_low : (r : ℕ) (a b : F) → fs.below b a ≡ false → fs.below (fs.uniform r a b) a ≡ false
  pub uniform_high :
      (r : ℕ) (a b : F) → fs.below b a ≡ false → fs.below b (fs.uniform r a b) ≡ false

-- `attempt - 1`
abbrev pub retries_before : ℕ → ℤ
retries_before zero = negsuc 0
retries_before (suc n) = pos n

pub record FixedInterval (F : Type 0) : Type 0 where
  pub interval_seconds : F

pub record ExponentialBackoff (F : Type 0) : Type 0 where
  pub initial_interval : F
  pub multiplier : F
  pub max_interval : Option F

pub record LinearBackoff (F : Type 0) : Type 0 where
  pub initial_interval : F
  pub increment : F
  pub max_interval : Option F

pub record RandomInterval (F : Type 0) : Type 0 where
  pub min_interval : F
  pub max_interval : F

pub record ExponentialRandomBackoff (F : Type 0) : Type 0 where
  pub initial_interval : F
  pub multiplier : F
  pub max_interval : F

module _ {F : Type 0} ⦃fs : Seconds F⦄ where
  -- `min(a, b)` and `max(a, b)` of Python, which keep the first of equals.
  abbrev pub min_float : F → F → F
  min_float a b = if fs.below b a then b else a

  abbrev pub max_float : F → F → F
  max_float a b = if fs.below a b then b else a

  abbrev pub under : Option F → F → F
  under none a = a
  under (some top) a = min_float a top

  abbrev pub is_below : Option F → F → Bool
  is_below none a = false
  is_below (some top) a = fs.below top a

  unfoldable pub new_fixed : F → Outcome (FixedInterval F)
  new_fixed s =
      if fs.below s fs.nought
      then raised value_error
      else returned (record { interval_seconds = s })

  unfoldable pub call_fixed : ℕ → FixedInterval F → F
  call_fixed attempt b = b.interval_seconds

  unfoldable pub new_exponential : F → F → Option F → Outcome (ExponentialBackoff F)
  new_exponential initial multiplier top =
      if fs.below initial fs.nought
      then raised value_error
      else if fs.at_most multiplier fs.nought
      then raised value_error
      else if is_below top initial
      then raised value_error
      else returned
          (record { initial_interval = initial; multiplier = multiplier; max_interval = top })

  unfoldable pub call_exponential : ℕ → ExponentialBackoff F → Outcome F
  call_exponential attempt b = elim (fs.power b.multiplier (retries_before attempt)) [
    | none ↦ raised overflow_error
    | some p ↦ returned (under b.max_interval (fs.times b.initial_interval p))
  ]

  unfoldable pub new_linear : F → F → Option F → Outcome (LinearBackoff F)
  new_linear initial increment top =
      if fs.below initial fs.nought
      then raised value_error
      else if elim top [ none ↦ false | some t ↦ fs.below t fs.nought ]
      then raised value_error
      else returned
          (record { initial_interval = initial; increment = increment; max_interval = top })

  unfoldable pub call_linear : ℕ → LinearBackoff F → F
  call_linear attempt b =
      let interval =
        fs.plus b.initial_interval (fs.times_int b.increment (retries_before attempt)) in
      under b.max_interval (max_float fs.nought interval)

  unfoldable pub new_random : F → F → Outcome (RandomInterval F)
  new_random low high =
      if fs.below low fs.nought
      then raised value_error
      else if fs.below high low
      then raised value_error
      else returned (record { min_interval = low; max_interval = high })

  unfoldable pub call_random : ℕ → ℕ → RandomInterval F → F
  call_random draw attempt b = fs.uniform draw b.min_interval b.max_interval

  unfoldable pub new_exponential_random : F → F → F → Outcome (ExponentialRandomBackoff F)
  new_exponential_random initial multiplier top =
      if fs.at_most initial fs.nought
      then raised value_error
      else if fs.at_most multiplier fs.one
      then raised value_error
      else if fs.at_most top fs.nought
      then raised value_error
      else returned
          (record { initial_interval = initial; multiplier = multiplier; max_interval = top })

  unfoldable pub call_exponential_random : ℕ → ℕ → ExponentialRandomBackoff F → Outcome F
  call_exponential_random draw attempt b = elim (fs.power b.multiplier (retries_before attempt)) [
    | none ↦ raised overflow_error
    | some p ↦
        returned
          (fs.uniform draw fs.nought (min_float b.max_interval (fs.times b.initial_interval p)))
  ]
