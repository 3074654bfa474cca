-- ===== src/Retry/Intervals/Within.antt =====
-- The bounds of the intervals that retry/interval_functions.py computes in floats.
use resilience4py.Prelude.{
  ℕ, ◌≡◌, refl, ap, ◌∙◌, ◌⊎◌, inl, inr, true, false, Option, none, some, Bool-cases, Option-cases,
  arith,
}
use resilience4py.Outcome.{overflow_error, returned, raised}
use resilience4py.Retry.Intervals.{
  Seconds, IntervalLaws, retries_before, ExponentialBackoff, LinearBackoff,
  ExponentialRandomBackoff, min_float, max_float, under, is_below, new_exponential,
  call_exponential, new_linear, call_linear, new_exponential_random, call_exponential_random,
}

-- Neither negative nor above the cap, if there is one.
abbrev pub IsWithin : {F : Type 0} ⦃fs : Seconds F⦄ → Option F → F → Type 0
IsWithin ⦃fs⦄ top v = (fs.below v fs.nought ≡ false) × (is_below top v ≡ false)

module _ {F : Type 0} ⦃fs : Seconds F⦄ (laws : IntervalLaws fs) where
  under-IsWithin :
      (top : Option F) (v : F)
      → fs.below v fs.nought ≡ false
      → elim top [ none ↦ false | some t ↦ fs.below t fs.nought ] ≡ false
      → IsWithin top (under top v)
  under-IsWithin none v h k = (h, refl)
  under-IsWithin (some t) v h k = elim (Bool-cases (fs.below t v)) [
    | inl above ↦ rw above (k, laws.below_irreflexive t)
    | inr fits ↦ rw fits (h, fits)
  ]

  max_float-sign : (v : F) → fs.below (max_float fs.nought v) fs.nought ≡ false
  max_float-sign v = elim (Bool-cases (fs.below fs.nought v)) [
    | inl above ↦ rw above (laws.below_asymmetric fs.nought v above)
    | inr not_above ↦ rw not_above (laws.below_irreflexive fs.nought)
  ]

  -- A linear backoff that its constructor accepted answers every attempt with an interval that is neither
  -- negative nor above the cap, also where the increment is negative.
  pub call_linear-IsWithin :
      (initial increment : F) (top : Option F) (b : LinearBackoff F) (attempt : ℕ)
      → new_linear initial increment top ≡ returned b
      → IsWithin top (call_linear attempt b)
  unfolding new_linear call_linear
  call_linear-IsWithin initial increment top b attempt h =
      let kept : b.max_interval ≡ top = ground (arith, h) in
      let positive : elim top [ none ↦ false | some t ↦ fs.below t fs.nought ] ≡ false =
        ground (arith, h) in
      let v =
        max_float fs.nought
          (fs.plus b.initial_interval (fs.times_int b.increment (retries_before attempt))) in
      rw (call_linear, kept) (under-IsWithin top v (max_float-sign _) positive)

  positive-sign : (a : F) → fs.below fs.nought a ≡ true → fs.below a fs.nought ≡ false
  positive-sign a h = laws.below_asymmetric fs.nought a h

  new_exponential_lem :
      (initial multiplier : F) (top : Option F) (b : ExponentialBackoff F)
      → new_exponential initial multiplier top ≡ returned b
      → (fs.below initial fs.nought ≡ false)
        × (fs.below fs.nought multiplier ≡ true)
        × (is_below top initial ≡ false)
        × (b ≡ record { initial_interval = initial; multiplier = multiplier; max_interval = top })
  unfolding new_exponential
  new_exponential_lem initial multiplier top b h = (
    ground (arith, h),
    laws.not_at_most multiplier fs.nought (ground (arith, h)),
    ground (arith, h),
    ground (arith, h),
  )

  cap-sign :
      (initial : F) (top : Option F)
      → fs.below initial fs.nought ≡ false
      → is_below top initial ≡ false
      → elim top [ none ↦ false | some t ↦ fs.below t fs.nought ] ≡ false
  cap-sign initial none low fits = refl
  cap-sign initial (some t) low fits = laws.not_below_trans fs.nought initial t low fits

  -- An exponential backoff that its constructor accepted answers an attempt with an interval that is neither
  -- negative nor above the cap, or raises an `OverflowError`: exactly where the power of the multiplier
  -- overflows, whatever the cap.
  pub call_exponential-IsWithin :
      (initial multiplier : F) (top : Option F) (b : ExponentialBackoff F) (attempt : ℕ)
      → new_exponential initial multiplier top ≡ returned b
      → (fs.power multiplier (retries_before attempt) ≡ none)
          × (call_exponential attempt b ≡ raised overflow_error)
        ⊎ (v : F) × (call_exponential attempt b ≡ returned v) × IsWithin top v
  unfolding new_exponential call_exponential
  call_exponential-IsWithin initial multiplier top b attempt h =
      let (low, rises, fits, kept) = new_exponential_lem initial multiplier top b h in
      elim (Option-cases (fs.power multiplier (retries_before attempt))) [
        | inl e ↦ inl (e, rw (call_exponential, kept, e) refl)
        | inr (p, e) ↦
            let v = fs.times initial p in
            let sign = laws.times_sign initial p low (
              laws.power_sign multiplier p (retries_before attempt) (positive-sign multiplier rises)
                e) in
            inr (
              under top v,
              ap (call_exponential attempt) kept ∙ rw (call_exponential, e) refl,
              under-IsWithin top v sign (cap-sign initial top low fits),
            )
      ]

  min_float-IsWithin :
      (a b : F)
      → fs.below a fs.nought ≡ false
      → fs.below b fs.nought ≡ false
      → (fs.below (min_float a b) fs.nought ≡ false)
        × (fs.below a (min_float a b) ≡ false)
        × (fs.below b (min_float a b) ≡ false)
  min_float-IsWithin a b h k = elim (Bool-cases (fs.below b a)) [
    | inl lower ↦ rw lower (k, laws.below_asymmetric b a lower, laws.below_irreflexive b)
    | inr not_lower ↦ rw not_lower (h, laws.below_irreflexive a, not_lower)
  ]

  new_exponential_random_lem :
      (initial multiplier top : F) (b : ExponentialRandomBackoff F)
      → new_exponential_random initial multiplier top ≡ returned b
      → (fs.below fs.nought initial ≡ true)
        × (fs.below multiplier fs.nought ≡ false)
        × (fs.below fs.nought top ≡ true)
        × (b ≡ record { initial_interval = initial; multiplier = multiplier; max_interval = top })
  unfolding new_exponential_random
  new_exponential_random_lem initial multiplier top b h =
      let rises = laws.not_at_most multiplier fs.one (ground (arith, h)) in
      (
        laws.not_at_most initial fs.nought (ground (arith, h)),
        laws.not_below_trans fs.nought fs.one multiplier laws.one_sign
            (laws.below_asymmetric fs.one multiplier rises),
        laws.not_at_most top fs.nought (ground (arith, h)),
        ground (arith, h),
      )

  -- A random exponential backoff that its constructor accepted draws an interval that is neither negative nor
  -- above `max_interval` or the exponential interval, or raises an `OverflowError`, exactly where the power
  -- of the multiplier overflows.
  pub call_exponential_random-IsWithin :
      (initial multiplier top : F) (b : ExponentialRandomBackoff F) (draw attempt : ℕ)
      → new_exponential_random initial multiplier top ≡ returned b
      → (fs.power multiplier (retries_before attempt) ≡ none)
          × (call_exponential_random draw attempt b ≡ raised overflow_error)
        ⊎ (p v : F) × (fs.power multiplier (retries_before attempt) ≡ some p)
          × (call_exponential_random draw attempt b ≡ returned v)
          × IsWithin (some top) v
          × IsWithin (some (fs.times initial p)) v
  unfolding new_exponential_random call_exponential_random
  call_exponential_random-IsWithin initial multiplier top b draw attempt h =
      let (low, rises, cap_low, kept) = new_exponential_random_lem initial multiplier top b h in
      elim (Option-cases (fs.power multiplier (retries_before attempt))) [
        | inl e ↦ inl (e, rw (call_exponential_random, kept, e) refl)
        | inr (p, e) ↦
            let x = fs.times initial p in
            let most = min_float top x in
            let sign =
              laws.times_sign initial p (positive-sign initial low)
                (laws.power_sign multiplier p (retries_before attempt) rises e) in
            let (most_sign, le_top, le_x) =
              min_float-IsWithin top x (positive-sign top cap_low) sign in
            let v = fs.uniform draw fs.nought most in
            let not_above = laws.uniform_high draw fs.nought most most_sign in
            let not_negative = laws.uniform_low draw fs.nought most most_sign in
            inr (
              p,
              v,
              e,
              ap (call_exponential_random draw attempt) kept ∙ rw (call_exponential_random, e) refl,
              (not_negative, laws.not_below_trans v most top not_above le_top),
              (not_negative, laws.not_below_trans v most x not_above le_x),
            )
      ]
