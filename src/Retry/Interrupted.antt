-- ===== src/Retry/Interrupted.antt =====
-- retry/retry.py: `_execute_with_retry` with sleeps that may be cancelled. The `CancelledError` out of
-- `asyncio.sleep` is no `Exception`, and so leaves the loop from both places where it sleeps. `interrupts`
-- says behind which attempts the sleep is cancelled; one that is cut short is booked as it began.
use mathlib.Core.List.{append_assoc}
use resilience4py.Prelude.{
  ℕ, zero, suc, ◌+◌, ◌≡◌, refl, sym, ap, ◌∙◌, ◌⊎◌, inl, inr, Bool, true, false, Option, none, List,
  [], ◌∷◌, ◌++◌, if◌then◌else◌, Bool-cases, any_of, arith, ◌<◌,
}
use resilience4py.Outcome.{Exception, Outcome, cancelled}
use resilience4py.Retry.Config.{RetryConfig}
use resilience4py.Retry.Loop.{
  Deed, called, ends, goes_on, after_attempt, fall_through, retry_loop, execute_with_retry,
}
use resilience4py.Retry.Attempts.{
  calls, calls-append, decides, after_attempt-decides, after_attempt-goes_on,
}

module _ {A : Type 0} (c : RetryConfig A) (interrupts : ℕ → Bool) where
  unfoldable pub interrupted_loop :
      ℕ → ℕ → Option Exception → (ℕ → Outcome A) → Outcome A × List (Deed A)
  interrupted_loop zero attempt last func = (fall_through c last, [])
  interrupted_loop (suc rounds) attempt last func =
      elim (after_attempt c attempt last (func attempt)) [
        | ends o deeds ↦ (o, called attempt ∷ deeds)
        | goes_on last' deeds ↦
            let (o, more) = interrupted_loop rounds (attempt + 1) last' func in
            if interrupts attempt
            then (cancelled, called attempt ∷ deeds)
            else (o, called attempt ∷ (deeds ++ more))
      ]

  unfoldable pub execute_interrupted : (ℕ → Outcome A) → Outcome A × List (Deed A)
  unfolding interrupted_loop
  execute_interrupted func = interrupted_loop c.max_attempts 1 none func

  -- A run of which `j` is the last call, behind those of `before`, against the undisturbed one.
  abbrev pub IsCut : List ℕ → ℕ → (run run' : Outcome A × List (Deed A)) → Type 0
  IsCut before j (o, deeds) (o', deeds') =
      (calls deeds ≡ before ++ j ∷ [])
      × (any_of interrupts before ≡ false)
      × ((o ≡ o') × (deeds ≡ deeds')
          ⊎ (interrupts j ≡ true)
            × (o ≡ cancelled)
            × (rest : List (Deed A)) × (deeds' ≡ deeds ++ rest))

  IsCut-cons :
      (a j : ℕ) (before : List ℕ) (ds more more' : List (Deed A)) (o o' : Outcome A)
      → calls ds ≡ []
      → interrupts a ≡ false
      → IsCut before j (o, more) (o', more')
      → IsCut (a ∷ before) j (o, called a ∷ (ds ++ more)) (o', called a ∷ (ds ++ more'))
  IsCut-cons a j before ds more more' o o' no_calls goes (made, none_cut, inl (same, same_deeds)) =
      (
        ap (a ∷◌) (calls-append ds more ∙ ap (◌++ calls more) no_calls ∙ made),
        rw goes none_cut,
        inl (same, ap (λ m. called a ∷ (ds ++ m)) same_deeds),
      )
  IsCut-cons a j before ds more more' o o' no_calls goes
        (made, none_cut, inr (cut, ended, rest, same)) =
      (
        ap (a ∷◌) (calls-append ds more ∙ ap (◌++ calls more) no_calls ∙ made),
        rw goes none_cut,
        inr (
          cut,
          ended,
          rest,
          ap (λ m. called a ∷ (ds ++ m)) same ∙ ap (called a ∷◌) (sym (append_assoc ds more rest)),
        ),
      )

  -- A round that is tried again, and whose sleep is not cancelled.
  IsCut-round :
      (n a j : ℕ) (before : List ℕ) (last last' : Option Exception) (ds : List (Deed A))
      (func : ℕ → Outcome A)
      → after_attempt c a last (func a) ≡ goes_on last' ds
      → calls ds ≡ []
      → interrupts a ≡ false
      → IsCut before j (interrupted_loop n (a + 1) last' func) (retry_loop c n (a + 1) last' func)
      → IsCut
          (a ∷ before)
          j
          (interrupted_loop (suc n) a last func)
          (retry_loop c (suc n) a last func)
  unfolding interrupted_loop retry_loop
  IsCut-round n a j before last last' ds func on no_calls goes rest =
      let (o, more) = interrupted_loop n (a + 1) last' func in
      let (o', more') = retry_loop c n (a + 1) last' func in
      let (made, none_cut, runs) = IsCut-cons a j before ds more more' o o' no_calls goes rest in
      rw (interrupted_loop, retry_loop, on, goes) (made, rest.1, runs)

  interrupted_loop-IsCut :
      (n a : ℕ) (last : Option Exception) (func : ℕ → Outcome A)
      → a + n ≡ suc c.max_attempts
      → 0 < n
      → (before : List ℕ) × (j : ℕ) × IsCut before j
          (interrupted_loop n a last func)
          (retry_loop c n a last func)
  unfolding interrupted_loop retry_loop
  interrupted_loop-IsCut zero a last func e pos = absurd (omega arith)
  interrupted_loop-IsCut (suc n) a last func e pos = elim (Bool-cases (decides c a (func a))) [
    | inl d ↦
        let (ds, ends_here, no_calls, no_sleeps) =
          after_attempt-decides c a last (func a) d (omega arith) in
        (
          [],
          a,
          rw (ends_here, interrupted_loop, retry_loop) (ap (a ∷◌) no_calls, refl, inl (refl, refl)),
        )
    | inr d ↦
        let (last', ds, on, no_calls, waited) = after_attempt-goes_on c a last (func a) d in
        elim (Bool-cases (interrupts a)) [
          | inl cut ↦ (
            [],
            a,
            rw (on, cut, interrupted_loop, retry_loop)
                (ap (a ∷◌) no_calls, refl, inr (refl, refl, _, refl)),
          )
          | inr goes ↦
              let (before, j, rest) =
                interrupted_loop-IsCut n (a + 1) last' func (omega arith) (ground arith) in
              (a ∷ before, j, IsCut-round n a j before last last' ds func on no_calls goes rest)
        ]
  ]

  -- With at least one attempt allowed, a run whose sleeps may be cancelled makes calls of which `j` is the
  -- last, and behind none of those before it is the sleep cancelled. Either the run is the undisturbed one, or
  -- the sleep behind `j` is cancelled: then the run ends with the cancellation, and what it has done is what
  -- the undisturbed run does first.
  pub execute_interrupted-IsCut :
      (func : ℕ → Outcome A)
      → 0 < c.max_attempts
      → (before : List ℕ) × (j : ℕ) × IsCut before j
          (execute_interrupted func)
          (execute_with_retry c func)
  unfolding execute_interrupted execute_with_retry
  execute_interrupted-IsCut func some_attempt =
      interrupted_loop-IsCut c.max_attempts 1 none func (omega arith) some_attempt
