-- ===== src/Retry/Trace.antt =====
-- Everything that `_execute_with_retry` (retry/retry.py) does in a run, in order: its calls, events and sleeps.
use mathlib.Core.List.{append_assoc}
use resilience4py.Prelude.{
  ℕ, zero, suc, ◌+◌, ◌-◌, ◌≡◌, refl, sym, ap, ◌∙◌, ◌≤◌, ◌<◌, inl, inr, true, false, Option, none,
  some, List, [], ◌∷◌, ◌++◌, arith, if◌then◌else◌, Bool-cases, any_of,
}
use resilience4py.Outcome.{Exception, Outcome, returned, raised, cancelled}
use resilience4py.Retry.Config.{RetryConfig, should_retry_exception, get_wait_duration}
use resilience4py.Retry.Loop.{
  on_retry_event, on_success_event, on_error_event, on_ignored_error_event, Deed, called, emitted,
  slept, ends, goes_on, after_attempt, retry_loop, execute_with_retry,
}
use resilience4py.Retry.Attempts.{count_from, count_from-step, count_from-none, decides, answer}

module _ {A : Type 0} (c : RetryConfig A) where
  -- An attempt that is tried again: the call, the event with what it gave, and the sleep.
  abbrev pub failed_round : ℕ → Outcome A → List (Deed A)
  failed_round j (returned a) =
      called j
      ∷ emitted (on_retry_event j (inl a) (get_wait_duration c j))
      ∷ slept (get_wait_duration c j)
      ∷ []
  failed_round j (raised e) =
      called j
      ∷ emitted (on_retry_event j (inr e) (get_wait_duration c j))
      ∷ slept (get_wait_duration c j)
      ∷ []
  failed_round j cancelled = called j ∷ []

  abbrev pub failed_rounds : (ℕ → Outcome A) → List ℕ → List (Deed A)
  failed_rounds func [] = []
  failed_rounds func (j ∷ js) = failed_round j (func j) ++ failed_rounds func js

  -- The exception that was raised last, where `last` was before.
  abbrev next_last : Option Exception → Outcome A → Option Exception
  next_last last (raised e) = some e
  next_last last o = last

  abbrev pub last_raised : (ℕ → Outcome A) → Option Exception → List ℕ → Option Exception
  last_raised func last [] = last
  last_raised func last (j ∷ js) = last_raised func (next_last last (func j)) js

  -- The attempt that decides: the call, and one event for its end, but for a cancellation.
  abbrev pub last_round : ℕ → Option Exception → Outcome A → List (Deed A)
  last_round k last (returned a) = called k ∷ emitted (on_success_event k last) ∷ []
  last_round k last (raised e) =
      called k
      ∷ emitted
          (if should_retry_exception c e then on_error_event k e else on_ignored_error_event k e)
      ∷ []
  last_round k last cancelled = called k ∷ []

  -- A run of the attempts from `a` on that the attempt `k` decides.
  abbrev pub IsTrace :
      (ℕ → Outcome A) → ℕ → Option Exception → ℕ → Outcome A × List (Deed A) → Type 0
  IsTrace func a last k (o, deeds) =
      (a ≤ k)
      × (k ≤ c.max_attempts)
      × (decides c k (func k) ≡ true)
      × (any_of (λ j. decides c j (func j)) (count_from a (k - a)) ≡ false)
      × (o ≡ answer c k (func k))
      × (deeds
          ≡ failed_rounds func (count_from a (k - a))
            ++ last_round k (last_raised func last (count_from a (k - a))) (func k))

  after_attempt-last_round :
      (k : ℕ) (last : Option Exception) (o : Outcome A)
      → decides c k o ≡ true
      → k ≤ c.max_attempts
      → (ds : List (Deed A)) × (after_attempt c k last o ≡ ends (answer c k o) ds)
        × (called k ∷ ds ≡ last_round k last o)
  unfolding after_attempt
  after_attempt-last_round k last (returned a) d le = (_, ground arith, refl)
  after_attempt-last_round k last (raised e) d le = elim (Bool-cases (should_retry_exception c e)) [
    | inl retried ↦ (emitted (on_error_event k e) ∷ [], ground arith, ground arith)
    | inr ignored ↦ (emitted (on_ignored_error_event k e) ∷ [], ground arith, ground arith)
  ]
  after_attempt-last_round k last cancelled d le = ([], refl, refl)

  after_attempt-failed_round :
      (j : ℕ) (last : Option Exception) (o : Outcome A)
      → decides c j o ≡ false
      → (ds : List (Deed A)) × (after_attempt c j last o ≡ goes_on (next_last last o) ds)
        × (called j ∷ ds ≡ failed_round j o)
  unfolding after_attempt
  after_attempt-failed_round j last (returned a) d = (_, ground arith, refl)
  after_attempt-failed_round j last (raised e) d = (_, ground arith, refl)
  after_attempt-failed_round j last cancelled d = cc

  IsTrace-now :
      (func : ℕ → Outcome A) (a : ℕ) (last : Option Exception) (ds : List (Deed A))
      → a ≤ c.max_attempts
      → decides c a (func a) ≡ true
      → called a ∷ ds ≡ last_round a last (func a)
      → IsTrace func a last a (answer c a (func a), called a ∷ ds)
  IsTrace-now func a last ds le d same =
      let no_rounds : count_from a (a - a) ≡ [] = count_from-none a a (omega arith) in
      (
        omega arith,
        le,
        d,
        ap (any_of (λ j. decides c j (func j))) no_rounds,
        refl,
        same
            ∙ sym (
                ap (λ js. failed_rounds func js ++ last_round a (last_raised func last js) (func a))
                  no_rounds),
      )

  IsTrace-later :
      (func : ℕ → Outcome A) (a k : ℕ) (last : Option Exception) (ds : List (Deed A))
      (o : Outcome A) (more : List (Deed A))
      → decides c a (func a) ≡ false
      → called a ∷ ds ≡ failed_round a (func a)
      → IsTrace func (a + 1) (next_last last (func a)) k (o, more)
      → IsTrace func a last k (o, called a ∷ (ds ++ more))
  IsTrace-later func a k last ds o more d same (from, to, here, before, ends_so, trace) =
      let rounds : count_from a (k - a) ≡ a ∷ count_from (a + 1) (k - (a + 1)) =
        count_from-step a k (omega arith) in
      let others = failed_rounds func (count_from (a + 1) (k - (a + 1))) in
      let final =
        last_round k (last_raised func (next_last last (func a)) (count_from (a + 1) (k - (a + 1))))
          (func k) in
      (
        omega arith,
        to,
        here,
        ap (any_of (λ j. decides c j (func j))) rounds ∙ rw d before,
        ends_so,
        ap (◌++ more) same
            ∙ ap (failed_round a (func a) ++◌) trace
            ∙ sym (append_assoc (failed_round a (func a)) others final)
            ∙ sym (
                ap (λ js. failed_rounds func js ++ last_round k (last_raised func last js) (func k))
                  rounds),
      )

  retry_loop-IsTrace :
      (n a : ℕ) (last : Option Exception) (func : ℕ → Outcome A)
      → a + n ≡ suc c.max_attempts
      → 0 < n
      → (k : ℕ) × IsTrace func a last k (retry_loop c n a last func)
  unfolding retry_loop
  retry_loop-IsTrace zero a last func e pos = absurd (omega arith)
  retry_loop-IsTrace (suc n) a last func e pos = elim (Bool-cases (decides c a (func a))) [
    | inl d ↦
        let (ds, ends_here, same) = after_attempt-last_round a last (func a) d (omega arith) in
        (a, rw (ends_here, retry_loop) (IsTrace-now func a last ds (omega arith) d same))
    | inr d ↦
        let (ds, on, same) = after_attempt-failed_round a last (func a) d in
        let (k, rest) =
          retry_loop-IsTrace n (a + 1) (next_last last (func a)) func (omega arith)
            (ground arith) in
        (k, rw (on, retry_loop) (IsTrace-later func a k last ds _ _ d same rest))
  ]

  -- With at least one attempt allowed, a run does exactly this, in this order, where `k` is the first attempt that is
  -- not to be retried or is the last allowed: for each earlier attempt the call, the retry event with what the
  -- attempt gave and the wait, and the sleep of that wait; then the call of the attempt `k`, and one event for
  -- its end: success with the last exception before it, if any, an error if its exception was to be retried,
  -- an ignored error if not, and none for a cancellation.
  pub execute_with_retry-IsTrace :
      (func : ℕ → Outcome A)
      → 0 < c.max_attempts
      → (k : ℕ) × IsTrace func 1 none k (execute_with_retry c func)
  unfolding execute_with_retry
  execute_with_retry-IsTrace func some_attempt =
      retry_loop-IsTrace c.max_attempts 1 none func (omega arith) some_attempt
