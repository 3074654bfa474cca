-- ===== src/Retry/Attempts.antt =====
-- What `_execute_with_retry` (retry/retry.py) does with a function, stated by the function alone: which
-- attempt decides, what the caller gets, how often the function is called and how long the loop sleeps.
use resilience4py.Prelude.{
  ℕ, zero, suc, sym, ◌∙◌, ◌+◌, ◌-◌, ◌≡◌, refl, ap, ◌≤◌, ◌<◌, inl, inr, Bool, true, false, Option,
  none, some, List, [], ◌∷◌, ◌++◌, map, arith, leb, if◌then◌else◌, Bool-cases, any_of,
}
use resilience4py.Outcome.{Exception, Outcome, returned, raised, cancelled}
use resilience4py.Retry.Config.{RetryConfig, should_retry_exception, get_wait_duration, wants_retry}
use resilience4py.Retry.Loop.{
  on_retry_event, on_success_event, on_error_event, on_ignored_error_event, Deed, called, emitted,
  slept, ends, goes_on, exhausted, after_attempt, retry_loop, execute_with_retry,
}

-- The numbers of the attempts made, and the times slept, in order.
abbrev pub calls : {A : Type 0} → List (Deed A) → List ℕ
calls [] = []
calls (called n ∷ ds) = n ∷ calls ds
calls (emitted _ ∷ ds) = calls ds
calls (slept _ ∷ ds) = calls ds

abbrev pub sleeps : {A : Type 0} → List (Deed A) → List ℕ
sleeps [] = []
sleeps (called _ ∷ ds) = sleeps ds
sleeps (emitted _ ∷ ds) = sleeps ds
sleeps (slept w ∷ ds) = w ∷ sleeps ds

-- `n` numbers from `a` on.
abbrev pub count_from : ℕ → ℕ → List ℕ
count_from a zero = []
count_from a (suc n) = a ∷ count_from (a + 1) n

pub calls-append :
    {A : Type 0} (ds more : List (Deed A)) → calls (ds ++ more) ≡ calls ds ++ calls more
calls-append [] more = refl
calls-append (called n ∷ ds) more = ap (n ∷◌) (calls-append ds more)
calls-append (emitted _ ∷ ds) more = calls-append ds more
calls-append (slept _ ∷ ds) more = calls-append ds more

sleeps-append :
    {A : Type 0} (ds more : List (Deed A)) → sleeps (ds ++ more) ≡ sleeps ds ++ sleeps more
sleeps-append [] more = refl
sleeps-append (called _ ∷ ds) more = sleeps-append ds more
sleeps-append (emitted _ ∷ ds) more = sleeps-append ds more
sleeps-append (slept w ∷ ds) more = ap (w ∷◌) (sleeps-append ds more)

pub count_from-step :
    (a m : ℕ) → a < m → count_from a (m - a) ≡ a ∷ count_from (a + 1) (m - (a + 1))
count_from-step a m lt = ap (count_from a) {x = m - a} {y = suc (m - (a + 1))} (omega arith)

pub count_from-none : (a m : ℕ) → m ≤ a → count_from a (m - a) ≡ []
count_from-none a m le = ap (count_from a) {x = m - a} {y = 0} (omega arith)

module _ {A : Type 0} (c : RetryConfig A) where
  -- Whether an attempt would be tried again, if one were left.
  abbrev pub retryable : Outcome A → Bool
  retryable (returned a) = wants_retry c a
  retryable (raised e) = should_retry_exception c e
  retryable cancelled = false

  -- An attempt decides if it is the last one or is not retryable.
  abbrev pub decides : ℕ → Outcome A → Bool
  decides attempt o = if retryable o then leb c.max_attempts attempt else true

  -- What the caller gets from the attempt that decides: its own outcome, but for an exception that would
  -- have been retried.
  abbrev pub answer : ℕ → Outcome A → Outcome A
  answer attempt (returned a) = returned a
  answer attempt (raised e) =
      if should_retry_exception c e then raised (exhausted c attempt e) else raised e
  answer attempt cancelled = cancelled

  -- A run of the attempts from `a` on that decides at `k`.
  abbrev pub DecidedAt : (ℕ → Outcome A) → ℕ → ℕ → Outcome A × List (Deed A) → Type 0
  DecidedAt func a k (o, deeds) =
      (a ≤ k)
      × (k ≤ c.max_attempts)
      × (decides k (func k) ≡ true)
      × (any_of (λ j. decides j (func j)) (count_from a (k - a)) ≡ false)
      × (o ≡ answer k (func k))
      × (calls deeds ≡ count_from a (suc k - a))
      × (sleeps deeds ≡ map (get_wait_duration c) (count_from a (k - a)))

  -- The body, by what the function did.
  pub after_attempt-decides :
      (attempt : ℕ) (last : Option Exception) (o : Outcome A)
      → decides attempt o ≡ true
      → attempt ≤ c.max_attempts
      → (ds : List (Deed A)) × (after_attempt c attempt last o ≡ ends (answer attempt o) ds)
        × (calls ds ≡ [])
        × (sleeps ds ≡ [])
  unfolding after_attempt
  after_attempt-decides attempt last (returned a) d le =
      (emitted (on_success_event attempt last) ∷ [], ground arith, refl, refl)
  after_attempt-decides attempt last (raised e) d le =
      elim (Bool-cases (should_retry_exception c e)) [
        | inl retried ↦ (emitted (on_error_event attempt e) ∷ [], ground arith, refl, refl)
        | inr ignored ↦ (emitted (on_ignored_error_event attempt e) ∷ [], ground arith, refl, refl)
      ]
  after_attempt-decides attempt last cancelled d le = ([], refl, refl, refl)

  pub after_attempt-goes_on :
      (attempt : ℕ) (last : Option Exception) (o : Outcome A)
      → decides attempt o ≡ false
      → (last' : Option Exception) × (ds : List (Deed A)) × (after_attempt c attempt last o
          ≡ goes_on last' ds)
        × (calls ds ≡ [])
        × (sleeps ds ≡ get_wait_duration c attempt ∷ [])
  unfolding after_attempt
  after_attempt-goes_on attempt last (returned a) d = (
    last,
    emitted (on_retry_event attempt (inl a) (get_wait_duration c attempt))
        ∷ slept (get_wait_duration c attempt)
        ∷ [],
    ground arith,
    refl,
    refl,
  )
  after_attempt-goes_on attempt last (raised e) d = (
    some e,
    emitted (on_retry_event attempt (inr e) (get_wait_duration c attempt))
        ∷ slept (get_wait_duration c attempt)
        ∷ [],
    ground arith,
    refl,
    refl,
  )
  after_attempt-goes_on attempt last cancelled d = cc

  DecidedAt-now :
      (func : ℕ → Outcome A) (a : ℕ) (ds : List (Deed A))
      → a ≤ c.max_attempts
      → decides a (func a) ≡ true
      → calls ds ≡ []
      → sleeps ds ≡ []
      → DecidedAt func a a (answer a (func a), called a ∷ ds)
  DecidedAt-now func a ds le d no_calls no_sleeps = (
    omega arith,
    le,
    d,
    ap (any_of (λ j. decides j (func j))) (count_from-none a a (omega arith)),
    refl,
    ap (a ∷◌) no_calls
        ∙ sym (
            count_from-step a (suc a) (omega arith)
            ∙ ap (a ∷◌) (count_from-none (a + 1) (suc a) (omega arith))),
    no_sleeps ∙ sym (ap (map (get_wait_duration c)) (count_from-none a a (omega arith))),
  )

  DecidedAt-later :
      (func : ℕ → Outcome A) (a k : ℕ) (ds : List (Deed A)) (o : Outcome A) (more : List (Deed A))
      → decides a (func a) ≡ false
      → calls ds ≡ []
      → sleeps ds ≡ get_wait_duration c a ∷ []
      → DecidedAt func (a + 1) k (o, more)
      → DecidedAt func a k (o, called a ∷ (ds ++ more))
  DecidedAt-later func a k ds o more d no_calls waited (from, to, here, before, same, cs, ss) = (
    omega arith,
    to,
    here,
    ap (any_of (λ j. decides j (func j))) (count_from-step a k (omega arith)) ∙ rw d before,
    same,
    ap (a ∷◌) (calls-append ds more ∙ ap (◌++ calls more) no_calls ∙ cs)
        ∙ sym (count_from-step a (suc k) (omega arith)),
    sleeps-append ds more
        ∙ ap (◌++ sleeps more) waited
        ∙ ap (get_wait_duration c a ∷◌) ss
        ∙ sym (ap (map (get_wait_duration c)) (count_from-step a k (omega arith))),
  )

  retry_loop-decided :
      (n a : ℕ) (last : Option Exception) (func : ℕ → Outcome A)
      → a + n ≡ suc c.max_attempts
      → 0 < n
      → (k : ℕ) × DecidedAt func a k (retry_loop c n a last func)
  unfolding retry_loop
  retry_loop-decided zero a last func e pos = absurd (omega arith)
  retry_loop-decided (suc n) a last func e pos = elim (Bool-cases (decides a (func a))) [
    | inl d ↦
        let (ds, ends_here, no_calls, no_sleeps) =
          after_attempt-decides a last (func a) d (omega arith) in
        (a, rw (ends_here, retry_loop) (DecidedAt-now func a ds (omega arith) d no_calls no_sleeps))
    | inr d ↦
        let (last', ds, on, no_calls, waited) = after_attempt-goes_on a last (func a) d in
        let (k, rest) = retry_loop-decided n (a + 1) last' func (omega arith) (ground arith) in
        (k, rw (on, retry_loop) (DecidedAt-later func a k ds _ _ d no_calls waited rest))
  ]

  -- With at least one attempt allowed, as `validate` asks, there is an attempt from 1 to `max_attempts`
  -- that decides: it is not to be retried or is the last allowed, and no earlier attempt was such. The
  -- caller gets its outcome, an exception that was to be retried behind `MaxRetriesExceeded` if the
  -- configuration says so; the function is called once for each attempt up to it and never again, and
  -- between two attempts the loop sleeps for the wait duration of the earlier. (A result that was to be
  -- retried is returned as it is.)
  pub execute_with_retry-decided :
      (func : ℕ → Outcome A)
      → 0 < c.max_attempts
      → (k : ℕ) × DecidedAt func 1 k (execute_with_retry c func)
  unfolding execute_with_retry
  execute_with_retry-decided func some_attempt =
      retry_loop-decided c.max_attempts 1 none func (omega arith) some_attempt
