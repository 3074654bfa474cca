-- ===== src/Retry/Fibonacci.antt =====
-- retry/interval_functions.py: `FibonacciBackoff`. The floats are those of the other intervals; `product` is the
-- product of a float and a Fibonacci number, `none` where it raises an `OverflowError`.
use resilience4py.Prelude.{
  ℕ, zero, suc, ◌+◌, ◌-◌, ◌≤◌, ◌<◌, ◌≡◌, refl, ap, ◌∙◌, ◌⊎◌, inl, inr, Option, none, some, List, [],
  ◌∷◌, arith, ◌==◌, if◌then◌else◌, Option-cases, max, false,
}
use resilience4py.Outcome.{value_error, overflow_error, recursion_error, Outcome, returned, raised}
use resilience4py.Retry.Intervals.{Seconds, under}

-- The dictionary, latest entry first.
unfoldable pub get : ℕ → List (ℕ × ℕ) → Option ℕ
get n [] = none
get n ((m, v) ∷ cache) = if n == m then some v else get n cache

-- What `_fibonacci` returns and the cache it leaves, when the interpreter lets so many nested calls be made:
-- `none` is its `RecursionError`.
unfoldable pub fibonacci : ℕ → ℕ → List (ℕ × ℕ) → Option ℕ × List (ℕ × ℕ)
fibonacci zero n cache = (none, cache)
fibonacci (suc depth) n cache = elim (get n cache) [
  | some v ↦ (some v, cache)
  | none ↦
      let (first, cache') = fibonacci depth (n - 1) cache in
      elim first [
        | none ↦ (none, cache')
        | some a ↦
            let (second, cache'') = fibonacci depth (n - 2) cache' in
            elim second [ none ↦ (none, cache'') | some b ↦ (some (a + b), (n, a + b) ∷ cache'') ]
      ]
]

-- The Fibonacci numbers from 1 on, without a cache.
abbrev pub fib : ℕ → ℕ
fib zero = 0
fib (suc zero) = 1
fib (suc (suc n)) = fib (suc n) + fib n

-- Every entry is right, and those for 1 and 2 are there.
abbrev IsSound : List (ℕ × ℕ) → Type 0
IsSound cache =
    ((n v : ℕ) → get n cache ≡ some v → v ≡ fib n) × (get 1 cache ≡ some 1) × (get 2 cache ≡ some 1)

IsSound-add : (n : ℕ) (cache : List (ℕ × ℕ)) → 3 ≤ n → IsSound cache → IsSound ((n, fib n) ∷ cache)
unfolding get
IsSound-add n cache big (right, one, two) = (λ m v e. grind arith, ground arith, ground arith)

new_cache-misses : (n : ℕ) → get (suc (suc (suc n))) ((1, 1) ∷ (2, 1) ∷ []) ≡ none
unfolding get
new_cache-misses n = grind arith

new_cache-right : (n v : ℕ) → get n ((1, 1) ∷ (2, 1) ∷ []) ≡ some v → v ≡ fib n
unfolding get
new_cache-right zero v e = cc
new_cache-right (suc zero) v e = ground arith
new_cache-right (suc (suc zero)) v e = ground arith
new_cache-right (suc (suc (suc n))) v e = grind (arith, new_cache-misses n)

new_cache-IsSound : IsSound ((1, 1) ∷ (2, 1) ∷ [])
unfolding get
new_cache-IsSound = (new_cache-right, refl, refl)

fib-step : (n : ℕ) → 3 ≤ n → fib (n - 1) + fib (n - 2) ≡ fib n
fib-step (suc (suc n)) le =
    ap (◌+ fib (suc (suc n) - 2)) (ap fib {x = suc (suc n) - 1} {y = suc n} (omega arith))
    ∙ ap (fib (suc n) +◌) (ap fib {x = suc (suc n) - 2} {y = n} (omega arith))
fib-step (suc zero) le = absurd (omega arith)
fib-step zero le = absurd (omega arith)

-- An argument that is not in the cache is at least 3.
miss-is_big : (n : ℕ) (cache : List (ℕ × ℕ)) → 1 ≤ n → IsSound cache → get n cache ≡ none → 3 ≤ n
miss-is_big zero cache low sound e = absurd (omega arith)
miss-is_big (suc zero) cache low sound e = cc
miss-is_big (suc (suc zero)) cache low sound e = cc
miss-is_big (suc (suc (suc n))) cache low sound e = omega arith

-- With as many nested calls as the argument the number is returned; with fewer it may be, if the cache has
-- enough. The cache stays right either way.
fibonacci_lem :
    (depth n : ℕ) (cache : List (ℕ × ℕ))
    → 1 ≤ n
    → IsSound cache
    → let (r, cache') = fibonacci depth n cache in
      IsSound cache' × ((r ≡ some (fib n)) ⊎ (r ≡ none) × (depth < n))
unfolding fibonacci
fibonacci_lem zero n cache low sound = (sound, inr (refl, omega arith))
fibonacci_lem (suc depth) n cache low sound = elim (Option-cases (get n cache)) [
  | inr (v, hit) ↦ rw (fibonacci, hit) (sound, inl (ap some (sound.0 n v hit)))
  | inl missing ↦
      let big = miss-is_big n cache low sound missing in
      let (sound', first) = fibonacci_lem depth (n - 1) cache (omega arith) sound in
      let cache' = (fibonacci depth (n - 1) cache).1 in
      let (sound'', second) = fibonacci_lem depth (n - 2) cache' (omega arith) sound' in
      elim first [
        | inr (deep, short) ↦ rw (fibonacci, missing, deep) (sound', inr (refl, omega arith))
        | inl e ↦ elim second [
          | inr (deep, short) ↦ rw (fibonacci, missing, e, deep) (sound'', inr (refl, omega arith))
          | inl e' ↦
              rw (fibonacci, missing, e, e', fib-step n big)
                (IsSound-add n (fibonacci depth (n - 2) cache').1 big sound'', inl refl)
        ]
      ]
]

pub record FibonacciBackoff (F : Type 0) : Type 0 where
  pub initial_interval : F
  pub max_interval : Option F
  pub fib_cache : List (ℕ × ℕ)

module _ {F : Type 0} ⦃fs : Seconds F⦄ where
  -- `__init__`
  unfoldable pub new_backoff : F → Option F → Outcome (FibonacciBackoff F)
  new_backoff initial top =
      if fs.at_most initial fs.nought
      then raised value_error
      else if elim top [ none ↦ false | some t ↦ fs.at_most t fs.nought ]
      then raised value_error
      else returned (record {
        initial_interval = initial;
        max_interval = top;
        fib_cache = (1, 1) ∷ (2, 1) ∷ [];
      })

  module _ (product : F → ℕ → Option F) where
    -- The product under the cap, if there is one.
    unfoldable pub capped : F → Option F → ℕ → Outcome F
    capped initial top n = elim (product initial n) [
      | none ↦ raised overflow_error
      | some interval ↦ returned (under top interval)
    ]

    -- `__call__`, where `depth` nested calls are left.
    unfoldable pub call : ℕ → ℕ → FibonacciBackoff F → Outcome F × FibonacciBackoff F
    unfolding fibonacci capped
    call depth attempt b =
        let (number, cache) = fibonacci depth (max 1 attempt) b.fib_cache in
        (
          elim number [
            | none ↦ raised recursion_error
            | some n ↦ capped b.initial_interval b.max_interval n
          ],
          record b { fib_cache = cache },
        )

    -- Calls of one object, each with its depth and its attempt.
    unfoldable pub call_all : List (ℕ × ℕ) → FibonacciBackoff F → List (Outcome F)
    unfolding call
    call_all [] b = []
    call_all ((depth, attempt) ∷ calls) b =
        let (o, b') = call depth attempt b in o ∷ call_all calls b'

    -- The interval of an attempt by the uncached Fibonacci numbers.
    unfoldable pub interval_at : F → Option F → ℕ → Outcome F
    unfolding capped
    interval_at initial top attempt = capped initial top (fib (max 1 attempt))

    -- Each call ends with the interval of its attempt, or had too few nested calls left.
    abbrev pub AllAnswered : F → Option F → List (ℕ × ℕ) → List (Outcome F) → Type 0
    AllAnswered initial top [] [] = Unit
    AllAnswered initial top ((depth, attempt) ∷ calls) (o ∷ os) =
        ((o ≡ interval_at initial top attempt)
          ⊎ (o ≡ raised recursion_error) × (depth < max 1 attempt))
        × AllAnswered initial top calls os
    AllAnswered initial top [] (o ∷ os) = ⊥
    AllAnswered initial top (call ∷ calls) [] = ⊥

    call_all_lem :
        (calls : List (ℕ × ℕ)) (initial : F) (top : Option F) (cache : List (ℕ × ℕ))
        → IsSound cache
        → AllAnswered initial top calls (
            call_all calls
              (record { initial_interval = initial; max_interval = top; fib_cache = cache }))
    unfolding call_all call interval_at
    call_all_lem [] initial top cache sound = tt
    call_all_lem ((depth, attempt) ∷ calls) initial top cache sound =
        let (sound', answer) = fibonacci_lem depth (max 1 attempt) cache (omega arith) sound in
        let cache' = (fibonacci depth (max 1 attempt) cache).1 in
        let rest = call_all_lem calls initial top cache' sound' in
        elim answer [
          | inl e ↦ (inl (rw (call, e) refl), rest)
          | inr (deep, short) ↦ (inr (rw (call, deep) refl, short), rest)
        ]

    -- For an accepted object, called for any attempts in any order, each call ends in one of two ways. It
    -- answers what the attempt's Fibonacci number (of 1, for attempt 0) gives: the initial interval times
    -- that number, under the cap, or the `OverflowError` of the product; what earlier calls left in the cache, or
    -- failed to, makes no difference. Or it raises a `RecursionError`, which it does only where fewer nested
    -- calls are left than the number of the attempt.
    pub call_all-intervals :
        (initial : F) (top : Option F) (b : FibonacciBackoff F) (calls : List (ℕ × ℕ))
        → new_backoff initial top ≡ returned b
        → AllAnswered initial top calls (call_all calls b)
    unfolding new_backoff
    call_all-intervals initial top b calls accepted =
        let fresh : FibonacciBackoff F = record {
          initial_interval = initial;
          max_interval = top;
          fib_cache = (1, 1) ∷ (2, 1) ∷ [];
        } in
        let same : b ≡ fresh = ground (arith, accepted) in
        rw same (call_all_lem calls initial top _ new_cache-IsSound)
