-- ===== src/Examples/Sieve.antt =====
-- The trial division of examples/bulkhead_flask.py against a definition of the primes.
use native.Mathlib.Nat.{div-add-mod, mul-mod_left, mul-le-mul}
use resilience4py.Prelude.{
  ℕ, zero, suc, ◌+◌, ◌-◌, ◌*◌, ◌/◌, ◌%◌, ◌≡◌, ◌≤◌, ◌<◌, refl, sym, ap, ◌∙◌, Bool, true, false, not,
  ◌==◌, leb, inl, inr, Bool-cases, any_of, keep_if, arith,
}
use resilience4py.Retry.Attempts.{count_from}
use resilience4py.Examples.Primes.{trial_division, primes_from, primes}

-- Whether some number from 2 up to, and without, `stop` divides `num`.
abbrev pub has_divisor_below : ℕ → ℕ → Bool
has_divisor_below stop num = any_of (λ d. num % d == 0) (count_from 2 (stop - 2))

abbrev pub is_prime : ℕ → Bool
is_prime num = not (has_divisor_below num num)

-- `r` is the whole part of the square root of `num`.
pub record IsRoot (num r : ℕ) : Type 0 where
  pub square : r * r ≤ num
  pub next_square : num < (r + 1) * (r + 1)

trial_division-any_of :
    (turns i num : ℕ)
    → trial_division turns i num ≡ not (any_of (λ d. num % d == 0) (count_from i turns))
unfolding trial_division
trial_division-any_of zero i num = refl
trial_division-any_of (suc turns) i num = ground (arith, trial_division-any_of turns (i + 1) num)

any_of-found :
    (p : ℕ → Bool) (a k : ℕ)
    → any_of p (count_from a k) ≡ true
    → (d : ℕ) × (a ≤ d) × (d < a + k) × (p d ≡ true)
any_of-found p a zero h = cc
any_of-found p a (suc k) h = elim (Bool-cases (p a)) [
  | inl here ↦ (a, omega arith, omega arith, here)
  | inr later ↦
      let (d, from, to, found) = any_of-found p (a + 1) k (rw later at h) in
      (d, omega (arith, from), omega (arith, to), found)
]

any_of-find :
    (p : ℕ → Bool) (a k d : ℕ) → a ≤ d → d < a + k → p d ≡ true → any_of p (count_from a k) ≡ true
any_of-find p a zero d from to found = absurd (omega arith)
any_of-find p a (suc k) d from to found = elim (Bool-cases (a == d)) [
  | inl here ↦ ground (arith, here, found)
  | inr later ↦ ground (arith, any_of-find p (a + 1) k d (ground arith) (omega arith) found)
]

two-le_cofactor : (num d q : ℕ) → d * q ≡ num → d < num → 2 ≤ q
two-le_cofactor num d zero e to = absurd (grind arith)
two-le_cofactor num d (suc zero) e to = absurd (grind arith)
two-le_cofactor num d (suc (suc q)) e to = omega arith

cofactor-le_root : (num r d q : ℕ) → IsRoot num r → d * q ≡ num → r < d → q ≤ r
cofactor-le_root num r d q root e above = elim (Bool-cases (leb q r)) [
  | inl low ↦ ground arith
  | inr high ↦
      let one : r + 1 ≤ d = omega arith in
      let other : r + 1 ≤ q = ground arith in
      absurd (grind (arith, mul-le-mul one other, root.next_square))
]

-- A divisor above the root has its cofactor below.
cofactor :
    (num r d : ℕ)
    → IsRoot num r
    → d < num
    → num % d ≡ 0
    → r < d
    → (q : ℕ) × (2 ≤ q) × (q ≤ r) × (num % q ≡ 0)
cofactor num r d root to divides above =
    let q = num / d in
    let e : d * q ≡ num = omega (arith, div-add-mod num d, divides) in
    (
      q,
      two-le_cofactor num d q e to,
      cofactor-le_root num r d q root e above,
      ap (◌% q) (sym e) ∙ mul-mod_left d q,
    )

root-lt : (num r : ℕ) → 2 ≤ num → IsRoot num r → r < num
root-lt num r two root = elim (Bool-cases (leb num r)) [
  | inl high ↦
      let one : 2 ≤ r = ground arith in
      let other : num ≤ r = ground arith in
      absurd (grind (arith, mul-le-mul one other, root.square))
  | inr low ↦ ground arith
]

Bool-ext : (a b : Bool) → (a ≡ true → b ≡ true) → (b ≡ true → a ≡ true) → a ≡ b
Bool-ext true b f g = sym (f refl)
Bool-ext false true f g = g refl
Bool-ext false false f g = refl

-- To look for a divisor up to the root is enough.
has_divisor_below-root :
    (num r : ℕ) → 2 ≤ num → IsRoot num r → has_divisor_below (r + 1) num ≡ has_divisor_below num num
has_divisor_below-root num r two root =
    let p : ℕ → Bool = λ d. num % d == 0 in
    Bool-ext (has_divisor_below (r + 1) num) (has_divisor_below num num)
      (λ h.
        let (d, from, to, found) = any_of-found p 2 (r + 1 - 2) h in
        any_of-find p 2 (num - 2) d from (omega (arith, root-lt num r two root, from, to)) found)
      (λ h.
        let (d, from, to, found) = any_of-found p 2 (num - 2) h in
        elim (Bool-cases (leb d r)) [
          | inl low ↦ any_of-find p 2 (r + 1 - 2) d from (ground (arith, low, from)) found
          | inr high ↦
              let (q, q_from, q_to, divides) =
                cofactor num r d root (omega (arith, to, two)) (ground (arith, found))
                  (ground (arith, high)) in
              any_of-find p 2 (r + 1 - 2) q q_from (omega (arith, q_from, q_to))
                (ground (arith, divides))
        ])

primes_from-keep_if :
    (root : ℕ → ℕ) (others num : ℕ)
    → 2 ≤ num
    → ((m : ℕ) → m < num + others → IsRoot m (root m))
    → primes_from root others num ≡ keep_if is_prime (count_from num others)
unfolding primes_from
primes_from-keep_if root zero num two roots = refl
primes_from-keep_if root (suc others) num two roots =
    let tests : trial_division (root num + 1 - 2) 2 num ≡ is_prime num =
      trial_division-any_of (root num + 1 - 2) 2 num
      ∙ ap not (has_divisor_below-root num (root num) two (roots num (omega arith))) in
    let rest =
      primes_from-keep_if root others (num + 1) (omega (arith, two))
        (λ m h. roots m (omega (arith, h))) in
    ground (arith, tests, rest)

-- The computed numbers are exactly the primes from 2 up to, and without, `n`, in order, each number that no
-- smaller one from 2 on divides, provided that the rounded square root is the whole part of the root for all
-- numbers below `n`.
pub primes-keep_if :
    (root : ℕ → ℕ) (n : ℕ)
    → ((m : ℕ) → m < n → IsRoot m (root m))
    → primes root n ≡ keep_if is_prime (count_from 2 (n - 2))
unfolding primes
primes-keep_if root n roots = elim (Bool-cases (leb 2 n)) [
  | inl some_numbers ↦
      primes_from-keep_if root (n - 2) 2 (omega arith) (λ m h. roots m (ground (arith, h)))
  | inr no_numbers ↦ let empty : n - 2 ≡ 0 = ground arith in rw (empty, primes_from) refl
]
