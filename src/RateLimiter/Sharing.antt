-- ===== src/RateLimiter/Sharing.antt =====
-- Several `RateLimiter` objects of one name (ratelimiter/rate_limiter.py), which share a limiter.
use resilience4py.Prelude.{
  ℕ, ◌≡◌, refl, ap, ◌∙◌, ◌⊎◌, inl, inr, none, some, List, [], ◌∷◌, map, arith, if◌then◌else◌, ◌==◌,
  Bool-cases,
}
use resilience4py.Prelude.Int.{ℤ}
use resilience4py.Registry.{lookup, Instance}
use resilience4py.RateLimiter.Limiter.{RateLimiterConfig, reserve_permission}
use resilience4py.RateLimiter.Registered.{get_or_create_limiter, lookup-get_or_create_limiter}
use resilience4py.RateLimiter.Facade.{Shared, RateLimiter, get_limiter, flush, attach}
use resilience4py.RateLimiter.Service.{Service, limiter_of, with_limiter, reserve_through}
use resilience4py.RateLimiter.Cycles.{reserve_all}

-- The objects in use, by number.
abbrev pub Users : Type 0
Users = ℕ → RateLimiter

abbrev replace : ℕ → RateLimiter → Users → Users
replace k f users j = if j == k then f else users j

-- Reservations, each through one of the objects at a time, with their answers in order.
abbrev pub reserve_all_through : List (ℕ × ℕ) → Users → Service → List (ℕ × ℤ)
reserve_all_through [] users s = []
reserve_all_through ((k, now) ∷ requests) users s =
    let (wait, f, s') = reserve_through now (users k) s in
    (now, wait) ∷ reserve_all_through requests (replace k f users) s'

abbrev pub time_of : ℕ × ℕ → ℕ
time_of (k, now) = now

-- The object has the name and holds no limiter yet, or that of the name.
abbrev Holds : ℕ → Instance RateLimiterConfig → RateLimiter → Type 0
Holds name i f = (f.name ≡ name) × ((f.atomic_limiter ≡ none) ⊎ (f.atomic_limiter ≡ some i))

module _ (name : ℕ) (i : Instance RateLimiterConfig) where
  abbrev IsRegistered : Shared → Type 0
  IsRegistered s = lookup name s.registry.instances ≡ some i

  -- What an object gets from the registry, and leaves.
  abbrev Gets : RateLimiter → Shared → Type 0
  Gets f s = let (i', f', s') = get_limiter f s in (i' ≡ i) × Holds name i f' × IsRegistered s'

  flush-IsRegistered :
      (ls : List (ℕ × ℕ)) (s : Shared) → IsRegistered s → IsRegistered (flush i.identity ls s)
  unfolding flush
  flush-IsRegistered [] s h = h
  flush-IsRegistered ((t, l) ∷ ls) s h = flush-IsRegistered ls (attach i.identity t l s) h

  get_limiter-Gets : (f : RateLimiter) (s : Shared) → Holds name i f → IsRegistered s → Gets f s
  unfolding get_limiter get_or_create_limiter
  get_limiter-Gets f s (named, inl fresh) h =
      let same : get_or_create_limiter f.name f.config s.registry ≡ (i, s.registry) =
        ground (arith, named, h) in
      rw (fresh, same) (refl, (named, inr refl), flush-IsRegistered f.pending_listeners s h)
  get_limiter-Gets f s (named, inr held) h = rw held (refl, (named, inr refl), h)

  reserve_through-Gets :
      (now : ℕ) (f : RateLimiter) (s : Service)
      → Gets f s.shared
      → let (wait, f', s') = reserve_through now f s in
        (wait ≡ (reserve_permission now (limiter_of i s)).0)
        × Holds name i f'
        × IsRegistered s'.shared
        × (limiter_of i s' ≡ (reserve_permission now (limiter_of i s)).1)
  unfolding reserve_through with_limiter limiter_of lookup
  reserve_through-Gets now f s (same, holds, kept) = rw same (refl, holds, kept, ground arith)

  replace-Holds :
      (k : ℕ) (f : RateLimiter) (users : Users)
      → Holds name i f
      → ((j : ℕ) → Holds name i (users j))
      → (j : ℕ) → Holds name i (replace k f users j)
  replace-Holds k f users h hs j = elim (Bool-cases (j == k)) [
    | inl here ↦ rw here h
    | inr other ↦ rw other (hs j)
  ]

  -- One request, where the rest is known.
  reserve_all_through-step :
      (k now : ℕ) (requests : List (ℕ × ℕ)) (users : Users) (s : Service)
      → Gets (users k) s.shared
      → (let (wait, f, s') = reserve_through now (users k) s in
          reserve_all_through requests (replace k f users) s'
          ≡ reserve_all (map time_of requests) (limiter_of i s'))
      → reserve_all_through ((k, now) ∷ requests) users s
        ≡ reserve_all (now ∷ map time_of requests) (limiter_of i s)
  reserve_all_through-step k now requests users s gets rest =
      let (same, holds, kept, left) = reserve_through-Gets now (users k) s gets in
      let (wait, f, s') = reserve_through now (users k) s in
      ap (λ w. (now, w) ∷ reserve_all_through requests (replace k f users) s') same
      ∙ ap ((now, (reserve_permission now (limiter_of i s)).0) ∷◌)
          (rest ∙ ap (reserve_all (map time_of requests)) left)

  reserve_all_through-registered :
      (requests : List (ℕ × ℕ)) (users : Users) (s : Service)
      → ((j : ℕ) → Holds name i (users j))
      → IsRegistered s.shared
      → reserve_all_through requests users s ≡ reserve_all (map time_of requests) (limiter_of i s)
  reserve_all_through-registered [] users s hs h = refl
  reserve_all_through-registered ((k, now) ∷ requests) users s hs h =
      let gets = get_limiter-Gets (users k) s.shared (hs k) h in
      let (same, holds, kept, left) = reserve_through-Gets now (users k) s gets in
      let (wait, f, s') = reserve_through now (users k) s in
      reserve_all_through-step k now requests users s gets (
        reserve_all_through-registered requests (replace k f users) s'
          (replace-Holds k f users holds hs) kept)

  get_limiter_first :
      (f : RateLimiter) (s : Shared)
      → f.name ≡ name
      → f.atomic_limiter ≡ none
      → (get_limiter f s).0 ≡ i
      → Gets f s
  unfolding get_limiter get_or_create_limiter
  get_limiter_first f s named fresh first =
      let (j, r) = get_or_create_limiter f.name f.config s.registry in
      let same : j ≡ i = ground (arith, first, fresh) in
      let registered : lookup name r.instances ≡ some i =
        ground (arith, named, same, lookup-get_or_create_limiter f.name f.config s.registry) in
      rw fresh (
        same,
        (named, inr (ap some same)),
        rw same (flush-IsRegistered f.pending_listeners (record s { registry = r }) registered),
      )

-- `RateLimiter` objects of one name, none of them used before, share a limiter: whichever of them the requests
-- go through, and whatever configuration each was given, the answers are those of the single limiter that
-- the first request got.
pub reserve_all_through-one_limiter :
    (name k now : ℕ) (requests : List (ℕ × ℕ)) (users : Users) (s : Service)
    → ((j : ℕ) → ((users j).name ≡ name) × ((users j).atomic_limiter ≡ none))
    → let i = (get_limiter (users k) s.shared).0 in
      reserve_all_through ((k, now) ∷ requests) users s
      ≡ reserve_all (now ∷ map time_of requests) (limiter_of i s)
reserve_all_through-one_limiter name k now requests users s fresh =
    let i = (get_limiter (users k) s.shared).0 in
    let gets = get_limiter_first name i (users k) s.shared (fresh k).0 (fresh k).1 refl in
    let (same, holds, kept, left) = reserve_through-Gets name i now (users k) s gets in
    let (wait, f, s') = reserve_through now (users k) s in
    reserve_all_through-step name i k now requests users s gets (
      reserve_all_through-registered name i requests (replace k f users) s'
        (replace-Holds name i k f users holds (λ j. ((fresh j).0, inl (fresh j).1))) kept)
