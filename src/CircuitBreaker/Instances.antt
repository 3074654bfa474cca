-- ===== src/CircuitBreaker/Instances.antt =====
-- The class-level table of circuitbreaker/circuit_breaker.py. It holds the breakers themselves, so that none of
-- its entries vanishes. A breaker is its identity, with the states of all by identity; names are numbers.
use resilience4py.Prelude.{
  ℕ, ◌+◌, ◌≡◌, refl, Option, Option-cases, none, some, inl, inr, List, [], ◌∷◌, ◌<◌, ◌==◌,
  if◌then◌else◌, arith,
}
use resilience4py.Registry.{lookup, store}
use resilience4py.Registry.Instances.{lookup-delete}
use resilience4py.CircuitBreaker.Config.{CircuitBreakerConfig}
use resilience4py.CircuitBreaker.Breaker.{CircuitBreaker, new_breaker}

pub record Breakers (F : Type 0) : Type 0 where
  pub registry : List (ℕ × ℕ)
  pub objects : List (ℕ × CircuitBreaker F)
  -- how many breakers have been constructed
  pub created : ℕ

module _ {F : Type 0} where
  -- `CircuitBreaker(name, config)`, where `default` is the configuration without arguments.
  unfoldable pub construct :
      CircuitBreakerConfig F → Option (CircuitBreakerConfig F) → CircuitBreaker F
  construct default none = new_breaker default
  construct default (some c) = new_breaker c

  -- `get_or_create`, whole under the lock.
  unfoldable pub get_or_create_breaker :
      CircuitBreakerConfig F → ℕ → Option (CircuitBreakerConfig F) → Breakers F → ℕ × Breakers F
  unfolding construct
  get_or_create_breaker default name config r = elim (lookup name r.registry) [
    | some i ↦ (i, r)
    | none ↦ (
      r.created,
      record {
        registry = store name r.created r.registry;
        objects = store r.created (construct default config) r.objects;
        created = r.created + 1;
      },
    )
  ]

  abbrev pub no_breakers : Breakers F
  no_breakers = record { registry = []; objects = []; created = 0 }

  -- An operation of the breaker `i`, as a change of its state.
  abbrev pub operate : ℕ → (CircuitBreaker F → CircuitBreaker F) → Breakers F → Breakers F
  operate i f r = elim (lookup i r.objects) [
    | none ↦ r
    | some b ↦ record r { objects = store i (f b) r.objects }
  ]

pub data Use (F : Type 0) : Type 0 where
  gets : ℕ → Option (CircuitBreakerConfig F) → Use F
  operates : ℕ → (CircuitBreaker F → CircuitBreaker F) → Use F

module _ {F : Type 0} (default : CircuitBreakerConfig F) where
  abbrev pub run_use : Use F → Breakers F → Breakers F
  run_use (gets name c) r = (get_or_create_breaker default name c r).1
  run_use (operates i f) r = operate i f r

  abbrev pub run_uses : List (Use F) → Breakers F → Breakers F
  run_uses [] r = r
  run_uses (u ∷ us) r = run_uses us (run_use u r)

  -- What a use does to the breaker `i`.
  abbrev effect_on : ℕ → Use F → CircuitBreaker F → CircuitBreaker F
  effect_on i (gets name c) b = b
  effect_on i (operates j f) b = if i == j then f b else b

  abbrev pub effects_on : ℕ → List (Use F) → CircuitBreaker F → CircuitBreaker F
  effects_on i [] b = b
  effects_on i (u ∷ us) b = effects_on i us (effect_on i u b)

  -- The name stands for the breaker `i`, whose state is `b`.
  abbrev Stands : ℕ → ℕ → CircuitBreaker F → Breakers F → Type 0
  Stands name i b r =
      (lookup name r.registry ≡ some i) × (i < r.created) × (lookup i r.objects ≡ some b)

  abbrev IsNumbered : Breakers F → Type 0
  IsNumbered r =
      (name i : ℕ) → lookup name r.registry ≡ some i → (b : CircuitBreaker F) × Stands name i b r

  run_use-Stands :
      (name i : ℕ) (b : CircuitBreaker F) (u : Use F) (r : Breakers F)
      → Stands name i b r
      → Stands name i (effect_on i u b) (run_use u r)
  unfolding get_or_create_breaker lookup
  run_use-Stands name i b (gets other c) r h =
      ground (arith, h, lookup-delete name other r.registry, lookup-delete i r.created r.objects)
  run_use-Stands name i b (operates j f) r h = ground (arith, h, lookup-delete i j r.objects)

  run_uses-Stands :
      (name i : ℕ) (b : CircuitBreaker F) (us : List (Use F)) (r : Breakers F)
      → Stands name i b r
      → Stands name i (effects_on i us b) (run_uses us r)
  run_uses-Stands name i b [] r h = h
  run_uses-Stands name i b (u ∷ us) r h =
      run_uses-Stands name i (effect_on i u b) us (run_use u r) (run_use-Stands name i b u r h)

  get_or_create_breaker-Stands :
      (name : ℕ) (c : Option (CircuitBreakerConfig F)) (r : Breakers F)
      → IsNumbered r
      → let (i, r') = get_or_create_breaker default name c r in
        (b : CircuitBreaker F) × Stands name i b r'
  unfolding get_or_create_breaker lookup
  get_or_create_breaker-Stands name c r h = elim (Option-cases (lookup name r.registry)) [
    | inl new ↦ rw (get_or_create_breaker, new) (construct default c, ground arith)
    | inr (i, found) ↦ rw (get_or_create_breaker, found) (h name i found)
  ]

  -- Only a name that is asked for is new.
  run_use_new :
      (u : Use F) (r : Breakers F) (name i : ℕ)
      → IsNumbered r
      → lookup name r.registry ≡ none
      → lookup name (run_use u r).registry ≡ some i
      → (b : CircuitBreaker F) × Stands name i b (run_use u r)
  unfolding get_or_create_breaker lookup
  run_use_new (gets other c) r name i h new found =
      let (b, stands) = get_or_create_breaker-Stands other c r h in
      (b, ground (arith, stands, new, found, lookup-delete name other r.registry))
  run_use_new (operates j f) r name i h new found = absurd (ground (arith, new, found))

  run_use-IsNumbered : (u : Use F) (r : Breakers F) → IsNumbered r → IsNumbered (run_use u r)
  run_use-IsNumbered u r h name i found = elim (Option-cases (lookup name r.registry)) [
    | inl new ↦ run_use_new u r name i h new found
    | inr (j, known) ↦
        let (b, stands) = h name j known in
        let stands' = run_use-Stands name j b u r stands in
        let same : j ≡ i = ground (arith, stands'.0, found) in (effect_on j u b, rw⁻¹ same stands')
  ]

  run_uses-IsNumbered :
      (us : List (Use F)) (r : Breakers F) → IsNumbered r → IsNumbered (run_uses us r)
  run_uses-IsNumbered [] r h = h
  run_uses-IsNumbered (u ∷ us) r h = run_uses-IsNumbered us (run_use u r) (run_use-IsNumbered u r h)

  no_breakers-IsNumbered : IsNumbered no_breakers
  unfolding lookup
  no_breakers-IsNumbered name i found = ground (arith, found)

  -- One breaker for each name, from the start of the program on, whatever is asked for and done before and
  -- after: `get_or_create` returns the same breaker for a name again, whatever configuration it is given
  -- then, and changes nothing; and that breaker's state is what the operations of it in between have made of
  -- the state that it had, in their order, whatever was done to others.
  pub get_or_create_breaker-same :
      (before after : List (Use F)) (name : ℕ) (c c' : Option (CircuitBreakerConfig F))
      → let (i, r) = get_or_create_breaker default name c (run_uses before no_breakers) in
        let s = run_uses after r in
        (get_or_create_breaker default name c' s ≡ (i, s))
        × ((b : CircuitBreaker F) × (lookup i r.objects ≡ some b)
            × (lookup i s.objects ≡ some (effects_on i after b)))
  unfolding get_or_create_breaker
  get_or_create_breaker-same before after name c c' =
      let start = run_uses-IsNumbered before no_breakers no_breakers-IsNumbered in
      let (b, stands) = get_or_create_breaker-Stands name c (run_uses before no_breakers) start in
      let (i, r) = get_or_create_breaker default name c (run_uses before no_breakers) in
      let s = run_uses after r in
      let (found, numbered, object) = run_uses-Stands name i b after r stands in
      (rw (get_or_create_breaker, found) refl, (b, stands.2, object))
