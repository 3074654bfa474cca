-- ===== src/Registry/Instances.antt =====
-- One instance for each name, in core/registry.py.
use resilience4py.Prelude.{
  ℕ, ◌+◌, ◌≡◌, ◌<◌, ◌≤◌, refl, false, ◌⊎◌, inl, inr, Option, none, some, List, [], ◌∷◌, ◌==◌,
  if◌then◌else◌, arith,
}
use resilience4py.Registry.{
  lookup, delete, Instance, Registry, new_registry, get_or_create, add_configuration, remove,
  collect,
}

module _ {ℓ} {V : Type ℓ} where
  pub lookup-delete :
      (n m : ℕ) (d : List (ℕ × V)) → lookup n (delete m d) ≡ (if n == m then none else lookup n d)
  unfolding lookup delete
  lookup-delete n m [] = ground arith
  lookup-delete n m ((k, v) ∷ d) = ground (arith, lookup-delete n m d)

  delete_found :
      (n m : ℕ) (v : V) (d : List (ℕ × V)) → lookup n (delete m d) ≡ some v → lookup n d ≡ some v
  delete_found n m v d h = ground (arith, lookup-delete n m d)

module _ {C : Type 0} where
  -- What happens to a registry besides the calls for one name: calls for others, configurations stored,
  -- and other names removed or collected.
  pub data Elsewhere (name : ℕ) : Registry C → Registry C → Type 0 where
    gets :
        (other : ℕ) (c : Option C) (r : Registry C) → Elsewhere name r (get_or_create other c r).1
    configures :
        (other : ℕ) (c : C) (r : Registry C) → Elsewhere name r (add_configuration other c r)
    removes :
        (other : ℕ) (r : Registry C) → (name == other) ≡ false → Elsewhere name r (remove other r)
    collects :
        (other : ℕ) (r : Registry C) → (name == other) ≡ false → Elsewhere name r (collect other r)

  pub data Elsewheres (name : ℕ) (r : Registry C) : Registry C → Type 0 where
    here : Elsewheres name r r
    next : {s t : Registry C} → Elsewheres name r s → Elsewhere name s t → Elsewheres name r t

  Elsewhere-keeps :
      (name : ℕ) (i : Instance C) {r s : Registry C}
      → Elsewhere name r s
      → lookup name r.instances ≡ some i
      → lookup name s.instances ≡ some i
  unfolding get_or_create add_configuration remove collect lookup
  Elsewhere-keeps name i (gets other c r) h = ground (arith, lookup-delete name other r.instances)
  Elsewhere-keeps name i (configures other c r) h = h
  Elsewhere-keeps name i (removes other r e) h =
      ground (arith, lookup-delete name other r.instances)
  Elsewhere-keeps name i (collects other r e) h =
      ground (arith, lookup-delete name other r.instances)

  Elsewheres-keeps :
      (name : ℕ) (i : Instance C) {r s : Registry C}
      → Elsewheres name r s
      → lookup name r.instances ≡ some i
      → lookup name s.instances ≡ some i
  Elsewheres-keeps name i here h = h
  Elsewheres-keeps name i (next steps step) h =
      Elsewhere-keeps name i step (Elsewheres-keeps name i steps h)

  get_or_create-stored :
      (name : ℕ) (c : Option C) (r : Registry C)
      → lookup name (get_or_create name c r).1.instances ≡ some (get_or_create name c r).0
  unfolding get_or_create lookup
  get_or_create-stored name c r = ground arith

  -- A name keeps its instance: once `get_or_create` has returned one, it returns the same one again,
  -- whatever configuration it is given then, and changes nothing, whatever has been done in between but to
  -- remove the name or to drop its instance.
  pub get_or_create-same :
      (name : ℕ) (c c' : Option C) (r s : Registry C)
      → Elsewheres name (get_or_create name c r).1 s
      → get_or_create name c' s ≡ ((get_or_create name c r).0, s)
  unfolding get_or_create
  get_or_create-same name c c' r s steps =
      let kept =
        Elsewheres-keeps name (get_or_create name c r).0 steps (get_or_create-stored name c r) in
      rw (kept, get_or_create) refl

  -- What a registry may do, the vanishing of an instance included.
  pub data Step : Registry C → Registry C → Type 0 where
    got : (name : ℕ) (c : Option C) (r : Registry C) → Step r (get_or_create name c r).1
    configured : (name : ℕ) (c : C) (r : Registry C) → Step r (add_configuration name c r)
    removed : (name : ℕ) (r : Registry C) → Step r (remove name r)
    collected : (name : ℕ) (r : Registry C) → Step r (collect name r)

  pub data Reach (c : C) : Registry C → Type 0 where
    begun : Reach c (new_registry c)
    then_step : {r s : Registry C} → Reach c r → Step r s → Reach c s

  -- The stored instances have been constructed, each for one name.
  record IsFresh (r : Registry C) : Type 0 where
    constructed : (n : ℕ) (i : Instance C) → lookup n r.instances ≡ some i → i.identity < r.created
    apart :
        (n m : ℕ) (i j : Instance C)
        → lookup n r.instances ≡ some i
        → lookup m r.instances ≡ some j
        → i.identity ≡ j.identity
        → n ≡ m

  delete-IsFresh :
      (name : ℕ) (r s : Registry C)
      → s.instances ≡ delete name r.instances
      → s.created ≡ r.created
      → IsFresh r
      → IsFresh s
  delete-IsFresh name r s e k h = record {
    constructed = λ n i l. rw k (h.constructed n i (delete_found n name i r.instances (rw e at l)));
    apart = λ n m i j l l' same.
        h.apart n m i j (delete_found n name i r.instances (rw e at l))
          (delete_found m name j r.instances (rw e at l')) same;
  }

  -- An instance that is stored after a call was stored before it, or is the one that the call made.
  create_found :
      (name : ℕ) (c : Option C) (r : Registry C) (n : ℕ) (i : Instance C)
      → lookup n (get_or_create name c r).1.instances ≡ some i
      → (lookup n r.instances ≡ some i)
        ⊎ (n ≡ name)
          × (i.identity ≡ r.created)
          × ((get_or_create name c r).1.created ≡ r.created + 1)
  unfolding get_or_create lookup
  create_found name c r n i l = ground (arith, lookup-delete n name r.instances)

  created-le :
      (name : ℕ) (c : Option C) (r : Registry C) → r.created ≤ (get_or_create name c r).1.created
  unfolding get_or_create
  created-le name c r = ground arith

  create-IsFresh :
      (name : ℕ) (c : Option C) (r : Registry C) → IsFresh r → IsFresh (get_or_create name c r).1
  create-IsFresh name c r h = record {
    constructed = λ n i l. elim (create_found name c r n i l) [
      | inl old ↦ omega (arith, h.constructed n i old, created-le name c r)
      | inr (_, e, k) ↦ omega arith
    ];
    apart = λ n m i j l l' same. elim (create_found name c r n i l) [
      | inl old ↦ elim (create_found name c r m j l') [
        | inl old' ↦ h.apart n m i j old old' same
        | inr (_, e, _) ↦ absurd (omega (arith, h.constructed n i old, e, same))
      ]
      | inr (here_n, e, _) ↦ elim (create_found name c r m j l') [
        | inl old' ↦ absurd (omega (arith, h.constructed m j old', e, same))
        | inr (here_m, _, _) ↦ omega (arith, here_n, here_m)
      ]
    ];
  }

  Step-IsFresh : {r s : Registry C} → Step r s → IsFresh r → IsFresh s
  unfolding add_configuration remove collect
  Step-IsFresh (got name c r) h = create-IsFresh name c r h
  Step-IsFresh (configured name c r) h = record { constructed = h.constructed; apart = h.apart }
  Step-IsFresh (removed name r) h = delete-IsFresh name r (remove name r) refl refl h
  Step-IsFresh (collected name r) h = delete-IsFresh name r (collect name r) refl refl h

  Reach-IsFresh : (c : C) {r : Registry C} → Reach c r → IsFresh r
  unfolding new_registry lookup
  Reach-IsFresh c begun = record { constructed = λ n i l. cc; apart = λ n m i j l l' same. cc }
  Reach-IsFresh c (then_step reached step) = Step-IsFresh step (Reach-IsFresh c reached)

  -- Names do not share an instance: in every registry that a new one has become, by calls, stored
  -- configurations, removals and vanished instances in any order, two names with the same instance are the
  -- same name.
  pub lookup_apart :
      (c : C) {r : Registry C} (n m : ℕ) (i j : Instance C)
      → Reach c r
      → lookup n r.instances ≡ some i
      → lookup m r.instances ≡ some j
      → i.identity ≡ j.identity
      → n ≡ m
  lookup_apart c n m i j reached = (Reach-IsFresh c reached).apart n m i j
