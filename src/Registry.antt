-- ===== src/Registry.antt =====
-- core/registry.py: instances by name, held by weak references, and configurations by name. An instance
-- is the number of its construction with the configuration that it was constructed with; names are
-- numbers. `_create_instance` is a subclass's: it returns a new
-- instance, and is taken not to suspend.
use resilience4py.Prelude.{ℕ, ◌+◌, Option, none, some, List, [], ◌∷◌, ◌++◌, ◌==◌, if◌then◌else◌}
pub mod Instances

-- A dictionary with natural keys, an absent key being `none`.
unfoldable pub lookup {ℓ} : {V : Type ℓ} → ℕ → List (ℕ × V) → Option V
lookup n [] = none
lookup n ((m, v) ∷ d) = let rest = lookup n d in if n == m then some v else rest

unfoldable pub delete {ℓ} : {V : Type ℓ} → ℕ → List (ℕ × V) → List (ℕ × V)
delete n [] = []
delete n ((m, v) ∷ d) = let rest = delete n d in if n == m then rest else (m, v) ∷ rest

-- `d[n] = v`
abbrev pub store {ℓ} : {V : Type ℓ} → ℕ → V → List (ℕ × V) → List (ℕ × V)
store n v d = (n, v) ∷ delete n d

pub record Instance (C : Type 0) : Type 0 where
  pub identity : ℕ
  pub config : C

pub record Registry (C : Type 0) : Type 0 where
  pub default_config : C
  pub instances : List (ℕ × Instance C)
  pub configs : List (ℕ × C)
  -- how many instances have been constructed
  pub created : ℕ

module _ {C : Type 0} where
  unfoldable pub new_registry : C → Registry C
  new_registry c = record { default_config = c; instances = []; configs = []; created = 0 }

  -- `config or self._configs.get(name) or self._default_config`
  abbrev pub final_config : Option C → Option C → C → C
  final_config (some given) stored default = given
  final_config none (some stored) default = stored
  final_config none none default = default

  -- Whole under the lock.
  unfoldable pub get_or_create : ℕ → Option C → Registry C → Instance C × Registry C
  get_or_create name config r = elim (lookup name r.instances) [
    | some instance' ↦ (instance', r)
    | none ↦
        let made : Instance C = record {
          identity = r.created;
          config = final_config config (lookup name r.configs) r.default_config;
        } in
        (made, record r { instances = store name made r.instances; created = r.created + 1 })
  ]

  unfoldable pub add_configuration : ℕ → C → Registry C → Registry C
  add_configuration name config r = record r { configs = store name config r.configs }

  unfoldable pub remove : ℕ → Registry C → Registry C
  remove name r = record r { instances = delete name r.instances; configs = delete name r.configs }

  -- The last strong reference to an instance is gone, and with it the entry.
  unfoldable pub collect : ℕ → Registry C → Registry C
  collect name r = record r { instances = delete name r.instances }

  -- A copy of the dictionary.
  unfoldable pub get_all_instances : Registry C → List (ℕ × Instance C)
  get_all_instances r = r.instances

-- `add_event_consumer`, on the list `_event_consumers`, which nothing reads.
unfoldable pub add_event_consumer : ℕ → List ℕ → List ℕ
add_event_consumer consumer consumers = consumers ++ consumer ∷ []
