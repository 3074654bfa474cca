-- ===== src/RateLimiter/Registered.antt =====
-- `RateLimiterRegistry` of ratelimiter/rate_limiter.py, with the state that core/registry.py models. A limiter
-- is an instance of the registry. Names are numbers.
use resilience4py.Prelude.{ℕ, ◌+◌, ◌≡◌, Option, none, some, arith}
use resilience4py.RateLimiter.Limiter.{RateLimiterConfig}
use resilience4py.Registry.{lookup, store, delete, Instance, Registry, final_config, collect}
use resilience4py.Registry.Instances.{lookup-delete}

abbrev pub LimiterRegistry : Type 0
LimiterRegistry = Registry RateLimiterConfig

-- `RateLimiterRegistry.get_or_create`, whole under the lock. Unlike the registry of the core package it stores
-- the configuration that it is given when it creates.
unfoldable pub get_or_create_limiter :
    ℕ → Option RateLimiterConfig → LimiterRegistry → Instance RateLimiterConfig × LimiterRegistry
get_or_create_limiter name config r = elim (lookup name r.instances) [
  | some instance' ↦ (instance', r)
  | none ↦
      let made : Instance RateLimiterConfig = record {
        identity = r.created;
        config = final_config config (lookup name r.configs) r.default_config;
      } in
      (
        made,
        record r {
          instances = store name made r.instances;
          created = r.created + 1;
          configs = elim config [ none ↦ r.configs | some c ↦ store name c r.configs ];
        },
      )
]

unfoldable pub set_default_config : RateLimiterConfig → LimiterRegistry → LimiterRegistry
set_default_config c r = record r { default_config = c }

unfoldable pub remove_limiter : ℕ → LimiterRegistry → LimiterRegistry
remove_limiter name r = record r {
  instances = delete name r.instances;
  configs = delete name r.configs;
}

-- A name that a configuration was given for keeps it when its limiter has vanished, and a limiter that is
-- created for it later has it again, also under another default; once the name has been removed, a new
-- limiter has the default configuration.
pub get_or_create_limiter_keeps_config :
    (name : ℕ) (c other : RateLimiterConfig) (r : LimiterRegistry)
    → lookup name r.instances ≡ none
    → let s = (get_or_create_limiter name (some c) r).1 in
      ((get_or_create_limiter name none (set_default_config other (collect name s))).0.config ≡ c)
      × ((get_or_create_limiter name none
            (set_default_config other (remove_limiter name s))).0.config
          ≡ other)
unfolding get_or_create_limiter set_default_config remove_limiter collect lookup delete
get_or_create_limiter_keeps_config name c other r new = ground (
  arith,
  new,
  lookup-delete name name r.instances,
  lookup-delete name name r.configs,
  lookup-delete name name (delete name r.instances),
  lookup-delete name name (delete name r.configs),
)

-- A name that has been asked for is registered with the limiter that was answered.
pub lookup-get_or_create_limiter :
    (name : ℕ) (config : Option RateLimiterConfig) (r : LimiterRegistry)
    → let (i, r') = get_or_create_limiter name config r in lookup name r'.instances ≡ some i
unfolding get_or_create_limiter lookup
lookup-get_or_create_limiter name config r = ground arith
