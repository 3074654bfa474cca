-- ===== src/Core/Configs.antt =====
-- core/config.py: the base class of the configurations. A subclass is its `validate`.
use resilience4py.Outcome.{Outcome, returned, raised, cancelled}

-- `__post_init__`: what the construction of a configuration gives.
unfoldable pub post_init : {C : Type 0} → (C → Outcome (Unit {0})) → C → Outcome C
post_init validate c = elim (validate c) [
  | returned _ ↦ returned c
  | raised e ↦ raised e
  | cancelled ↦ cancelled
]
