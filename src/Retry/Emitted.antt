-- ===== src/Retry/Emitted.antt =====
-- The events that a run of retry/retry.py emits.
use resilience4py.Prelude.{ℕ, ◌≡◌, List, [], ◌∷◌, ◌++◌, map}
use resilience4py.Outcome.{Outcome, cancelled}
use resilience4py.Retry.Config.{RetryConfig}
use resilience4py.Retry.Loop.{RetryEvent, Deed, called, emitted, slept, Next, ends, goes_on}
use resilience4py.Retry.Attempts.{calls}
use resilience4py.Retry.Events.{event_attempt}

abbrev pub events : {A : Type 0} → List (Deed A) → List (RetryEvent A)
events [] = []
events (called _ ∷ ds) = events ds
events (emitted e ∷ ds) = e ∷ events ds
events (slept _ ∷ ds) = events ds

-- The number of a call that was cancelled, if the run ended so.
abbrev pub unfinished : {A : Type 0} → Outcome A → ℕ → List ℕ
unfinished cancelled k = k ∷ []
unfinished _ k = []

module _ {A : Type 0} (c : RetryConfig A) where
  -- A run of the attempts from `a` on whose events are in order.
  abbrev InOrder : Outcome A × List (Deed A) → Type 0
  InOrder (o, deeds) = (k : ℕ) × (calls deeds ≡ map event_attempt (events deeds) ++ unfinished o k)

  -- What one attempt adds.
  abbrev OneEvent : ℕ → Next A → Type 0
  OneEvent a (ends o ds) =
      (calls ds ≡ []) × (a ∷ [] ≡ map event_attempt (events ds) ++ unfinished o a)
  OneEvent a (goes_on last ds) = (calls ds ≡ []) × (a ∷ [] ≡ map event_attempt (events ds))
