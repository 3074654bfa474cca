-- ===== src/Core/Metrics/Store.antt =====
-- core/metrics.py: `MetricsRegistry`. The collectors are objects in a store, and the registry refers to
-- them by name, two names perhaps to one.
use mathlib.Core.List.{append_assoc}
use resilience4py.Prelude.{
  ℕ, ◌≡◌, refl, Bool, true, false, Option, none, some, List, [], ◌∷◌, ◌++◌, ◌==◌, if◌then◌else◌,
  any_of, arith, ap, ◌∙◌, map,
}
use resilience4py.Prelude.Float.{Float}
use resilience4py.Registry.{lookup, delete, store}
use resilience4py.Registry.Instances.{lookup-delete}
use resilience4py.Core.Metrics.{
  MetricsSnapshot, empty_snapshot, BasicMetrics, basic_snapshot, reset_basic,
}
use resilience4py.Core.Metrics.Sliding.{SlidingWindow, sliding_snapshot, reset_sliding}

-- An object of a class of `Metrics`, as the calls of the abstract methods see it.
pub data Collector : Type 0 where
  basic : BasicMetrics → Collector
  sliding : SlidingWindow → Collector

unfoldable pub reset_collector : Collector → Collector
reset_collector (basic b) = basic (reset_basic b)
reset_collector (sliding w) = sliding (reset_sliding w)

module _ {F : Type 0} ⦃fl : Float F⦄ where
  unfoldable pub snapshot_of_collector : Collector → MetricsSnapshot F
  snapshot_of_collector (basic b) = basic_snapshot b
  snapshot_of_collector (sliding w) = sliding_snapshot w

pub record MetricsRegistry : Type 0 where
  -- `_metrics`
  pub names : List (ℕ × ℕ)
  -- the collectors by identity
  pub objects : List (ℕ × Collector)

unfoldable pub register : ℕ → ℕ → MetricsRegistry → MetricsRegistry
register name object r = record r { names = store name object r.names }

unfoldable pub unregister : ℕ → MetricsRegistry → MetricsRegistry
unregister name r = record r { names = delete name r.names }

unfoldable pub get_collector : ℕ → MetricsRegistry → Option ℕ
get_collector name r = lookup name r.names

-- One object reset, where it is.
unfoldable pub reset_object : ℕ → List (ℕ × Collector) → List (ℕ × Collector)
reset_object object heap = elim (lookup object heap) [
  | none ↦ heap
  | some c ↦ store object (reset_collector c) heap
]

-- The loop over `self._metrics.values()`.
unfoldable pub reset_each : List (ℕ × ℕ) → List (ℕ × Collector) → List (ℕ × Collector)
unfolding reset_object
reset_each [] heap = heap
reset_each ((name, object) ∷ rest) heap = reset_each rest (reset_object object heap)

unfoldable pub reset_all : MetricsRegistry → MetricsRegistry
unfolding reset_each
reset_all r = record r { objects = reset_each r.names r.objects }

module _ {F : Type 0} ⦃fl : Float F⦄ where
  abbrev pub report : Option Collector → Option (MetricsSnapshot F)
  report none = none
  report (some c) = some (snapshot_of_collector c)

  -- The loop over `self._metrics.items()`.
  unfoldable pub snapshots_of :
      List (ℕ × ℕ) → List (ℕ × Collector) → List (ℕ × Option (MetricsSnapshot F))
  snapshots_of [] heap = []
  snapshots_of ((name, object) ∷ rest) heap =
      (name, report (lookup object heap)) ∷ snapshots_of rest heap

  unfoldable pub get_all_snapshots : MetricsRegistry → List (ℕ × Option (MetricsSnapshot F))
  unfolding snapshots_of
  get_all_snapshots r = snapshots_of r.names r.objects

-- An object of the registry.
abbrev pub is_registered : ℕ → List (ℕ × ℕ) → Bool
is_registered object names = any_of (λ (e : ℕ × ℕ). object == e.1) names

abbrev pub after_reset : Bool → Option Collector → Option Collector
after_reset touched none = none
after_reset touched (some c) = if touched then some (reset_collector c) else some c

reset_collector_twice : (c : Collector) → reset_collector (reset_collector c) ≡ reset_collector c
unfolding reset_collector reset_basic reset_sliding
reset_collector_twice (basic b) = refl
reset_collector_twice (sliding w) = refl

lookup-reset_object :
    (o object : ℕ) (heap : List (ℕ × Collector))
    → lookup o (reset_object object heap) ≡ after_reset (o == object) (lookup o heap)
unfolding lookup reset_object
lookup-reset_object o object heap = ground (arith, lookup-delete o object heap)

after_reset-after_reset :
    (a b : Bool) (o : Option Collector)
    → after_reset a (after_reset b o) ≡ after_reset (if b then true else a) o
after_reset-after_reset a b none = refl
after_reset-after_reset a true (some c) = ground (arith, reset_collector_twice c)
after_reset-after_reset a false (some c) = refl

lookup-reset_each :
    (o : ℕ) (names : List (ℕ × ℕ)) (heap : List (ℕ × Collector))
    → lookup o (reset_each names heap) ≡ after_reset (is_registered o names) (lookup o heap)
unfolding reset_each
lookup-reset_each o [] heap = ground arith
lookup-reset_each o ((name, object) ∷ rest) heap =
    lookup-reset_each o rest (reset_object object heap)
    ∙ ap (after_reset (is_registered o rest)) (lookup-reset_object o object heap)
    ∙ after_reset-after_reset (is_registered o rest) (o == object) (lookup o heap)

-- What the registry says of a name once all are reset; its object may be unknown.
abbrev pub nothing_of : {F : Type 0} → Option Collector → Option (MetricsSnapshot F)
nothing_of none = none
nothing_of (some c) = some empty_snapshot

abbrev pub blank : {F : Type 0} → List (ℕ × Collector) → ℕ × ℕ → ℕ × Option (MetricsSnapshot F)
blank heap (name, object) = (name, nothing_of (lookup object heap))

is_registered-append :
    (object name : ℕ) (before after : List (ℕ × ℕ))
    → is_registered object (before ++ (name, object) ∷ after) ≡ true
is_registered-append object name [] after = ground arith
is_registered-append object name (e ∷ before) after =
    ground (arith, is_registered-append object name before after)

module _ {F : Type 0} ⦃fl : Float F⦄ where
  snapshot-reset_collector :
      (c : Collector) → snapshot_of_collector {F = F} (reset_collector c) ≡ empty_snapshot
  unfolding snapshot_of_collector reset_collector reset_basic reset_sliding basic_snapshot
      sliding_snapshot
  snapshot-reset_collector (basic b) = refl
  snapshot-reset_collector (sliding w) = refl

  report-after_reset : (o : Option Collector) → report {F = F} (after_reset true o) ≡ nothing_of o
  report-after_reset none = refl
  report-after_reset (some c) = ap some (snapshot-reset_collector c)

  report-reset_each :
      (object : ℕ) (names : List (ℕ × ℕ)) (heap : List (ℕ × Collector))
      → is_registered object names ≡ true
      → report {F = F} (lookup object (reset_each names heap)) ≡ nothing_of (lookup object heap)
  report-reset_each object names heap h =
      ap (report {F = F})
        (lookup-reset_each object names heap ∙ ap (λ b. after_reset b (lookup object heap)) h)
      ∙ report-after_reset (lookup object heap)

  snapshots_of-reset_each :
      (before after : List (ℕ × ℕ)) (heap : List (ℕ × Collector))
      → snapshots_of {F = F} after (reset_each (before ++ after) heap) ≡ map (blank heap) after
  unfolding snapshots_of
  snapshots_of-reset_each before [] heap = refl
  snapshots_of-reset_each before ((name, object) ∷ after) heap =
      let here =
        report-reset_each object (before ++ (name, object) ∷ after) heap
          (is_registered-append object name before after) in
      let rest = snapshots_of-reset_each (before ++ (name, object) ∷ []) after heap in
      let regroup = append_assoc before ((name, object) ∷ []) after in
      let rest' : snapshots_of {F = F} after (reset_each (before ++ (name, object) ∷ after) heap)
          ≡ map (blank heap) after =
        rw regroup at rest in
      rw (here, rest') refl

  -- After `reset_all` every registered collector reports nothing, under each of its names, also where several
  -- names share one object; the names are those that there were.
  pub get_all_snapshots-reset_all :
      (r : MetricsRegistry)
      → get_all_snapshots (reset_all r) ≡ map (blank {F = F} r.objects) r.names
  unfolding get_all_snapshots reset_all
  get_all_snapshots-reset_all r = snapshots_of-reset_each [] r.names r.objects
