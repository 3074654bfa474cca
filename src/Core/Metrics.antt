-- ===== src/Core/Metrics.antt =====
-- core/metrics.py: the collectors. A duration is a whole number of ticks, so that sums are exact, and a
-- reading of `time.time()` a number of nanoseconds. The clock may fall.
use resilience4py.Prelude.{
  ℕ, zero, suc, ◌+◌, ◌-◌, ◌*◌, ◌/◌, ◌%◌, min, max, Bool, true, false, Option, none, some, List, [],
  ◌∷◌, ◌++◌, map, ltb, leb, ◌==◌, if◌then◌else◌, length, drop, count_if,
}
use resilience4py.Prelude.Float.{Float}
pub mod Sliding
pub mod Store
pub mod History
pub mod Expiry

-- What `statistics` and `min` and `max` say of the durations in a window.
pub record Durations (F : Type 0) : Type 0 where
  pub min_duration : ℕ
  pub max_duration : ℕ
  pub median_duration : F
  pub p95_duration : F
  pub p99_duration : F

-- The timestamp is left out; an empty dictionary of further metrics is `none`.
pub record MetricsSnapshot (F : Type 0) : Type 0 where
  pub total_calls : ℕ
  pub successful_calls : ℕ
  pub failed_calls : ℕ
  pub total_duration : ℕ
  pub metrics : Option (Durations F)

abbrev pub empty_snapshot : {F : Type 0} → MetricsSnapshot F
empty_snapshot = record {
  total_calls = 0;
  successful_calls = 0;
  failed_calls = 0;
  total_duration = 0;
  metrics = none;
}

module _ {F : Type 0} ⦃fl : Float F⦄ where
  unfoldable pub success_rate : MetricsSnapshot F → F
  success_rate s =
      if s.total_calls == 0
      then fl.hundred
      else fl.times (fl.ratio s.successful_calls s.total_calls) fl.hundred

  unfoldable pub failure_rate : MetricsSnapshot F → F
  failure_rate s = fl.minus fl.hundred (success_rate s)

  unfoldable pub average_duration : MetricsSnapshot F → F
  average_duration s =
      if s.total_calls == 0 then fl.zero_float else fl.ratio s.total_duration s.total_calls

pub record BasicMetrics : Type 0 where
  pub total_calls : ℕ
  pub successful_calls : ℕ
  pub failed_calls : ℕ
  pub total_duration : ℕ

unfoldable pub new_basic : BasicMetrics
new_basic = record { total_calls = 0; successful_calls = 0; failed_calls = 0; total_duration = 0 }

unfoldable pub count_success : ℕ → BasicMetrics → BasicMetrics
count_success duration b = record b {
  total_calls = b.total_calls + 1;
  successful_calls = b.successful_calls + 1;
  total_duration = b.total_duration + duration;
}

unfoldable pub count_failure : ℕ → BasicMetrics → BasicMetrics
count_failure duration b = record b {
  total_calls = b.total_calls + 1;
  failed_calls = b.failed_calls + 1;
  total_duration = b.total_duration + duration;
}

unfoldable pub basic_snapshot : {F : Type 0} → BasicMetrics → MetricsSnapshot F
basic_snapshot b = record {
  total_calls = b.total_calls;
  successful_calls = b.successful_calls;
  failed_calls = b.failed_calls;
  total_duration = b.total_duration;
  metrics = none;
}

unfoldable pub reset_basic : BasicMetrics → BasicMetrics
reset_basic b = record b {
  total_calls = 0;
  successful_calls = 0;
  failed_calls = 0;
  total_duration = 0;
}
