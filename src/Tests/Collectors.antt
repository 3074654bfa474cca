-- ===== src/Tests/Collectors.antt =====
-- The collectors of the core package on concrete inputs.
use resilience4py.Prelude.{◌≡◌, true, false, List, [], ◌∷◌, ◌++◌}
use resilience4py.Core.Metrics.{new_basic}
use resilience4py.Core.Metrics.Sliding.{CallRecord, counts, times_out, new_sliding, cutoff_time}
use resilience4py.Core.Metrics.History.{Recorded, history, slide_all, count_all}
use resilience4py.Core.Metrics.Expiry.{AllOlder, IsFresh, latest_cutoff, slide_all-times}
use resilience4py.Core.Metrics.Store.{basic, sliding, MetricsRegistry}
use resilience4py.Tests.Decimal.{decimal_float}

-- The clock falls before the third call.
abbrev calls : List Recorded
calls =
    (5, 6, 20, true)
    ∷ (4_000_000_000, 4_000_000_001, 30, false)
    ∷ (3_000_000_000, 3_000_000_001, 10, true)
    ∷ []

slide_all-times_example :
    let w = slide_all calls (new_sliding 2 times_out) in
    IsFresh (cutoff_time 3_000_000_001 2) w.records
    × (gone : List CallRecord) × (gone ++ w.records ≡ history calls)
    × AllOlder (latest_cutoff 2 0 calls) gone
slide_all-times_example = slide_all-times 2 calls

-- Two names share the basic collector.
abbrev metrics : MetricsRegistry
metrics = record {
  names = (1, 10) ∷ (2, 11) ∷ (3, 10) ∷ [];
  objects =
      (10, basic (count_all calls new_basic))
      ∷ (11, sliding (slide_all calls (new_sliding 2 counts)))
      ∷ [];
}
