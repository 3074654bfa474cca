-- ===== src/Core/Metrics/Sliding.antt =====
-- core/metrics.py: `SlidingWindowMetrics`, with what it uses of `statistics`.
use resilience4py.Prelude.{
  ℕ, zero, suc, ◌+◌, ◌-◌, ◌*◌, ◌/◌, ◌%◌, min, max, Bool, true, false, some, List, [], ◌∷◌, ◌++◌,
  map, ltb, leb, ◌==◌, if◌then◌else◌, length, drop, count_if,
}
use resilience4py.Prelude.Float.{Float}
use resilience4py.Core.Metrics.{Durations, MetricsSnapshot, empty_snapshot}

abbrev nanos_per_second : ℕ
nanos_per_second = 1_000_000_000

-- The metadata is left out.
pub record CallRecord : Type 0 where
  pub timestamp : ℕ
  pub duration : ℕ
  pub success : Bool

-- `window_type` is a string that nothing checks.
pub data WindowType : Type 0 where
  counts : WindowType
  times_out : WindowType
  neither : WindowType

pub record SlidingWindow : Type 0 where
  pub window_size : ℕ
  pub window_type : WindowType
  pub records : List CallRecord

unfoldable pub new_sliding : ℕ → WindowType → SlidingWindow
new_sliding size type = record { window_size = size; window_type = type; records = [] }

-- `self._calls.append(record)`, with the `maxlen` that the deque was built with.
unfoldable pub append_record : CallRecord → SlidingWindow → SlidingWindow
append_record c w = elim w.window_type [
  | counts ↦ record w {
    records = drop (suc (length w.records) - w.window_size) (w.records ++ c ∷ []);
  }
  | times_out ↦ record w { records = w.records ++ c ∷ [] }
  | neither ↦ record w { records = w.records ++ c ∷ [] }
]

-- The loop `while self._calls and self._calls[0].timestamp < cutoff_time`.
unfoldable pub pop_older : ℕ → List CallRecord → List CallRecord
pop_older cutoff [] = []
pop_older cutoff (c ∷ cs) =
    let rest = pop_older cutoff cs in if ltb c.timestamp cutoff then rest else c ∷ cs

-- Before the clock's origin there is nothing, so that a cutoff of 0 stands for every earlier one.
abbrev pub cutoff_time : ℕ → ℕ → ℕ
cutoff_time now size = now - size * nanos_per_second

unfoldable pub cleanup_old_records : ℕ → SlidingWindow → SlidingWindow
unfolding pop_older
cleanup_old_records now w = elim w.window_type [
  | counts ↦ w
  | times_out ↦ record w { records = pop_older (cutoff_time now w.window_size) w.records }
  | neither ↦ w
]

-- The clock is read for the record and, in a time-based window, again for the cleanup.
unfoldable pub slide_success : ℕ → ℕ → ℕ → SlidingWindow → SlidingWindow
unfolding append_record cleanup_old_records
slide_success now later d w =
    cleanup_old_records later
      (append_record (record { timestamp = now; duration = d; success = true }) w)

unfoldable pub slide_failure : ℕ → ℕ → ℕ → SlidingWindow → SlidingWindow
unfolding append_record cleanup_old_records
slide_failure now later d w =
    cleanup_old_records later
      (append_record (record { timestamp = now; duration = d; success = false }) w)

unfoldable pub reset_sliding : SlidingWindow → SlidingWindow
reset_sliding w = record w { records = [] }

abbrev pub sum_durations : List CallRecord → ℕ
sum_durations [] = 0
sum_durations (c ∷ cs) = c.duration + sum_durations cs

abbrev pub successes : List CallRecord → ℕ
successes cs = count_if (λ c. c.success) cs

-- `min` and `max` of a list with a first entry.
abbrev pub least : ℕ → List ℕ → ℕ
least d [] = d
least d (e ∷ es) = least (min d e) es

abbrev pub greatest : ℕ → List ℕ → ℕ
greatest d [] = d
greatest d (e ∷ es) = greatest (max d e) es

-- `sorted`
abbrev insert : ℕ → List ℕ → List ℕ
insert d [] = d ∷ []
insert d (e ∷ es) = let rest = insert d es in if leb d e then d ∷ e ∷ es else e ∷ rest

abbrev sort : List ℕ → List ℕ
sort [] = []
sort (d ∷ ds) = insert d (sort ds)

-- `data[k]`, which the callers keep in range.
abbrev entry : ℕ → List ℕ → ℕ
entry k [] = 0
entry zero (d ∷ ds) = d
entry (suc k) (d ∷ ds) = entry k ds

abbrev pub durations_of : List CallRecord → List ℕ
durations_of cs = map (λ (c : CallRecord). c.duration) cs

module _ {F : Type 0} ⦃fl : Float F⦄ where
  -- `statistics.median`
  unfoldable pub median : List ℕ → F
  median ds =
      let n = length ds in
      let data' = sort ds in
      if n % 2 == 1
      then fl.ratio (entry (n / 2) data') 1
      else fl.ratio (entry (n / 2 - 1) data' + entry (n / 2) data') 2

  -- `statistics.quantiles(ds, n=parts)[i - 1]`, for at least `parts` entries, where `j` needs no clamping.
  unfoldable pub quantile : ℕ → ℕ → List ℕ → F
  quantile parts i ds =
      let m = length ds + 1 in
      let data' = sort ds in
      let j = i * m / parts in
      let delta = i * m - j * parts in
      fl.ratio (entry (j - 1) data' * (parts - delta) + entry j data' * delta) parts

  -- The `metrics` of a window with a first call.
  unfoldable pub details : CallRecord → List CallRecord → Durations F
  unfolding median quantile
  details c cs =
      let ds = durations_of (c ∷ cs) in
      let most = greatest c.duration (durations_of cs) in
      record {
        min_duration = least c.duration (durations_of cs);
        max_duration = most;
        median_duration = median ds;
        p95_duration = if leb 20 (length ds) then quantile 20 19 ds else fl.ratio most 1;
        p99_duration = if leb 100 (length ds) then quantile 100 99 ds else fl.ratio most 1;
      }

  -- The snapshot of what is in the window: nothing is cleaned up for it.
  unfoldable pub sliding_snapshot : SlidingWindow → MetricsSnapshot F
  unfolding details
  sliding_snapshot w = elim w.records [
    | [] ↦ empty_snapshot
    | c ∷ cs ↦ record {
      total_calls = length (c ∷ cs);
      successful_calls = successes (c ∷ cs);
      failed_calls = length (c ∷ cs) - successes (c ∷ cs);
      total_duration = sum_durations (c ∷ cs);
      metrics = some (details c cs);
    }
  ]
