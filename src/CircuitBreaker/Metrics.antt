-- ===== src/CircuitBreaker/Metrics.antt =====
-- circuitbreaker/metrics.py: the sliding window and the metrics of the half-open state. A clock
-- reading is a number of nanoseconds; `window_size` counts calls or seconds.
use resilience4py.Prelude.{
  ℕ, suc, ◌+◌, ◌-◌, ◌*◌, Bool, true, false, not, Option, none, some, List, [], ◌∷◌, ◌++◌, ltb, leb,
  ◌==◌, if◌then◌else◌, length, drop, count_if,
}
use resilience4py.Prelude.Float.{Float}
use resilience4py.CircuitBreaker.Config.{SlidingWindowType, count_based, time_based}
pub mod Window
pub mod Rates

abbrev pub ticks_per_second : ℕ
ticks_per_second = 1_000_000_000

pub record CallOutcome : Type 0 where
  pub timestamp : ℕ
  pub duration_ms : ℕ
  pub success : Bool
  pub slow : Bool

pub record Snapshot (F : Type 0) : Type 0 where
  pub total_calls : ℕ
  pub failed_calls : ℕ
  pub slow_calls : ℕ
  pub failure_rate : F
  pub slow_call_rate : F
  pub average_duration : F

pub successful_calls : {F : Type 0} → Snapshot F → ℕ
successful_calls s = s.total_calls - s.failed_calls

pub record SlidingWindowMetrics : Type 0 where
  pub window_size : ℕ
  pub window_type : SlidingWindowType
  pub slow_call_duration_threshold_ms : ℕ
  pub calls : List CallOutcome

unfoldable pub new_metrics : ℕ → SlidingWindowType → ℕ → SlidingWindowMetrics
new_metrics size type slow = record {
  window_size = size;
  window_type = type;
  slow_call_duration_threshold_ms = slow;
  calls = [];
}

-- `deque(maxlen=n).append(c)` drops from the left what exceeds `n`; without `maxlen` it drops nothing.
unfoldable pub deque_append : Option ℕ → List CallOutcome → CallOutcome → List CallOutcome
deque_append none cs c = cs ++ c ∷ []
deque_append (some n) cs c = drop (suc (length cs) - n) (cs ++ c ∷ [])

abbrev pub max_len : SlidingWindowType → ℕ → Option ℕ
max_len count_based n = some n
max_len time_based n = none

-- The loop `while calls and calls[0].timestamp < window_start: calls.popleft()`.
unfoldable pub pop_expired : ℕ → List CallOutcome → List CallOutcome
pop_expired start [] = []
pop_expired start (c ∷ cs) =
    let rest = pop_expired start cs in if ltb c.timestamp start then rest else c ∷ cs

-- Where the window reaches behind the clock's origin nothing is older than its start, and the
-- truncated subtraction gives the same.
abbrev pub window_start : ℕ → ℕ → ℕ
window_start now size = now - size * ticks_per_second

unfoldable pub cleanup_old_entries : ℕ → SlidingWindowMetrics → SlidingWindowMetrics
unfolding pop_expired
cleanup_old_entries now m = elim m.window_type [
  | count_based ↦ m
  | time_based ↦ record m { calls = pop_expired (window_start now m.window_size) m.calls }
]

unfoldable pub add_call : ℕ → CallOutcome → SlidingWindowMetrics → SlidingWindowMetrics
unfolding cleanup_old_entries deque_append
add_call now outcome m =
    let m' = cleanup_old_entries now m in
    record m' { calls = deque_append (max_len m'.window_type m'.window_size) m'.calls outcome }

abbrev pub outcome_at : ℕ → ℕ → Bool → ℕ → CallOutcome
outcome_at now duration success threshold = record {
  timestamp = now;
  duration_ms = duration;
  success = success;
  slow = leb threshold duration;
}

unfoldable pub record_success : ℕ → ℕ → SlidingWindowMetrics → SlidingWindowMetrics
unfolding add_call
record_success now d m = add_call now (outcome_at now d true m.slow_call_duration_threshold_ms) m

unfoldable pub record_failure : ℕ → ℕ → SlidingWindowMetrics → SlidingWindowMetrics
unfolding add_call
record_failure now d m = add_call now (outcome_at now d false m.slow_call_duration_threshold_ms) m

unfoldable pub reset_metrics : SlidingWindowMetrics → SlidingWindowMetrics
reset_metrics m = record m { calls = [] }

abbrev pub total_duration : List CallOutcome → ℕ
total_duration [] = 0
total_duration (c ∷ cs) = c.duration_ms + total_duration cs

abbrev pub failed_in : List CallOutcome → ℕ
failed_in cs = count_if (λ c. not c.success) cs

abbrev pub slow_in : List CallOutcome → ℕ
slow_in cs = count_if (λ c. c.slow) cs

module _ {F : Type 0} ⦃fl : Float F⦄ where
  abbrev pub percent : ℕ → ℕ → F
  percent part whole = fl.times (fl.ratio part whole) fl.hundred

  -- The body that both `get_snapshot` methods share.
  unfoldable pub snapshot_of : List CallOutcome → Snapshot F
  snapshot_of cs =
      if length cs == 0
      then record {
        total_calls = 0;
        failed_calls = 0;
        slow_calls = 0;
        failure_rate = fl.zero_float;
        slow_call_rate = fl.zero_float;
        average_duration = fl.zero_float;
      }
      else record {
        total_calls = length cs;
        failed_calls = failed_in cs;
        slow_calls = slow_in cs;
        failure_rate = percent (failed_in cs) (length cs);
        slow_call_rate = percent (slow_in cs) (length cs);
        average_duration = fl.ratio (total_duration cs) (length cs);
      }

  -- The snapshot, and the window without what has expired.
  unfoldable pub get_snapshot : ℕ → SlidingWindowMetrics → Snapshot F × SlidingWindowMetrics
  unfolding snapshot_of cleanup_old_entries
  get_snapshot now m = let m' = cleanup_old_entries now m in (snapshot_of m'.calls, m')

pub record HalfOpenMetrics : Type 0 where
  pub permitted_calls : ℕ
  pub slow_threshold_ms : ℕ
  pub half_open_calls : List CallOutcome

unfoldable pub new_half_open_metrics : ℕ → ℕ → HalfOpenMetrics
new_half_open_metrics permitted slow = record {
  permitted_calls = permitted;
  slow_threshold_ms = slow;
  half_open_calls = [];
}

unfoldable pub record_half_open : ℕ → ℕ → Bool → HalfOpenMetrics → HalfOpenMetrics
record_half_open now d success m =
    if ltb (length m.half_open_calls) m.permitted_calls
    then record m {
      half_open_calls = m.half_open_calls ++ outcome_at now d success m.slow_threshold_ms ∷ [];
    }
    else m

-- `HalfOpenMetrics.get_snapshot`
abbrev pub half_open_snapshot : {F : Type 0} ⦃fl : Float F⦄ → HalfOpenMetrics → Snapshot F
half_open_snapshot m = snapshot_of m.half_open_calls

unfoldable pub is_complete : HalfOpenMetrics → Bool
is_complete m = leb m.permitted_calls (length m.half_open_calls)

unfoldable pub reset_half_open : HalfOpenMetrics → HalfOpenMetrics
reset_half_open m = record m { half_open_calls = [] }
