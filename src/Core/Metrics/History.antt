-- ===== src/Core/Metrics/History.antt =====
-- The collectors of core/metrics.py against the history of the recorded calls.
use mathlib.Core.List.{append-nil, append_assoc}
use resilience4py.Prelude.{
  ℕ, ◌+◌, ◌-◌, ◌≤◌, ◌≡◌, refl, sym, ap, ◌∙◌, Bool, true, false, inl, inr, List, [], ◌∷◌, ◌++◌, map,
  if◌then◌else◌, length, drop-nil, List-cases, length-last_of, last_of, last_of-append,
  length-append, count_if-le, arith,
}
use resilience4py.Prelude.Float.{Float, FloatLaws}
use resilience4py.CircuitBreaker.Metrics.Rates.{percent_bounds}
use resilience4py.Core.Metrics.{
  MetricsSnapshot, success_rate, BasicMetrics, new_basic, count_success, count_failure,
  basic_snapshot,
}
use resilience4py.Core.Metrics.Sliding.{
  CallRecord, counts, SlidingWindow, new_sliding, append_record, cleanup_old_records, slide_success,
  slide_failure, sum_durations, successes, sliding_snapshot,
}

-- A recorded call: the clock readings for the record and for the cleanup, the duration, whether it succeeded.
abbrev pub Recorded : Type 0
Recorded = ℕ × ℕ × ℕ × Bool

abbrev pub as_record : Recorded → CallRecord
as_record (now, later, d, ok) = record { timestamp = now; duration = d; success = ok }

abbrev pub slide : Recorded → SlidingWindow → SlidingWindow
slide (now, later, d, ok) w =
    if ok then slide_success now later d w else slide_failure now later d w

abbrev pub slide_all : List Recorded → SlidingWindow → SlidingWindow
slide_all [] w = w
slide_all (c ∷ cs) w = slide_all cs (slide c w)

abbrev pub count : Recorded → BasicMetrics → BasicMetrics
count (now, later, d, ok) b = if ok then count_success d b else count_failure d b

abbrev pub count_all : List Recorded → BasicMetrics → BasicMetrics
count_all [] b = b
count_all (c ∷ cs) b = count_all cs (count c b)

abbrev pub history : List Recorded → List CallRecord
history cs = map as_record cs

pub slide_lem :
    (c : Recorded) (w : SlidingWindow)
    → slide c w ≡ cleanup_old_records c.1 (append_record (as_record c) w)
unfolding slide_success slide_failure
slide_lem (now, later, d, true) w = refl
slide_lem (now, later, d, false) w = refl

-- What a count-based window of `n` holds.
abbrev Holds : ℕ → List CallRecord → SlidingWindow → Type 0
Holds n cs w = (w.window_size ≡ n) × (w.window_type ≡ counts) × (w.records ≡ cs)

slide-counts :
    (n : ℕ) (past : List CallRecord) (c : Recorded) (w : SlidingWindow)
    → Holds n (last_of n past) w
    → Holds n (last_of n (last_of n past ++ as_record c ∷ [])) (slide c w)
unfolding append_record cleanup_old_records
slide-counts n past c w h =
    rw slide_lem (ground (arith, h, length-append (last_of n past) (as_record c ∷ [])))

slide_all-counts :
    (n : ℕ) (past : List CallRecord) (cs : List Recorded) (w : SlidingWindow)
    → Holds n (last_of n past) w
    → (slide_all cs w).records ≡ last_of n (past ++ history cs)
slide_all-counts n past [] w h = rw append-nil h.2
slide_all-counts n past (c ∷ cs) w h =
    let (size, type, e) = slide-counts n past c w h in
    slide_all-counts n (past ++ as_record c ∷ []) cs (slide c w)
      (size, type, e ∙ last_of-append n past (as_record c))
    ∙ ap (last_of n) (append_assoc past (as_record c ∷ []) (history cs))

-- A count-based window that began empty holds the last `window_size` recorded calls, in order.
pub slide_all-last_of :
    (n : ℕ) (cs : List Recorded)
    → (slide_all cs (new_sliding n counts)).records ≡ last_of n (history cs)
unfolding new_sliding
slide_all-last_of n cs =
    slide_all-counts n [] cs (new_sliding n counts) (refl, refl, sym (drop-nil (0 - n)))

sliding_snapshot-counts :
    (F : Type 0) ⦃fl : Float F⦄ (w : SlidingWindow)
    → let s : MetricsSnapshot F = sliding_snapshot w in
      (s.total_calls ≡ length w.records)
      × (s.successful_calls ≡ successes w.records)
      × (s.failed_calls ≡ length w.records - successes w.records)
      × (s.total_duration ≡ sum_durations w.records)
unfolding sliding_snapshot
sliding_snapshot-counts F w = elim (List-cases w.records) [
  | inl e ↦ ground (arith, e)
  | inr (c, cs, e) ↦ ground (arith, e)
]

count_all_lem :
    (cs : List Recorded) (b : BasicMetrics)
    → let b' = count_all cs b in
      (b'.total_calls ≡ b.total_calls + length (history cs))
      × (b'.successful_calls ≡ b.successful_calls + successes (history cs))
      × (b'.failed_calls ≡ b.failed_calls + (length (history cs) - successes (history cs)))
      × (b'.total_duration ≡ b.total_duration + sum_durations (history cs))
unfolding count_success count_failure
count_all_lem [] b = (omega arith, omega arith, omega arith, omega arith)
count_all_lem (c ∷ cs) b =
    let h = count_all_lem cs (count c b) in
    ground (arith, h, count_if-le (λ (r : CallRecord). r.success) (history cs))

drop_none : (n : ℕ) (cs : List CallRecord) → length cs ≤ n → last_of n cs ≡ cs
drop_none n cs h = let none_over : length cs - n ≡ 0 = omega arith in rw none_over refl

-- As long as a count-based window is not full, it and a basic collector of the same calls report the same
-- counts and the same total duration.
pub sliding_snapshot-basic_snapshot :
    (F : Type 0) ⦃fl : Float F⦄ (n : ℕ) (cs : List Recorded)
    → length (history cs) ≤ n
    → let s : MetricsSnapshot F = sliding_snapshot (slide_all cs (new_sliding n counts)) in
      let b : MetricsSnapshot F = basic_snapshot (count_all cs new_basic) in
      (s.total_calls ≡ b.total_calls)
      × (s.successful_calls ≡ b.successful_calls)
      × (s.failed_calls ≡ b.failed_calls)
      × (s.total_duration ≡ b.total_duration)
unfolding basic_snapshot new_basic
sliding_snapshot-basic_snapshot F n cs room =
    let w = slide_all cs (new_sliding n counts) in
    let held : w.records ≡ history cs = slide_all-last_of n cs ∙ drop_none n (history cs) room in
    ground (arith, held, sliding_snapshot-counts F w, count_all_lem cs new_basic)

-- A snapshot adds up: its calls are those that succeeded and those that failed, and no more than
-- `window_size` of them in a count-based window; its success rate lies between 0 and 100 percent.
pub sliding_snapshot-rates :
    (F : Type 0) ⦃fl : Float F⦄ (laws : FloatLaws fl) (n : ℕ) (cs : List Recorded)
    → let s : MetricsSnapshot F = sliding_snapshot (slide_all cs (new_sliding n counts)) in
      (s.successful_calls + s.failed_calls ≡ s.total_calls)
      × (s.total_calls ≤ n)
      × (fl.le_float fl.zero_float (success_rate s) ≡ true)
      × (fl.le_float (success_rate s) fl.hundred ≡ true)
unfolding success_rate
sliding_snapshot-rates F laws n cs =
    let w = slide_all cs (new_sliding n counts) in
    let e = sliding_snapshot-counts F w in
    let fit : length w.records ≤ n = rw (slide_all-last_of n cs) (length-last_of n (history cs)) in
    let few = count_if-le (λ (r : CallRecord). r.success) w.records in
    let none_yet = percent_bounds laws 1 1 (omega arith) (omega arith) in
    elim (List-cases w.records) [
      | inl k ↦ ground (arith, e, k, fit, none_yet, laws.ratio_all 1 (omega arith))
      | inr (c, rest, k) ↦
          let b =
            percent_bounds laws (successes w.records) (length w.records) few (ground (arith, k)) in
          ground (arith, e, k, fit, few, b)
    ]
