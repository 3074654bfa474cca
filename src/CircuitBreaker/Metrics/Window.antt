-- ===== src/CircuitBreaker/Metrics/Window.antt =====
-- The sliding window of circuitbreaker/metrics.py against the history of the recorded calls.
use mathlib.Core.List.{append-nil, append_assoc}
use resilience4py.Prelude.{
  ℕ, ◌-◌, ◌≤◌, ◌≡◌, refl, sym, ap, ◌∙◌, Bool, true, false, List, [], ◌∷◌, ◌++◌, map, arith, leb,
  if◌then◌else◌, Bool-cases, inl, inr, keep_if, last_of, keep_if-append, last_of-append,
  length-append, drop-nil,
}
use resilience4py.CircuitBreaker.Config.{SlidingWindowType, count_based, time_based}
use resilience4py.CircuitBreaker.Metrics.{
  CallOutcome, SlidingWindowMetrics, new_metrics, pop_expired, window_start, cleanup_old_entries,
  outcome_at, record_success, record_failure,
}

-- A call as its recorder sees it: the clock, the duration, whether it succeeded.
abbrev pub Recorded : Type 0
Recorded = ℕ × ℕ × Bool

abbrev pub record_call : Recorded → SlidingWindowMetrics → SlidingWindowMetrics
record_call (now, d, ok) m = if ok then record_success now d m else record_failure now d m

abbrev pub record_calls : List Recorded → SlidingWindowMetrics → SlidingWindowMetrics
record_calls [] m = m
record_calls (c ∷ cs) m = record_calls cs (record_call c m)

-- The history as the outcomes that a window with this threshold would hold without a bound.
abbrev pub history : ℕ → List Recorded → List CallOutcome
history th cs = map (λ (c : Recorded). outcome_at c.0 c.1 c.2 th) cs

-- The configuration of a window and what it holds.
abbrev Holds : ℕ → SlidingWindowType → ℕ → List CallOutcome → SlidingWindowMetrics → Type 0
Holds n type th cs m =
    (m.window_size ≡ n)
    × (m.window_type ≡ type)
    × (m.slow_call_duration_threshold_ms ≡ th)
    × (m.calls ≡ cs)

record_call-count :
    (n th : ℕ) (cs : List CallOutcome) (c : Recorded) (m : SlidingWindowMetrics)
    → Holds n count_based th cs m
    → Holds n count_based th (last_of n (cs ++ outcome_at c.0 c.1 c.2 th ∷ [])) (record_call c m)
unfolding record_success record_failure
record_call-count n th cs (now, d, true) m h =
    ground (arith, length-append cs (outcome_at now d true th ∷ []))
record_call-count n th cs (now, d, false) m h =
    ground (arith, length-append cs (outcome_at now d false th ∷ []))

record_calls-count :
    (n th : ℕ) (past : List CallOutcome) (cs : List Recorded) (m : SlidingWindowMetrics)
    → Holds n count_based th (last_of n past) m
    → (record_calls cs m).calls ≡ last_of n (past ++ history th cs)
record_calls-count n th past [] m h = rw append-nil h.3
record_calls-count n th past (c ∷ cs) m h =
    let o = outcome_at c.0 c.1 c.2 th in
    let step = record_call-count n th (last_of n past) c m h in
    let next : Holds n count_based th (last_of n (past ++ o ∷ [])) (record_call c m) =
      (step.0, step.1, step.2, step.3 ∙ last_of-append n past o) in
    record_calls-count n th (past ++ o ∷ []) cs (record_call c m) next
    ∙ ap (last_of n) (append_assoc past (o ∷ []) (history th cs))

-- A count-based window that began empty holds the last `window_size` recorded calls, in order.
pub record_calls-last_of :
    (n th : ℕ) (cs : List Recorded)
    → (record_calls cs (new_metrics n count_based th)).calls ≡ last_of n (history th cs)
unfolding new_metrics
record_calls-last_of n th cs =
    record_calls-count n th [] cs (new_metrics n count_based th)
      (refl, refl, refl, sym (drop-nil (0 - n)))

-- The timestamps do not fall, from `lo` on.
abbrev pub IsOrdered : ℕ → List CallOutcome → Type 0
IsOrdered lo [] = Unit
IsOrdered lo (c ∷ cs) = (lo ≤ c.timestamp) × IsOrdered c.timestamp cs

-- What a time-based window that starts at `start` is to hold.
abbrev pub alive : ℕ → CallOutcome → Bool
alive start c = leb start c.timestamp

keep_if-ordered :
    (start lo : ℕ) (cs : List CallOutcome)
    → IsOrdered lo cs
    → start ≤ lo
    → keep_if (alive start) cs ≡ cs
keep_if-ordered start lo [] h le = refl
keep_if-ordered start lo (c ∷ cs) h le = ground (arith, keep_if-ordered start c.timestamp cs h.1)

pop_expired-keep_if :
    (start lo : ℕ) (cs : List CallOutcome)
    → IsOrdered lo cs
    → pop_expired start cs ≡ keep_if (alive start) cs
unfolding pop_expired
pop_expired-keep_if start lo [] h = refl
pop_expired-keep_if start lo (c ∷ cs) h =
    ground (
      arith,
      pop_expired-keep_if start c.timestamp cs h.1,
      keep_if-ordered start c.timestamp cs h.1,
    )

IsOrdered-le : (lo lo' : ℕ) (cs : List CallOutcome) → lo ≤ lo' → IsOrdered lo' cs → IsOrdered lo cs
IsOrdered-le lo lo' [] le h = tt
IsOrdered-le lo lo' (c ∷ cs) le h = (omega arith, h.1)

IsOrdered-keep_if :
    (p : CallOutcome → Bool) (lo : ℕ) (cs : List CallOutcome)
    → IsOrdered lo cs
    → IsOrdered lo (keep_if p cs)
IsOrdered-keep_if p lo [] h = tt
IsOrdered-keep_if p lo (c ∷ cs) h = elim (Bool-cases (p c)) [
  | inl kept ↦ rw kept (h.0, IsOrdered-keep_if p c.timestamp cs h.1)
  | inr gone ↦ rw gone (IsOrdered-le lo c.timestamp _ h.0 (IsOrdered-keep_if p c.timestamp cs h.1))
]

IsOrdered-prefix : (lo : ℕ) (xs ys : List CallOutcome) → IsOrdered lo (xs ++ ys) → IsOrdered lo xs
IsOrdered-prefix lo [] ys h = tt
IsOrdered-prefix lo (c ∷ cs) ys h = (h.0, IsOrdered-prefix c.timestamp cs ys h.1)

keep_if-keep_if :
    (s s' : ℕ) (cs : List CallOutcome)
    → s ≤ s'
    → keep_if (alive s') (keep_if (alive s) cs) ≡ keep_if (alive s') cs
keep_if-keep_if s s' [] h = refl
keep_if-keep_if s s' (c ∷ cs) h = ground (arith, keep_if-keep_if s s' cs h)

-- When the clock last stood when a call was recorded.
abbrev pub last_time : ℕ → List Recorded → ℕ
last_time t [] = t
last_time t (c ∷ cs) = last_time c.0 cs

-- What the window is between two calls: the last cleanup was at `t`.
module _ (n th : ℕ) where
  pop_again :
      (t now : ℕ) (past : List CallOutcome)
      → IsOrdered 0 past
      → t ≤ now
      → pop_expired (window_start now n) (keep_if (alive (window_start t n)) past)
        ≡ keep_if (alive (window_start now n)) past
  pop_again t now past ordered le =
      pop_expired-keep_if (window_start now n) 0 (keep_if (alive (window_start t n)) past)
        (IsOrdered-keep_if (alive (window_start t n)) 0 past ordered)
      ∙ keep_if-keep_if (window_start t n) (window_start now n) past (omega arith)

  record_call-time :
      (t : ℕ) (past : List CallOutcome) (c : Recorded) (m : SlidingWindowMetrics)
      → IsOrdered 0 past
      → t ≤ c.0
      → Holds n time_based th (keep_if (alive (window_start t n)) past) m
      → Holds n time_based th
          (keep_if (alive (window_start c.0 n)) (past ++ outcome_at c.0 c.1 c.2 th ∷ []))
          (record_call c m)
  unfolding record_success record_failure
  record_call-time t past (now, d, true) m ordered le h = ground (
    arith,
    pop_again t now past ordered le,
    keep_if-append (alive (window_start now n)) past (outcome_at now d true th ∷ []),
  )
  record_call-time t past (now, d, false) m ordered le h = ground (
    arith,
    pop_again t now past ordered le,
    keep_if-append (alive (window_start now n)) past (outcome_at now d false th ∷ []),
  )

  record_calls-time :
      (t : ℕ) (past : List CallOutcome) (cs : List Recorded) (m : SlidingWindowMetrics)
      → IsOrdered 0 (past ++ history th cs)
      → IsOrdered t (history th cs)
      → Holds n time_based th (keep_if (alive (window_start t n)) past) m
      → Holds n time_based th
          (keep_if (alive (window_start (last_time t cs) n)) (past ++ history th cs))
          (record_calls cs m)
  record_calls-time t past [] m whole rest h = rw append-nil h
  record_calls-time t past (c ∷ cs) m whole rest h =
      let o = outcome_at c.0 c.1 c.2 th in
      let regroup = append_assoc past (o ∷ []) (history th cs) in
      rw (← regroup) (
        record_calls-time c.0 (past ++ o ∷ []) cs (record_call c m) (rw regroup whole) rest.1 (
          record_call-time t past c m (IsOrdered-prefix 0 past (history th (c ∷ cs)) whole) rest.0
            h))

-- A time-based window that began empty holds, after a cleanup at `now`, exactly the recorded calls of
-- the last `window_size` seconds, in order, provided that the clock never fell between the calls and
-- `now`.
pub cleanup_old_entries-keep_if :
    (n th now : ℕ) (cs : List Recorded)
    → IsOrdered 0 (history th cs)
    → last_time 0 cs ≤ now
    → (cleanup_old_entries now (record_calls cs (new_metrics n time_based th))).calls
      ≡ keep_if (alive (window_start now n)) (history th cs)
unfolding cleanup_old_entries
cleanup_old_entries-keep_if n th now cs ordered le =
    let h =
      record_calls-time n th 0 [] cs (new_metrics n time_based th) ordered ordered
        (unfold new_metrics in (refl, refl, refl, refl)) in
    ground (arith, h, pop_again n th (last_time 0 cs) now (history th cs) ordered le)
