-- ===== src/Tests/Breaker.antt =====
-- The circuit breaker on concrete inputs.
use resilience4py.Prelude.{
  ℕ, ◌≡◌, refl, inl, inr, true, false, none, List, [], ◌∷◌, arith, last_of, keep_if, if◌then◌else◌,
  replicate,
}
use resilience4py.Outcome.{user, runtime_error, Outcome, returned, raised}
use resilience4py.CircuitBreaker.Config.{CircuitBreakerConfig, validate, count_based, time_based}
use resilience4py.CircuitBreaker.Events.{opened, half_open}
use resilience4py.CircuitBreaker.Metrics.{
  SlidingWindowMetrics, new_metrics, new_half_open_metrics, outcome_at, snapshot_of, get_snapshot,
  record_success, record_failure, cleanup_old_entries, window_start,
}
use resilience4py.CircuitBreaker.Metrics.Window.{
  Recorded, record_calls, history, alive, record_calls-last_of, cleanup_old_entries-keep_if,
}
use resilience4py.CircuitBreaker.Breaker.{
  State, closed_state, open_state, half_open_state, CircuitBreaker, new_breaker, state_type,
  transition_to_state,
}
use resilience4py.CircuitBreaker.States.{check_thresholds, on_success, observe_half_open}
use resilience4py.CircuitBreaker.Execute.{begin_call, finish_call}
use resilience4py.CircuitBreaker.Thresholds.{exceeds, check_thresholds-opens}
use resilience4py.CircuitBreaker.Invariant.{
  Reach, here, next, begins, moved, reachable-IsConsistent,
}
use resilience4py.CircuitBreaker.Consistent.{IsConsistent}
use resilience4py.CircuitBreaker.Followed.{IsFollowed}
use resilience4py.CircuitBreaker.Transitions.{Edge, call-Edge}
use resilience4py.CircuitBreaker.Log.{published-IsFollowed}
use resilience4py.CircuitBreaker.Opened.{finish_call-rejecting}
use resilience4py.CircuitBreaker.HalfOpen.{
  Trial, finish_trials, traces, verdict, begin_calls, finish_trials-verdict, begin_calls-exhausted,
}
use resilience4py.CircuitBreaker.Healing.{Success, execute_all, execute_all-closed}
use resilience4py.CircuitBreaker.Recovery.{recovery_reopens}
use resilience4py.Tests.Decimal.{decimal_float, decimal_laws}

abbrev pub config : CircuitBreakerConfig ℕ
config = record {
  failure_rate_threshold = 50;
  slow_call_rate_threshold = 100;
  slow_call_duration_threshold = 60;
  permitted_calls_in_half_open = 2;
  sliding_window_size = 4;
  sliding_window_type = count_based;
  minimum_number_of_calls = 2;
  wait_duration_in_open_state = 10;
  max_wait_duration_in_half_open = 0;
  automatic_transition_from_open_to_half_open = true;
  record_exceptions = [];
  ignore_exceptions = [];
  record_failure_predicate = none;
  ignore_failure_predicate = none;
}

config_passes : validate config ≡ returned tt
unfolding validate
config_passes = refl

-- Two failures and a success.
abbrev recorded : List Recorded
recorded = (1, 5, false) ∷ (2, 5, false) ∷ (3, 70, true) ∷ []

abbrev window : SlidingWindowMetrics
window = record_calls recorded (new_metrics 4 count_based 60)

abbrev breaker_in : State → CircuitBreaker ℕ
breaker_in s = record { config = config; metrics = window; state = s; published = [] }

abbrev half_opened : CircuitBreaker ℕ
half_opened = breaker_in (half_open_state (new_half_open_metrics 2 60) 2 20)

abbrev seven : Outcome ℕ
seven = returned 7

abbrev good : Trial ℕ
good = (20, 21, inl 7)

abbrev bad : Trial ℕ
bad = (20, 22, inr (user 3))

finish_trials-verdict_example :
    (finish_trials (good ∷ bad ∷ []) half_opened).state
    ≡ verdict 22 config (snapshot_of (traces config 60 (good ∷ bad ∷ [])))
finish_trials-verdict_example = finish_trials-verdict (good ∷ []) bad 60 2 20 half_opened refl refl

abbrev new_one : CircuitBreaker ℕ
new_one = new_breaker config

abbrev after_force : CircuitBreaker ℕ
after_force = transition_to_state 5 opened new_one

abbrev run : Reach ℕ decimal_float new_one (begin_call 20 after_force).1
run = next (next here (moved 5 opened new_one)) (begins 20 after_force)

reachable-IsConsistent_example : IsConsistent (begin_call 20 after_force).1
reachable-IsConsistent_example = reachable-IsConsistent config config_passes run

published-IsFollowed_example : IsFollowed (begin_call 20 after_force).1
published-IsFollowed_example = published-IsFollowed config run

check_thresholds-opens_example :
    let (s, m) = get_snapshot {F = ℕ} 30 window in
    let cb' = check_thresholds 30 (breaker_in closed_state) in
    (cb'.state ≡ (if exceeds config s then open_state 30 else closed_state))
    × (cb'.metrics ≡ m)
    × (cb'.config ≡ config)
check_thresholds-opens_example = check_thresholds-opens 30 (breaker_in closed_state) refl

call-Edge_example :
    Edge opened (state_type (begin_call 20 (breaker_in (open_state 5))).1.state)
    × Edge half_open (state_type (finish_call {A = ℕ} 20 22 (raised (user 3)) half_opened).1.state)
call-Edge_example = call-Edge ℕ 20 22 (raised (user 3)) (breaker_in (open_state 5)) half_opened

record_calls-last_of_example : window.calls ≡ last_of 4 (history 60 recorded)
record_calls-last_of_example = record_calls-last_of 4 60 recorded

cleanup_old_entries-keep_if_example :
    (cleanup_old_entries 9 (record_calls recorded (new_metrics 4 time_based 60))).calls
    ≡ keep_if (alive (window_start 9 4)) (history 60 recorded)
cleanup_old_entries-keep_if_example =
    cleanup_old_entries-keep_if 4 60 9 recorded (omega arith, (omega arith, (omega arith, tt)))
      (omega arith)

finish_call-rejecting_example :
    ((finish_call 1 9 seven (breaker_in (open_state 5))).0 ≡ raised runtime_error)
    × ((finish_call 1 9 seven (breaker_in (open_state 5))).1.state ≡ open_state 5)
    × ((finish_call 1 9 seven (breaker_in (open_state 5))).1.metrics ≡ window)
finish_call-rejecting_example =
    finish_call-rejecting 1 9 seven (breaker_in (open_state 5)) (inl (5, refl)) (λ e. cc)

begin_calls-exhausted_example :
    ((begin_calls (30 ∷ 3000 ∷ []) half_opened).0 ≡ replicate 2 false)
    × ((begin_calls (30 ∷ 3000 ∷ []) half_opened).1.state
        ≡ half_open_state (new_half_open_metrics 2 60) 2 20)
begin_calls-exhausted_example =
    begin_calls-exhausted (30 ∷ 3000 ∷ []) (new_half_open_metrics 2 60) 2 20 half_opened refl refl
      (omega arith)

-- One good trial call is recorded, and a second one is about to end.
abbrev nearly_recovered : CircuitBreaker ℕ
nearly_recovered = breaker_in (
    half_open_state
      (record {
        permitted_calls = 2;
        slow_threshold_ms = 60;
        half_open_calls = outcome_at 21 1 true 60 ∷ [];
      })
      2 20)

recovers_now : (finish_call 20 23 seven nearly_recovered).1.state ≡ closed_state
unfolding finish_call on_success observe_half_open transition_to_state
recovers_now = refl

exceeded_still : exceeds config (get_snapshot 25 (record_success 25 1 window)).0 ≡ true
unfolding get_snapshot record_success record_failure new_metrics cleanup_old_entries snapshot_of
exceeded_still = refl

recovery_reopens_example :
    (finish_call 24 25 seven (finish_call 20 23 seven nearly_recovered).1).1.state ≡ open_state 25
recovery_reopens_example =
    recovery_reopens 20 23 seven 24 25 7 nearly_recovered refl recovers_now exceeded_still

abbrev first_good : Success ℕ
first_good = (20, 25, 7)

abbrev next_good : List (Success ℕ)
next_good = (26, 30, 8) ∷ []

execute_all-closed_example :
    let (answers, cb') = execute_all (first_good ∷ next_good) (breaker_in (open_state 5)) in
    (answers ≡ returned 7 ∷ returned 8 ∷ []) × (cb'.state ≡ closed_state)
execute_all-closed_example =
    execute_all-closed decimal_laws config config_passes first_good next_good 5
      (breaker_in (open_state 5)) refl refl refl refl
      ((omega arith, refl), ((omega arith, refl), tt))
