-- ===== src/RateLimiter/Limiter.antt =====
-- ratelimiter/atomic_rate_limiter.py, with the fields of ratelimiter/config.py and the events of
-- ratelimiter/events.py, and the calls that `RateLimiter` of ratelimiter/rate_limiter.py adds. Times are
-- whole nanoseconds: the configuration holds the values of `int(d.total_seconds() * 1_000_000_000)`.
-- The clock never falls, so no difference of cycles is negative.
use resilience4py.Prelude.{
  ℕ, ◌+◌, ◌-◌, ◌*◌, ◌/◌, Bool, true, false, Option, none, some, List, [], ◌∷◌, ◌++◌, min, ltb, ◌==◌,
  if◌then◌else◌,
}
use resilience4py.Prelude.Int.{ℤ, pos, neg, is_negative, abs}
use resilience4py.Outcome.{Outcome, returned, raised, value_error, request_not_permitted}

pub record RateLimiterConfig : Type 0 where
  pub limit_for_period : ℕ
  pub limit_refresh_period : ℕ
  pub timeout_duration : ℕ

-- A negative limit or duration, which `validate` also refuses, is no value here.
unfoldable pub validate : RateLimiterConfig → Outcome (Unit {0})
validate c =
    if c.limit_for_period == 0
    then raised value_error
    else if c.limit_refresh_period == 0
    then raised value_error
    else returned tt

pub data RateLimiterEvent : Type 0 where
  on_success_event : RateLimiterEvent
  on_failure_event : ℕ → RateLimiterEvent

pub record RateLimiterState : Type 0 where
  pub active_permissions : ℕ
  pub active_cycle : ℕ
  pub nanoseconds_to_wait : ℕ

pub record AtomicRateLimiter : Type 0 where
  pub config : RateLimiterConfig
  pub state : RateLimiterState
  pub published : List RateLimiterEvent

abbrev initial_state : RateLimiterConfig → RateLimiterState
initial_state c = record {
  active_permissions = c.limit_for_period;
  active_cycle = 0;
  nanoseconds_to_wait = 0;
}

unfoldable pub new_limiter : RateLimiterConfig → AtomicRateLimiter
new_limiter c = record { config = c; state = initial_state c; published = [] }

unfoldable pub reset : AtomicRateLimiter → AtomicRateLimiter
reset l = record l { state = initial_state l.config }

abbrev pub publish : RateLimiterEvent → AtomicRateLimiter → AtomicRateLimiter
publish e l = record l { published = l.published ++ e ∷ [] }

-- The cycle in which a clock reading lies.
abbrev pub cycle_at : RateLimiterConfig → ℕ → ℕ
cycle_at c now = now / c.limit_refresh_period

-- "Refresh if new cycle".
unfoldable pub refresh : RateLimiterConfig → ℕ → RateLimiterState → RateLimiterState
refresh c current s = if current == s.active_cycle then s else record {
  active_permissions = min ((current - s.active_cycle) * c.limit_for_period) c.limit_for_period;
  active_cycle = current;
  nanoseconds_to_wait = 0;
}

-- "Try to acquire permission", and else the time to the next cycle, negative beyond the timeout.
unfoldable pub take_or_wait : RateLimiterConfig → ℕ → RateLimiterState → ℤ × RateLimiterState
take_or_wait c now s =
    let wait = (s.active_cycle + 1) * c.limit_refresh_period - now in
    if ltb 0 s.active_permissions
    then (
      pos 0,
      record {
        active_permissions = s.active_permissions - 1;
        active_cycle = s.active_cycle;
        nanoseconds_to_wait = 0;
      },
    )
    else if ltb c.timeout_duration wait
    then (neg wait, s)
    else (pos wait, s)

-- `_reserve_permission`, whole under the state lock.
unfoldable pub reserve_permission : ℕ → AtomicRateLimiter → ℤ × AtomicRateLimiter
unfolding take_or_wait
reserve_permission now l =
    let (wait, s) = take_or_wait l.config now (refresh l.config (cycle_at l.config now) l.state) in
    (wait, record l { state = s })

-- `_execute_async` up to the sleep: `none` is a denial, which is published, and `some w` a sleep of `w`
-- nanoseconds, with no suspension for `w = 0`.
unfoldable pub admit : ℕ → AtomicRateLimiter → Option ℕ × AtomicRateLimiter
unfolding reserve_permission
admit now l =
    let (wait, l') = reserve_permission now l in
    if is_negative wait
    then (none, publish (on_failure_event (abs wait)) l')
    else (some (abs wait), l')

-- `_execute_async` from the sleep's end: the function is called, whatever it does.
unfoldable pub proceed :
    {A : Type 0} → Outcome A → AtomicRateLimiter → Outcome A × AtomicRateLimiter
proceed o l = (o, publish on_success_event l)

-- One call with nothing in between.
unfoldable pub execute :
    {A : Type 0} → ℕ → Outcome A → AtomicRateLimiter → Outcome A × AtomicRateLimiter
unfolding proceed
execute now o l =
    let (slept, l') = admit now l in
    elim slept [ none ↦ (raised request_not_permitted, l') | some w ↦ proceed o l' ]

-- `RateLimiter.acquire_permission`: the answer, the sleep before it, and no event.
unfoldable pub acquire_permission : ℕ → AtomicRateLimiter → Bool × ℕ × AtomicRateLimiter
unfolding reserve_permission
acquire_permission now l =
    let (wait, l') = reserve_permission now l in
    if is_negative wait then (false, 0, l') else (true, abs wait, l')
