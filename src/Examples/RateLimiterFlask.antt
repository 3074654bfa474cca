-- ===== src/Examples/RateLimiterFlask.antt =====
-- examples/rate_limiter_flask.py. Flask runs the functions on threads without an event loop. Clock readings
-- are in nanoseconds, `now` before a call and `processed` after the sleep of the data processing. An attribute
-- that does not exist raises as soon as it is read, so the fields for its value hold the unit.
use Prim.Native.String.{String}
use text.Mathlib.Text.{◌==◌}
use resilience4py.Prelude.{
  ℕ, ◌+◌, ◌-◌, ◌*◌, Bool, true, false, Option, none, some, List, [], ◌∷◌, ◌++◌, if◌then◌else◌,
}
use resilience4py.Outcome.{Outcome, returned, raised, cancelled}
use resilience4py.RateLimiter.Facade.{RateLimiter, new_rate_limiter}
use resilience4py.RateLimiter.Service.{Service, call_sync}
use resilience4py.Examples.Attributes.{
  seconds, read_attribute, rate_limiter_names, and_then, except_exception, Response,
}

-- The names of the limiters are numbers, in the order of their definitions.
unfoldable pub api_rate_limiter : RateLimiter
api_rate_limiter = new_rate_limiter 0 (
    some (record {
      limit_for_period = 10;
      limit_refresh_period = 60 * seconds;
      timeout_duration = 5 * seconds;
    }))

unfoldable pub premium_api_rate_limiter : RateLimiter
premium_api_rate_limiter = new_rate_limiter 1 (
    some (record {
      limit_for_period = 100;
      limit_refresh_period = 60 * seconds;
      timeout_duration = 1 * seconds;
    }))

unfoldable pub upload_rate_limiter : RateLimiter
upload_rate_limiter = new_rate_limiter 2 (
    some
      (record { limit_for_period = 5; limit_refresh_period = 600 * seconds; timeout_duration = 0 }))

-- The three objects and what they share with the library.
pub record App : Type 0 where
  pub general : RateLimiter
  pub premium : RateLimiter
  pub upload : RateLimiter
  pub service : Service

-- The module's state after its definitions, in a process whose registry is `service`'s.
unfoldable pub new_app : Service → App
new_app service = record {
  general = api_rate_limiter;
  premium = premium_api_rate_limiter;
  upload = upload_rate_limiter;
  service = service;
}

unfoldable pub get_user_tier : Option String → String
get_user_tier none = "standard"
get_user_tier (some tier) = tier

pub record ProcessedData : Type 0 where
  pub processed_at : ℕ
  pub processing_time_ms : ℕ

unfoldable pub simulate_data_processing : ℕ → Outcome ProcessedData
simulate_data_processing processed =
    returned (record { processed_at = processed; processing_time_ms = 100 })

unfoldable pub process_standard_request : ℕ → ℕ → App → Outcome ProcessedData × App
unfolding simulate_data_processing
process_standard_request now processed app =
    let (result, general, service) =
      call_sync false now (simulate_data_processing processed) app.general app.service in
    (result, record app { general = general; service = service })

unfoldable pub process_premium_request : ℕ → ℕ → App → Outcome ProcessedData × App
unfolding simulate_data_processing
process_premium_request now processed app =
    let (result, premium, service) =
      call_sync false now (simulate_data_processing processed) app.premium app.service in
    (result, record app { premium = premium; service = service })

-- The upload's id and timestamp are the clock after the call.
unfoldable pub process_upload_request : ℕ → ℕ → App → Outcome ℕ × App
process_upload_request now timestamp app =
    let (result, upload, service) =
      call_sync false now (returned timestamp) app.upload app.service in
    (result, record app { upload = upload; service = service })

pub data DataReply : Type 0 where
  -- data, user tier, rate limiter, available permissions
  data_success : ProcessedData → String → String → Unit {0} → DataReply
  data_rate_limited : String → DataReply

-- `rate_limiter.available_permissions`
unfoldable pub available_permissions : Outcome (Unit {0})
unfolding read_attribute
available_permissions = read_attribute rate_limiter_names "available_permissions"

-- `get_data`, by the header that names the user's tier.
unfoldable pub get_data : Option String → ℕ → ℕ → App → Outcome (Response DataReply) × App
unfolding and_then except_exception
get_data header now processed app =
    let user_tier = get_user_tier header in
    let premium = user_tier == "premium" in
    let (result, app') =
      if premium
      then process_premium_request now processed app
      else process_standard_request now processed app in
    let rate_limiter_name = if premium then "api-premium" else "api-general" in
    let reply : Outcome (Response DataReply) = and_then result (λ processed_data.
      and_then available_permissions (λ available. returned (record {
        status_code = 200;
        body = data_success processed_data user_tier rate_limiter_name available;
      }))) in
    (
      except_exception reply
          (λ e. returned (record { status_code = 429; body = data_rate_limited user_tier })),
      app',
    )

pub data UploadReply : Type 0 where
  -- timestamp, available permissions
  upload_success : ℕ → Unit {0} → UploadReply
  upload_rate_limited : UploadReply

unfoldable pub upload_file : ℕ → ℕ → App → Outcome (Response UploadReply) × App
unfolding and_then except_exception
upload_file now timestamp app =
    let (result, app') = process_upload_request now timestamp app in
    let reply : Outcome (Response UploadReply) = and_then result (λ processed_data.
      and_then available_permissions (λ available.
        returned (record { status_code = 200; body = upload_success processed_data available }))) in
    (
      except_exception reply
          (λ e. returned (record { status_code = 429; body = upload_rate_limited })),
      app',
    )

pub record LimiterStatus : Type 0 where
  pub name : ℕ
  pub available : Unit {0}
  pub limit_for_period : ℕ
  pub period_seconds : ℕ

unfoldable pub limiter_status : RateLimiter → ℕ → ℕ → Outcome LimiterStatus
unfolding and_then
limiter_status f limit period = and_then available_permissions (λ available. returned (record {
  name = f.name;
  available = available;
  limit_for_period = limit;
  period_seconds = period;
}))

-- `get_rate_limits`: the user's tier and the three entries.
unfoldable pub get_rate_limits :
    Option String → App → Outcome (String × LimiterStatus × LimiterStatus × LimiterStatus)
unfolding and_then
get_rate_limits header app = and_then (limiter_status app.general 10 60) (λ general.
    and_then (limiter_status app.premium 100 60) (λ premium.
      and_then (limiter_status app.upload 5 600)
        (λ upload. returned (get_user_tier header, general, premium, upload))))

pub record StressTest : Type 0 where
  pub successful_requests : ℕ
  pub rate_limited_requests : ℕ
  -- which requests were successful, in order
  pub results : List Bool

abbrev pub counted : Bool → StressTest → StressTest
counted true t = record {
  successful_requests = t.successful_requests + 1;
  rate_limited_requests = t.rate_limited_requests;
  results = t.results ++ true ∷ [];
}
counted false t = record {
  successful_requests = t.successful_requests;
  rate_limited_requests = t.rate_limited_requests + 1;
  results = t.results ++ false ∷ [];
}

-- One turn of the loop; a cancellation passes `except Exception`.
abbrev pub stress_request : Bool → ℕ → ℕ → App → Outcome Bool × App
stress_request premium now processed app =
    let (result, app') =
      if premium
      then process_premium_request now processed app
      else process_standard_request now processed app in
    (
      except_exception (and_then result (λ processed_data. returned true)) (λ e. returned false),
      app',
    )

-- `for i in range(request_count)`, by the clock readings of the requests.
unfoldable pub stress_requests : Bool → List (ℕ × ℕ) → StressTest → App → Outcome StressTest × App
unfolding and_then
stress_requests premium [] t app = (returned t, app)
stress_requests premium ((now, processed) ∷ times) t app =
    let (answer, app') = stress_request premium now processed app in
    elim answer [
      | returned success ↦ stress_requests premium times (counted success t) app'
      | raised e ↦ (raised e, app')
      | cancelled ↦ (cancelled, app')
    ]

-- `stress_test`
unfoldable pub stress_test :
    Option String → List (ℕ × ℕ) → App → Outcome (StressTest × Unit {0}) × App
unfolding and_then
stress_test header times app =
    let (tested, app') =
      stress_requests (get_user_tier header == "premium") times
        (record { successful_requests = 0; rate_limited_requests = 0; results = [] }) app in
    (
      and_then tested (λ t. and_then available_permissions (λ available. returned (t, available))),
      app',
    )

-- `before_request`: `g.start_time`.
unfoldable pub before_request : ℕ → Option ℕ
before_request now = some now

pub record RateLimitHeaders : Type 0 where
  pub limit : String
  pub remaining : Unit {0}
  pub reset_ns : ℕ
  -- the difference that X-Response-Time shows
  pub response_time : Option ℕ

abbrev pub elapsed : Option ℕ → ℕ → Option ℕ
elapsed none now = none
elapsed (some start) now = some (now - start)

-- `after_request`: the headers that it adds.
unfoldable pub after_request : Option String → Option ℕ → ℕ → Outcome RateLimitHeaders
unfolding and_then
after_request header start_time now =
    let limit = if get_user_tier header == "premium" then "100" else "10" in
    and_then available_permissions (λ available. returned (record {
      limit = limit;
      remaining = available;
      reset_ns = now + 60 * seconds;
      response_time = elapsed start_time now;
    }))
