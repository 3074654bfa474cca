-- ===== src/Examples/CircuitBreakerFlask.antt =====
-- examples/circuit_breaker_flask.py. Flask runs the functions on threads without an event loop, where the
-- wrapper of a plain function runs each call in a new one. Draws are in hundredths; a call starts at `start`,
-- and its function ends at `now`, at least three seconds later if the draw makes it slow.
use resilience4py.Prelude.{ℕ, ◌*◌, Bool, true, false, none, [], ltb, if◌then◌else◌}
use resilience4py.Prelude.Float.{Float}
use resilience4py.Outcome.{Exception, user, Outcome, returned, raised}
use resilience4py.CircuitBreaker.Config.{CircuitBreakerConfig, count_based}
use resilience4py.CircuitBreaker.Breaker.{CircuitBreaker, new_breaker}
use resilience4py.CircuitBreaker.Execute.{execute}
use resilience4py.Examples.Attributes.{
  seconds, read_attribute, circuit_breaker_names, state_names, window_names, and_then,
  except_exception, Response,
}

-- The configuration, with the floats 50.0 and 100.0.
unfoldable pub api_config : {F : Type 0} → F → F → CircuitBreakerConfig F
api_config fifty hundred = record {
  failure_rate_threshold = fifty;
  slow_call_rate_threshold = hundred;
  slow_call_duration_threshold = 2 * seconds;
  permitted_calls_in_half_open = 3;
  sliding_window_size = 10;
  sliding_window_type = count_based;
  minimum_number_of_calls = 5;
  wait_duration_in_open_state = 30 * seconds;
  max_wait_duration_in_half_open = 0;
  automatic_transition_from_open_to_half_open = true;
  record_exceptions = [];
  ignore_exceptions = [];
  record_failure_predicate = none;
  ignore_failure_predicate = none;
}

pub record App (F : Type 0) : Type 0 where
  pub api_circuit_breaker : CircuitBreaker F
  -- whether `improved_api` has replaced `simulate_external_api_failure`
  pub improved : Bool

unfoldable pub new_app : {F : Type 0} → F → F → App F
unfolding api_config new_breaker
new_app fifty hundred = record {
  api_circuit_breaker = new_breaker (api_config fifty hundred);
  improved = false;
}

pub record Draws : Type 0 where
  pub slow_draw : ℕ
  pub failure_draw : ℕ

-- "External API is down"; a result is its timestamp.
unfoldable pub simulate_external_api_failure : Draws → ℕ → Outcome ℕ
simulate_external_api_failure d now =
    if ltb d.failure_draw 60 then raised (user 0) else returned now

-- The time that it sleeps.
unfoldable pub simulated_delay : Draws → ℕ
simulated_delay d = if ltb d.slow_draw 30 then 3 * seconds else 0

-- `improved_api`, with "Occasional external API error".
unfoldable pub improved_api : Draws → ℕ → Outcome ℕ
improved_api d now = if ltb d.failure_draw 10 then raised (user 1) else returned now

-- What the protected function does: the name is looked up at each call.
unfoldable pub external_api : Bool → Draws → ℕ → Outcome ℕ
unfolding simulate_external_api_failure improved_api
external_api improved d now =
    if improved then improved_api d now else simulate_external_api_failure d now

pub data DataReply : Type 0 where
  -- the result, and the value of `state.name`
  data_success : ℕ → Unit {0} → DataReply
  data_error : Exception → Unit {0} → DataReply

-- `api_circuit_breaker.state.name`
unfoldable pub breaker_state_name : Outcome (Unit {0})
unfolding and_then read_attribute
breaker_state_name =
    and_then (read_attribute circuit_breaker_names "state")
      (λ state. read_attribute state_names "name")

-- `get_data` from the end of the call.
unfoldable pub answer_data : Outcome ℕ → Outcome (Response DataReply)
unfolding and_then except_exception breaker_state_name
answer_data result =
    except_exception
      (and_then result (λ value.
        and_then breaker_state_name
          (λ name. returned (record { status_code = 200; body = data_success value name }))))
      (λ e.
        and_then breaker_state_name
          (λ name. returned (record { status_code = 503; body = data_error e name })))

module _ {F : Type 0} ⦃fl : Float F⦄ where
  unfoldable pub call_external_api : ℕ → ℕ → Draws → App F → Outcome ℕ × App F
  unfolding external_api
  call_external_api start now d app =
      let (result, breaker) =
        execute start now (external_api app.improved d now) app.api_circuit_breaker in
      (result, record app { api_circuit_breaker = breaker })

  unfoldable pub get_data : ℕ → ℕ → Draws → App F → Outcome (Response DataReply) × App F
  unfolding call_external_api answer_data
  get_data start now d app =
      let (result, app') = call_external_api start now d app in (answer_data result, app')

module _ {F : Type 0} where
  -- `health_check`, up to what it reads of the metrics first.
  unfoldable pub health_check : App F → Outcome (Unit {0})
  unfolding and_then read_attribute breaker_state_name
  health_check app = and_then (read_attribute circuit_breaker_names "metrics") (λ metrics.
      and_then (read_attribute circuit_breaker_names "name")
        (λ name. and_then breaker_state_name (λ state. read_attribute window_names "failure_rate")))

  -- `reset_circuit_breaker`: the method is read before it could be called.
  unfoldable pub reset_circuit_breaker : App F → Outcome (Unit {0}) × App F
  unfolding and_then read_attribute breaker_state_name
  reset_circuit_breaker app = (
    and_then (read_attribute circuit_breaker_names "transition_to_closed_state")
        (λ method. breaker_state_name),
    app,
  )

  unfoldable pub improve_service : App F → App F
  improve_service app = record app { improved = true }
