-- ===== src/Examples/RateLimited.antt =====
-- What a request to the data view of examples/rate_limiter_flask.py gets.
use Prim.Native.String.{String}
use text.Mathlib.Text.{◌==◌}
use resilience4py.Prelude.{
  ℕ, ◌+◌, ◌≡◌, refl, sym, Bool, true, false, Option, some, inl, inr, ◌⊎◌, arith, ltb, if◌then◌else◌,
  Option-cases,
}
use resilience4py.Outcome.{Outcome, returned, raised, attribute_error, request_not_permitted}
use resilience4py.Registry.{lookup, Instance}
use resilience4py.RateLimiter.Limiter.{AtomicRateLimiter, RateLimiterConfig, admit, execute}
use resilience4py.RateLimiter.Reserve.{available, IsCurrent, reserve_permission_lem}
use resilience4py.RateLimiter.Facade.{RateLimiter, get_limiter, Shared}
use resilience4py.RateLimiter.Service.{
  Service, limiter_of, with_limiter, call_sync, limiter_call_sync,
}
use resilience4py.Examples.Attributes.{Response, and_then, except_exception}
use resilience4py.Examples.RateLimiterFlask.{
  App, get_user_tier, get_data, after_request, DataReply, data_success, data_rate_limited,
  process_premium_request, process_standard_request, ProcessedData, available_permissions,
}

-- The limiter that a `RateLimiter` acts on.
abbrev pub limiter_through : RateLimiter → Service → AtomicRateLimiter
limiter_through f s = let (i, f', s') = get_limiter f s.shared in limiter_of i s

abbrev pub limiter_for : Option String → App → AtomicRateLimiter
limiter_for header app =
    if get_user_tier header == "premium"
    then limiter_through app.premium app.service
    else limiter_through app.general app.service

-- Behind `_get_limiter`, the object holds the limiter that it has returned.
get_limiter-held :
    (f : RateLimiter) (s : Shared) → (get_limiter f s).1.atomic_limiter ≡ some (get_limiter f s).0
unfolding get_limiter
get_limiter-held f s = elim (Option-cases f.atomic_limiter) [
  | inl fresh ↦ ground (arith, fresh)
  | inr (i, held) ↦ ground (arith, held)
]

get_limiter-again :
    (f : RateLimiter) (s : Shared) (i : Instance RateLimiterConfig)
    → f.atomic_limiter ≡ some i
    → (get_limiter f s).0 ≡ i
unfolding get_limiter
get_limiter-again f s i held = rw held refl

-- An operation is one of the limiter, and the object acts on that limiter afterwards.
with_limiter_lem :
    {B : Type 0} (act : AtomicRateLimiter → B × AtomicRateLimiter) (f : RateLimiter) (s : Service)
    → let (b, f', s') = with_limiter act f s in
      (b, limiter_through f' s') ≡ act (limiter_through f s)
unfolding with_limiter limiter_of lookup
with_limiter_lem act f s =
    let (i, f', s') = get_limiter f s.shared in
    rw (get_limiter-again f' s' i (get_limiter-held f s.shared)) (ground arith)

module _ {A : Type 0} where
  -- What a call leaves of the permits, and how one ends whose function returns.
  abbrev Calls : ℕ → A → AtomicRateLimiter → Outcome A × AtomicRateLimiter → Type 0
  Calls now a l (r, l') =
      (l'.state.active_permissions + (if ltb 0 (available now l) then 1 else 0) ≡ available now l)
      × ((r ≡ returned a) ⊎ (r ≡ raised request_not_permitted))

  execute-Calls :
      (now : ℕ) (a : A) (l : AtomicRateLimiter)
      → IsCurrent now l
      → Calls now a l (execute now (returned a) l)
  unfolding execute admit
  execute-Calls now a l h = ground (arith, reserve_permission_lem now l h)

  call_sync-Calls :
      (now : ℕ) (a : A) (f : RateLimiter) (s : Service)
      → IsCurrent now (limiter_through f s)
      → let (r, f', s') = call_sync false now (returned a) f s in
        Calls now a (limiter_through f s) (r, limiter_through f' s')
  unfolding call_sync limiter_call_sync
  call_sync-Calls now a f s h =
      let l = limiter_through f s in
      let same = with_limiter_lem (execute now (returned a)) f s in
      rw (sym same) at (execute-Calls now a l h)

-- To read `available_permissions` sends every view to its `except` block.
except_exception-available_permissions :
    {A B : Type 0} (r : Outcome A) (a : A) (answer : A → Unit {0} → Outcome B) (b : B)
    → (r ≡ returned a) ⊎ (r ≡ raised request_not_permitted)
    → except_exception
        (and_then r (λ x. and_then available_permissions (answer x)))
        (λ e. returned b)
      ≡ returned b
unfolding available_permissions and_then except_exception
except_exception-available_permissions r a answer b (inl e) = rw e refl
except_exception-available_permissions r a answer b (inr e) = rw e refl

-- The user tier's process function.
abbrev process : Bool → ℕ → ℕ → App → Outcome ProcessedData × App
process premium now processed app =
    if premium
    then process_premium_request now processed app
    else process_standard_request now processed app

process-Calls :
    (premium : Bool) (header : Option String) (now processed : ℕ) (app : App)
    → get_user_tier header == "premium" ≡ premium
    → IsCurrent now (limiter_for header app)
    → let (r, app') = process premium now processed app in
      Calls now
        (record { processed_at = processed; processing_time_ms = 100 })
        (limiter_for header app)
        (r, limiter_for header app')
unfolding process_premium_request process_standard_request
process-Calls true header now processed app e h =
    rw e (call_sync-Calls now _ app.premium app.service (rw e at h))
process-Calls false header now processed app e h =
    rw e (call_sync-Calls now _ app.general app.service (rw e at h))

-- While the clock has not fallen behind the last call of the limiter of the user's tier, the data view itself
-- returns a response with the status 429 for every request, that the rate limit is exceeded. If a permit is
-- available, one is taken for the request nevertheless. The hook that is to add headers to this response raises
-- an `AttributeError`, so that it is not what the request is answered with.
pub get_data-after_request :
    (header : Option String) (now processed : ℕ) (app : App) (start_time : Option ℕ) (sent : ℕ)
    → IsCurrent now (limiter_for header app)
    → let (reply, app') = get_data header now processed app in
      (reply
        ≡ returned (record { status_code = 429; body = data_rate_limited (get_user_tier header) }))
      × (after_request header start_time sent ≡ raised attribute_error)
      × ((limiter_for header app').state.active_permissions
            + (if ltb 0 (available now (limiter_for header app)) then 1 else 0)
          ≡ available now (limiter_for header app))
unfolding get_data after_request available_permissions
get_data-after_request header now processed app start_time sent h =
    let tier = get_user_tier header in
    let premium = tier == "premium" in
    let name = if premium then "api-premium" else "api-general" in
    let (left, answers) = process-Calls premium header now processed app refl h in
    let success : ProcessedData → Unit {0} → Outcome (Response DataReply) = λ result free.
      returned (record { status_code = 200; body = data_success result tier name free }) in
    (except_exception-available_permissions _ _ success _ answers, refl, left)
