-- ===== src/RateLimiter/Listeners.antt =====
-- The delivery of an event by ratelimiter/atomic_rate_limiter.py, which copies the list of listeners first, and
-- the removal of listeners in rate_limiter.py. A publisher is an object of another class: how its `publish`
-- ends is a parameter, and it is taken not to change the publishers.
use resilience4py.Prelude.{
  ℕ, ◌≡◌, refl, Bool, true, false, ◌||◌, ◌&&◌, Option, none, some, List, [], ◌∷◌, ◌++◌, ◌==◌,
  if◌then◌else◌, any_of, arith,
}
use resilience4py.Outcome.{Outcome, returned, raised, cancelled}
use resilience4py.Registry.{store}
use resilience4py.Core.Events.{Consumers, consumers_of, list_remove}
use resilience4py.Core.Delivery.{Acts, is_cancelled}
use resilience4py.RateLimiter.Facade.{Shared, RateLimiter, attached_to, remove_limiter_listener}

-- The fields of an `AtomicRateLimiter` that `_publish_event` reads.
pub record Audience : Type 0 where
  pub publishers : List ℕ
  pub listeners : Consumers

unfoldable pub add_event_publisher : ℕ → Audience → Audience
add_event_publisher x a = record a { publishers = a.publishers ++ x ∷ [] }

unfoldable pub remove_event_publisher : ℕ → Audience → Audience
remove_event_publisher x a = elim (list_remove x a.publishers) [
  | none ↦ a
  | some left ↦ record a { publishers = left }
]

-- The loop over the publishers: those that are called, and how it ends.
unfoldable pub tell_publishers : (ℕ → Outcome (Unit {0})) → List ℕ → List ℕ × Outcome (Unit {0})
tell_publishers ends [] = ([], returned tt)
tell_publishers ends (x ∷ xs) =
    let (told, o) = tell_publishers ends xs in
    elim (ends x) [
      | returned _ ↦ (x ∷ told, o)
      | raised _ ↦ (x ∷ told, o)
      | cancelled ↦ (x ∷ [], cancelled)
    ]

-- The loop over the copy of the listeners.
unfoldable pub tell_listeners :
    Acts Consumers → List ℕ → Consumers → List ℕ × Outcome (Unit {0}) × Consumers
tell_listeners acts [] d = ([], returned tt, d)
tell_listeners acts (l ∷ ls) d =
    let (o, d') = acts l d in
    let (told, o', d'') = tell_listeners acts ls d' in
    elim o [
      | returned _ ↦ (l ∷ told, o', d'')
      | raised _ ↦ (l ∷ told, o', d'')
      | cancelled ↦ (l ∷ [], cancelled, d')
    ]

-- `_publish_event`, for an event of the class `t`.
unfoldable pub publish_limiter_event :
    (ℕ → Outcome (Unit {0}))
    → Acts Consumers
    → ℕ
    → Audience
    → (List ℕ × List ℕ) × Outcome (Unit {0}) × Audience
unfolding tell_publishers tell_listeners
publish_limiter_event ends acts t a =
    let (told, o) = tell_publishers ends a.publishers in
    elim o [
      | returned _ ↦
          let (called, o', d) = tell_listeners acts (consumers_of t a.listeners) a.listeners in
          ((told, called), o', record a { listeners = d })
      | raised e ↦ ((told, []), raised e, a)
      | cancelled ↦ ((told, []), cancelled, a)
    ]

-- `self._pending_listeners.remove((event_type, listener))`: `none` is its `ValueError`.
unfoldable pub pending_remove : ℕ → ℕ → List (ℕ × ℕ) → Option (List (ℕ × ℕ))
pending_remove t l [] = none
pending_remove t l ((u, m) ∷ rest) =
    let left = pending_remove t l rest in
    if (t == u) && (l == m)
    then some rest
    else elim left [ none ↦ none | some xs ↦ some ((u, m) ∷ xs) ]

-- The `try` around it.
unfoldable pub drop_pending : ℕ → ℕ → RateLimiter → Bool × RateLimiter
unfolding pending_remove
drop_pending t l f = elim (pending_remove t l f.pending_listeners) [
  | none ↦ (false, f)
  | some left ↦ (true, record f { pending_listeners = left })
]

-- `RateLimiter.remove_event_listener`: whether it was waiting or attached.
unfoldable pub unlisten : ℕ → ℕ → RateLimiter → Shared → Bool × RateLimiter × Shared
unfolding drop_pending
unlisten t l f s =
    let (waited, f') = drop_pending t l f in
    elim f.atomic_limiter [
      | none ↦ (waited, f', s)
      | some i ↦
          let (was_attached, d) = remove_limiter_listener t l (attached_to i.identity s) in
          (was_attached || waited, f', record s { attached = store i.identity d s.attached })
    ]

tell_publishers-all :
    (ends : ℕ → Outcome (Unit {0})) (xs : List ℕ)
    → any_of (λ x. is_cancelled (ends x)) xs ≡ false
    → tell_publishers ends xs ≡ (xs, returned tt)
unfolding tell_publishers
tell_publishers-all ends [] h = refl
tell_publishers-all ends (x ∷ xs) h = ground (arith, tell_publishers-all ends xs)

tell_listeners-all :
    (acts : Acts Consumers) (ls : List ℕ) (d : Consumers)
    → ((l : ℕ) (d' : Consumers) → is_cancelled (acts l d').0 ≡ false)
    → (d'' : Consumers) × (tell_listeners acts ls d ≡ (ls, returned tt, d''))
unfolding tell_listeners
tell_listeners-all acts [] d h = (d, refl)
tell_listeners-all acts (l ∷ ls) d h =
    let (d'', told) = tell_listeners-all acts ls (acts l d).1 h in
    (d'', ground (arith, told, h l d))

-- When none of them is cancelled, an event reaches every publisher, and then every listener that was registered
-- for its class when the delivery came to the listeners: each once and in the order of registration,
-- whichever of them raise, and whatever the listeners register and unregister meanwhile.
pub publish_limiter_event-all :
    (ends : ℕ → Outcome (Unit {0})) (acts : Acts Consumers) (t : ℕ) (a : Audience)
    → any_of (λ x. is_cancelled (ends x)) a.publishers ≡ false
    → ((l : ℕ) (d : Consumers) → is_cancelled (acts l d).0 ≡ false)
    → (a' : Audience) × (publish_limiter_event ends acts t a
        ≡ ((a.publishers, consumers_of t a.listeners), returned tt, a'))
unfolding publish_limiter_event
publish_limiter_event-all ends acts t a h k =
    let (d, told) = tell_listeners-all acts (consumers_of t a.listeners) a.listeners k in
    (record a { listeners = d }, ground (arith, tell_publishers-all ends a.publishers h, told))
