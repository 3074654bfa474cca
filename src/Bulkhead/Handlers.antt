-- ===== src/Bulkhead/Handlers.antt =====
-- The event handlers of both bulkheads, whose `on_event` and `_publish_event` have the same text in
-- bulkhead/semaphore_bulkhead.py and bulkhead/threadpool_bulkhead.py. A handler may register others when it
-- is called; none is ever removed.
use resilience4py.Prelude.{ℕ, ◌+◌, ◌≡◌, refl, Option, some, List, [], ◌∷◌, ◌++◌, length}
use resilience4py.Outcome.{returned}
use resilience4py.Core.Delivery.{Acts, Delivery, deliver_from, AllLeaveAlone, deliver_from-rest}

-- `on_event`
unfoldable pub on_bulkhead_event : ℕ → List ℕ → List ℕ
on_bulkhead_event handler handlers = handlers ++ handler ∷ []

unfoldable pub on_bulkhead_events : List ℕ → List ℕ → List ℕ
unfolding on_bulkhead_event
on_bulkhead_events [] handlers = handlers
on_bulkhead_events (new ∷ more) handlers = on_bulkhead_events more (on_bulkhead_event new handlers)

-- `_publish_event`
unfoldable pub publish_to_handlers : Acts (List ℕ) → ℕ → List ℕ → Option (Delivery (List ℕ))
publish_to_handlers acts fuel handlers = deliver_from (λ hs. hs) acts fuel 0 handlers

-- Handlers that register nothing are called once each, in the order of registration, whichever raise.
pub publish_to_handlers-all :
    (acts : Acts (List ℕ)) (handlers : List ℕ)
    → AllLeaveAlone (λ hs. hs) acts handlers
    → publish_to_handlers acts (length handlers + 1) handlers
      ≡ some (handlers, returned tt, handlers)
unfolding publish_to_handlers
publish_to_handlers-all acts handlers h =
    deliver_from-rest (λ hs. hs) acts [] handlers handlers refl h
