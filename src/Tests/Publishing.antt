-- ===== src/Tests/Publishing.antt =====
-- The event publisher and the listeners on concrete inputs.
use mathlib.Core.List.{append-nil}
use resilience4py.Prelude.{
  arith, ℕ, ◌<◌, ◌≡◌, refl, sym, inl, inr, List, Bool-cases, Bool, true, false, none, some, [], ◌∷◌,
  ◌++◌, ◌==◌, if◌then◌else◌,
}
use resilience4py.Outcome.{user, Outcome, returned, raised}
use resilience4py.Registry.{lookup}
use resilience4py.Core.Events.{Event, Consumers, consumers_of, on, off, process_event, off-on}
use resilience4py.Core.Events.Delivered.{DeliveredTo, process_event-DeliveredTo}
use resilience4py.Core.Publisher.{
  EventPublisher, waiting, working, new_publisher, publish_nowait, start, worker_takes, stop,
}
use resilience4py.Core.Publisher.Steps.{Reach, fresh, later, offers, starts, takes, IsSound}
use resilience4py.Core.Publisher.Queue.{publisher-IsSound}
use resilience4py.Core.Publisher.Stop.{emptied, stop-emptied, stop-raised}
use resilience4py.Core.Delivery.{Acts, deliver_from}
use resilience4py.Core.Delivery.Growing.{
  OnlyRegister, worklist, calls_of, total, deliver_from-worklist, deliver_from_endless,
}
use resilience4py.Bulkhead.Handlers.{on_bulkhead_event}
use resilience4py.CircuitBreaker.Listeners.{
  remove_event_listener, publish_to_listeners, publish_to_listeners_skips,
}

-- Consumers 4 and 5 of type 1, and 6 of type 2.
abbrev consumers : Consumers
consumers = (1, 4 ∷ 5 ∷ []) ∷ (2, 6 ∷ []) ∷ []

off-on_example : consumers_of 1 (off 1 7 (on 1 7 consumers)) ≡ consumers_of 1 consumers
unfolding lookup
off-on_example = off-on 1 7 1 consumers refl

-- The call of 4 raises, and 4 has no `__name__`.
abbrev fourth_raises : Acts Consumers
fourth_raises c d = (if c == 4 then raised (user 1) else returned tt, d)

abbrev has_name : ℕ → Bool
has_name c = if c == 4 then false else true

abbrev event : Event
event = record { event_type = 1; identity = 8 }

process_event-DeliveredTo_example :
    (called : List ℕ) × (o : Outcome (Unit {0})) × (process_event fourth_raises has_name 3 event
        consumers
      ≡ some (called, o, consumers))
    × DeliveredTo fourth_raises has_name consumers (4 ∷ 5 ∷ []) (called, o)
unfolding lookup
process_event-DeliveredTo_example =
    process_event-DeliveredTo fourth_raises has_name consumers event 3 (refl, (refl, tt))
      (omega arith)

abbrev running_publisher : EventPublisher
running_publisher = record {
  queue_size = 1;
  queue = event ∷ [];
  running = true;
  worker = waiting;
  draining = none;
  accepted = event ∷ [];
  taken = [];
  processed = [];
  cut_short = [];
}

abbrev delivering : EventPublisher
delivering = record running_publisher { queue = []; taken = event ∷ []; worker = working event }

offered : publish_nowait event (start (new_publisher 1)) ≡ running_publisher
unfolding publish_nowait start new_publisher
offered = refl

got : worker_takes (publish_nowait event (start (new_publisher 1))) ≡ some delivering
unfolding publish_nowait start new_publisher worker_takes
got = refl

began : Reach 1 (start (new_publisher 1))
unfolding new_publisher
began = later fresh (starts (new_publisher 1) refl)

taken : Reach 1 delivering
taken = later (later began (offers event (start (new_publisher 1)))) (takes got)

publisher-IsSound_example : IsSound 1 (λ e. e.identity == 8) delivering
publisher-IsSound_example = publisher-IsSound 1 (λ e. e.identity == 8) taken

abbrev busy : EventPublisher
busy = record delivering { queue = event ∷ event ∷ []; accepted = event ∷ event ∷ event ∷ [] }

abbrev all_return : Event → Outcome (Unit {0})
all_return e = returned tt

stop-emptied_example : stop all_return busy ≡ some (returned tt, emptied all_return busy)
stop-emptied_example = stop-emptied all_return busy refl refl

abbrev odd_one : Event
odd_one = record { event_type = 2; identity = 9 }

abbrev second_fails : Event → Outcome (Unit {0})
second_fails e = if e.identity == 9 then raised (user 1) else returned tt

abbrev three : EventPublisher
three = record busy { queue = event ∷ odd_one ∷ event ∷ [] }

stop-raised_example :
    stop second_fails three
    ≡ some (
      raised (user 1),
      record three {
        queue = event ∷ [];
        running = false;
        taken = (three.taken ++ event ∷ []) ++ odd_one ∷ [];
        processed = three.processed ++ event ∷ [];
        cut_short = three.cut_short ++ odd_one ∷ [];
      },
    )
stop-raised_example =
    stop-raised second_fails (event ∷ []) (event ∷ []) odd_one (user 1) three refl refl refl refl

-- Listener 4 unregisters itself, and the others do nothing.
abbrev one_shot : Acts Consumers
one_shot l d = if l == 4 then remove_event_listener 1 4 d else (returned tt, d)

abbrev registered : Consumers
registered = (1, 3 ∷ 4 ∷ 5 ∷ 6 ∷ []) ∷ []

publish_to_listeners_skips_example :
    let d' = (remove_event_listener 1 4 registered).1 in
    (publish_to_listeners one_shot 1 4 registered ≡ some (3 ∷ 4 ∷ 6 ∷ [], returned tt, d'))
    × (consumers_of 1 d' ≡ 3 ∷ 5 ∷ 6 ∷ [])
unfolding lookup
publish_to_listeners_skips_example =
    publish_to_listeners_skips one_shot 1 (3 ∷ []) (6 ∷ []) 4 5 registered refl refl refl
      (λ d. (refl, refl), tt) (λ d. (refl, refl), tt)

-- A bulkhead's handlers: 4 registers another each time.
abbrev registering : ℕ → Acts (List ℕ)
registering other h hs = (returned tt, if h == 4 then on_bulkhead_event other hs else hs)

abbrev registers : ℕ → ℕ → List ℕ
registers other h = if h == 4 then other ∷ [] else []

registering-OnlyRegister :
    (other : ℕ) → OnlyRegister (λ hs. hs) (registering other) (registers other)
unfolding on_bulkhead_event
registering-OnlyRegister other h hs = elim (Bool-cases (h == 4)) [
  | inl four ↦ ground (arith, four)
  | inr none_new ↦ rw none_new (sym (append-nil hs), refl)
]

abbrev handlers : List ℕ
handlers = 3 ∷ 4 ∷ 5 ∷ []

abbrev heavier : ℕ → ℕ
heavier h = if h == 4 then 2 else 1

registers-lighter : (h : ℕ) → total heavier (registers 6 h) < heavier h
registers-lighter h = ground arith

deliver_from-worklist_example :
    (called : List ℕ) × (worklist (registers 6) 5 handlers ≡ some called)
    × (calls_of (deliver_from (λ hs. hs) (registering 6) 5 0 handlers) ≡ some (called, returned tt))
deliver_from-worklist_example =
    deliver_from-worklist (λ hs. hs) (registering 6) (registers 6) heavier 5 handlers
      (registering-OnlyRegister 6) registers-lighter (ground arith)

deliver_from_endless_example : deliver_from (λ hs. hs) (registering 4) 100 0 handlers ≡ none
deliver_from_endless_example =
    deliver_from_endless (λ hs. hs) (registering 4) (registers 4) 4 100 handlers
      (registering-OnlyRegister 4) refl refl
