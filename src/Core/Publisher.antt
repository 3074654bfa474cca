-- ===== src/Core/Publisher.antt =====
-- core/events.py: the queue of an `EventPublisher`, its background task and `stop`. `asyncio.Queue` is a list
-- with a bound, 0 being none. The calls that other coroutines may run between are steps of their own; one
-- `stop` runs at a time.
use mathlib.Core.List.{append-nil, append_assoc}
use resilience4py.Prelude.{
  ℕ, zero, suc, ◌+◌, ◌≤◌, ◌<◌, ◌≡◌, refl, sym, ap, ◌∙◌, Bool, true, false, not, ◌&&◌, Option, none,
  some, List, [], ◌∷◌, ◌++◌, ◌==◌, leb, if◌then◌else◌, length, count_if, length-append,
  count_if-append, arith,
}
use resilience4py.Outcome.{Outcome, returned, raised, cancelled}
use resilience4py.Core.Events.{Event}
pub mod Stop
pub mod Steps
pub mod Queue

-- The background task: none yet, at `queue.get()`, in `_process_event`, or ended.
pub data Worker : Type 0 where
  absent : Worker
  waiting : Worker
  working : Event → Worker
  finished : Worker

pub record EventPublisher : Type 0 where
  pub queue_size : ℕ
  pub queue : List Event
  pub running : Bool
  pub worker : Worker
  -- the event that `stop` has in `_process_event`
  pub draining : Option Event
  -- every event ever queued and every event taken out again
  pub accepted : List Event
  pub taken : List Event
  -- the events whose `_process_event` returned, and those whose `_process_event` raised or was cancelled
  pub processed : List Event
  pub cut_short : List Event

unfoldable pub new_publisher : ℕ → EventPublisher
new_publisher size = record {
  queue_size = size;
  queue = [];
  running = false;
  worker = absent;
  draining = none;
  accepted = [];
  taken = [];
  processed = [];
  cut_short = [];
}

unfoldable pub is_full : EventPublisher → Bool
is_full p = not (p.queue_size == 0) && leb p.queue_size (length p.queue)

abbrev pub put : Event → EventPublisher → EventPublisher
put e p = record p { queue = p.queue ++ e ∷ []; accepted = p.accepted ++ e ∷ [] }

-- `publish`: `none` while it waits for a place.
unfoldable pub publish_event : Event → EventPublisher → Option EventPublisher
unfolding is_full
publish_event e p = if is_full p then none else some (put e p)

-- `publish_nowait`: a full queue drops the event.
unfoldable pub publish_nowait : Event → EventPublisher → EventPublisher
unfolding is_full
publish_nowait e p = if is_full p then p else put e p

unfoldable pub start : EventPublisher → EventPublisher
start p = if p.running then p else record p { running = true; worker = waiting }

-- `__aenter__`
unfoldable pub aenter : EventPublisher → EventPublisher
unfolding start
aenter p = start p

-- `queue.get_nowait()`: `none` is `QueueEmpty`.
abbrev pub get_event : EventPublisher → Option (Event × EventPublisher)
get_event p = elim p.queue [
  | [] ↦ none
  | e ∷ rest ↦ some (e, record p { queue = rest; taken = p.taken ++ e ∷ [] })
]

-- `_process_event` has returned, or has not.
abbrev pub settle : Event → Outcome (Unit {0}) → EventPublisher → EventPublisher
settle e (returned _) p = record p { processed = p.processed ++ e ∷ [] }
settle e (raised _) p = record p { cut_short = p.cut_short ++ e ∷ [] }
settle e cancelled p = record p { cut_short = p.cut_short ++ e ∷ [] }

-- `_process_events`: the task gets an event.
unfoldable pub worker_takes : EventPublisher → Option EventPublisher
worker_takes p = elim p.worker [
  | waiting ↦ elim (get_event p) [
    | none ↦ none
    | some (e, q) ↦ some (record q { worker = working e })
  ]
  | _ ↦ none
]

-- The task after its event, whose exceptions it logs: it goes on while the publisher runs.
abbrev pub worker_after : Outcome (Unit {0}) → Bool → Worker
worker_after (returned _) running = if running then waiting else finished
worker_after (raised _) running = if running then waiting else finished
worker_after cancelled running = finished

unfoldable pub worker_finishes : Outcome (Unit {0}) → EventPublisher → Option EventPublisher
worker_finishes o p = elim p.worker [
  | working e ↦ some (record (settle e o p) { worker = worker_after o p.running })
  | _ ↦ none
]

-- The time-out of `wait_for`, or an idle task's next look at `_running`.
unfoldable pub worker_looks : EventPublisher → EventPublisher
worker_looks p = elim p.worker [
  | waiting ↦ record p { worker = if p.running then waiting else finished }
  | _ ↦ p
]

-- `stop`, up to its loop.
unfoldable pub stop_begins : EventPublisher → EventPublisher
stop_begins p = record p { running = false }

-- One turn of the loop, up to `await self._process_event(event)`.
unfoldable pub stop_takes : EventPublisher → Option EventPublisher
stop_takes p = elim p.draining [
  | some _ ↦ none
  | none ↦ elim (get_event p) [ none ↦ none | some (e, q) ↦ some (record q { draining = some e }) ]
]

-- And the rest of the turn.
unfoldable pub stop_finishes : Outcome (Unit {0}) → EventPublisher → Option EventPublisher
stop_finishes o p = elim p.draining [
  | none ↦ none
  | some e ↦ some (record (settle e o p) { draining = none })
]

-- `self._task.cancel()`, and the wait for the task's end.
unfoldable pub cancel_worker : EventPublisher → EventPublisher
cancel_worker p = elim p.worker [
  | absent ↦ p
  | waiting ↦ record p { worker = finished }
  | working e ↦ record (settle e cancelled p) { worker = finished }
  | finished ↦ p
]

module _ (ends : Event → Outcome (Unit {0})) where
  -- The loop of `stop` with nothing in between, on fuel: how it ends, by how each `_process_event` ends.
  unfoldable pub drain : ℕ → EventPublisher → Option (Outcome (Unit {0}) × EventPublisher)
  drain zero p = none
  drain (suc fuel) p = elim (get_event p) [
    | none ↦ some (returned tt, p)
    | some (e, q) ↦ elim (ends e) [
      | returned _ ↦ drain fuel (settle e (returned tt) q)
      | raised x ↦ some (raised x, settle e (raised x) q)
      | cancelled ↦ some (cancelled, settle e cancelled q)
    ]
  ]

  -- After the loop, which an exception of `_process_event` leaves.
  abbrev pub after_drain : Outcome (Unit {0}) × EventPublisher → Outcome (Unit {0}) × EventPublisher
  after_drain (returned _, p) = (returned tt, cancel_worker p)
  after_drain (raised x, p) = (raised x, p)
  after_drain (cancelled, p) = (cancelled, p)

  -- `stop`, with a turn of its loop for each queued event and one to see that there is none.
  unfoldable pub stop : EventPublisher → Option (Outcome (Unit {0}) × EventPublisher)
  unfolding drain stop_begins cancel_worker
  stop p = elim p.worker [
    | absent ↦ some (returned tt, stop_begins p)
    | _ ↦ elim (drain (suc (length p.queue)) (stop_begins p)) [
      | none ↦ none
      | some r ↦ some (after_drain r)
    ]
  ]

  -- `__aexit__`
  unfoldable pub aexit : EventPublisher → Option (Outcome (Unit {0}) × EventPublisher)
  unfolding stop
  aexit p = stop p
