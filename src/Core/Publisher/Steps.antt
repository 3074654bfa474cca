-- ===== src/Core/Publisher/Steps.antt =====
-- What may happen to an `EventPublisher` (core/events.py) between two suspensions, and its invariant.
use resilience4py.Prelude.{
  ℕ, ◌+◌, ◌≤◌, ◌≡◌, ◌⊎◌, Bool, true, false, Option, none, some, List, [], ◌∷◌, ◌++◌, length,
  count_if,
}
use resilience4py.Outcome.{Outcome}
use resilience4py.Core.Events.{Event}
use resilience4py.Core.Publisher.{
  EventPublisher, Worker, absent, waiting, working, finished, new_publisher, publish_event,
  publish_nowait, start, worker_takes, worker_finishes, worker_looks, stop_begins, stop_takes,
  stop_finishes, cancel_worker,
}
use resilience4py.Core.Publisher.Stop.{in_flight}

-- No task runs.
abbrev pub is_over : Worker → Bool
is_over absent = true
is_over waiting = false
is_over (working e) = false
is_over finished = true

-- What may happen to a publisher between two suspensions. `start` comes when no task runs: a second task
-- beside one that `stop` has not cancelled yet is left out.
pub data Step : EventPublisher → EventPublisher → Type 0 where
  publishes : {p q : EventPublisher} (e : Event) → publish_event e p ≡ some q → Step p q
  offers : (e : Event) (p : EventPublisher) → Step p (publish_nowait e p)
  starts : (p : EventPublisher) → is_over p.worker ≡ true → Step p (start p)
  takes : {p q : EventPublisher} → worker_takes p ≡ some q → Step p q
  finishes :
      {p q : EventPublisher} (o : Outcome (Unit {0})) → worker_finishes o p ≡ some q → Step p q
  looks : (p : EventPublisher) → Step p (worker_looks p)
  stops : (p : EventPublisher) → Step p (stop_begins p)
  drains : {p q : EventPublisher} → stop_takes p ≡ some q → Step p q
  drained : {p q : EventPublisher} (o : Outcome (Unit {0})) → stop_finishes o p ≡ some q → Step p q
  cancels : (p : EventPublisher) → Step p (cancel_worker p)

pub data Reach (size : ℕ) : EventPublisher → Type 0 where
  fresh : Reach size (new_publisher size)
  later : {p q : EventPublisher} → Reach size p → Step p q → Reach size q

abbrev pub of_stop : Option Event → List Event
of_stop none = []
of_stop (some e) = e ∷ []

-- The events in `_process_event`.
abbrev pub under_way : EventPublisher → List Event
under_way p = in_flight p.worker ++ of_stop p.draining

-- For a test on events: among those taken out, as many pass it as among those that ended or are under way.
pub record IsSound (size : ℕ) (f : Event → Bool) (p : EventPublisher) : Type 0 where
  pub size_kept : p.queue_size ≡ size
  -- First in, first out.
  pub in_order : p.taken ++ p.queue ≡ p.accepted
  pub bounded : (size ≡ 0) ⊎ (length p.queue ≤ size)
  pub accounted :
      count_if f p.taken
      ≡ count_if f p.processed + count_if f p.cut_short + count_if f (under_way p)
