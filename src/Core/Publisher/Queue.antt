-- ===== src/Core/Publisher/Queue.antt =====
-- The queue of an `EventPublisher` (core/events.py), whatever its callers, its task and a `stop` do.
use mathlib.Core.Path.{subst}
use mathlib.Core.List.{append-nil, append_assoc}
use resilience4py.Prelude.{
  List-cases, Option-cases, Bool-cases, ℕ, ◌+◌, ◌≡◌, refl, sym, ap, ◌∙◌, ◌⊎◌, inl, inr, Bool, false,
  Option, none, some, [], ◌∷◌, ◌++◌, count_if, length-append, count_if-append, arith,
}
use resilience4py.Outcome.{Outcome, returned, raised, cancelled}
use resilience4py.Core.Events.{Event}
use resilience4py.Core.Publisher.{
  worker_after, put, settle, EventPublisher, Worker, absent, waiting, working, finished,
  new_publisher, is_full, publish_event, publish_nowait, start, worker_takes, worker_finishes,
  worker_looks, stop_begins, stop_takes, stop_finishes, cancel_worker,
}
use resilience4py.Core.Publisher.Stop.{in_flight}
use resilience4py.Core.Publisher.Steps.{
  Step, publishes, offers, starts, takes, finishes, looks, stops, drains, drained, cancels, Reach,
  fresh, later, of_stop, under_way, IsSound,
}

Worker-cases : (w : Worker) → ((e : Event) × (w ≡ working e)) ⊎ (in_flight w ≡ [])
Worker-cases absent = inr refl
Worker-cases waiting = inr refl
Worker-cases (working e) = inl (e, refl)
Worker-cases finished = inr refl

worker_after-idle :
    (o : Outcome (Unit {0})) (running : Bool) → in_flight (worker_after o running) ≡ []
worker_after-idle (returned _) running = ground arith
worker_after-idle (raised _) running = ground arith
worker_after-idle cancelled running = refl

module _ (size : ℕ) (f : Event → Bool) where
  put-IsSound :
      (e : Event) (p : EventPublisher)
      → is_full p ≡ false
      → IsSound size f p
      → IsSound size f (put e p)
  unfolding is_full
  put-IsSound e p room s = record {
    size_kept = s.size_kept;
    in_order = sym (append_assoc p.taken p.queue (e ∷ [])) ∙ ap (◌++ e ∷ []) s.in_order;
    bounded = ground (arith, length-append p.queue (e ∷ []), s.bounded, s.size_kept);
    accounted = s.accounted;
  }

  settled :
      (e : Event) (o : Outcome (Unit {0})) (p : EventPublisher)
      → let q = settle e o p in
        count_if f q.processed + count_if f q.cut_short
        ≡ count_if f p.processed + count_if f p.cut_short + count_if f (e ∷ [])
  settled e (returned _) p = ground (arith, count_if-append f p.processed (e ∷ []))
  settled e (raised _) p = ground (arith, count_if-append f p.cut_short (e ∷ []))
  settled e cancelled p = ground (arith, count_if-append f p.cut_short (e ∷ []))

  worker_takes-IsSound :
      (p q : EventPublisher) → worker_takes p ≡ some q → IsSound size f p → IsSound size f q
  unfolding worker_takes
  worker_takes-IsSound p q h s = elim (List-cases p.queue) [
    | inl e ↦ absurd (ground arith)
    | inr (e, rest, k) ↦ record {
      size_kept = ground arith;
      in_order = ground (arith, append_assoc p.taken (e ∷ []) rest, s.in_order);
      bounded = ground (arith, s.bounded);
      accounted = ground (arith, s.accounted, count_if-append f p.taken (e ∷ []));
    }
  ]

  stop_takes-IsSound :
      (p q : EventPublisher) → stop_takes p ≡ some q → IsSound size f p → IsSound size f q
  unfolding stop_takes
  stop_takes-IsSound p q h s = elim (List-cases p.queue) [
    | inl e ↦ absurd (ground arith)
    | inr (e, rest, k) ↦ record {
      size_kept = ground arith;
      in_order = ground (arith, append_assoc p.taken (e ∷ []) rest, s.in_order);
      bounded = ground (arith, s.bounded);
      accounted = ground (
        arith,
        s.accounted,
        count_if-append f p.taken (e ∷ []),
        count_if-append f (in_flight p.worker) (e ∷ []),
        append-nil (in_flight p.worker),
      );
    }
  ]

  settle-IsSound :
      (e : Event) (o : Outcome (Unit {0})) (w : Worker) (d : Option Event) (p : EventPublisher)
      → count_if f (under_way p) ≡ count_if f (e ∷ []) + count_if f (in_flight w ++ of_stop d)
      → IsSound size f p
      → IsSound size f (record (settle e o p) { worker = w; draining = d })
  settle-IsSound e (returned _) w d p counts s = record {
    size_kept = s.size_kept;
    in_order = s.in_order;
    bounded = s.bounded;
    accounted = omega (arith, s.accounted, counts, count_if-append f p.processed (e ∷ []));
  }
  settle-IsSound e (raised _) w d p counts s = record {
    size_kept = s.size_kept;
    in_order = s.in_order;
    bounded = s.bounded;
    accounted = omega (arith, s.accounted, counts, count_if-append f p.cut_short (e ∷ []));
  }
  settle-IsSound e cancelled w d p counts s = record {
    size_kept = s.size_kept;
    in_order = s.in_order;
    bounded = s.bounded;
    accounted = omega (arith, s.accounted, counts, count_if-append f p.cut_short (e ∷ []));
  }

  worker_counts :
      (e : Event) (w : Worker) (p : EventPublisher)
      → p.worker ≡ working e
      → in_flight w ≡ []
      → count_if f (under_way p)
        ≡ count_if f (e ∷ []) + count_if f (in_flight w ++ of_stop p.draining)
  worker_counts e w p k idle = ground (arith, count_if-append f (e ∷ []) (of_stop p.draining))

  worker_finishes_at :
      (e : Event) (o : Outcome (Unit {0})) (p : EventPublisher)
      → p.worker ≡ working e
      → worker_finishes o p
        ≡ some (record (settle e o p) { worker = worker_after o p.running; draining = p.draining })
  unfolding worker_finishes
  worker_finishes_at e (returned _) p k = rw (k, worker_finishes) refl
  worker_finishes_at e (raised _) p k = rw (k, worker_finishes) refl
  worker_finishes_at e cancelled p k = rw (k, worker_finishes) refl

  stop_finishes_at :
      (e : Event) (o : Outcome (Unit {0})) (p : EventPublisher)
      → p.draining ≡ some e
      → stop_finishes o p ≡ some (record (settle e o p) { worker = p.worker; draining = none })
  unfolding stop_finishes
  stop_finishes_at e (returned _) p k = rw (k, stop_finishes) refl
  stop_finishes_at e (raised _) p k = rw (k, stop_finishes) refl
  stop_finishes_at e cancelled p k = rw (k, stop_finishes) refl

  stop_counts :
      (e : Event) (p : EventPublisher)
      → p.draining ≡ some e
      → count_if f (under_way p)
        ≡ count_if f (e ∷ []) + count_if f (in_flight p.worker ++ of_stop none)
  stop_counts e p k =
      ground
        (arith, count_if-append f (in_flight p.worker) (e ∷ []), append-nil (in_flight p.worker))

  stop_finishes-IsSound :
      (o : Outcome (Unit {0})) (p q : EventPublisher)
      → stop_finishes o p ≡ some q
      → IsSound size f p
      → IsSound size f q
  unfolding stop_finishes
  stop_finishes-IsSound o p q h s = elim (Option-cases p.draining) [
    | inl idle ↦ absurd (ground arith)
    | inr (e, k) ↦
        let r = record (settle e o p) { worker = p.worker; draining = none } in
        let went : stop_finishes o p ≡ some r = stop_finishes_at e o p k in
        let same : r ≡ q = cc in
        subst (IsSound size f) same (settle-IsSound e o p.worker none p (stop_counts e p k) s)
  ]

  worker_finishes-IsSound :
      (o : Outcome (Unit {0})) (p q : EventPublisher)
      → worker_finishes o p ≡ some q
      → IsSound size f p
      → IsSound size f q
  unfolding worker_finishes
  worker_finishes-IsSound o p q h s = elim (Worker-cases p.worker) [
    | inl (e, k) ↦
        let w = worker_after o p.running in
        let r = record (settle e o p) { worker = w; draining = p.draining } in
        let went : worker_finishes o p ≡ some r = worker_finishes_at e o p k in
        let same : r ≡ q = cc in
        subst (IsSound size f) same (
          settle-IsSound e o w p.draining p (worker_counts e w p k (worker_after-idle o p.running))
            s)
    | inr idle ↦ absurd (ground arith)
  ]

  Step-IsSound : {p q : EventPublisher} → Step p q → IsSound size f p → IsSound size f q
  unfolding publish_event publish_nowait start worker_looks stop_begins cancel_worker
  Step-IsSound {p} {q} (publishes e h) s = elim (Bool-cases (is_full p)) [
    | inl full ↦ absurd (ground arith)
    | inr room ↦
        let k : put e p ≡ q = ground arith in subst (IsSound size f) k (put-IsSound e p room s)
  ]
  Step-IsSound (offers e p) s = elim (Bool-cases (is_full p)) [
    | inl full ↦ rw full s
    | inr room ↦ rw room (put-IsSound e p room s)
  ]
  Step-IsSound (starts p h) s = record {
    size_kept = ground (arith, s.size_kept);
    in_order = ground (arith, s.in_order);
    bounded = ground (arith, s.bounded);
    accounted = ground (arith, s.accounted);
  }
  Step-IsSound {p} {q} (takes h) s = worker_takes-IsSound p q h s
  Step-IsSound {p} {q} (finishes o h) s = worker_finishes-IsSound o p q h s
  Step-IsSound (looks p) s = record {
    size_kept = ground (arith, s.size_kept);
    in_order = ground (arith, s.in_order);
    bounded = ground (arith, s.bounded);
    accounted = ground (arith, s.accounted);
  }
  Step-IsSound (stops p) s = record {
    size_kept = s.size_kept;
    in_order = s.in_order;
    bounded = s.bounded;
    accounted = s.accounted;
  }
  Step-IsSound {p} {q} (drains h) s = stop_takes-IsSound p q h s
  Step-IsSound {p} {q} (drained o h) s = stop_finishes-IsSound o p q h s
  Step-IsSound (cancels p) s = elim (Worker-cases p.worker) [
    | inl (e, k) ↦
        let r = record (settle e cancelled p) { worker = finished; draining = p.draining } in
        let same : r ≡ cancel_worker p = rw (k, cancel_worker) refl in
        subst (IsSound size f) same
          (settle-IsSound e cancelled finished p.draining p (worker_counts e finished p k refl) s)
    | inr idle ↦ record {
      size_kept = ground (arith, s.size_kept);
      in_order = ground (arith, s.in_order);
      bounded = ground (arith, s.bounded);
      accounted = ground (arith, s.accounted);
    }
  ]

-- Whatever is published, and however the deliveries of one task at a time and of one `stop` interleave and end:
-- the events leave the queue in the order in which they were accepted, none is lost or taken twice, and the
-- queue never exceeds its size. Of the events that were taken out and pass a test, as many have been
-- processed, or cut short by an exception or a cancellation, or are under way.
pub publisher-IsSound :
    (size : ℕ) (f : Event → Bool) {p : EventPublisher} → Reach size p → IsSound size f p
unfolding new_publisher
publisher-IsSound size f fresh = record {
  size_kept = refl;
  in_order = refl;
  bounded = inr (omega arith);
  accounted = refl;
}
publisher-IsSound size f (later r step) = Step-IsSound size f step (publisher-IsSound size f r)
