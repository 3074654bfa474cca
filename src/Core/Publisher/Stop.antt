-- ===== src/Core/Publisher/Stop.antt =====
-- What `EventPublisher.stop` (core/events.py) does with the queued events and with the task's.
use mathlib.Core.List.{append-nil, append_assoc}
use resilience4py.Prelude.{
  ◌⊎◌, inl, inr, ℕ, suc, ◌+◌, ◌≡◌, refl, sym, ap, ◌∙◌, Bool, true, false, some, List, [], ◌∷◌, ◌++◌,
  length, any_of, length-append, arith,
}
use resilience4py.Outcome.{Exception, Outcome, returned, raised, cancelled}
use resilience4py.Core.Events.{Event}
use resilience4py.Core.Publisher.{
  after_drain, EventPublisher, Worker, absent, waiting, working, finished, drain, stop, stop_begins,
  cancel_worker,
}

-- The event that the task has in `_process_event`.
abbrev pub in_flight : Worker → List Event
in_flight absent = []
in_flight waiting = []
in_flight (working e) = e ∷ []
in_flight finished = []

abbrev pub is_created : Worker → Bool
is_created absent = false
is_created waiting = true
is_created (working e) = true
is_created finished = true

returns_or_fails :
    (o : Outcome (Unit {0}))
    → (o ≡ returned tt)
      ⊎ (elim o [ returned _ ↦ false | raised _ ↦ true | cancelled ↦ true ] ≡ true)
returns_or_fails (returned _) = inl refl
returns_or_fails (raised _) = inr refl
returns_or_fails cancelled = inr refl

module _ (ends : Event → Outcome (Unit {0})) where
  abbrev pub fails : Event → Bool
  fails e = elim (ends e) [ returned _ ↦ false | raised _ ↦ true | cancelled ↦ true ]

  -- The publisher after these events have been taken out and processed, and `rest` is left.
  abbrev past : List Event → List Event → EventPublisher → EventPublisher
  past es rest p = record p { queue = rest; taken = p.taken ++ es; processed = p.processed ++ es }

  turn_passes :
      (fuel : ℕ) (x : Event) (rest : List Event) (p : EventPublisher)
      → p.queue ≡ x ∷ rest
      → fails x ≡ false
      → drain ends (suc fuel) p ≡ drain ends fuel (past (x ∷ []) rest p)
  unfolding drain
  turn_passes fuel x rest p e h = elim (returns_or_fails (ends x)) [
    | inl k ↦ rw (drain, e, k) refl
    | inr bad ↦ absurd (ground arith)
  ]

  drain-past :
      (fuel : ℕ) (es rest : List Event) (p : EventPublisher)
      → p.queue ≡ es ++ rest
      → any_of fails es ≡ false
      → drain ends (length es + fuel) p ≡ drain ends fuel (past es rest p)
  unfolding drain
  drain-past fuel [] rest p e h =
      let none_left : 0 + fuel ≡ fuel = omega arith in
      let same : p ≡ past [] rest p =
        ground (arith, e, append-nil p.taken, append-nil p.processed) in
      rw none_left (ap (drain ends fuel) same)
  drain-past fuel (x ∷ es) rest p e h =
      let q = past (x ∷ []) (es ++ rest) p in
      let turns : suc (length es) + fuel ≡ suc (length es + fuel) = omega arith in
      let same : past es rest q ≡ past (x ∷ es) rest p =
        ground (arith, append_assoc p.taken (x ∷ []) es, append_assoc p.processed (x ∷ []) es) in
      let again = drain-past fuel es rest q refl (ground arith) in
      rw turns (
        turn_passes (length es + fuel) x (es ++ rest) p e (ground arith)
        ∙ again
        ∙ ap (drain ends fuel) same)

  -- What `stop` leaves when every delivery returned.
  abbrev pub emptied : EventPublisher → EventPublisher
  emptied p = record p {
    queue = [];
    running = false;
    worker = finished;
    taken = p.taken ++ p.queue;
    processed = p.processed ++ p.queue;
    cut_short = p.cut_short ++ in_flight p.worker;
  }

  stop_created :
      (p : EventPublisher) (r : Outcome (Unit {0}) × EventPublisher)
      → is_created p.worker ≡ true
      → drain ends (suc (length p.queue)) (stop_begins p) ≡ some r
      → stop ends p ≡ some (after_drain ends r)
  unfolding stop stop_begins
  stop_created p r created h = ground (arith, created, h)

  cancel_worker-emptied :
      (p : EventPublisher)
      → is_created p.worker ≡ true
      → cancel_worker (past p.queue [] (stop_begins p)) ≡ emptied p
  unfolding cancel_worker stop_begins
  cancel_worker-emptied p created = ground (arith, created, append-nil p.cut_short)

  -- `stop` processes all queued events, in order, when each delivery returns and nothing else runs in
  -- between, and ends with an empty queue and no task. An event that the task is delivering is not among
  -- them: its delivery is cut short, and its remaining consumers are never called.
  pub stop-emptied :
      (p : EventPublisher)
      → is_created p.worker ≡ true
      → any_of fails p.queue ≡ false
      → stop ends p ≡ some (returned tt, emptied p)
  unfolding drain stop_begins
  stop-emptied p created h =
      let turns : suc (length p.queue) ≡ length p.queue + 1 = omega arith in
      let through = drain-past 1 p.queue [] (stop_begins p) (sym (append-nil p.queue)) h in
      let ran : drain ends (suc (length p.queue)) (stop_begins p)
          ≡ some (returned tt, past p.queue [] (stop_begins p)) =
        rw turns through in
      stop_created p (returned tt, past p.queue [] (stop_begins p)) created ran
      ∙ ap (λ p'. some (returned tt, p')) (cancel_worker-emptied p created)

  -- The first delivery that raises ends `stop` with its exception: the events before it have been processed,
  -- those behind it stay in the queue, and the task is not cancelled.
  pub stop-raised :
      (before after : List Event) (e : Event) (x : Exception) (p : EventPublisher)
      → is_created p.worker ≡ true
      → p.queue ≡ before ++ e ∷ after
      → any_of fails before ≡ false
      → ends e ≡ raised x
      → stop ends p
        ≡ some (
          raised x,
          record p {
            queue = after;
            running = false;
            taken = (p.taken ++ before) ++ e ∷ [];
            processed = p.processed ++ before;
            cut_short = p.cut_short ++ e ∷ [];
          },
        )
  unfolding drain stop_begins
  stop-raised before after e x p created q h r =
      let turns : suc (length p.queue) ≡ length before + suc (suc (length after)) =
        omega (arith, ap length q, length-append before (e ∷ after)) in
      let through = drain-past (suc (suc (length after))) before (e ∷ after) (stop_begins p) q h in
      let left : EventPublisher = record p {
        queue = after;
        running = false;
        taken = (p.taken ++ before) ++ e ∷ [];
        processed = p.processed ++ before;
        cut_short = p.cut_short ++ e ∷ [];
      } in
      let last : drain ends (suc (suc (length after))) (past before (e ∷ after) (stop_begins p))
          ≡ some (raised x, left) =
        rw (drain, r) refl in
      stop_created p (raised x, left) created (rw turns (through ∙ last))
