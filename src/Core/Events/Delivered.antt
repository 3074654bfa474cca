-- ===== src/Core/Events/Delivered.antt =====
-- What `_process_event` of core/events.py does with consumers that leave the registration alone.
use mathlib.Core.List.{append-nil, append_assoc}
use resilience4py.Prelude.{
  ℕ, zero, suc, ◌≡◌, ◌<◌, refl, ap, sym, ◌∙◌, ◌⊎◌, inl, inr, Bool, true, false, Option, none, some,
  List, [], ◌∷◌, ◌++◌, any_of, arith, Bool-cases, length, length-append,
}
use resilience4py.Outcome.{Outcome, returned, raised, cancelled}
use resilience4py.Core.Delivery.{Acts, Delivery, entry_at, called_first, entry_at-append}
use resilience4py.Core.Events.{
  Event, Consumers, consumers_of, is_fatal, call_consumer, deliver, process_event,
}

entry_at_end : (xs : List ℕ) → entry_at (length xs) xs ≡ none
unfolding entry_at
entry_at_end [] = refl
entry_at_end (x ∷ xs) = entry_at_end xs

module _ (acts : Acts Consumers) (has_name : ℕ → Bool) (d : Consumers) where
  -- These consumers leave the registration `d` as it is.
  abbrev pub AllLeave : List ℕ → Type 0
  AllLeave [] = Unit
  AllLeave (c ∷ cs) = ((acts c d).1 ≡ d) × AllLeave cs

  abbrev pub stops_at : ℕ → Bool
  stops_at c = is_fatal (has_name c) (acts c d).0

  -- How a delivery to these consumers goes: all are called, or those up to the first fatal one.
  abbrev pub DeliveredTo : List ℕ → List ℕ × Outcome (Unit {0}) → Type 0
  DeliveredTo cs r =
      (any_of stops_at cs ≡ false) × (r ≡ (cs, returned tt))
      ⊎ (before : List ℕ) × (c : ℕ) × (after : List ℕ) × (cs ≡ before ++ c ∷ after)
        × (any_of stops_at before ≡ false)
        × (stops_at c ≡ true)
        × (r ≡ (before ++ c ∷ [], (call_consumer acts has_name c d).0))

  -- A delivery that ends so and leaves the registration.
  abbrev Delivers : List ℕ → Option (Delivery Consumers) → Type 0
  Delivers cs r =
      (called : List ℕ) × (o : Outcome (Unit {0})) × (r ≡ some (called, o, d))
      × DeliveredTo cs (called, o)

  fatal_turn :
      (t fuel k c : ℕ) (o : Outcome (Unit {0}))
      → entry_at k (consumers_of t d) ≡ some c
      → acts c d ≡ (o, d)
      → is_fatal (has_name c) o ≡ true
      → deliver acts has_name t (suc fuel) k d
        ≡ some (c ∷ [], (call_consumer acts has_name c d).0, d)
  unfolding deliver call_consumer
  fatal_turn t fuel k c (returned _) e a fatal = ground arith
  fatal_turn t fuel k c (raised x) e a fatal = ground (arith, e, a, fatal)
  fatal_turn t fuel k c cancelled e a fatal = ground (arith, e, a, fatal)

  passing_turn :
      (t fuel k c : ℕ) (o : Outcome (Unit {0}))
      → entry_at k (consumers_of t d) ≡ some c
      → acts c d ≡ (o, d)
      → is_fatal (has_name c) o ≡ false
      → deliver acts has_name t (suc fuel) k d
        ≡ called_first c (deliver acts has_name t fuel (suc k) d)
  unfolding deliver call_consumer
  passing_turn t fuel k c (returned _) e a passes = ground (arith, e, a, passes)
  passing_turn t fuel k c (raised x) e a passes = ground (arith, e, a, passes)
  passing_turn t fuel k c cancelled e a passes = ground arith

  Delivers-cons :
      (c : ℕ) (cs : List ℕ) (r : Option (Delivery Consumers))
      → stops_at c ≡ false
      → Delivers cs r
      → Delivers (c ∷ cs) (called_first c r)
  Delivers-cons c cs r passes (called, o, e, inl (none_fatal, all)) =
      (c ∷ called, o, ap (called_first c) e, inl (ground arith, ground arith))
  Delivers-cons c cs r passes (called, o, e, inr (before, f, after, split, quiet, fatal, all)) = (
    c ∷ called,
    o,
    ap (called_first c) e,
    inr (c ∷ before, f, after, ground arith, ground arith, fatal, ground arith),
  )

  deliver_lem :
      (t fuel : ℕ) (done cs : List ℕ)
      → consumers_of t d ≡ done ++ cs
      → length cs < fuel
      → AllLeave cs
      → Delivers cs (deliver acts has_name t fuel (length done) d)
  unfolding deliver
  deliver_lem t zero done cs e enough alone = absurd (omega arith)
  deliver_lem t (suc fuel) done [] e enough alone =
      let all : consumers_of t d ≡ done = e ∙ append-nil done in
      let over : entry_at (length done) (consumers_of t d) ≡ none =
        ap (entry_at (length done)) all ∙ entry_at_end done in
      ([], returned tt, rw (deliver, over) refl, inl (refl, refl))
  deliver_lem t (suc fuel) done (c ∷ cs) e enough (kept, alone) =
      let o = (acts c d).0 in
      let here : entry_at (length done) (consumers_of t d) ≡ some c =
        ap (entry_at (length done)) e ∙ entry_at-append done c cs in
      let acted : acts c d ≡ (o, d) = ap (λ d'. (o, d')) kept in
      elim (Bool-cases (stops_at c)) [
        | inl fatal ↦ (
          c ∷ [],
          (call_consumer acts has_name c d).0,
          fatal_turn t fuel (length done) c o here acted fatal,
          inr ([], c, cs, refl, refl, fatal, refl),
        )
        | inr passes ↦
            let size : length (done ++ c ∷ []) ≡ suc (length done) =
              omega (arith, length-append done (c ∷ [])) in
            let rest : Delivers cs (deliver acts has_name t fuel (length (done ++ c ∷ [])) d) =
              deliver_lem t fuel (done ++ c ∷ []) cs (e ∙ sym (append_assoc done (c ∷ []) cs))
                (omega arith) alone in
            let rest' : Delivers cs (deliver acts has_name t fuel (suc (length done)) d) =
              rw size at rest in
            rw (passing_turn t fuel (length done) c o here acted passes)
              (Delivers-cons c cs _ passes rest')
      ]

  -- If no consumer of the event's type changes the registration, and nothing else does meanwhile, the delivery
  -- returns after at most one turn for each of them and one more, and every consumer is called once, in the
  -- order of registration, whichever of them raise; but it stops at one that is cancelled, and at one that
  -- raises and has no `__name__`, with the `AttributeError` of the log message.
  pub process_event-DeliveredTo :
      (e : Event) (fuel : ℕ)
      → AllLeave (consumers_of e.event_type d)
      → length (consumers_of e.event_type d) < fuel
      → (called : List ℕ) × (o : Outcome (Unit {0})) × (process_event acts has_name fuel e d
          ≡ some (called, o, d))
        × DeliveredTo (consumers_of e.event_type d) (called, o)
  unfolding process_event
  process_event-DeliveredTo e fuel alone enough =
      deliver_lem e.event_type fuel [] (consumers_of e.event_type d) refl enough alone
