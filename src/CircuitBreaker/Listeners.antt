-- ===== src/CircuitBreaker/Listeners.antt =====
-- The listeners of circuitbreaker/circuit_breaker.py: `on_event`, `remove_event_listener` and the loop of
-- `_publish_event`, which runs over the registered list itself.
use mathlib.Core.List.{append_assoc}
use resilience4py.Prelude.{
  ◌≢◌, Option-cases, ℕ, suc, ◌+◌, ◌≡◌, refl, sym, ap, ◌∙◌, false, inl, inr, Option, none, some,
  List, [], ◌∷◌, ◌++◌, ◌==◌, length, any_of, length-append, arith,
}
use resilience4py.Outcome.{value_error, Outcome, returned, raised}
use resilience4py.Registry.{lookup, store}
use resilience4py.Core.Delivery.{
  entry_at, Acts, Delivery, called_first, called_all, called_all-some, entry_at-append,
  is_cancelled, deliver_from, AllLeaveAlone, turn, deliver_from-through, deliver_from-rest,
}
use resilience4py.Core.Events.{lookup-store, Consumers, consumers_of, list_remove}

unfoldable pub on_event : ℕ → ℕ → Consumers → Consumers
on_event t l d = store t (consumers_of t d ++ l ∷ []) d

-- `list.remove` raises a `ValueError` where the listener is not registered for a known type.
unfoldable pub remove_event_listener : ℕ → ℕ → Consumers → Outcome (Unit {0}) × Consumers
unfolding list_remove
remove_event_listener t l d = elim (lookup t d) [
  | none ↦ (returned tt, d)
  | some ls ↦ elim (list_remove l ls) [
    | none ↦ (raised value_error, d)
    | some left ↦ (returned tt, store t left d)
  ]
]

-- `_publish_event`
unfoldable pub publish_to_listeners :
    Acts Consumers → ℕ → ℕ → Consumers → Option (Delivery Consumers)
publish_to_listeners acts t fuel d = deliver_from (consumers_of t) acts fuel 0 d

list_remove_at :
    (l : ℕ) (before after : List ℕ)
    → any_of (l ==◌) before ≡ false
    → list_remove l (before ++ l ∷ after) ≡ some (before ++ after)
unfolding list_remove
list_remove_at l [] after h = ground arith
list_remove_at l (x ∷ before) after h = ground (arith, list_remove_at l before after)

list_remove_none : (l : ℕ) (before after : List ℕ) → [] ≢ before ++ l ∷ after
list_remove_none l [] after e = ground (arith, e)
list_remove_none l (x ∷ before) after e = ground (arith, e)

module _ (acts : Acts Consumers) (t : ℕ) where
  remove_event_listener_lem :
      (l : ℕ) (before after : List ℕ) (d : Consumers)
      → consumers_of t d ≡ before ++ l ∷ after
      → any_of (l ==◌) before ≡ false
      → ((remove_event_listener t l d).0 ≡ returned tt)
        × (consumers_of t (remove_event_listener t l d).1 ≡ before ++ after)
  unfolding remove_event_listener
  remove_event_listener_lem l before after d e new = elim (Option-cases (lookup t d)) [
    | inl unknown ↦ absurd (list_remove_none l before after (ground (arith, e, unknown)))
    | inr (ls, k) ↦
        let taken : list_remove l ls ≡ some (before ++ after) =
          ground (arith, e, k, list_remove_at l before after new) in
        ground (arith, k, taken, lookup-store t t (before ++ after) d)
  ]

  -- Listeners that do not touch the registration are called once each, in the order of registration,
  -- whichever of them raise.
  pub publish_to_listeners-all :
      (d : Consumers)
      → AllLeaveAlone (consumers_of t) acts (consumers_of t d)
      → publish_to_listeners acts t (length (consumers_of t d) + 1) d
        ≡ some (consumers_of t d, returned tt, d)
  unfolding publish_to_listeners
  publish_to_listeners-all d h =
      deliver_from-rest (consumers_of t) acts [] (consumers_of t d) d refl h

  -- A listener that unregisters itself when it is called makes the delivery skip the one that is registered after
  -- it: the others are called, and that one is not, although it is registered before and after.
  pub publish_to_listeners_skips :
      (before after : List ℕ) (l skipped : ℕ) (d : Consumers)
      → consumers_of t d ≡ before ++ l ∷ skipped ∷ after
      → any_of (l ==◌) before ≡ false
      → acts l d ≡ remove_event_listener t l d
      → AllLeaveAlone (consumers_of t) acts before
      → AllLeaveAlone (consumers_of t) acts after
      → let d' = (remove_event_listener t l d).1 in
        (publish_to_listeners acts t (length before + suc (length after + 1)) d
          ≡ some (before ++ l ∷ after, returned tt, d'))
        × (consumers_of t d' ≡ before ++ skipped ∷ after)
  unfolding publish_to_listeners
  publish_to_listeners_skips before after l skipped d e new removes quiet quiet' =
      let d' = (remove_event_listener t l d).1 in
      let (returns, left) = remove_event_listener_lem l before (skipped ∷ after) d e new in
      let fuel = length after + 1 in
      let here : entry_at (length before) (consumers_of t d) ≡ some l =
        ap (entry_at (length before)) e ∙ entry_at-append before l (skipped ∷ after) in
      let passes : is_cancelled (acts l d).0 ≡ false = rw (removes, returns) refl in
      let size : suc (length before) ≡ length (before ++ skipped ∷ []) =
        omega (arith, length-append before (skipped ∷ [])) in
      let rest =
        deliver_from-rest (consumers_of t) acts (before ++ skipped ∷ []) after d'
          (left ∙ sym (append_assoc before (skipped ∷ []) after)) quiet' in
      (
        deliver_from-through (consumers_of t) acts (suc fuel) [] before (l ∷ skipped ∷ after) d e
              quiet
            ∙ ap (called_all before) (
                turn (consumers_of t) acts fuel (length before) l d here passes
                ∙ ap
                    (λ r.
                      called_first l
                        (deliver_from (consumers_of t) acts fuel (suc (length before)) r.1))
                    removes
                ∙ ap (λ k. called_first l (deliver_from (consumers_of t) acts fuel k d')) size
                ∙ ap (called_first l) rest)
            ∙ called_all-some before (l ∷ after) (returned tt) d',
        left,
      )
