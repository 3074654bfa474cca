-- ===== src/Core/Events.antt =====
-- core/events.py: the consumers of an `EventPublisher` and the delivery of one event. Event types and
-- consumers are told apart by numbers.
pub mod Delivered
use resilience4py.Prelude.{
  ℕ, zero, suc, ◌≡◌, Bool, true, false, not, Option, none, some, List, [], ◌∷◌, ◌++◌, ◌==◌,
  if◌then◌else◌, any_of, arith,
}
use resilience4py.Outcome.{attribute_error, Outcome, returned, raised, cancelled}
use resilience4py.Registry.{lookup, store}
use resilience4py.Core.Delivery.{Acts, Delivery, entry_at, called_first}
use resilience4py.Registry.Instances.{lookup-delete}

pub record Event : Type 0 where
  pub event_type : ℕ
  pub identity : ℕ

-- `_consumers`
abbrev pub Consumers : Type 0
Consumers = List (ℕ × List ℕ)

-- `consumers.get(event_type, [])`
abbrev pub consumers_of : ℕ → Consumers → List ℕ
consumers_of t d = elim (lookup t d) [ none ↦ [] | some cs ↦ cs ]

unfoldable pub on : ℕ → ℕ → Consumers → Consumers
on t c d = store t (consumers_of t d ++ c ∷ []) d

-- `list.remove`, which takes the first occurrence out: `none` is its `ValueError`.
unfoldable pub list_remove : ℕ → List ℕ → Option (List ℕ)
list_remove c [] = none
list_remove c (x ∷ xs) =
    let rest = list_remove c xs in
    if c == x then some xs else elim rest [ none ↦ none | some ys ↦ some (x ∷ ys) ]

unfoldable pub off : ℕ → ℕ → Consumers → Consumers
unfolding list_remove
off t c d = elim (lookup t d) [
  | none ↦ d
  | some cs ↦ elim (list_remove c cs) [ none ↦ d | some left ↦ store t left d ]
]

list_remove-append :
    (c : ℕ) (cs : List ℕ) → any_of (c ==◌) cs ≡ false → list_remove c (cs ++ c ∷ []) ≡ some cs
unfolding list_remove
list_remove-append c [] h = ground arith
list_remove-append c (x ∷ xs) h = ground (arith, list_remove-append c xs)

pub lookup-store :
    (t u : ℕ) (cs : List ℕ) (d : Consumers)
    → lookup t (store u cs d) ≡ (if t == u then some cs else lookup t d)
unfolding lookup
lookup-store t u cs d = ground (arith, lookup-delete t u d)

-- To unregister a consumer that has just been registered, and was not before, leaves the consumers of every
-- event type as they were, in their order.
pub off-on :
    (t c u : ℕ) (d : Consumers)
    → any_of (c ==◌) (consumers_of t d) ≡ false
    → consumers_of u (off t c (on t c d)) ≡ consumers_of u d
unfolding on off
off-on t c u d fresh =
    let cs = consumers_of t d in
    ground (
      arith,
      lookup-store t t (cs ++ c ∷ []) d,
      list_remove-append c cs fresh,
      lookup-store u t cs (on t c d),
      lookup-store u t (cs ++ c ∷ []) d,
    )

-- Whether the loop cannot go on after a call that ends so, of a consumer that has a `__name__` or has none.
abbrev pub is_fatal : Bool → Outcome (Unit {0}) → Bool
is_fatal has_name (returned _) = false
is_fatal has_name (raised e) = not has_name
is_fatal has_name cancelled = true

-- One event's delivery. `acts` is what a consumer's call does to the registration, by itself or by others that run
-- while the loop waits for it, and how it ends, the same for each call of the consumer with the same
-- registration; `has_name` says which consumers have a `__name__`.
module _ (acts : Acts Consumers) (has_name : ℕ → Bool) where
  -- The body of the loop: the message that is logged for an `Exception` reads `consumer.__name__`.
  unfoldable pub call_consumer : ℕ → Consumers → Outcome (Unit {0}) × Consumers
  call_consumer c d =
      let (o, d') = acts c d in
      (
        elim o [
          | returned _ ↦ returned tt
          | raised e ↦ if has_name c then returned tt else raised attribute_error
          | cancelled ↦ cancelled
        ],
        d',
      )

  -- The loop over the live list of the type `t`, at index `k`: the consumers that are called, how the loop
  -- ends and the registration then. The fuel counts the turns.
  unfoldable pub deliver : ℕ → ℕ → ℕ → Consumers → Option (Delivery Consumers)
  unfolding call_consumer
  deliver t zero k d = none
  deliver t (suc fuel) k d = elim (entry_at k (consumers_of t d)) [
    | none ↦ some ([], returned tt, d)
    | some c ↦
        let (o, d') = call_consumer c d in
        elim o [
          | returned _ ↦ called_first c (deliver t fuel (suc k) d')
          | raised e ↦ some (c ∷ [], raised e, d')
          | cancelled ↦ some (c ∷ [], cancelled, d')
        ]
  ]

  -- `_process_event`
  unfoldable pub process_event : ℕ → Event → Consumers → Option (Delivery Consumers)
  unfolding deliver
  process_event fuel e d = deliver e.event_type fuel 0 d
