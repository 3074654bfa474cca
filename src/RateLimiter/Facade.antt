-- ===== src/RateLimiter/Facade.antt =====
-- `RateLimiter` of ratelimiter/rate_limiter.py, which holds a limiter of the registry and the listeners that
-- wait for it, and the listeners of ratelimiter/atomic_rate_limiter.py. The listeners of a limiter are kept by
-- its identity. Event types, listeners and names are numbers.
use mathlib.Core.List.{append-nil, append_assoc}
use resilience4py.Prelude.{
  ℕ, ◌≡◌, refl, sym, ap, ◌∙◌, Bool, true, false, Option, none, some, List, [], ◌∷◌, ◌++◌, ◌==◌,
  if◌then◌else◌, arith,
}
use resilience4py.RateLimiter.Limiter.{RateLimiterConfig}
use resilience4py.RateLimiter.Registered.{LimiterRegistry, get_or_create_limiter}
use resilience4py.Registry.{lookup, store, delete, Instance}
use resilience4py.Core.Events.{Consumers, consumers_of, list_remove, lookup-store}

-- `AtomicRateLimiter.add_event_listener`
unfoldable pub add_event_listener : ℕ → ℕ → Consumers → Consumers
add_event_listener t l d = store t (consumers_of t d ++ l ∷ []) d

-- `AtomicRateLimiter.remove_event_listener`, which drops the entry of a type that has no listener left.
unfoldable pub remove_limiter_listener : ℕ → ℕ → Consumers → Bool × Consumers
remove_limiter_listener t l d = elim (list_remove l (consumers_of t d)) [
  | none ↦ (false, d)
  | some [] ↦ (true, delete t d)
  | some (x ∷ xs) ↦ (true, store t (x ∷ xs) d)
]

-- The registry and the listeners of its limiters.
pub record Shared : Type 0 where
  pub registry : LimiterRegistry
  pub attached : List (ℕ × Consumers)

abbrev pub attached_to : ℕ → Shared → Consumers
attached_to i s = elim (lookup i s.attached) [ none ↦ [] | some d ↦ d ]

abbrev pub attach : ℕ → ℕ → ℕ → Shared → Shared
attach i t l s = record s {
  attached = store i (add_event_listener t l (attached_to i s)) s.attached;
}

pub record RateLimiter : Type 0 where
  pub name : ℕ
  pub config : Option RateLimiterConfig
  pub atomic_limiter : Option (Instance RateLimiterConfig)
  pub pending_listeners : List (ℕ × ℕ)

unfoldable pub new_rate_limiter : ℕ → Option RateLimiterConfig → RateLimiter
new_rate_limiter name config = record {
  name = name;
  config = config;
  atomic_limiter = none;
  pending_listeners = [];
}

unfoldable pub flush : ℕ → List (ℕ × ℕ) → Shared → Shared
flush i [] s = s
flush i ((t, l) ∷ rest) s = flush i rest (attach i t l s)

-- `_get_limiter`
unfoldable pub get_limiter :
    RateLimiter → Shared → Instance RateLimiterConfig × RateLimiter × Shared
unfolding flush
get_limiter f s = elim f.atomic_limiter [
  | some i ↦ (i, f, s)
  | none ↦
      let (i, r) = get_or_create_limiter f.name f.config s.registry in
      (
        i,
        record f { atomic_limiter = some i },
        flush i.identity f.pending_listeners (record s { registry = r }),
      )
]

-- `RateLimiter.add_event_listener`
unfoldable pub listen : ℕ → ℕ → RateLimiter → Shared → RateLimiter × Shared
listen t l f s =
    let f' = record f { pending_listeners = f.pending_listeners ++ (t, l) ∷ [] } in
    elim f.atomic_limiter [ none ↦ (f', s) | some i ↦ (f', attach i.identity t l s) ]

abbrev pub listen_all : List (ℕ × ℕ) → RateLimiter × Shared → RateLimiter × Shared
listen_all [] fs = fs
listen_all ((t, l) ∷ rest) (f, s) = listen_all rest (listen t l f s)

-- The listeners of one type, in their order.
abbrev pub of_type : ℕ → List (ℕ × ℕ) → List ℕ
of_type u [] = []
of_type u ((t, l) ∷ rest) = let others = of_type u rest in if u == t then l ∷ others else others

of_type-cons :
    (u t l : ℕ) (rest : List (ℕ × ℕ))
    → of_type u ((t, l) ∷ []) ++ of_type u rest ≡ of_type u ((t, l) ∷ rest)
of_type-cons u t l rest = ground arith

of_type-append :
    (u : ℕ) (xs ys : List (ℕ × ℕ)) → of_type u (xs ++ ys) ≡ of_type u xs ++ of_type u ys
of_type-append u [] ys = refl
of_type-append u ((t, l) ∷ xs) ys = ground (arith, of_type-append u xs ys)

consumers_of-add_event_listener :
    (u t l : ℕ) (d : Consumers)
    → consumers_of u (add_event_listener t l d) ≡ consumers_of u d ++ of_type u ((t, l) ∷ [])
unfolding add_event_listener
consumers_of-add_event_listener u t l d =
    ground (arith, lookup-store u t (consumers_of t d ++ l ∷ []) d, append-nil (consumers_of u d))

attached_to-attach :
    (i t l : ℕ) (s : Shared)
    → attached_to i (attach i t l s) ≡ add_event_listener t l (attached_to i s)
unfolding lookup
attached_to-attach i t l s = ground arith

-- To attach one listener more, before the others.
attach_lem :
    (i t l u : ℕ) (rest : List (ℕ × ℕ)) (s : Shared)
    → consumers_of u (attached_to i (attach i t l s)) ++ of_type u rest
      ≡ consumers_of u (attached_to i s) ++ of_type u ((t, l) ∷ rest)
attach_lem i t l u rest s =
    ap (λ d. consumers_of u d ++ of_type u rest) (attached_to-attach i t l s)
    ∙ ap (◌++ of_type u rest) (consumers_of-add_event_listener u t l (attached_to i s))
    ∙ append_assoc (consumers_of u (attached_to i s)) (of_type u ((t, l) ∷ [])) (of_type u rest)
    ∙ ap (consumers_of u (attached_to i s) ++◌) (of_type-cons u t l rest)

flush_lem :
    (i u : ℕ) (ls : List (ℕ × ℕ)) (s : Shared)
    → consumers_of u (attached_to i (flush i ls s))
      ≡ consumers_of u (attached_to i s) ++ of_type u ls
unfolding flush
flush_lem i u [] s = sym (append-nil (consumers_of u (attached_to i s)))
flush_lem i u ((t, l) ∷ rest) s = flush_lem i u rest (attach i t l s) ∙ attach_lem i t l u rest s

-- Before the first use listeners only wait.
listen_all-pending :
    (ls : List (ℕ × ℕ)) (f : RateLimiter) (s : Shared)
    → f.atomic_limiter ≡ none
    → listen_all ls (f, s) ≡ (record f { pending_listeners = f.pending_listeners ++ ls }, s)
unfolding listen
listen_all-pending [] f s e =
    ap (λ ls. (record f { pending_listeners = ls }, s)) (sym (append-nil f.pending_listeners))
listen_all-pending ((t, l) ∷ rest) f s e =
    let f' = record f { pending_listeners = f.pending_listeners ++ (t, l) ∷ [] } in
    let waits : listen t l f s ≡ (f', s) = ground (arith, e) in
    ap (listen_all rest) waits
    ∙ listen_all-pending rest f' s e
    ∙ ap (λ ls. (record f { pending_listeners = ls }, s))
        (append_assoc f.pending_listeners ((t, l) ∷ []) rest)

listen_all-attached :
    (u : ℕ) (ls : List (ℕ × ℕ)) (i : Instance RateLimiterConfig) (f : RateLimiter) (s : Shared)
    → f.atomic_limiter ≡ some i
    → consumers_of u (attached_to i.identity (listen_all ls (f, s)).1)
      ≡ consumers_of u (attached_to i.identity s) ++ of_type u ls
unfolding listen
listen_all-attached u [] i f s e = sym (append-nil (consumers_of u (attached_to i.identity s)))
listen_all-attached u ((t, l) ∷ rest) i f s e =
    let f' = record f { pending_listeners = f.pending_listeners ++ (t, l) ∷ [] } in
    let attaches : listen t l f s ≡ (f', attach i.identity t l s) = ground (arith, e) in
    ap (λ fs. consumers_of u (attached_to i.identity (listen_all rest fs).1)) attaches
    ∙ listen_all-attached u rest i f' (attach i.identity t l s) e
    ∙ attach_lem i.identity t l u rest s

get_limiter-attached :
    (u : ℕ) (f : RateLimiter) (s : Shared)
    → f.atomic_limiter ≡ none
    → let (i, f', s') = get_limiter f s in
      (f'.atomic_limiter ≡ some i)
      × (consumers_of u (attached_to i.identity s')
          ≡ consumers_of u (attached_to i.identity s) ++ of_type u f.pending_listeners)
unfolding get_limiter
get_limiter-attached u f s e =
    let (i, r) = get_or_create_limiter f.name f.config s.registry in
    rw e (refl, flush_lem i.identity u f.pending_listeners (record s { registry = r }))

-- The listeners that are registered with a rate limiter before its first use and after it are those of its
-- underlying limiter, for each event type in the order of their registration, behind those that others
-- registered there before.
pub listen_all_lem :
    (name u : ℕ) (config : Option RateLimiterConfig) (before after : List (ℕ × ℕ)) (s : Shared)
    → let fs = listen_all before (new_rate_limiter name config, s) in
      let used = get_limiter fs.0 fs.1 in
      let s' = (listen_all after (used.1, used.2)).1 in
      consumers_of u (attached_to used.0.identity s')
      ≡ consumers_of u (attached_to used.0.identity s) ++ of_type u (before ++ after)
unfolding new_rate_limiter
listen_all_lem name u config before after s =
    let f = record (new_rate_limiter name config) { pending_listeners = before } in
    let (i, f', s') = get_limiter f s in
    let (held, flushed) = get_limiter-attached u f s refl in
    rw (listen_all-pending before (new_rate_limiter name config) s refl) (
      listen_all-attached u after i f' s' held
      ∙ ap (◌++ of_type u after) flushed
      ∙ append_assoc (consumers_of u (attached_to i.identity s)) (of_type u before)
          (of_type u after)
      ∙ ap (consumers_of u (attached_to i.identity s) ++◌) (sym (of_type-append u before after)))
