-- ===== src/Bulkhead/Balance.antt =====
-- What a bulkhead guarantees for any number of calls that overlap, whichever of the two it is.
use resilience4py.Prelude.{
  ℕ, suc, ◌+◌, ◌≡◌, refl, ◌≤◌, ◌<◌, Bool, true, false, some, none, [], ◌∷◌, ◌++◌, arith,
  Option-cases, Bool-cases, inl, inr, ◌⊎◌, count_if, count_if-append, ltb,
}
use resilience4py.Outcome.{Outcome, raised, bulkhead_full}
use resilience4py.Bulkhead.Permits.{
  Permits, Bulkhead, IsBalanced, BulkheadEvent, on_call_permitted_event, on_call_rejected_event,
  on_call_finished_event, new_permits, on_call_permitted,
}
use resilience4py.Bulkhead.Execute.{begin_call, wait_cancelled, finish_call, execute}

pub new_permits-IsBalanced : (c : ℕ) → IsBalanced 0 (new_permits c)
unfolding new_permits
new_permits-IsBalanced c = ground arith

module _ (b : Bulkhead) where
  pub begin_call-none :
      (late : Bool) (p : Permits) → begin_call b late p ≡ none → b.acquire_permission late p ≡ none
  unfolding begin_call
  begin_call-none late p e = ground arith

  pub begin_call-admitted :
      (late : Bool) (n : ℕ) (p q : Permits)
      → IsBalanced n p
      → begin_call b late p ≡ some (true, q)
      → (n < p.capacity)
        × IsBalanced (suc n) q
        × (q.published ≡ p.published ++ on_call_permitted_event ∷ [])
        × (q.capacity ≡ p.capacity)
        × (q.metrics_initialized ≡ true)
  unfolding begin_call
  begin_call-admitted late n p q h e = elim (Option-cases (b.acquire_permission late p)) [
    | inl waits ↦ ground (arith, waits)
    | inr ((true, r), took) ↦ let g = b.granted_law late n p r h took in ground (arith, g)
    | inr ((false, r), took) ↦ ground (arith, took)
  ]

  pub begin_call-refused :
      (late : Bool) (n : ℕ) (p q : Permits)
      → IsBalanced n p
      → begin_call b late p ≡ some (false, q)
      → IsBalanced n q
        × (q.published ≡ p.published ++ on_call_rejected_event ∷ [])
        × (q.capacity ≡ p.capacity)
        × (q.metrics_initialized ≡ true)
  unfolding begin_call
  begin_call-refused late n p q h e = elim (Option-cases (b.acquire_permission late p)) [
    | inl waits ↦ ground (arith, waits)
    | inr ((true, r), took) ↦ ground (arith, took)
    | inr ((false, r), took) ↦ let g = b.refused_law late n p r h took in ground (arith, g)
  ]

  -- With a free permit, a call that does not time out is admitted at once.
  pub begin_call_room :
      (n : ℕ) (p : Permits)
      → IsBalanced n p
      → n < p.capacity
      → (q : Permits) × (begin_call b false p ≡ some (true, q))
  unfolding begin_call
  begin_call_room n p h room =
      let (q, took) = b.free_law n p h room in (on_call_permitted q, ground (arith, took))

  refused_why :
      (late : Bool) (n : ℕ) (p q : Permits)
      → IsBalanced n p
      → begin_call b late p ≡ some (false, q)
      → (late ≡ true) ⊎ (p.capacity ≤ n)
  refused_why true n p q h e = inl refl
  refused_why false n p q h e = elim (Bool-cases (ltb n p.capacity)) [
    | inl room ↦ let (r, took) = begin_call_room n p h (ground arith) in ground (arith, took)
    | inr full ↦ inr (ground arith)
  ]

  -- A call that is answered is either admitted, while fewer calls are running than the bulkhead has
  -- permits, and is then counted, or refused, because it timed out or all permits are taken, and then takes
  -- no permit. Either way the answer is published.
  pub begin_call_lem :
      (late admitted : Bool) (n : ℕ) (p q : Permits)
      → IsBalanced n p
      → begin_call b late p ≡ some (admitted, q)
      → (admitted ≡ true)
          × (n < p.capacity)
          × IsBalanced (suc n) q
          × (q.published ≡ p.published ++ on_call_permitted_event ∷ [])
        ⊎ (admitted ≡ false)
          × ((late ≡ true) ⊎ (p.capacity ≤ n))
          × IsBalanced n q
          × (q.published ≡ p.published ++ on_call_rejected_event ∷ [])
  begin_call_lem late true n p q h e =
      let g = begin_call-admitted late n p q h e in inl (refl, g.0, g.1, g.2)
  begin_call_lem late false n p q h e =
      let g = begin_call-refused late n p q h e in inr (refl, refused_why late n p q h e, g.0, g.1)

pub finish_call-IsBalanced :
    (n : ℕ) (p : Permits)
    → IsBalanced (suc n) p
    → p.metrics_initialized ≡ true
    → IsBalanced n (finish_call p)
      × ((finish_call p).capacity ≡ p.capacity)
      × ((finish_call p).metrics_initialized ≡ true)
      × ((finish_call p).published ≡ p.published ++ on_call_finished_event ∷ [])
unfolding finish_call
finish_call-IsBalanced n p h i = ground arith

-- A bulkhead with the number of calls that hold a permit, and what may happen to it, in any order: calls
-- are admitted, refused, or end, or are cancelled while they wait.
pub data Step (b : Bulkhead) : ℕ → Permits → ℕ → Permits → Type 0 where
  admits :
      {n : ℕ} {p q : Permits} (late : Bool)
      → begin_call b late p ≡ some (true, q)
      → Step b n p (suc n) q
  refuses :
      {n : ℕ} {p q : Permits} (late : Bool) → begin_call b late p ≡ some (false, q) → Step b n p n q
  ends : (n : ℕ) (p : Permits) → Step b (suc n) p n (finish_call p)
  gives_up :
      {n : ℕ} {p : Permits} (late : Bool)
      → begin_call b late p ≡ none
      → Step b n p n (wait_cancelled p)

pub data Reach (b : Bulkhead) (c : ℕ) : ℕ → Permits → Type 0 where
  here : Reach b c 0 (new_permits c)
  next : {n m : ℕ} {p q : Permits} → Reach b c n p → Step b n p m q → Reach b c m q

abbrev pub is_permitted : BulkheadEvent → Bool
is_permitted on_call_permitted_event = true
is_permitted _ = false

abbrev pub is_finished : BulkheadEvent → Bool
is_finished on_call_finished_event = true
is_finished _ = false

-- What holds between any two steps.
pub record IsSound (c n : ℕ) (p : Permits) : Type 0 where
  pub balanced : IsBalanced n p
  pub capacity_kept : p.capacity ≡ c
  pub in_use : (n ≡ 0) ⊎ (p.metrics_initialized ≡ true)
  pub accounted : count_if is_permitted p.published ≡ count_if is_finished p.published + n

pub wait_cancelled-IsSound :
    {c n : ℕ} {p : Permits} → IsSound c n p → IsSound c n (wait_cancelled p)
unfolding wait_cancelled
wait_cancelled-IsSound h = ground (arith, h)

module _ (b : Bulkhead) (c : ℕ) where
  pub Step-IsSound : {n m : ℕ} {p q : Permits} → Step b n p m q → IsSound c n p → IsSound c m q
  Step-IsSound {n} {p = p} {q = q} (admits late e) h =
      let g = begin_call-admitted b late n p q h.balanced e in
      ground (
        arith,
        g,
        h,
        count_if-append is_permitted p.published (on_call_permitted_event ∷ []),
        count_if-append is_finished p.published (on_call_permitted_event ∷ []),
      )
  Step-IsSound {n} {p = p} {q = q} (refuses late e) h =
      let g = begin_call-refused b late n p q h.balanced e in
      ground (
        arith,
        g,
        h,
        count_if-append is_permitted p.published (on_call_rejected_event ∷ []),
        count_if-append is_finished p.published (on_call_rejected_event ∷ []),
      )
  Step-IsSound (ends n p) h =
      let s = finish_call-IsBalanced n p h.balanced (ground (arith, h)) in
      ground (
        arith,
        s,
        h,
        count_if-append is_permitted p.published (on_call_finished_event ∷ []),
        count_if-append is_finished p.published (on_call_finished_event ∷ []),
      )
  Step-IsSound (gives_up late e) h = wait_cancelled-IsSound h

  pub new_permits-IsSound : IsSound c 0 (new_permits c)
  unfolding new_permits
  new_permits-IsSound = ground arith

  -- Whatever calls come and go, the bulkhead and its books agree: the free permits and the running calls
  -- make up the capacity that it was built with, the metrics report the free permits, and the published
  -- admissions are the published ends and the calls that still run.
  pub Reach-IsSound : {n : ℕ} {p : Permits} → Reach b c n p → IsSound c n p
  Reach-IsSound here = new_permits-IsSound
  Reach-IsSound (next r s) = Step-IsSound s (Reach-IsSound r)

  -- At no time do more calls run than the bulkhead was built for.
  pub Reach-le-capacity : {n : ℕ} {p : Permits} → Reach b c n p → n ≤ c
  Reach-le-capacity r =
      let h = Reach-IsSound r in omega (arith, h.balanced.conserved, h.capacity_kept)

module _ {A : Type 0} (b : Bulkhead) where
  -- A call that runs by itself gives back what it took, however its function ends, a cancellation included:
  -- afterwards as many permits are free as before. Either a permit was free and its result is the
  -- function's, or it timed out or all permits were taken, and its result is `BulkheadFullException`.
  pub execute-IsBalanced :
      (late : Bool) (o r : Outcome A) (n : ℕ) (p q : Permits)
      → IsBalanced n p
      → execute b late o p ≡ some (r, q)
      → IsBalanced n q
        × ((n < p.capacity) × (r ≡ o)
            ⊎ ((late ≡ true) ⊎ (p.capacity ≤ n)) × (r ≡ raised bulkhead_full))
  unfolding execute
  execute-IsBalanced late o r n p q h e = elim (Option-cases (begin_call b late p)) [
    | inl waits ↦ ground (arith, waits)
    | inr ((true, m), went) ↦
        let g = begin_call-admitted b late n p m h went in
        let f = finish_call-IsBalanced n m g.1 g.4 in
        (ground (arith, went, f), inl (ground (arith, g), ground (arith, went)))
    | inr ((false, m), went) ↦
        let g = begin_call-refused b late n p m h went in
        (ground (arith, went, g), inr (refused_why b late n p m h went, ground (arith, went)))
  ]
