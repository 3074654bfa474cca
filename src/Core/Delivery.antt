-- ===== src/Core/Delivery.antt =====
-- The loop `for handler in handlers`, with a `try` around each call, that circuitbreaker/circuit_breaker.py, the
-- bulkheads and retry/retry.py share. It runs over the registered list itself, by index, so that what a handler
-- does to the registration meanwhile counts.
pub mod Growing
use mathlib.Core.List.{append-nil, append_assoc}
use resilience4py.Prelude.{
  ℕ, zero, suc, ◌+◌, ◌≡◌, refl, sym, ap, ◌∙◌, Bool, true, false, Option, none, some, List, [], ◌∷◌,
  ◌++◌, length, length-append, arith,
}
use resilience4py.Outcome.{Outcome, returned, raised, cancelled}

-- The entry that an index names, if there is one.
unfoldable pub entry_at : ℕ → List ℕ → Option ℕ
entry_at k [] = none
entry_at zero (x ∷ xs) = some x
entry_at (suc k) (x ∷ xs) = entry_at k xs

-- How a handler's call ends, and the registration that it leaves.
abbrev pub Acts : Type 0 → Type 0
Acts D = ℕ → D → Outcome (Unit {0}) × D

-- The handlers that are called, how the delivery ends and the registration that it leaves.
abbrev pub Delivery : Type 0 → Type 0
Delivery D = List ℕ × Outcome (Unit {0}) × D

pub entry_at-append :
    (xs : List ℕ) (y : ℕ) (ys : List ℕ) → entry_at (length xs) (xs ++ y ∷ ys) ≡ some y
unfolding entry_at
entry_at-append [] y ys = refl
entry_at-append (x ∷ xs) y ys = entry_at-append xs y ys

entry_at_end : (xs : List ℕ) → entry_at (length xs) xs ≡ none
unfolding entry_at
entry_at_end [] = refl
entry_at_end (x ∷ xs) = entry_at_end xs

abbrev pub is_cancelled : Outcome (Unit {0}) → Bool
is_cancelled (returned _) = false
is_cancelled (raised _) = false
is_cancelled cancelled = true

module _ {D : Type 0} where
  abbrev pub called_first : ℕ → Option (Delivery D) → Option (Delivery D)
  called_first l none = none
  called_first l (some (called, o, d)) = some (l ∷ called, o, d)

  abbrev pub called_all : List ℕ → Option (Delivery D) → Option (Delivery D)
  called_all [] r = r
  called_all (l ∷ ls) r = called_first l (called_all ls r)

  pub called_all-some :
      (ls called : List ℕ) (o : Outcome (Unit {0})) (d : D)
      → called_all ls (some (called, o, d)) ≡ some (ls ++ called, o, d)
  called_all-some [] called o d = refl
  called_all-some (l ∷ ls) called o d = ap (called_first l) (called_all-some ls called o d)

-- `listed` are the handlers that the loop runs over.
module _ {D : Type 0} (listed : D → List ℕ) (acts : Acts D) where
  -- The loop at index `k`. The fuel counts the turns, of which there is no bound where handlers keep
  -- registering others.
  unfoldable pub deliver_from : ℕ → ℕ → D → Option (Delivery D)
  unfolding entry_at
  deliver_from zero k d = none
  deliver_from (suc fuel) k d = elim (entry_at k (listed d)) [
    | none ↦ some ([], returned tt, d)
    | some l ↦
        let (o, d') = acts l d in
        elim o [
          | returned _ ↦ called_first l (deliver_from fuel (suc k) d')
          | raised _ ↦ called_first l (deliver_from fuel (suc k) d')
          | cancelled ↦ some (l ∷ [], cancelled, d')
        ]
  ]

  -- These leave the registration alone, whether they return or raise, and are not cancelled.
  abbrev pub AllLeaveAlone : List ℕ → Type 0
  AllLeaveAlone [] = Unit
  AllLeaveAlone (l ∷ ls) =
      ((d : D) → ((acts l d).1 ≡ d) × (is_cancelled (acts l d).0 ≡ false)) × AllLeaveAlone ls

  pub turn :
      (fuel k l : ℕ) (d : D)
      → entry_at k (listed d) ≡ some l
      → is_cancelled (acts l d).0 ≡ false
      → deliver_from (suc fuel) k d ≡ called_first l (deliver_from fuel (suc k) (acts l d).1)
  unfolding deliver_from
  turn fuel k l d e passes = ground (arith, e, passes)

  pub end_turn :
      (fuel : ℕ) (ls : List ℕ) (d : D)
      → listed d ≡ ls
      → deliver_from (suc fuel) (length ls) d ≡ some ([], returned tt, d)
  unfolding deliver_from
  end_turn fuel ls d e = ground (arith, ap (entry_at (length ls)) e, entry_at_end ls)

  -- A part of the list whose handlers leave it alone is called.
  pub deliver_from-through :
      (fuel : ℕ) (done ls rest : List ℕ) (d : D)
      → listed d ≡ done ++ (ls ++ rest)
      → AllLeaveAlone ls
      → deliver_from (length ls + fuel) (length done) d
        ≡ called_all ls (deliver_from fuel (length (done ++ ls)) d)
  deliver_from-through fuel done [] rest d e h =
      let none_left : 0 + fuel ≡ fuel = omega arith in
      let same : length done ≡ length (done ++ []) = ap length (sym (append-nil done)) in
      rw none_left (ap (λ k. deliver_from fuel k d) same)
  deliver_from-through fuel done (l ∷ ls) rest d e (alone, h) =
      let turns : suc (length ls) + fuel ≡ suc (length ls + fuel) = omega arith in
      let here : entry_at (length done) (listed d) ≡ some l =
        ap (entry_at (length done)) e ∙ entry_at-append done l (ls ++ rest) in
      let (kept, passes) = alone d in
      let size : length (done ++ l ∷ []) ≡ suc (length done) =
        omega (arith, length-append done (l ∷ [])) in
      let again =
        deliver_from-through fuel (done ++ l ∷ []) ls rest d
          (e ∙ sym (append_assoc done (l ∷ []) (ls ++ rest))) h in
      rw turns (
        turn (length ls + fuel) (length done) l d here passes
        ∙ ap (λ d'. called_first l (deliver_from (length ls + fuel) (suc (length done)) d')) kept
        ∙ ap (λ k. called_first l (deliver_from (length ls + fuel) k d)) (sym size)
        ∙ ap (called_first l) again
        ∙ ap (λ xs. called_first l (called_all ls (deliver_from fuel (length xs) d)))
            (append_assoc done (l ∷ []) ls))

  -- From index `length done` on the handlers leave the list alone.
  pub deliver_from-rest :
      (done ls : List ℕ) (d : D)
      → listed d ≡ done ++ ls
      → AllLeaveAlone ls
      → deliver_from (length ls + 1) (length done) d ≡ some (ls, returned tt, d)
  deliver_from-rest done ls d e h =
      deliver_from-through 1 done ls [] d (e ∙ ap (done ++◌) (sym (append-nil ls))) h
      ∙ ap (called_all ls) (end_turn 0 (done ++ ls) d e)
      ∙ called_all-some ls [] (returned tt) d
      ∙ ap (λ xs. some (xs, returned tt, d)) (append-nil ls)
