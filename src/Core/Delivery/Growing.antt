-- ===== src/Core/Delivery/Growing.antt =====
-- The loop over the registered handlers, where these may register others.
use mathlib.Core.List.{append-nil, append_assoc}
use resilience4py.Prelude.{
  ℕ, zero, suc, ◌+◌, ◌<◌, ◌≡◌, refl, sym, ap, ◌∙◌, true, false, Option, none, some, List, [], ◌∷◌,
  ◌++◌, ◌==◌, length, length-append, any_of, any_of-append, Bool-cases, inl, inr, arith,
}
use resilience4py.Outcome.{Outcome, returned}
use resilience4py.Core.Delivery.{
  Acts, Delivery, called_first, entry_at, entry_at-append, is_cancelled, deliver_from, turn,
  end_turn,
}

abbrev called_before : ℕ → Option (List ℕ) → Option (List ℕ)
called_before h none = none
called_before h (some called) = some (h ∷ called)

-- Handlers that are called from a queue, first come first served, where each puts at its end what it registers.
abbrev pub worklist : (ℕ → List ℕ) → ℕ → List ℕ → Option (List ℕ)
worklist adds zero queue = none
worklist adds (suc fuel) [] = some []
worklist adds (suc fuel) (h ∷ queue) = called_before h (worklist adds fuel (queue ++ adds h))

-- The calls of a delivery and its end, without the registration that it leaves.
abbrev pub calls_of : {D : Type 0} → Option (Delivery D) → Option (List ℕ × Outcome (Unit {0}))
calls_of none = none
calls_of (some (called, o, d)) = some (called, o)

abbrev pub all_returned : Option (List ℕ) → Option (List ℕ × Outcome (Unit {0}))
all_returned none = none
all_returned (some called) = some (called, returned tt)

calls_of-called_first :
    {D : Type 0} (h : ℕ) (r : Option (Delivery D)) (w : Option (List ℕ))
    → calls_of r ≡ all_returned w
    → calls_of (called_first h r) ≡ all_returned (called_before h w)
calls_of-called_first h none none e = refl
calls_of-called_first h none (some w) e = ground (arith, e)
calls_of-called_first h (some (called, o, d)) none e = ground (arith, e)
calls_of-called_first h (some (called, o, d)) (some w) e = ground (arith, e)

abbrev pub total : (ℕ → ℕ) → List ℕ → ℕ
total weight [] = 0
total weight (h ∷ hs) = weight h + total weight hs

total-append :
    (weight : ℕ → ℕ) (xs ys : List ℕ) → total weight (xs ++ ys) ≡ total weight xs + total weight ys
total-append weight [] ys = omega arith
total-append weight (x ∷ xs) ys = omega (arith, total-append weight xs ys)

-- The queue runs empty where every handler weighs more than those that it registers.
worklist_returns :
    (adds : ℕ → List ℕ) (weight : ℕ → ℕ) (fuel : ℕ) (queue : List ℕ)
    → ((h : ℕ) → total weight (adds h) < weight h)
    → total weight queue < fuel
    → (called : List ℕ) × (worklist adds fuel queue ≡ some called)
worklist_returns adds weight zero queue lighter enough = absurd (omega (arith, enough))
worklist_returns adds weight (suc fuel) [] lighter enough = ([], refl)
worklist_returns adds weight (suc fuel) (h ∷ queue) lighter enough =
    let left : total weight (queue ++ adds h) < fuel =
      omega (arith, total-append weight queue (adds h), lighter h, enough) in
    let (called, e) = worklist_returns adds weight fuel (queue ++ adds h) lighter left in
    (h ∷ called, ap (called_before h) e)

-- A queue never runs empty from a handler on that registers itself at each call.
worklist_endless :
    (adds : ℕ → List ℕ) (h fuel : ℕ) (queue : List ℕ)
    → any_of (h ==◌) (adds h) ≡ true
    → any_of (h ==◌) queue ≡ true
    → worklist adds fuel queue ≡ none
worklist_endless adds h zero queue again waiting = refl
worklist_endless adds h (suc fuel) [] again waiting = ground (arith, waiting)
worklist_endless adds h (suc fuel) (x ∷ queue) again waiting =
    let still : any_of (h ==◌) (queue ++ adds x) ≡ true = elim (Bool-cases (h == x)) [
      | inl here ↦
          let same : h ≡ x = ground (arith, here) in
          ground (arith, waiting, again, same, any_of-append (h ==◌) queue (adds x))
      | inr other ↦ ground (arith, waiting, other, any_of-append (h ==◌) queue (adds x))
    ] in
    ap (called_before x) (worklist_endless adds h fuel (queue ++ adds x) again still)

calls_of-none : {D : Type 0} (r : Option (Delivery D)) → calls_of r ≡ none → r ≡ none
calls_of-none none e = refl
calls_of-none (some (called, o, d)) e = ground (arith, e)

module _ {D : Type 0} (listed : D → List ℕ) (acts : Acts D) where
  -- Every handler registers what `adds` says, and nothing else of the registration changes.
  abbrev pub OnlyRegister : (ℕ → List ℕ) → Type 0
  OnlyRegister adds =
      (h : ℕ) (d : D)
      → (listed (acts h d).1 ≡ listed d ++ adds h) × (is_cancelled (acts h d).0 ≡ false)

  deliver_from-queue :
      (adds : ℕ → List ℕ) (fuel : ℕ) (done queue : List ℕ) (d : D)
      → OnlyRegister adds
      → listed d ≡ done ++ queue
      → calls_of (deliver_from listed acts fuel (length done) d)
        ≡ all_returned (worklist adds fuel queue)
  unfolding deliver_from
  deliver_from-queue adds zero done queue d h e = refl
  deliver_from-queue adds (suc fuel) done [] d h e =
      ap calls_of (end_turn listed acts fuel done d (e ∙ append-nil done))
  deliver_from-queue adds (suc fuel) done (l ∷ queue) d h e =
      let d' = (acts l d).1 in
      let (grown, passes) = h l d in
      let here : entry_at (length done) (listed d) ≡ some l =
        ap (entry_at (length done)) e ∙ entry_at-append done l queue in
      let size : suc (length done) ≡ length (done ++ l ∷ []) =
        omega (arith, length-append done (l ∷ [])) in
      let left : listed d' ≡ (done ++ l ∷ []) ++ (queue ++ adds l) =
        grown
        ∙ ap (◌++ adds l) e
        ∙ append_assoc done (l ∷ queue) (adds l)
        ∙ sym (append_assoc done (l ∷ []) (queue ++ adds l)) in
      let rest = deliver_from-queue adds fuel (done ++ l ∷ []) (queue ++ adds l) d' h left in
      ap calls_of (turn listed acts fuel (length done) l d here passes)
      ∙ calls_of-called_first l (deliver_from listed acts fuel (suc (length done)) d')
          (worklist adds fuel (queue ++ adds l))
          (ap (λ k. calls_of (deliver_from listed acts fuel k d')) size ∙ rest)

  -- A delivery to handlers that may register others, but are not cancelled, returns where every handler weighs more
  -- than those that it registers together, which is so where, say, those register nothing themselves. It
  -- serves them from a queue: it calls the registered ones in their order, whichever raise, and then in the
  -- same delivery those that were registered meanwhile, until none is left. One turn for each unit of the
  -- registered ones' weight and one more is enough.
  pub deliver_from-worklist :
      (adds : ℕ → List ℕ) (weight : ℕ → ℕ) (fuel : ℕ) (d : D)
      → OnlyRegister adds
      → ((h : ℕ) → total weight (adds h) < weight h)
      → total weight (listed d) < fuel
      → (called : List ℕ) × (worklist adds fuel (listed d) ≡ some called)
        × (calls_of (deliver_from listed acts fuel 0 d) ≡ some (called, returned tt))
  deliver_from-worklist adds weight fuel d h lighter enough =
      let (called, e) = worklist_returns adds weight fuel (listed d) lighter enough in
      (called, e, deliver_from-queue adds fuel [] (listed d) d h refl ∙ ap all_returned e)

  -- A delivery does not end, however many turns it is given, where one of the registered handlers registers
  -- itself again at each call, and the handlers otherwise only register others.
  pub deliver_from_endless :
      (adds : ℕ → List ℕ) (again fuel : ℕ) (d : D)
      → OnlyRegister adds
      → any_of (again ==◌) (adds again) ≡ true
      → any_of (again ==◌) (listed d) ≡ true
      → deliver_from listed acts fuel 0 d ≡ none
  deliver_from_endless adds again fuel d h itself registered =
      calls_of-none (deliver_from listed acts fuel 0 d) (
        deliver_from-queue adds fuel [] (listed d) d h refl
        ∙ ap all_returned (worklist_endless adds again fuel (listed d) itself registered))
