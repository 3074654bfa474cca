-- ===== src/Core/Decorators.antt =====
-- core/decorators.py: `CompositeDecorator`, and the wrapper that runs a synchronous function. A coroutine
-- function, with its arguments, is what it does to the objects that it shares with others: `none` while it
-- waits, and else how it ends and the objects afterwards.
use mathlib.Core.List.{reverse-cons, reverse-append}
use native.Mathlib.Omega.{arith}
use resilience4py.Prelude.{
  ◌&&◌, ◌≡◌, refl, sym, Option, none, some, List, [], ◌∷◌, ◌++◌, reverse, Bool, true, false,
  if◌then◌else◌,
}
use resilience4py.Outcome.{Exception, runtime_error, Outcome, returned, raised, cancelled}

abbrev pub Action : Type 0 → Type 0 → Type 0
Action W A = W → Option (Outcome A × W)

-- A decorator object is its `_execute_async`.
abbrev pub Decorator : Type 0 → Type 0 → Type 0
Decorator W A = Action W A → Action W A

-- What the caller gets of an end of the coroutine.
abbrev pub seen_by_caller : {A : Type 0} → (Exception → Bool) → Bool → Outcome A → Outcome A
seen_by_caller is_runtime_error loop_runs (raised e) =
    if loop_runs && is_runtime_error e then raised runtime_error else raised e
seen_by_caller is_runtime_error loop_runs o = o

module _ {W A : Type 0} where
  abbrev pub make_wrapped : Action W A → Decorator W A → Action W A
  make_wrapped f d = d f

  -- The loop, over the list that it is given.
  unfoldable pub wrap_each : List (Decorator W A) → Action W A → Action W A
  wrap_each [] current = current
  wrap_each (d ∷ ds) current = wrap_each ds (make_wrapped current d)

  -- `CompositeDecorator._execute_async`
  unfoldable pub composite : List (Decorator W A) → Decorator W A
  composite decorators func = wrap_each (reverse decorators) func

  wrap_each-append :
      (ds es : List (Decorator W A)) (f : Action W A)
      → wrap_each (ds ++ es) f ≡ wrap_each es (wrap_each ds f)
  unfolding wrap_each
  wrap_each-append [] es f = refl
  wrap_each-append (d ∷ ds) es f = wrap_each-append ds es (d f)

  pub composite_nil : (f : Action W A) → composite [] f ≡ f
  unfolding composite wrap_each
  composite_nil f = refl

  pub composite_cons :
      (d : Decorator W A) (ds : List (Decorator W A)) (f : Action W A)
      → composite (d ∷ ds) f ≡ d (composite ds f)
  unfolding composite wrap_each
  composite_cons d ds f = rw reverse-cons (wrap_each-append (reverse ds) (d ∷ []) f)

  -- The first decorator of a composite is the outermost: it is given the composite of the others as the
  -- function to run. A composite of a list in two parts is the composite of the first around that of the
  -- second, and an empty one is the function itself.
  pub composite_nests :
      (d : Decorator W A) (ds es : List (Decorator W A)) (f : Action W A)
      → (composite [] f ≡ f)
        × (composite (d ∷ ds) f ≡ d (composite ds f))
        × (composite (ds ++ es) f ≡ composite ds (composite es f))
  unfolding composite
  composite_nests d ds es f = (
    composite_nil f,
    composite_cons d ds f,
    rw reverse-append (wrap_each-append (reverse es) (reverse ds) f),
  )

  -- `_run_sync_in_new_loop`: `run_until_complete` raises a `RuntimeError` in a thread whose event loop runs.
  unfoldable pub run_sync_in_new_loop : Bool → Action W A → Action W A
  run_sync_in_new_loop loop_runs run w = if loop_runs then some (raised runtime_error, w) else run w

  -- The `except RuntimeError` around the worker thread, in a thread whose loop runs.
  unfoldable pub after_worker :
      (Exception → Bool) → Action W A → Option (Outcome A × W) → Option (Outcome A × W)
  unfolding run_sync_in_new_loop
  after_worker is_runtime_error run none = none
  after_worker is_runtime_error run (some (returned a, w)) = some (returned a, w)
  after_worker is_runtime_error run (some (raised e, w)) =
      if is_runtime_error e then run_sync_in_new_loop true run w else some (raised e, w)
  after_worker is_runtime_error run (some (cancelled, w)) = some (cancelled, w)

  -- The wrapper of `_decorate_sync`, by whether the calling thread's event loop runs. The worker thread has
  -- none. `is_runtime_error` is the test of the `except` clause, which subclasses pass too.
  unfoldable pub decorate_sync : (Exception → Bool) → Bool → Action W A → Action W A
  unfolding run_sync_in_new_loop after_worker
  decorate_sync is_runtime_error loop_runs run w =
      if loop_runs
      then after_worker is_runtime_error run (run_sync_in_new_loop false run w)
      else run_sync_in_new_loop false run w

  -- `BaseDecorator.__call__` of a coroutine function or of a plain one, called where a loop runs or not.
  unfoldable pub call_decorated : (Exception → Bool) → Bool → Bool → Action W A → Action W A
  unfolding decorate_sync
  call_decorated is_runtime_error is_coroutine loop_runs run w =
      if is_coroutine then run w else decorate_sync is_runtime_error loop_runs run w

  abbrev pub with_outcome :
      (Outcome A → Outcome A) → Option (Outcome A × W) → Option (Outcome A × W)
  with_outcome g none = none
  with_outcome g (some (o, w)) = some (g o, w)

  after_worker_lem :
      (is_runtime_error : Exception → Bool) (run : Action W A) (r : Option (Outcome A × W))
      → after_worker is_runtime_error run r ≡ with_outcome (seen_by_caller is_runtime_error true) r
  unfolding after_worker
  after_worker_lem p run none = refl
  after_worker_lem p run (some (returned a, w)) = refl
  after_worker_lem p run (some (raised e, w)) = ground arith
  after_worker_lem p run (some (cancelled, w)) = refl

  with_outcome-seen_outside :
      (is_runtime_error : Exception → Bool) (r : Option (Outcome A × W))
      → with_outcome (seen_by_caller is_runtime_error false) r ≡ r
  with_outcome-seen_outside p none = refl
  with_outcome-seen_outside p (some (returned a, w)) = refl
  with_outcome-seen_outside p (some (raised e, w)) = refl
  with_outcome-seen_outside p (some (cancelled, w)) = refl

  -- The synchronous wrapper runs the coroutine exactly once, and its caller gets the coroutine's own end,
  -- with one exception: where the calling thread's event loop runs, a `RuntimeError` of the function, of any
  -- subclass, is replaced by the one that the refused second loop raises.
  pub decorate_sync-eq-run :
      (is_runtime_error : Exception → Bool) (loop_runs : Bool) (run : Action W A) (w : W)
      → decorate_sync is_runtime_error loop_runs run w
        ≡ with_outcome (seen_by_caller is_runtime_error loop_runs) (run w)
  unfolding decorate_sync
  decorate_sync-eq-run p true run w = after_worker_lem p run (run w)
  decorate_sync-eq-run p false run w = sym (with_outcome-seen_outside p (run w))
