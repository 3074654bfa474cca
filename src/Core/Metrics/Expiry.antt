-- ===== src/Core/Metrics/Expiry.antt =====
-- What a time-based window of core/metrics.py holds, whatever its clock does.
use mathlib.Core.List.{append-nil, append_assoc}
use resilience4py.Prelude.{
  ℕ, ◌≤◌, ◌<◌, ◌≡◌, refl, sym, ap, ◌∙◌, inl, inr, List, [], ◌∷◌, ◌++◌, max, ltb, arith, Bool-cases,
}
use resilience4py.Core.Metrics.Sliding.{
  CallRecord, times_out, SlidingWindow, new_sliding, append_record, pop_older, cutoff_time,
  cleanup_old_records,
}
use resilience4py.Core.Metrics.History.{Recorded, as_record, slide, slide_all, slide_lem, history}

-- All are older than `top`.
abbrev pub AllOlder : ℕ → List CallRecord → Type 0
AllOlder top [] = Unit
AllOlder top (c ∷ cs) = (c.timestamp < top) × AllOlder top cs

-- The oldest entry is not older than `cutoff`.
abbrev pub IsFresh : ℕ → List CallRecord → Type 0
IsFresh cutoff [] = Unit
IsFresh cutoff (c ∷ cs) = cutoff ≤ c.timestamp

AllOlder-mono : (s t : ℕ) (cs : List CallRecord) → s ≤ t → AllOlder s cs → AllOlder t cs
AllOlder-mono s t [] le h = tt
AllOlder-mono s t (c ∷ cs) le h = (omega arith, AllOlder-mono s t cs le h.1)

AllOlder-append :
    (t : ℕ) (cs ds : List CallRecord) → AllOlder t cs → AllOlder t ds → AllOlder t (cs ++ ds)
AllOlder-append t [] ds h k = k
AllOlder-append t (c ∷ cs) ds h k = (h.0, AllOlder-append t cs ds h.1 k)

pop_older-split :
    (cutoff : ℕ) (cs : List CallRecord)
    → (gone : List CallRecord) × (gone ++ pop_older cutoff cs ≡ cs)
      × AllOlder cutoff gone
      × IsFresh cutoff (pop_older cutoff cs)
unfolding pop_older
pop_older-split cutoff [] = ([], refl, tt, tt)
pop_older-split cutoff (c ∷ cs) = elim (Bool-cases (ltb c.timestamp cutoff)) [
  | inl old ↦
      let (gone, e, o, f) = pop_older-split cutoff cs in
      (c ∷ gone, rw old (ap (c ∷◌) e), (ground arith, o), rw old f)
  | inr new ↦ ([], rw new refl, tt, rw new (ground arith))
]

-- The clock at the last cleanup, and the latest cutoff of all cleanups.
abbrev pub last_cleanup : ℕ → List Recorded → ℕ
last_cleanup t [] = t
last_cleanup t (c ∷ cs) = last_cleanup c.1 cs

abbrev pub latest_cutoff : ℕ → ℕ → List Recorded → ℕ
latest_cutoff n top [] = top
latest_cutoff n top (c ∷ cs) = latest_cutoff n (max top (cutoff_time c.1 n)) cs

-- A time-based window of `n` seconds that has seen `past`, last cleaned up at `t`.
abbrev Holds : ℕ → ℕ → ℕ → List CallRecord → SlidingWindow → Type 0
Holds n top t past w =
    (w.window_size ≡ n)
    × (w.window_type ≡ times_out)
    × IsFresh (cutoff_time t n) w.records
    × (gone : List CallRecord) × (gone ++ w.records ≡ past)
    × AllOlder top gone

slide-times :
    (n top t : ℕ) (past : List CallRecord) (c : Recorded) (w : SlidingWindow)
    → Holds n top t past w
    → Holds n (max top (cutoff_time c.1 n)) c.1 (past ++ as_record c ∷ []) (slide c w)
unfolding append_record cleanup_old_records
slide-times n top t past c w (size, type, fresh, gone, e, o) =
    let all = w.records ++ as_record c ∷ [] in
    let cutoff = cutoff_time c.1 n in
    let top' = max top cutoff in
    let (popped, e', o', fresh') = pop_older-split cutoff all in
    let left : (slide c w).records ≡ pop_older cutoff all =
      ground (arith, slide_lem c w, size, type) in
    let whole : (gone ++ popped) ++ pop_older cutoff all ≡ past ++ as_record c ∷ [] =
      append_assoc gone popped (pop_older cutoff all)
      ∙ ap (gone ++◌) e'
      ∙ sym (append_assoc gone w.records (as_record c ∷ []))
      ∙ ap (◌++ as_record c ∷ []) e in
    (
      ground (arith, slide_lem c w, size, type),
      ground (arith, slide_lem c w, size, type),
      rw left fresh',
      gone ++ popped,
      rw left whole,
      AllOlder-append top' gone popped (AllOlder-mono top top' gone (omega arith) o)
          (AllOlder-mono cutoff top' popped (omega arith) o'),
    )

slide_all_times :
    (n top t : ℕ) (past : List CallRecord) (cs : List Recorded) (w : SlidingWindow)
    → Holds n top t past w
    → Holds n (latest_cutoff n top cs) (last_cleanup t cs) (past ++ history cs) (slide_all cs w)
slide_all_times n top t past [] w h = rw append-nil h
slide_all_times n top t past (c ∷ cs) w h =
    let regroup = append_assoc past (as_record c ∷ []) (history cs) in
    rw (← regroup) (
      slide_all_times n (max top (cutoff_time c.1 n)) c.1 (past ++ as_record c ∷ []) cs (slide c w)
        (slide-times n top t past c w h))

-- A time-based window that began empty holds the latest of the recorded calls, in order, from one on that
-- was not older than `window_size` seconds at the last cleanup, which the last recorded call made; and
-- each call before that one was too old at some cleanup. This holds also where the clock falls.
pub slide_all-times :
    (n : ℕ) (cs : List Recorded)
    → let w = slide_all cs (new_sliding n times_out) in
      IsFresh (cutoff_time (last_cleanup 0 cs) n) w.records
      × (gone : List CallRecord) × (gone ++ w.records ≡ history cs)
      × AllOlder (latest_cutoff n 0 cs) gone
unfolding new_sliding
slide_all-times n cs =
    let (size, type, fresh, gone, e, o) =
      slide_all_times n 0 0 [] cs (new_sliding n times_out) (refl, refl, tt, [], refl, tt) in
    (fresh, gone, e, o)
