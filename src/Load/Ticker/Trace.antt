-- ===== src/Load/Ticker/Trace.antt =====
-- What every run of a step ticker looks like: the shape of its values, and its final count.
use ghz.Prelude.{◌≡◌, refl, inl, inr, true, false, List, [], ◌∷◌, some, arith, Bool-cases}
use ghz.Prelude.Int.{ℤ, ◌+ℤ◌, wrap_int64, to_int64}
use mathlib.Core.Path.{subst}
use mathlib.Core.Bool.{false≢true}
use ghz.Load.Ticker.{TickValue, StepWorkerTicker, tick, loop, run}

-- No value follows one that says `done`.
abbrev pub EndsAtDone : List TickValue → Type 0
EndsAtDone [] = Unit {0}
EndsAtDone (v ∷ vs) = (v.done ≡ true → vs ≡ []) × EndsAtDone vs

loop-EndsAtDone :
    (c : StepWorkerTicker) (wc : ℤ) (firings : List ℤ) → EndsAtDone (loop c wc firings)
unfolding loop
loop-EndsAtDone c wc [] = tt
loop-EndsAtDone c wc (since ∷ firings) = elim (Bool-cases (tick c wc since).done) [
  | inl e ↦ rw e ((λ _. refl), tt)
  | inr e ↦ rw e ((λ h. absurd (cc)), loop-EndsAtDone c (wrap_int64 (wc +ℤ c.step)) firings)
]

pub run_valid :
    (c : StepWorkerTicker) (firings : List ℤ) {vs : List TickValue}
    → run c firings ≡ some vs
    → record { delta = to_int64 c.start; done = false } ∷ loop c (to_int64 c.start) firings ≡ vs
unfolding run
run_valid c firings h = ground arith

-- A run of the step ticker sends no value after one that says `Done`, whatever the clock reads.
pub run-EndsAtDone :
    (c : StepWorkerTicker) (firings : List ℤ) {vs : List TickValue}
    → run c firings ≡ some vs
    → EndsAtDone vs
run-EndsAtDone c firings h =
    subst EndsAtDone (run_valid c firings h)
      ((λ d. absurd (false≢true d)), loop-EndsAtDone c (to_int64 c.start) firings)
