-- ===== src/Load/Ticker/Reach.antt =====
-- Where the count of workers ends: the sum of the deltas of a run of the step ticker.
use ghz.Prelude.{
  ℕ, suc, ◌^◌, ◌-◌, ◌+◌, ◌≤◌, ◌<◌, ◌≡◌, refl, Bool, true, false, List, [], ◌∷◌, some, arith,
  if◌then◌else◌, length,
}
use native.Mathlib.Nat.{zero-add}
use native.Mathlib.Decide.{dec_lt}
use ghz.Prelude.Int.{ℤ, pos, ltb_ℤ, ◌+ℤ◌, wrap-pos}
use ghz.Load.Ticker.{TickValue, StepWorkerTicker, tick, loop, run, finished}

-- The number of workers that the deltas ask for, from `n` on.
abbrev pub count_after : ℤ → List TickValue → ℤ
count_after n [] = n
count_after n (v ∷ vs) = count_after (n +ℤ v.delta) vs

pub pos-add : (a b : ℕ) → pos a +ℤ pos b ≡ pos (a + b)
pos-add a b = ground arith

abbrev pub ends_done : List TickValue → Bool
ends_done [] = false
ends_done (v ∷ vs) = if v.done then true else ends_done vs

-- A step up: `Step` is `s + 1`, there is no `MaxDuration`.
module _ (c : StepWorkerTicker) (s : ℕ) (up : c.step ≡ pos (suc s))
    (unbounded : c.max_duration ≡ pos 0) (aim : 0 < c.stop) (small : c.stop + s < 2 ^ 63) where
  tick_there : (w : ℕ) (since : ℤ) → c.stop ≤ w → tick c (pos w) since ≡ finished (pos 0)
  unfolding tick
  tick_there w since h = rw (up, unbounded) (ground arith)

  tick_below :
      (w : ℕ) (since : ℤ)
      → w < c.stop
      → tick c (pos w) since ≡ record { delta = pos (suc s); done = false }
  unfolding tick
  tick_below w since h = rw (up, unbounded) (ground arith)

  pub loop_there :
      (w : ℕ) (since : ℤ) (firings : List ℤ)
      → c.stop ≤ w
      → loop c (pos w) (since ∷ firings) ≡ finished (pos 0) ∷ []
  unfolding loop
  loop_there w since firings h = rw (tick_there w since h)

  pub loop_below :
      (w : ℕ) (since : ℤ) (firings : List ℤ)
      → w < c.stop
      → loop c (pos w) (since ∷ firings)
        ≡ record { delta = pos (suc s); done = false } ∷ loop c (pos (w + suc s)) firings
  unfolding loop
  loop_below w since firings h =
      rw (tick_below w since h) (simp (up, wrap-pos w (suc s) (omega arith)))

  -- The loop sends a last value, and the count then lies in `[Stop, Stop + Step)`.
  loop_up :
      (w : ℕ) (firings : List ℤ)
      → w ≤ c.stop + s
      → c.stop - w < length firings
      → (final : ℕ) × (count_after (pos w) (loop c (pos w) firings) ≡ pos final)
        × (ends_done (loop c (pos w) firings) ≡ true)
        × (c.stop ≤ final)
        × (final ≤ c.stop + s)
  loop_up w [] h k = absurd (omega arith)
  loop_up w (since ∷ firings) h k = elim (dec_lt w c.stop) [
    | yes p ↦ rw (loop_below w since firings p) (
        rw (count_after, pos-add w (suc s))
          (loop_up (w + suc s) firings (omega arith) (omega arith)))
    | no p ↦
        rw (loop_there w since firings (omega arith))
          (w, ground arith, refl, omega arith, omega arith)
  ]

  -- A step up with no `MaxDuration`, with a positive `StepDuration` and `Stop`, `Start` below `Stop + Step`
  -- and `Stop + Step` at most 2 ^ 63, ends: given more firings than `Stop`, the ticker says `Done`, and the
  -- deltas then add up to a count in `[Stop, Stop + Step)`.
  pub run-step_up :
      (firings : List ℤ)
      → ltb_ℤ (pos 0) c.step_duration ≡ true
      → c.start ≤ c.stop + s
      → c.stop < length firings
      → (vs : List TickValue) × (final : ℕ) × (run c firings ≡ some vs)
        × (ends_done vs ≡ true)
        × (count_after (pos 0) vs ≡ pos final)
        × (c.stop ≤ final)
        × (final ≤ c.stop + s)
  unfolding run
  run-step_up firings timed h k =
      let (final, e, d, lo, hi) = loop_up c.start firings h (omega arith) in
      (
        record { delta = pos c.start; done = false } ∷ loop c (pos c.start) firings,
        final,
        ground arith,
        d,
        rw (count_after, pos-add 0 c.start, zero-add) e,
        lo,
        hi,
      )
