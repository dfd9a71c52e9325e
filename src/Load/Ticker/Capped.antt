-- ===== src/Load/Ticker/Capped.antt =====
-- A step ticker with a `MaxDuration`: the count when the duration has passed.
use ghz.Prelude.{
  ℕ, suc, ◌^◌, ◌-◌, ◌+◌, ◌*◌, ◌≤◌, ◌<◌, ◌≡◌, refl, ap, ◌∙◌, true, false, List, [], ◌∷◌, ◌++◌, some,
  arith, length,
}
use Prim.Native.Nat.{max}
use native.Mathlib.Nat.{zero-add}
use ghz.Prelude.Int.{ℤ, pos, ltb_ℤ, leb_ℤ, wrap-pos}
use ghz.Load.Ticker.{TickValue, StepWorkerTicker, tick, loop, run, finished, final_diff}
use native.Mathlib.Decide.{dec_lt}
use ghz.Load.Ticker.Reach.{count_after, ends_done, pos-add}

abbrev pub AllBefore : ℤ → List ℤ → Type 0
AllBefore m [] = Unit {0}
AllBefore m (t ∷ ts) = (ltb_ℤ t m ≡ true) × AllBefore m ts

-- A step up: `Step` is `s + 1` and `MaxDuration` is `m + 1`.
module _ (c : StepWorkerTicker) (s m : ℕ) (up : c.step ≡ pos (suc s))
    (bounded : c.max_duration ≡ pos (suc m)) (aim : 0 < c.stop) (small : c.stop < 2 ^ 63) where
  tick_before :
      (w : ℕ) (since : ℤ)
      → ltb_ℤ since (pos (suc m)) ≡ true
      → tick c (pos w) since ≡ record { delta = pos (suc s); done = false }
  unfolding tick
  tick_before w since h = rw (up, bounded) (ground arith)

  -- The eclipsed branch, after its guards have been decided.
  word_diff : (w : ℕ) → w ≤ c.stop → final_diff c (pos w) ≡ pos (c.stop - w)
  word_diff w h = ground arith

  tick_after-up :
      (w : ℕ) (since : ℤ)
      → leb_ℤ (pos (suc m)) since ≡ true
      → w ≤ c.stop
      → tick c (pos w) since ≡ finished (pos (c.stop - w))
  unfolding tick
  tick_after-up w since h k = rw (← word_diff w k) (rw (up, bounded) (ground arith))

  tick_after-past :
      (w : ℕ) (since : ℤ)
      → leb_ℤ (pos (suc m)) since ≡ true
      → c.stop < w
      → w < 2 ^ 63
      → tick c (pos w) since ≡ finished (pos 0)
  unfolding tick
  tick_after-past w since h k small = rw (up, bounded) (ground arith)

  loop_late :
      (w : ℕ) (late : ℤ) (rest : List ℤ)
      → leb_ℤ (pos (suc m)) late ≡ true
      → w < 2 ^ 63
      → loop c (pos w) (late ∷ rest) ≡ finished (pos (c.stop - w)) ∷ []
  unfolding loop
  loop_late w late rest l h = elim (dec_lt c.stop w) [
    | yes p ↦ rw (tick_after-past w late l p h) (ap (λ k. finished (pos k) ∷ []) (omega arith))
    | no p ↦ rw (tick_after-up w late l (omega arith))
  ]

  loop_early :
      (w : ℕ) (t : ℤ) (rest : List ℤ)
      → ltb_ℤ t (pos (suc m)) ≡ true
      → w + suc s < 2 ^ 63
      → loop c (pos w) (t ∷ rest)
        ≡ record { delta = pos (suc s); done = false } ∷ loop c (pos (w + suc s)) rest
  unfolding loop
  loop_early w t rest e h = rw (tick_before w t e) (simp (up, wrap-pos w (suc s) (omega arith)))

  loop_capped :
      (w : ℕ) (early : List ℤ) (late : ℤ) (rest : List ℤ)
      → AllBefore (pos (suc m)) early
      → leb_ℤ (pos (suc m)) late ≡ true
      → w + length early * suc s < 2 ^ 63
      → (count_after (pos w) (loop c (pos w) (early ++ late ∷ rest))
          ≡ pos (max c.stop (w + length early * suc s)))
        × (ends_done (loop c (pos w) (early ++ late ∷ rest)) ≡ true)
  loop_capped w [] late rest a l h =
      rw (loop_late w late rest l (omega arith))
        (pos-add w (c.stop - w) ∙ ap pos (omega arith), refl)
  loop_capped w (t ∷ early) late rest a l h =
      rw
        (
          loop_early w t (early ++ late ∷ rest) a.0 (omega arith),
          count_after,
          pos-add w (suc s),
          next,
        )
        (loop_capped (w + suc s) early late rest a.1 l (omega (arith, next)))
    where
      next : w + length (t ∷ early) * suc s ≡ w + suc s + length early * suc s
      next = omega arith

  -- A step up with a `MaxDuration`, with a positive `StepDuration` and `Stop` and counts below 2 ^ 63, ends
  -- at the first firing that reads at least `MaxDuration`: the ticker says `Done`, and the deltas add up to
  -- `Stop`, or to the count that the steps had reached if that is more.
  run-capped :
      (early : List ℤ) (late : ℤ) (rest : List ℤ)
      → ltb_ℤ (pos 0) c.step_duration ≡ true
      → AllBefore (pos (suc m)) early
      → leb_ℤ (pos (suc m)) late ≡ true
      → c.start + length early * suc s < 2 ^ 63
      → (vs : List TickValue) × (run c (early ++ late ∷ rest) ≡ some vs)
        × (ends_done vs ≡ true)
        × (count_after (pos 0) vs ≡ pos (max c.stop (c.start + length early * suc s)))
  unfolding run
  run-capped early late rest timed a l h =
      let (e, d) = loop_capped c.start early late rest a l h in
      (
        record { delta = pos c.start; done = false } ∷ loop c (pos c.start) (early ++ late ∷ rest),
        ground arith,
        d,
        rw (count_after, pos-add 0 c.start, zero-add) e,
      )
