-- ===== src/Load/Pacer/Segmented.antt =====
-- load/pacer.go, `SegmentedPacer`: a sequence of segments, each with its own rate.
-- `init` stands for the fields that `initialize` computes. A segment's `RPS < 0` is a test on floats.
pub mod Lookup
pub mod Overrun
use ghz.Prelude.{
  ℕ, zero, suc, ◌%◌, ◌^◌, ◌+◌, ◌-◌, Bool, true, false, ◌&&◌, ◌||◌, List, [], ◌∷◌, ◌++◌, Option,
  none, some, ltb, leb, ◌==◌, if◌then◌else◌, length, get_elem?,
}
use ghz.Prelude.Int.{ℤ, pos, ◌+ℤ◌, ◌-ℤ◌, ltb_ℤ, leb_ℤ, wrap_int64}
use ghz.Prelude.Float.{Float64, nano, seconds}
use ghz.Load.Pacer.{Paced, panic, pace}

pub record LoadSegment (F : Type 0) : Type 0 where
  pub duration : ℤ
  pub rps : F

pub record SegmentedPacer (F : Type 0) : Type 0 where
  pub segments : List (LoadSegment F)
  pub max : ℕ
  pub cumulative_hits : List F
  pub cumulative_times : List ℤ
  pub total_duration : ℤ

-- The element of a list at an index that the code has in range; `d` stands for the Go panic else.
abbrev pub at {ℓ} : {A : Type ℓ} → A → List A → ℕ → A
at d [] i = d
at d (x ∷ xs) zero = x
at d (x ∷ xs) (suc i) = at d xs i

abbrev pub last_or {ℓ} : {A : Type ℓ} → A → List A → A
last_or d [] = d
last_or d (x ∷ xs) = last_or x xs

-- The loop of `findSegment`, from index `i` on, with the end of the segment before.
unfoldable pub scan : ℤ → ℕ → ℤ → List ℤ → Option (ℕ × ℤ)
scan elapsed i start [] = none
scan elapsed i start (end ∷ ends) =
    if ltb_ℤ elapsed end
    then some (i, wrap_int64 (elapsed -ℤ start))
    else scan elapsed (i + 1) end ends

module _ {F : Type 0} ⦃f : Float64 F⦄ where
  abbrev pub nought : F
  nought = f.of_uint64 0

  -- The loop of `initialize`: the cumulative hits and times after each segment, or a panic.
  unfoldable pub accumulate : F → ℤ → List (LoadSegment F) → Option (List F × List ℤ)
  accumulate hit time [] = some ([], [])
  accumulate hit time (seg ∷ segs) =
      let hit' = f.add hit (f.mul seg.rps (seconds seg.duration)) in
      let time' = wrap_int64 (time +ℤ seg.duration) in
      let rest = accumulate hit' time' segs in
      if leb_ℤ seg.duration (pos 0) || f.lt seg.rps nought
      then none
      else elim rest [ none ↦ none | some (hits, times) ↦ some (hit' ∷ hits, time' ∷ times) ]

  unfoldable pub initialize : SegmentedPacer F → Option (SegmentedPacer F)
  unfolding accumulate
  initialize sp = elim sp.segments [
    | [] ↦ none
    | seg ∷ segs ↦ elim (accumulate nought (pos 0) (seg ∷ segs)) [
      | none ↦ none
      | some (hits, times) ↦ some (record sp {
        cumulative_hits = hits;
        cumulative_times = times;
        total_duration = last_or (pos 0) times;
      })
    ]
  ]

  last_segment : SegmentedPacer F → LoadSegment F
  last_segment sp = last_or (record { duration = pos 0; rps = nought }) sp.segments

  unfoldable pub find_segment : SegmentedPacer F → ℤ → ℕ × ℤ
  unfolding scan last_segment
  find_segment sp elapsed =
      if leb_ℤ sp.total_duration elapsed
      then (
        length sp.segments - 1,
        wrap_int64 (elapsed -ℤ wrap_int64 (sp.total_duration -ℤ (last_segment sp).duration)),
      )
      else elim (scan elapsed 0 (pos 0) sp.cumulative_times) [
        | some found ↦ found
        | none ↦ (length sp.segments - 1, pos 0)
      ]

  abbrev base_hits : List F → ℕ → F
  base_hits hits zero = nought
  base_hits hits (suc i) = at nought hits i

  -- The hits that should have been sent by `elapsed`.
  unfoldable pub expected_hits : SegmentedPacer F → ℤ → F
  unfolding find_segment
  expected_hits sp elapsed =
      if leb_ℤ elapsed (pos 0)
      then nought
      else if leb_ℤ sp.total_duration elapsed
      then last_or nought sp.cumulative_hits
      else let (i, local) = find_segment sp elapsed in
        f.add (base_hits sp.cumulative_hits i)
          (f.mul (at (last_segment sp) sp.segments i).rps (seconds local))

  -- The loop of `timeForHit`: segments beside their cumulative hits.
  unfoldable pub hit_time : F → ℤ → F → ℤ → List (LoadSegment F) → List F → ℤ
  hit_time target time base total [] hits = total
  hit_time target time base total (seg ∷ segs) [] = total
  hit_time target time base total (seg ∷ segs) (most ∷ hits) =
      let next = hit_time target (wrap_int64 (time +ℤ seg.duration)) most total segs hits in
      if f.eq seg.rps nought
      then next
      else if f.le target most
      then wrap_int64
          (time +ℤ f.to_int64 (f.mul (f.div (f.sub target base) seg.rps) (f.of_uint64 nano)))
      else next

  unfoldable pub time_for_hit : SegmentedPacer F → ℕ → ℤ
  unfolding hit_time
  time_for_hit sp n =
      if n == 0
      then pos 0
      else hit_time (f.of_uint64 n) (pos 0) nought sp.total_duration sp.segments sp.cumulative_hits

  -- `Pace` after `initialize` has run once.
  unfoldable pub pace_ready : SegmentedPacer F → ℤ → ℕ → Paced
  pace_ready sp elapsed hits =
      let next = time_for_hit sp ((hits + 1) % 2 ^ 64) in
      if leb_ℤ sp.total_duration elapsed
      then pace (pos 0) true
      else if ltb_ℤ sp.total_duration next
      then pace (pos 0) true
      else if leb_ℤ next elapsed
      then pace (pos 0) false
      else pace (wrap_int64 (next -ℤ elapsed)) false

  -- `SegmentedPacer.Pace` of a pacer that has not been used.
  unfoldable pub pace_segmented : SegmentedPacer F → ℤ → ℕ → Paced
  unfolding pace_ready
  pace_segmented sp elapsed hits =
      if ltb 0 sp.max && leb sp.max hits
      then pace (pos 0) true
      else elim (initialize sp) [ none ↦ panic | some ready ↦ pace_ready ready elapsed hits ]

  unfoldable pub rate_ready : SegmentedPacer F → ℤ → F
  unfolding find_segment
  rate_ready sp elapsed =
      if leb_ℤ sp.total_duration elapsed
      then nought
      else (at (last_segment sp) sp.segments (find_segment sp elapsed).0).rps

  -- `SegmentedPacer.Rate` of a pacer that has not been used; `none` is a panic of `initialize`.
  unfoldable pub rate_segmented : SegmentedPacer F → ℤ → Option F
  unfolding initialize rate_ready
  rate_segmented sp elapsed = elim (initialize sp) [
    | none ↦ none
    | some ready ↦ some (rate_ready ready elapsed)
  ]
