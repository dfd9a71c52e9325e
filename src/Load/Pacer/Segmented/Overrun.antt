-- ===== src/Load/Pacer/Segmented/Overrun.antt =====
-- load/pacer.go, `SegmentedPacer`: what `Pace` answers when every hit of the segments has been sent.
use ghz.Prelude.{
  ℕ, ◌^◌, ◌+◌, ◌-◌, ◌<◌, ◌≡◌, ◌≢◌, refl, false, some, ltb, leb, ◌&&◌, List, [], ◌∷◌, arith,
}
use native.Mathlib.Nat.{mod-eq_of_lt}
use ghz.Prelude.Int.{ℤ, pos, ◌+ℤ◌, wrap_int64}
use ghz.Prelude.Float.{Float64}
use ghz.Load.Pacer.{pace}
use ghz.Load.Pacer.Segmented.{
  LoadSegment, SegmentedPacer, hit_time, time_for_hit, pace_ready, nought, initialize,
  pace_segmented,
}

module _ {F : Type 0} ⦃f : Float64 F⦄ where
  -- The target lies beyond the hits of every segment.
  abbrev pub Beyond : F → List F → Type 0
  Beyond target [] = Unit {0}
  Beyond target (most ∷ hits) = (f.le target most ≡ false) × Beyond target hits

  hit_time-Beyond :
      (target : F) (time : ℤ) (base : F) (total : ℤ) (segs : List (LoadSegment F)) (hits : List F)
      → Beyond target hits
      → hit_time target time base total segs hits ≡ total
  unfolding hit_time
  hit_time-Beyond target time base total [] hits h = refl
  hit_time-Beyond target time base total (seg ∷ segs) [] h = refl
  hit_time-Beyond target time base total (seg ∷ segs) (most ∷ hits) h =
      ground
        (arith, hit_time-Beyond target (wrap_int64 (time +ℤ seg.duration)) most total segs hits h.1)

  time_for_hit-Beyond :
      (sp : SegmentedPacer F) (n : ℕ)
      → n ≢ 0
      → Beyond (f.of_uint64 n) sp.cumulative_hits
      → time_for_hit sp n ≡ sp.total_duration
  unfolding time_for_hit
  time_for_hit-Beyond sp n h b = ground (
    arith,
    hit_time-Beyond (f.of_uint64 n) (pos 0) nought sp.total_duration sp.segments sp.cumulative_hits
        b,
  )

  pace_ready-Beyond :
      (sp : SegmentedPacer F) (e end hits : ℕ)
      → sp.total_duration ≡ pos end
      → end < 2 ^ 63
      → hits < 2 ^ 63
      → e < end
      → Beyond (f.of_uint64 (hits + 1)) sp.cumulative_hits
      → pace_ready sp (pos e) hits ≡ pace (pos (end - e)) false
  unfolding pace_ready
  pace_ready-Beyond sp e end hits h small few lt b =
      rw
        (
          mod-eq_of_lt {n = hits + 1} {m = 2 ^ 64} (omega arith),
          time_for_hit-Beyond sp (hits + 1) (omega arith) b,
          h,
        )
        (ground arith)

  -- On a pacer that can be initialized, when `Max` is not set or not reached, the next hit lies beyond the hits
  -- of every segment, and time is left (times and counts below 2 ^ 63), `Pace` does not stop: it answers the
  -- wait up to the end of the last segment, for one hit more.
  pub pace_segmented-Beyond :
      (sp ready : SegmentedPacer F) (e end hits : ℕ)
      → (ltb 0 sp.max && leb sp.max hits) ≡ false
      → initialize sp ≡ some ready
      → ready.total_duration ≡ pos end
      → end < 2 ^ 63
      → hits < 2 ^ 63
      → e < end
      → Beyond (f.of_uint64 (hits + 1)) ready.cumulative_hits
      → pace_segmented sp (pos e) hits ≡ pace (pos (end - e)) false
  unfolding pace_segmented
  pace_segmented-Beyond sp ready e end hits below made h small few lt b =
      rw (pace_segmented, below, made) (pace_ready-Beyond ready e end hits h small few lt b)
