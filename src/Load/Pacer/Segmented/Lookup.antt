-- ===== src/Load/Pacer/Segmented/Lookup.antt =====
-- load/pacer.go, `SegmentedPacer`: the precomputed times, and the segment that a time falls in.
use ghz.Prelude.{
  ℕ, zero, suc, ◌^◌, ◌+◌, ◌-◌, ◌≤◌, ◌<◌, ◌≡◌, ap, ◌∙◌, false, List, [], ◌∷◌, some, arith,
  Option-cases, inl, inr, length,
}
use ghz.Prelude.Int.{ℤ, pos, pos_part, ◌+ℤ◌, leb_ℤ, wrap_int64}
use ghz.Prelude.Float.{Float64, seconds}
use native.Mathlib.Decide.{dec_lt}
use ghz.Load.Pacer.Segmented.{
  LoadSegment, SegmentedPacer, accumulate, initialize, scan, find_segment, last_or, nought,
}

module _ {F : Type 0} where
  -- The sum of the durations, in nanoseconds.
  abbrev pub duration_sum : List (LoadSegment F) → ℕ
  duration_sum [] = 0
  duration_sum (seg ∷ segs) = pos_part seg.duration + duration_sum segs

  -- When segment `k` begins, and how long it lasts.
  abbrev pub begins : ℕ → List (LoadSegment F) → ℕ
  begins k [] = 0
  begins zero (seg ∷ segs) = 0
  begins (suc k) (seg ∷ segs) = pos_part seg.duration + begins k segs

  abbrev pub lasts : ℕ → List (LoadSegment F) → ℕ
  lasts k [] = 0
  lasts zero (seg ∷ segs) = pos_part seg.duration
  lasts (suc k) (seg ∷ segs) = lasts k segs

-- A positive duration that does not wrap ends at the sum.
end_of :
    (time : ℕ) (d : ℤ)
    → leb_ℤ d (pos 0) ≡ false
    → time + pos_part d < 2 ^ 63
    → (wrap_int64 (pos time +ℤ d) ≡ pos (time + pos_part d)) × (0 < pos_part d)
end_of time d h k = ground arith

scan_here :
    (e i time end : ℕ) (ends : List ℤ)
    → time ≤ e
    → e < end
    → end < 2 ^ 63
    → scan (pos e) i (pos time) (pos end ∷ ends) ≡ some (i + 0, pos (e - time))
unfolding scan
scan_here e i time end ends h k l = ground arith

scan_past :
    (e i time end : ℕ) (ends : List ℤ)
    → end ≤ e
    → scan (pos e) i (pos time) (pos end ∷ ends) ≡ scan (pos e) (i + 1) (pos end) ends
unfolding scan
scan_past e i time end ends h = ground arith

module _ {F : Type 0} ⦃f : Float64 F⦄ where
  times_nil :
      (hit : F) (time : ℤ) {hits : List F} {times : List ℤ}
      → accumulate hit time [] ≡ some (hits, times)
      → times ≡ []
  unfolding accumulate
  times_nil hit time h = ground arith

  accumulate-cons :
      (hit : F) (time : ℤ) (seg : LoadSegment F) (segs : List (LoadSegment F)) {hits : List F}
      {times : List ℤ}
      → accumulate hit time (seg ∷ segs) ≡ some (hits, times)
      → (hits' : List F) × (times' : List ℤ) × (accumulate
            (f.add hit (f.mul seg.rps (seconds seg.duration)))
            (wrap_int64 (time +ℤ seg.duration))
            segs
          ≡ some (hits', times'))
        × (leb_ℤ seg.duration (pos 0) ≡ false)
        × (times ≡ wrap_int64 (time +ℤ seg.duration) ∷ times')
  unfolding accumulate
  accumulate-cons hit time seg segs h =
      elim (Option-cases (
        accumulate (f.add hit (f.mul seg.rps (seconds seg.duration)))
          (wrap_int64 (time +ℤ seg.duration)) segs)) [
            | inl e ↦ absurd (ground arith)
            | inr (p, e) ↦ (p.0, p.1, e, ground arith, ground arith)
          ]

  -- The scan finds the segment that the time falls in.
  scan_lem :
      (hit : F) (time e i : ℕ) (segs : List (LoadSegment F)) {hits : List F} {times : List ℤ}
      → accumulate hit (pos time) segs ≡ some (hits, times)
      → time + duration_sum segs < 2 ^ 63
      → time ≤ e
      → e < time + duration_sum segs
      → (k : ℕ) × (l : ℕ) × (scan (pos e) i (pos time) times ≡ some (i + k, pos l))
        × (k < length segs)
        × (time + begins k segs + l ≡ e)
        × (l < lasts k segs)
  scan_lem hit time e i [] a h k l = absurd (omega arith)
  scan_lem hit time e i (seg ∷ segs) a h k l =
      let (hits', times', a', d, te) = accumulate-cons hit (pos time) seg segs a in
      let (next, long) = end_of time seg.duration d (omega arith) in
      rw (te, next)
        (elim (dec_lt e (time + pos_part seg.duration)) [
          | yes p ↦ (
            0,
            e - time,
            scan_here e i time (time + pos_part seg.duration) times' k p (omega arith),
            omega arith,
            omega arith,
            omega arith,
          )
          | no p ↦
              let (j, m, r, lt, sum, in_it) =
                scan_lem (f.add hit (f.mul seg.rps (seconds seg.duration)))
                  (time + pos_part seg.duration) e (i + 1) segs (rw next at a') (omega arith)
                  (omega arith) (omega arith) in
              (
                suc j,
                m,
                scan_past e i time (time + pos_part seg.duration) times' (omega arith)
                    ∙ r
                    ∙ ap (λ n. some (n, pos m)) (omega arith),
                omega arith,
                omega arith,
                in_it,
              )
        ])

  total_lem :
      (hit : F) (time : ℕ) (segs : List (LoadSegment F)) {hits : List F} {times : List ℤ}
      → accumulate hit (pos time) segs ≡ some (hits, times)
      → time + duration_sum segs < 2 ^ 63
      → last_or (pos time) times ≡ pos (time + duration_sum segs)
  total_lem hit time [] {times = times} a h = rw (times_nil hit (pos time) a) (ap pos (omega arith))
  total_lem hit time (seg ∷ segs) a h =
      let (hits', times', a', d, te) = accumulate-cons hit (pos time) seg segs a in
      let (next, long) = end_of time seg.duration d (omega arith) in
      rw (te, next)
        (total_lem (f.add hit (f.mul seg.rps (seconds seg.duration))) (time + pos_part seg.duration)
            segs (rw next at a') (omega arith)
          ∙ ap pos (omega arith))

  initialize_valid :
      (sp : SegmentedPacer F) {ready : SegmentedPacer F}
      → initialize sp ≡ some ready
      → (hits : List F) × (times : List ℤ) × (accumulate nought (pos 0) sp.segments
          ≡ some (hits, times))
        × (ready.segments ≡ sp.segments)
        × (ready.cumulative_times ≡ times)
        × (ready.total_duration ≡ last_or (pos 0) times)
  unfolding initialize
  initialize_valid sp h = elim (Option-cases (accumulate nought (pos 0) sp.segments)) [
    | inl e ↦ absurd (ground arith)
    | inr (p, e) ↦ (p.0, p.1, e, ground arith, ground arith, ground arith)
  ]

  find_segment_of :
      (sp : SegmentedPacer F) (e end k l : ℕ)
      → sp.total_duration ≡ pos end
      → e < end
      → scan (pos e) 0 (pos 0) sp.cumulative_times ≡ some (0 + k, pos l)
      → find_segment sp (pos e) ≡ (k, pos l)
  unfolding find_segment
  find_segment_of sp e end k l h lt found = rw (h, found) (ground arith)

  -- After an `initialize` that does not panic, of segments that last less than 2 ^ 63 nanoseconds
  -- together, `findSegment` of a time before the end gives the segment in which the time falls, and the
  -- time passed in it.
  pub find_segment_lem :
      (sp : SegmentedPacer F) {ready : SegmentedPacer F} (e : ℕ)
      → initialize sp ≡ some ready
      → duration_sum sp.segments < 2 ^ 63
      → e < duration_sum sp.segments
      → (k : ℕ) × (l : ℕ) × (find_segment ready (pos e) ≡ (k, pos l))
        × (k < length sp.segments)
        × (begins k sp.segments + l ≡ e)
        × (l < lasts k sp.segments)
  find_segment_lem sp {ready} e a h k =
      let (hits, times, acc, same, ends, last) = initialize_valid sp a in
      let (j, l, found, lt, sum, in_it) =
        scan_lem nought 0 e 0 sp.segments acc (omega arith) (omega arith) (omega arith) in
      let total : ready.total_duration ≡ pos (duration_sum sp.segments) =
        last ∙ total_lem nought 0 sp.segments acc (omega arith) ∙ ap pos (omega arith) in
      (
        j,
        l,
        find_segment_of ready e (duration_sum sp.segments) j l total k
            (ap (scan (pos e) 0 (pos 0)) ends ∙ found),
        lt,
        omega (arith, sum),
        in_it,
      )
