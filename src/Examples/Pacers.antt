-- ===== src/Examples/Pacers.antt =====
-- load/pacer.go: a pacer of each kind.
use ghz.Prelude.{
  ℕ, zero, suc, ◌+◌, ◌*◌, ◌/◌, ◌≤◌, ◌<◌, ◌≡◌, refl, true, false, List, [], ◌∷◌, some, arith,
}
use ghz.Prelude.Int.{pos}
use ghz.Prelude.Float.{Fixed, fixed_float, nano}
use ghz.Load.Pacer.{pace, ConstantPacer, pace_constant, expected_hits, interval, delay}
use ghz.Load.Pacer.Constant.{pace_constant-on_schedule}
use ghz.Load.Pacer.Segmented.{LoadSegment, SegmentedPacer, find_segment, pace_segmented}
use ghz.Load.Pacer.Segmented.{initialize}
use ghz.Load.Pacer.Segmented.Lookup.{begins, lasts, find_segment_lem}
use ghz.Load.Pacer.Segmented.Overrun.{pace_segmented-Beyond}
use ghz.Load.Pacer.Step
use ghz.Load.Pacer.Step.{StepPacer, LinearPacer, pace_step, pace_linear, wrapped, passed, rate}
use ghz.Load.Pacer.Step.Search.{one_second_steps, pace_linear-eq-pace_step, initialize-const_at}

abbrev hundred : ConstantPacer
hundred = record { freq = 100; max = 0 }

abbrev too_fast : ConstantPacer
too_fast = record { freq = 2_000_000_000; max = 0 }

hundred_waits : pace_constant hundred (pos 5_000_000) 3 ≡ pace (pos 35_000_000) false
unfolding pace_constant expected_hits interval delay
hundred_waits = refl

pace_constant-on_schedule_example :
    ((3 + 1) * (nano / 100) ≤ 5_000_000 + 35_000_000)
    × (0 < 35_000_000 → 5_000_000 + 35_000_000 ≡ (3 + 1) * (nano / 100))
pace_constant-on_schedule_example =
    pace_constant-on_schedule hundred 5_000_000 3 (omega arith) (omega arith) (omega arith)
      (omega arith) (omega arith) hundred_waits

-- Two seconds at 3 hits per second, then one at 5.
abbrev segments : List (LoadSegment Fixed)
segments =
    record { duration = pos (2 * nano); rps = 3 * nano }
    ∷ record { duration = pos nano; rps = 5 * nano }
    ∷ []

abbrev fresh : SegmentedPacer Fixed
fresh = record {
  segments = segments;
  max = 0;
  cumulative_hits = [];
  cumulative_times = [];
  total_duration = pos 0;
}

abbrev ready : SegmentedPacer Fixed
ready = record fresh {
  cumulative_hits = 6 * nano ∷ 11 * nano ∷ [];
  cumulative_times = pos (2 * nano) ∷ pos (3 * nano) ∷ [];
  total_duration = pos (3 * nano);
}

fresh-ready : initialize fresh ≡ some ready
unfolding initialize
fresh-ready = refl

find_segment_lem_example :
    (k : ℕ) × (l : ℕ) × (find_segment ready (pos 2_500_000_000) ≡ (k, pos l))
    × (k < 2)
    × (begins k segments + l ≡ 2_500_000_000)
    × (l < lasts k segments)
find_segment_lem_example =
    find_segment_lem fresh 2_500_000_000 fresh-ready (omega arith) (omega arith)

pace_segmented-Beyond_example :
    pace_segmented fresh (pos 2_900_000_000) 11 ≡ pace (pos 100_000_000) false
pace_segmented-Beyond_example =
    pace_segmented-Beyond fresh ready 2_900_000_000 3_000_000_000 11 refl fresh-ready refl
      (omega arith) (omega arith) (omega arith) (refl, (refl, tt))

abbrev slope : LinearPacer
slope = record {
  start = record { freq = 10; max = 0 };
  slope = pos 5;
  stop = record { freq = 22; max = 0 };
  load_duration = pos 0;
  max = 50;
}

pace_linear-eq-pace_step_example :
    pace_linear fixed_float 9 slope (pos 3_500_000_000) 41
    ≡ pace_step fixed_float 9 (one_second_steps slope) (pos 3_500_000_000) 41
pace_linear-eq-pace_step_example =
    pace_linear-eq-pace_step fixed_float 9 slope (pos 3_500_000_000) 41

slope_passes : passed fixed_float (wrapped slope) (pos (3 * nano)) ≡ true
unfolding passed rate
slope_passes = refl

slope_below : (j : ℕ) → j < 3 → passed fixed_float (wrapped slope) (pos (j * nano)) ≡ false
unfolding passed rate
slope_below zero h = refl
slope_below (suc zero) h = refl
slope_below (suc (suc zero)) h = refl
slope_below (suc (suc (suc j))) h = absurd (omega arith)

initialize-const_at_example :
    (q : StepPacer) × (Step.initialize fixed_float 9 (wrapped slope) ≡ some q)
    × (q.const_at ≡ pos (3 * nano))
initialize-const_at_example =
    initialize-const_at fixed_float (wrapped slope) nano 3 9 refl refl (omega arith) refl refl
      (omega arith) (omega arith) slope_passes slope_below
