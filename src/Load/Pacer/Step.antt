-- ===== src/Load/Pacer/Step.antt =====
-- load/pacer.go, `StepPacer` and `LinearPacer`. The search for the time at which the rate passes
-- `Stop` is a loop with no bound in the source: it takes fuel, and `none` means that the fuel ran out.
-- `Rate` calls `initialize` before it computes; every call below is on a pacer whose `init` is set, on
-- which that call returns at once.
pub mod Search
use ghz.Prelude.{
  ℕ, zero, suc, ◌%◌, ◌^◌, ◌/◌, ◌+◌, ◌-◌, Bool, true, false, not, ◌&&◌, ◌||◌, Option, none, some,
  ltb, leb, ◌==◌, if◌then◌else◌,
}
use ghz.Prelude.Int.{
  ℤ, pos, pos_part, ◌+ℤ◌, ◌-ℤ◌, ◌*ℤ◌, quot_ℤ, ltb_ℤ, leb_ℤ, eq_ℤ, to_uint64, wrap_int64, max_int64,
}
use ghz.Prelude.Float.{Float64, nano, seconds}
use ghz.Load.Pacer.{Paced, panic, pace, ConstantPacer, hits_per_ns, pace_constant}

pub record StepPacer : Type 0 where
  pub start : ConstantPacer
  pub step : ℤ
  pub step_duration : ℤ
  pub stop : ConstantPacer
  pub load_duration : ℤ
  pub max : ℕ
  pub init : Bool
  pub const_at : ℤ
  pub base_hits : ℕ

-- The checks of `initialize` that panic.
abbrev pub panics : StepPacer → Bool
panics p = eq_ℤ p.step_duration (pos 0) || (eq_ℤ p.step (pos 0) || (p.start.freq == 0))

abbrev pub in_const_part : StepPacer → ℤ → Bool
in_const_part p elapsed = ltb_ℤ (pos 0) p.const_at && leb_ℤ p.const_at elapsed

-- The first `t`, by steps of `d`, that passes the test.
unfoldable pub search_from : ℕ → (ℤ → Bool) → ℤ → ℤ → Option ℤ
search_from zero test d t = none
search_from (suc fuel) test d t =
    let rest = search_from fuel test d (wrap_int64 (t +ℤ d)) in if test t then some t else rest

-- `LoadDuration` is given: the rate is constant from then on, at `Stop` if that is given.
abbrev pub timed : StepPacer → StepPacer
timed p = record p {
  const_at = p.load_duration;
  stop =
      if p.stop.freq == 0
      then record (p.stop) {
        freq =
            (p.start.freq
              + to_uint64 (wrap_int64 (p.step *ℤ quot_ℤ p.load_duration p.step_duration)))
            % 2 ^ 64;
      }
      else p.stop;
}

module _ {F : Type 0} (f : Float64 F) where
  -- `Rate` on an initialized pacer.
  unfoldable pub rate : StepPacer → ℤ → F
  unfolding hits_per_ns
  rate p t =
      let steps = quot_ℤ t p.step_duration in
      let r =
        f.mul
          (f.add (hits_per_ns ⦃f = f⦄ p.start)
            (f.div (f.of_int64 (wrap_int64 (p.step *ℤ steps))) (f.of_uint64 nano)))
          (f.of_uint64 nano) in
      if in_const_part p t
      then f.of_uint64 p.stop.freq
      else if f.lt r (f.of_uint64 0)
      then f.of_uint64 0
      else r

  -- The loop over the previous steps: `n` rounds from `i` on.
  step_hits : StepPacer → ℕ → ℤ → F → F
  step_hits p zero i s = s
  step_hits p (suc n) i s = step_hits p n (i +ℤ pos 1) (
      f.add s
        (f.mul (rate p (wrap_int64 (p.step_duration *ℤ i))) (seconds ⦃f = f⦄ p.step_duration)))

  -- `hits`: the number of hits that should have been sent at time `t`.
  unfoldable pub hits_at : StepPacer → ℤ → F
  unfolding step_hits hits_per_ns
  hits_at p t =
      let steps = quot_ℤ t p.step_duration in
      let base = f.mul (hits_per_ns ⦃f = f⦄ p.start) (f.of_uint64 nano) in
      let first =
        f.mul (seconds ⦃f = f⦄ (if ltb_ℤ (pos 0) steps then p.step_duration else t)) base in
      let local = wrap_int64 (t -ℤ wrap_int64 (steps *ℤ p.step_duration)) in
      let current =
        if ltb_ℤ (pos 0) steps then f.mul (seconds ⦃f = f⦄ local) (rate p t) else f.of_uint64 0 in
      if ltb_ℤ t (pos 0)
      then f.of_uint64 0
      else f.add (step_hits p (pos_part steps - 1) (pos 1) first) current

  -- Whether the rate at `t` has passed `Stop`, for a step up or down.
  unfoldable pub passed : StepPacer → ℤ → Bool
  passed p t =
      if ltb_ℤ (pos 0) p.step
      then f.lt (f.of_uint64 p.stop.freq) (rate p t)
      else f.lt (rate p t) (f.of_uint64 p.stop.freq)

  -- The last statement of `initialize`.
  unfoldable pub with_base : StepPacer → StepPacer
  with_base p =
      if ltb_ℤ (pos 0) p.const_at
      then record p { base_hits = f.to_uint64 (hits_at p p.const_at) }
      else p

  -- No `LoadDuration`: the rate is constant from the time at which it has passed `Stop`.
  unfoldable pub searched : ℕ → StepPacer → Option StepPacer
  searched fuel p = elim (search_from fuel (passed p) p.step_duration (pos 0)) [
    | none ↦ none
    | some t ↦ some (with_base (record p { const_at = t }))
  ]

  -- `initialize`, on a pacer that passes the checks.
  unfoldable pub initialize : ℕ → StepPacer → Option StepPacer
  initialize fuel p =
      let started = record p { init = true } in
      if p.init
      then some p
      else if ltb_ℤ (pos 0) p.load_duration
      then some (with_base (timed started))
      else if ltb 0 p.stop.freq && eq_ℤ p.const_at (pos 0)
      then searched fuel started
      else some (with_base started)

  -- `Pace` after its `Max` test and `initialize`.
  unfoldable pub pace_ready : StepPacer → ℤ → ℕ → Paced
  pace_ready p elapsed hits =
      let expected = hits_at p elapsed in
      let gap = f.div (f.of_uint64 nano) (rate p elapsed) in
      let n = f.to_uint64 gap in
      let delta = f.sub (f.of_uint64 ((hits + 1) % 2 ^ 64)) expected in
      if ltb hits (f.to_uint64 expected)
      then pace (pos 0) false
      else if in_const_part p elapsed
      then if p.stop.freq == 0
        then pace (pos 0) true
        else pace_constant p.stop (wrap_int64 (elapsed -ℤ p.const_at))
            ((hits + 2 ^ 64 - p.base_hits) % 2 ^ 64)
      else if not (n == 0) && ltb (max_int64 / n) hits
      then pace (pos 0) true
      else pace (f.to_int64 (f.mul gap delta)) false

  -- `StepPacer.Pace`; `none` means that the search of `initialize` needs more fuel.
  unfoldable pub pace_step : ℕ → StepPacer → ℤ → ℕ → Option Paced
  pace_step fuel p elapsed hits =
      if ltb 0 p.max && leb p.max hits
      then some (pace (pos 0) true)
      else if panics p
      then some panic
      else elim (initialize fuel p) [
        | none ↦ none
        | some ready ↦ some (pace_ready ready elapsed hits)
      ]

pub record LinearPacer : Type 0 where
  pub start : ConstantPacer
  pub slope : ℤ
  pub stop : ConstantPacer
  pub load_duration : ℤ
  pub max : ℕ

-- The step pacer that `LinearPacer.initialize` wraps. It has no `Max` of its own.
abbrev pub wrapped : LinearPacer → StepPacer
wrapped p = record {
  start = p.start;
  step = p.slope;
  step_duration = pos nano;
  stop = p.stop;
  load_duration = p.load_duration;
  max = 0;
  init = false;
  const_at = pos 0;
  base_hits = 0;
}

module _ {F : Type 0} (f : Float64 F) where
  unfoldable pub pace_linear : ℕ → LinearPacer → ℤ → ℕ → Option Paced
  pace_linear fuel p elapsed hits =
      if ltb 0 p.max && leb p.max hits
      then some (pace (pos 0) true)
      else if (p.start.freq == 0) || eq_ℤ p.slope (pos 0)
      then some panic
      else pace_step f fuel (wrapped p) elapsed hits
