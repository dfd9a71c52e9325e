-- ===== src/Load/Ticker.antt =====
-- load/worker_ticker.go. A ticker is a run: the list of the values that it sends over its channel.
-- `time.NewTicker` and the clock are the environment: a run takes the readings of
-- `time.Since(begin)` at the firings of the Go ticker, in order. When the readings are used up the
-- run is cut off where it stands.
pub mod Trace
pub mod Reach
pub mod Capped
use ghz.Prelude.{
  ℕ, ◌%◌, ◌^◌, ◌-◌, ◌+◌, Bool, true, false, not, ◌&&◌, ◌||◌, List, [], ◌∷◌, Option, none, some, ltb,
  leb, if◌then◌else◌,
}
use ghz.Prelude.Int.{ℤ, pos, negsuc, ◌+ℤ◌, ltb_ℤ, leb_ℤ, eq_ℤ, to_uint64, to_int64, wrap_int64}

-- `TickValue` of the package `load`.
pub record TickValue : Type 0 where
  pub delta : ℤ
  pub done : Bool

pub record ConstWorkerTicker : Type 0 where
  pub n : ℕ

unfoldable pub run_const : ConstWorkerTicker → List TickValue
run_const c = record { delta = to_int64 c.n; done = true } ∷ []

pub record StepWorkerTicker : Type 0 where
  pub start : ℕ
  pub step : ℤ
  pub step_duration : ℤ
  pub stop : ℕ
  pub max_duration : ℤ

abbrev pub step_up : StepWorkerTicker → Bool
step_up c = ltb_ℤ (pos 0) c.step

-- int(c.Stop - uint(wc)): the subtraction is on 64-bit words.
abbrev pub final_diff : StepWorkerTicker → ℤ → ℤ
final_diff c wc = to_int64 ((c.stop + 2 ^ 64 - to_uint64 wc) % 2 ^ 64)

abbrev pub finished : ℤ → TickValue
finished d = record { delta = d; done = true }

-- The first branch of the loop: `MaxDuration` has passed.
abbrev pub eclipsed : StepWorkerTicker → ℤ → Bool
eclipsed c since = ltb_ℤ (pos 0) c.max_duration && leb_ℤ c.max_duration since

-- The second branch: there is no `MaxDuration`, and the count has reached `Stop`.
abbrev pub arrived : StepWorkerTicker → ℤ → Bool
arrived c wc =
    eq_ℤ c.max_duration (pos 0)
    && ((ltb 0 c.stop && (step_up c && leb_ℤ (to_int64 c.stop) wc))
        || (not (step_up c) && leb_ℤ wc (to_int64 c.stop)))

-- What the goroutine sends at one firing of the Go ticker, with the count `wc` before it.
unfoldable pub tick : StepWorkerTicker → ℤ → ℤ → TickValue
tick c wc since =
    if eclipsed c since
    then if step_up c && (ltb 0 c.stop && leb (to_uint64 wc) c.stop)
      then finished (final_diff c wc)
      else if not (step_up c) && (ltb 0 c.stop && leb c.stop (to_uint64 wc))
      then finished (final_diff c wc)
      else finished (pos 0)
    else if arrived c wc
    then finished (pos 0)
    else record { delta = c.step; done = false }

-- `for range ticker.C`: a value that says `Done` ends the loop, any other adds `Step` to the count.
unfoldable pub loop : StepWorkerTicker → ℤ → List ℤ → List TickValue
loop c wc [] = []
loop c wc (since ∷ firings) =
    let rest = loop c (wrap_int64 (wc +ℤ c.step)) firings in
    if (tick c wc since).done then tick c wc since ∷ [] else tick c wc since ∷ rest

-- `Run`. `time.NewTicker` panics at a duration that is not positive: `none`.
unfoldable pub run : StepWorkerTicker → List ℤ → Option (List TickValue)
unfolding loop
run c firings =
    if leb_ℤ c.step_duration (pos 0)
    then none
    else some
        (record { delta = to_int64 c.start; done = false } ∷ loop c (to_int64 c.start) firings)

pub record LineWorkerTicker : Type 0 where
  pub start : ℕ
  pub slope : ℤ
  pub stop : ℕ
  pub max_duration : ℤ

abbrev pub second : ℕ
second = 1_000_000_000

abbrev pub to_step : LineWorkerTicker → StepWorkerTicker
to_step c = record {
  start = c.start;
  step = c.slope;
  step_duration = pos second;
  stop = c.stop;
  max_duration = c.max_duration;
}

unfoldable pub run_line : LineWorkerTicker → List ℤ → Option (List TickValue)
unfolding run
run_line c firings = run (to_step c) firings
