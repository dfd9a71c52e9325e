-- ===== src/Examples/Tickers.antt =====
-- load/worker_ticker.go and the workers of runner/requester.go: a ramp from 1 to 4 workers by 2.
use ghz.Prelude.{ℕ, ◌≤◌, ◌≡◌, refl, true, false, List, [], ◌∷◌, some, arith}
use ghz.Prelude.Int.{ℤ, pos}
use ghz.Load.Ticker.{TickValue, StepWorkerTicker, run, tick}
use ghz.Load.Ticker.Reach.{count_after, ends_done, run-step_up}
use ghz.Runner.Requester.Workers.{no_workers, control}
use ghz.Runner.Requester.Workers.Active.{Placed, control-Placed}

abbrev ramp : StepWorkerTicker
ramp = record { start = 1; step = pos 2; step_duration = pos 1000; stop = 4; max_duration = pos 0 }

abbrev capped_ramp : StepWorkerTicker
capped_ramp = record ramp { max_duration = pos 2500 }

abbrev firings : List ℤ
firings = pos 1000 ∷ pos 2000 ∷ pos 3000 ∷ pos 4000 ∷ pos 5000 ∷ []

abbrev values : List TickValue
values =
    record { delta = pos 1; done = false }
    ∷ record { delta = pos 2; done = false }
    ∷ record { delta = pos 2; done = false }
    ∷ record { delta = pos 0; done = true }
    ∷ []

run-step_up_example :
    (vs : List TickValue) × (final : ℕ) × (run ramp firings ≡ some vs)
    × (ends_done vs ≡ true)
    × (count_after (pos 0) vs ≡ pos final)
    × (4 ≤ final)
    × (final ≤ 5)
run-step_up_example =
    run-step_up ramp 1 refl refl (omega arith) (omega arith) firings refl (omega arith)
      (omega arith)

ramp-run : run ramp firings ≡ some values
unfolding run tick
ramp-run = refl

control-Placed_example :
    Placed 3 0 (control 3 values no_workers).workers
    × ((control 3 values no_workers).crashed ≡ false)
control-Placed_example = control-Placed 3 values (omega arith)
