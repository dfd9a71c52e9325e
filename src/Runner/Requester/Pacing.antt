-- ===== src/Runner/Requester/Pacing.antt =====
-- runner/requester.go, the goroutine of `runWorkers` that asks the pacer and sends the ticks.
-- The environment is a list of rounds: what `time.Since(began)` reads, and whether `select` takes the
-- stop signal (`stopped`) or a worker takes the tick. The pacer is a function of time and count.
pub mod Total
use ghz.Prelude.{ℕ, ◌+◌, Bool, true, false, List, [], ◌∷◌, if◌then◌else◌}
use ghz.Prelude.Int.{ℤ}
use ghz.Load.Pacer.{Paced, panic, pace}

pub record Round : Type 0 where
  pub since : ℤ
  pub stopped : Bool

-- How the goroutine stands when the rounds are used up.
pub data Outcome : Type 0 where
  ended : Outcome
  panicked : Outcome
  running : Outcome

-- The numbers of the ticks that workers have taken, in order, and the outcome. The counter goes up
-- when `select` is entered, and so also where it then takes the stop signal.
unfoldable pub pacing : (ℤ → ℕ → Paced) → ℕ → List Round → List ℕ × Outcome
pacing pacer counter [] = ([], running)
pacing pacer counter (r ∷ rounds) =
    let rest = pacing pacer (counter + 1) rounds in
    elim (pacer r.since counter) [
      | panic ↦ ([], panicked)
      | pace wait stop ↦
          if stop
          then ([], ended)
          else if r.stopped
          then ([], ended)
          else (counter ∷ rest.0, rest.1)
    ]
