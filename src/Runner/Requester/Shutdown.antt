-- ===== src/Runner/Requester/Shutdown.antt =====
-- runner/requester.go, `runWorkers`: how its goroutines and the workers end, as steps. The worker ticker has
-- a list of values still to send, on a channel with no buffer. A worker is active, told to stop, or ended
-- with its error in `errC`; here they are counted. When the pacer stops, or a signal to stop comes, is up to
-- the environment. `Stop` tells a worker by a channel with no buffer, so it waits for the worker to take it.
pub mod Ended
pub mod Races
use ghz.Prelude.{ℕ, zero, suc, ◌+◌, ◌<◌, ◌≡◌, ◌⊎◌, Bool, true, false, List, [], ◌∷◌}
use ghz.Prelude.Int.{ℤ, pos, negsuc}
use ghz.Load.Ticker.{TickValue}

-- The goroutine that ranges over the ticker's values: between two values, with workers still to start or to
-- stop for a value and whether it is the last one, and ended (`workerTickerDone` is closed).
pub data ControlPhase : Type 0 where
  ranges : ControlPhase
  adds : ℕ → Bool → ControlPhase
  stops_some : ℕ → Bool → ControlPhase
  ended_control : ControlPhase

-- The goroutine that asks the pacer, with its deferred calls: `wt.Finish`, the wait for the goroutine
-- above, and the loop that stops all workers with the lock.
pub data PacingPhase : Type 0 where
  paces signals finishes joins stops_all quits : PacingPhase

-- `runWorkers` itself, with the number of workers that it has read, and how many errors are to come.
pub data MainPhase : Type 0 where
  waits counts : MainPhase
  collects : ℕ → ℕ → MainPhase
  returned : ℕ → MainPhase

pub record Shutdown : Type 0 where
  pub values : List TickValue
  pub closed : Bool
  pub control : ControlPhase
  pub pacing : PacingPhase
  pub main : MainPhase
  pub active : ℕ
  pub told : ℕ
  pub ended : ℕ
  pub errors : ℕ
  pub crashed : Bool

abbrev pub begin : List TickValue → Shutdown
begin values = record {
  values = values;
  closed = false;
  control = ranges;
  pacing = paces;
  main = waits;
  active = 0;
  told = 0;
  ended = 0;
  errors = 0;
  crashed = false;
}

-- `len(b.workers)`: a worker stays there when it has ended.
abbrev pub n_workers : Shutdown → ℕ
n_workers s = s.active + (s.told + s.ended)

abbrev pub on_value : TickValue → ControlPhase
on_value tv = elim tv.delta [ pos d ↦ adds d tv.done | negsuc d ↦ stops_some (suc d) tv.done ]

abbrev pub behind_value : Bool → ControlPhase
behind_value true = ended_control
behind_value false = ranges

abbrev pub stops_workers : ControlPhase → Bool
stops_workers (stops_some k done) = true
stops_workers ranges = false
stops_workers (adds k done) = false
stops_workers ended_control = false

abbrev pub holds_lock : PacingPhase → Bool
holds_lock stops_all = true
holds_lock paces = false
holds_lock signals = false
holds_lock finishes = false
holds_lock joins = false
holds_lock quits = false

-- `capacity` is that of `errC`.
pub data Step (capacity : ℕ) (s : Shutdown) : Shutdown → Type 0 where
  take_value :
      {tv : TickValue} {vs : List TickValue}
      → s.control ≡ ranges
      → s.values ≡ tv ∷ vs
      → s.closed ≡ false
      → Step capacity s (record s { values = vs; control = on_value tv })
  -- A value that is sent on the closed channel is a panic.
  send_closed :
      {tv : TickValue} {vs : List TickValue}
      → s.values ≡ tv ∷ vs
      → s.closed ≡ true
      → Step capacity s (record s { crashed = true })
  start_worker :
      {k : ℕ} {done : Bool}
      → s.control ≡ adds (suc k) done
      → holds_lock s.pacing ≡ false
      → Step capacity s (record s { control = adds k done; active = s.active + 1 })
  started :
      {done : Bool}
      → s.control ≡ adds 0 done
      → Step capacity s (record s { control = behind_value done })
  stop_one :
      {k a : ℕ} {done : Bool}
      → s.control ≡ stops_some (suc k) done
      → s.active ≡ suc a
      → Step capacity s (record s { control = stops_some k done; active = a; told = s.told + 1 })
  stopped :
      {k : ℕ} {done : Bool}
      → s.control ≡ stops_some k done
      → (k ≡ 0) ⊎ (s.active ≡ 0)
      → Step capacity s (record s { control = behind_value done })
  range_ends :
      s.control ≡ ranges → s.closed ≡ true → Step capacity s (record s { control = ended_control })
  pacer_stops : s.pacing ≡ paces → Step capacity s (record s { pacing = signals })
  hand_over :
      s.pacing ≡ signals
      → s.main ≡ waits
      → Step capacity s (record s { pacing = finishes; main = counts })
  finish_ticker : s.pacing ≡ finishes → Step capacity s (record s { pacing = joins; closed = true })
  join_control :
      s.pacing ≡ joins
      → s.control ≡ ended_control
      → Step capacity s (record s { pacing = stops_all })
  stop_next :
      {a : ℕ}
      → s.pacing ≡ stops_all
      → s.active ≡ suc a
      → Step capacity s (record s { active = a; told = s.told + 1 })
  quit : s.pacing ≡ stops_all → s.active ≡ 0 → Step capacity s (record s { pacing = quits })
  -- A worker that was told puts its error into `errC`.
  end_worker :
      {t : ℕ}
      → s.told ≡ suc t
      → s.errors < capacity
      → Step capacity s (record s { told = t; ended = s.ended + 1; errors = s.errors + 1 })
  count_workers :
      s.main ≡ counts
      → holds_lock s.pacing ≡ false
      → stops_workers s.control ≡ false
      → Step capacity s (record s { main = collects (n_workers s) (n_workers s) })
  collect :
      {n k e : ℕ}
      → s.main ≡ collects n (suc k)
      → s.errors ≡ suc e
      → Step capacity s (record s { main = collects n k; errors = e })
  return_errors : {n : ℕ} → s.main ≡ collects n 0 → Step capacity s (record s { main = returned n })

pub data Reach (capacity : ℕ) (s : Shutdown) : Shutdown → Type 0 where
  start : Reach capacity s s
  later : {t u : Shutdown} → Reach capacity s t → Step capacity t u → Reach capacity s u
