-- ===== src/Runner/Requester/Workers.antt =====
-- runner/requester.go, the goroutine of `runWorkers` that starts and stops workers, and `Worker.Stop`.
pub mod Active
pub mod Ramp
use ghz.Prelude.{
  ℕ, zero, suc, ◌+◌, ◌-◌, Bool, true, false, List, [], ◌∷◌, ◌++◌, ◌==◌, ltb, if◌then◌else◌,
}
use ghz.Prelude.Int.{ℤ, pos, negsuc}
use ghz.Load.Ticker.{TickValue}

-- A worker as `runWorkers` sees it: its number, its connection, and whether it is active. The ID is
-- "g", the number, "c" and the connection, behind the configuration's name.
pub record Worker : Type 0 where
  pub number : ℕ
  pub conn : ℕ
  pub active : Bool

-- `n` is the connection of the next worker, `wc` its number; `crashed` says that the code has panicked.
pub record Control : Type 0 where
  pub workers : List Worker
  pub n : ℕ
  pub wc : ℕ
  pub crashed : Bool

abbrev pub no_workers : Control
no_workers = record { workers = []; n = 0; wc = 0; crashed = false }

-- `Worker.Stop`: only an active worker is told to stop.
unfoldable pub stop_worker : Worker → Worker
stop_worker w = if w.active then record w { active = false } else w

-- One round of the loop that starts workers. There is a stub for each connection; `b.stubs[n]` panics where
-- there is none.
unfoldable pub start_one : ℕ → Control → Control
start_one n_conns s =
    if ltb s.n n_conns
    then record s {
      workers = s.workers ++ record { number = s.wc; conn = s.n; active = true } ∷ [];
      n = if (s.n + 1) == n_conns then 0 else s.n + 1;
      wc = s.wc + 1;
    }
    else record s { crashed = true }

unfoldable pub start_workers : ℕ → ℕ → Control → Control
start_workers n_conns zero s = s
start_workers n_conns (suc i) s = start_workers n_conns i (start_one n_conns s)

-- The loop that stops `nd` workers: the first active ones.
unfoldable pub stop_workers : ℕ → List Worker → List Worker
stop_workers nd [] = []
stop_workers zero (w ∷ ws) = w ∷ ws
stop_workers (suc nd) (w ∷ ws) =
    let stopped = stop_workers nd ws in
    let kept = stop_workers (suc nd) ws in if w.active then stop_worker w ∷ stopped else w ∷ kept

-- What a value of the worker ticker does.
unfoldable pub on_delta : ℕ → ℤ → Control → Control
on_delta n_conns (pos d) s = start_workers n_conns d s
on_delta n_conns (negsuc d) s = record s { workers = stop_workers (suc d) s.workers }

-- `for tv := range wct`: a value that says `Done` ends the loop.
unfoldable pub control : ℕ → List TickValue → Control → Control
control n_conns [] s = s
control n_conns (tv ∷ ticks) s =
    let next = control n_conns ticks (on_delta n_conns tv.delta s) in
    if tv.done then on_delta n_conns tv.delta s else next
