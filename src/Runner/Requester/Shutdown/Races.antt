-- ===== src/Runner/Requester/Shutdown/Races.antt =====
-- runner/requester.go: interleavings in which `runWorkers` returns too early, or the worker ticker panics.
use ghz.Prelude.{ℕ, suc, ◌≡◌, refl, true, List, ◌∷◌}
use ghz.Prelude.Int.{pos}
use ghz.Load.Ticker.{TickValue}
use ghz.Runner.Requester.Shutdown.{
  returned, Shutdown, begin, take_value, send_closed, start_worker, pacer_stops, hand_over,
  finish_ticker, count_workers, return_errors, Reach, start, later,
}

module _ (capacity : ℕ) (tv : TickValue) (vs : List TickValue) where
  -- Where the worker ticker has a value to send there are interleavings that go wrong. If the value starts
  -- workers and the pacer stops before it is sent, `runWorkers` returns with no error awaited, and a worker
  -- starts after that. And if the ticker sends the value after `Finish` has closed its channel, it panics.
  pub Reach-unfinished :
      (d : ℕ)
      → tv.delta ≡ pos (suc d)
      → ((t : Shutdown) × Reach capacity (begin (tv ∷ vs)) t
          × (t.main ≡ returned 0)
          × (t.active ≡ 1))
        × ((t : Shutdown) × Reach capacity (begin (tv ∷ vs)) t × (t.crashed ≡ true))
  Reach-unfinished d h = (
    (
      _,
      later
          (later
            (later
              (later (later (later start (pacer_stops refl)) (hand_over refl refl))
                (count_workers refl refl refl))
              (return_errors refl))
            (take_value refl refl refl))
          (start_worker {k = d} {done = tv.done} (rw h refl) refl),
      refl,
      refl,
    ),
    (
      _,
      later
          (later (later (later start (pacer_stops refl)) (hand_over refl refl))
            (finish_ticker refl))
          (send_closed refl refl),
      refl,
    ),
  )
