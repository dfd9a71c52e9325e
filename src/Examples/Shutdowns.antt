-- ===== src/Examples/Shutdowns.antt =====
-- runner/requester.go and runner/worker.go: how two workers end, and a call with a timer.
use ghz.Prelude.{◌≡◌, ◌↔◌, refl, true, [], ◌∷◌, arith}
use ghz.Prelude.Int.{pos}
use ghz.Load.Ticker.{TickValue}
use ghz.Runner.Calls.Timed as Timed
use ghz.Runner.Calls.Timed.{TimedCall, Reach-crashed_timed}
use ghz.Runner.Requester.Shutdown.{
  Shutdown, begin, stops_all, ended_control, returned, n_workers, take_value, start_worker, started,
  pacer_stops, hand_over, finish_ticker, join_control, stop_next, end_worker, count_workers,
  collect, return_errors, Reach, start, later,
}
use ghz.Runner.Requester.Shutdown.Ended.{Reach-all_ended}
use ghz.Runner.Requester.Shutdown.Races.{Reach-unfinished}

Reach-crashed_timed_example :
    ((t : TimedCall) × Timed.Reach true true t × (t.crashed ≡ true)) ↔ (true ≡ true)
Reach-crashed_timed_example = Reach-crashed_timed true true

-- Two workers, with the only value that the ticker sends.
abbrev two : TickValue
two = record { delta = pos 2; done = true }

abbrev both : Shutdown
both = record (begin (two ∷ [])) { values = []; control = ended_control; active = 2 }

abbrev after : Shutdown
after = record both { pacing = stops_all; closed = true; main = returned 2; active = 0; ended = 2 }

both_start : Reach 5 (begin (two ∷ [])) both
both_start =
    later
      (later (later (later start (take_value refl refl refl)) (start_worker refl refl))
        (start_worker refl refl))
      (started refl)

both_end : Reach 5 both after
both_end =
    let stopping : Reach 5 both _ =
      later
        (later
          (later
            (later
              (later (later (later start (pacer_stops refl)) (hand_over refl refl))
                (count_workers refl refl refl))
              (finish_ticker refl))
            (join_control refl refl))
          (stop_next refl refl))
        (stop_next refl refl) in
    later
      (later
        (later (later (later stopping (end_worker refl (omega arith))) (collect refl refl))
          (end_worker refl (omega arith)))
        (collect refl refl))
      (return_errors refl)

Reach-all_ended_example : (after.ended ≡ 2) × (n_workers after ≡ 2)
Reach-all_ended_example = Reach-all_ended 5 (two ∷ []) both_start refl refl both_end refl

Reach-unfinished_example :
    ((t : Shutdown) × Reach 5 (begin (two ∷ [])) t × (t.main ≡ returned 0) × (t.active ≡ 1))
    × ((t : Shutdown) × Reach 5 (begin (two ∷ [])) t × (t.crashed ≡ true))
Reach-unfinished_example = Reach-unfinished 5 two [] 1 refl
