-- ===== src/Runner/Requester/Shutdown/Ended.antt =====
-- runner/requester.go: `runWorkers` waits for the workers that there are when the pacer stops.
use ghz.Prelude.{ℕ, suc, ◌+◌, ◌≤◌, ◌≡◌, refl, sym, ap, ◌∙◌, subst, Bool, true, false, List, arith}
use mathlib.Core.Bool.{true≢false}
use ghz.Load.Ticker.{TickValue}
use ghz.Runner.Requester.Shutdown.{
  ControlPhase, ranges, adds, stops_some, ended_control, MainPhase, waits, counts, collects,
  returned, Shutdown, begin, n_workers, Step, take_value, send_closed, start_worker, started,
  stop_one, stopped, range_ends, pacer_stops, hand_over, finish_ticker, join_control, stop_next,
  quit, end_worker, count_workers, collect, return_errors, Reach, start, later,
}

-- The errors that are to come; the number of workers that was read, if it was.
abbrev due : MainPhase → ℕ
due waits = 0
due counts = 0
due (collects n k) = k
due (returned n) = 0

abbrev read : MainPhase → ℕ
read waits = 0
read counts = 0
read (collects n k) = n
read (returned n) = n

-- Each worker that ended has its error in `errC`, or it was taken.
record IsCounted (s : Shutdown) : Type 0 where
  errors : s.errors + read s.main ≡ s.ended + due s.main

module _ (capacity : ℕ) where
  Step-IsCounted : {s t : Shutdown} → IsCounted s → Step capacity s t → IsCounted t
  Step-IsCounted v (take_value h k l) = record { errors = v.errors }
  Step-IsCounted v (send_closed h k) = record { errors = v.errors }
  Step-IsCounted v (start_worker h l) = record { errors = v.errors }
  Step-IsCounted v (started h) = record { errors = v.errors }
  Step-IsCounted v (stop_one h k) = record { errors = v.errors }
  Step-IsCounted v (stopped h k) = record { errors = v.errors }
  Step-IsCounted v (range_ends h k) = record { errors = v.errors }
  Step-IsCounted v (pacer_stops h) = record { errors = v.errors }
  Step-IsCounted v (hand_over h k) = record { errors = grind (arith, v.errors) }
  Step-IsCounted v (finish_ticker h) = record { errors = v.errors }
  Step-IsCounted v (join_control h k) = record { errors = v.errors }
  Step-IsCounted v (stop_next h k) = record { errors = v.errors }
  Step-IsCounted v (quit h k) = record { errors = v.errors }
  Step-IsCounted v (end_worker h k) = record { errors = grind (arith, v.errors) }
  Step-IsCounted v (count_workers h k l) = record { errors = grind (arith, v.errors) }
  Step-IsCounted v (collect h k) = record { errors = grind (arith, v.errors) }
  Step-IsCounted v (return_errors h) = record { errors = grind (arith, v.errors) }

  Reach-IsCounted : {s t : Shutdown} → IsCounted s → Reach capacity s t → IsCounted t
  Reach-IsCounted v start = v
  Reach-IsCounted v (later r st) = Step-IsCounted (Reach-IsCounted v r) st

-- The number that was read, if it was, is `n`.
abbrev Reads : ℕ → MainPhase → Type 0
Reads n waits = Unit {0}
Reads n counts = Unit {0}
Reads n (collects m k) = m ≡ n
Reads n (returned m) = m ≡ n

-- No worker is started any more, and there are `n` of them.
record IsSettled (n : ℕ) (s : Shutdown) : Type 0 where
  control : s.control ≡ ended_control
  workers : n_workers s ≡ n
  reads : Reads n s.main

is_ended : ControlPhase → Bool
is_ended ended_control = true
is_ended ranges = false
is_ended (adds k done) = false
is_ended (stops_some k done) = false

not_ended : {A : Type 0} (c d : ControlPhase) → c ≡ ended_control → c ≡ d → is_ended d ≡ false → A
unfolding is_ended
not_ended c d h k f = absurd (true≢false (ap is_ended (sym h ∙ k) ∙ f))

module _ (capacity n : ℕ) where
  Step-IsSettled : {s t : Shutdown} → IsSettled n s → Step capacity s t → IsSettled n t
  unfolding is_ended
  Step-IsSettled {s} v (take_value h k l) = not_ended s.control ranges v.control h refl
  Step-IsSettled v (send_closed h k) = record {
    control = v.control;
    workers = v.workers;
    reads = v.reads;
  }
  Step-IsSettled {s} v (start_worker {k} {done} h l) =
      not_ended s.control (adds (suc k) done) v.control h refl
  Step-IsSettled {s} v (started {done} h) = not_ended s.control (adds 0 done) v.control h refl
  Step-IsSettled {s} v (stop_one {k} {a} {done} h l) =
      not_ended s.control (stops_some (suc k) done) v.control h refl
  Step-IsSettled {s} v (stopped {k} {done} h l) =
      not_ended s.control (stops_some k done) v.control h refl
  Step-IsSettled v (range_ends h k) = record {
    control = refl;
    workers = v.workers;
    reads = v.reads;
  }
  Step-IsSettled v (pacer_stops h) = record {
    control = v.control;
    workers = v.workers;
    reads = v.reads;
  }
  Step-IsSettled v (hand_over h k) = record { control = v.control; workers = v.workers; reads = tt }
  Step-IsSettled v (finish_ticker h) = record {
    control = v.control;
    workers = v.workers;
    reads = v.reads;
  }
  Step-IsSettled v (join_control h k) = record {
    control = v.control;
    workers = v.workers;
    reads = v.reads;
  }
  Step-IsSettled v (stop_next h k) = record {
    control = v.control;
    workers = omega (arith, v.workers, k);
    reads = v.reads;
  }
  Step-IsSettled v (quit h k) = record { control = v.control; workers = v.workers; reads = v.reads }
  Step-IsSettled v (end_worker h k) = record {
    control = v.control;
    workers = omega (arith, v.workers, h);
    reads = v.reads;
  }
  Step-IsSettled v (count_workers h k l) = record {
    control = v.control;
    workers = v.workers;
    reads = v.workers;
  }
  Step-IsSettled v (collect h k) = record {
    control = v.control;
    workers = v.workers;
    reads = subst (Reads n) h v.reads;
  }
  Step-IsSettled v (return_errors h) = record {
    control = v.control;
    workers = v.workers;
    reads = subst (Reads n) h v.reads;
  }

  Reach-IsSettled : {s t : Shutdown} → IsSettled n s → Reach capacity s t → IsSettled n t
  Reach-IsSettled v start = v
  Reach-IsSettled v (later r st) = Step-IsSettled (Reach-IsSettled v r) st

module _ (capacity : ℕ) (values : List TickValue) where
  -- If the goroutine that starts and stops workers has ended before the pacer's end is handed over, then in
  -- every interleaving, when `runWorkers` has returned, all workers have ended, and it has taken the error of
  -- each of them.
  pub Reach-all_ended :
      {s t : Shutdown} {n : ℕ}
      → Reach capacity (begin values) s
      → s.control ≡ ended_control
      → s.main ≡ waits
      → Reach capacity s t
      → t.main ≡ returned n
      → (t.ended ≡ n) × (n_workers t ≡ n)
  Reach-all_ended {s} {t} {n} r c w r' e =
      let v : IsCounted s = Reach-IsCounted capacity (record { errors = omega arith }) r in
      let u : IsCounted t = Reach-IsCounted capacity v r' in
      let x : IsSettled (n_workers s) t =
        Reach-IsSettled capacity (n_workers s)
          (record { control = c; workers = refl; reads = subst (Reads (n_workers s)) (sym w) tt })
          r' in
      let same : n ≡ n_workers s = subst (Reads (n_workers s)) e x.reads in
      let sum : t.errors + n ≡ t.ended + 0 =
        subst (λ m. t.errors + read m ≡ t.ended + due m) e u.errors in
      (omega (arith, sum, same, x.workers), x.workers ∙ sym same)

  -- In any case it has taken the errors of ended workers only.
  Reach-counted_ended :
      {t : Shutdown} {n : ℕ} → Reach capacity (begin values) t → t.main ≡ returned n → n ≤ t.ended
  Reach-counted_ended {t} {n} r e =
      let u : IsCounted t = Reach-IsCounted capacity (record { errors = omega arith }) r in
      let sum : t.errors + n ≡ t.ended + 0 =
        subst (λ m. t.errors + read m ≡ t.ended + due m) e u.errors in
      omega (arith, sum)
