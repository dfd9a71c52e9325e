-- ===== src/Runner/Requester/Workers/Active.antt =====
-- runner/requester.go, the worker goroutine of `runWorkers`: how many workers are active, and which
-- connection each one has.
use ghz.Prelude.{
  ℕ, zero, suc, ◌+◌, ◌-◌, ◌%◌, ◌<◌, ◌≡◌, refl, ap, ◌∙◌, sym, inl, inr, true, List, [], ◌∷◌, ◌++◌,
  arith, Bool-cases, ltb, lt→ltb, false, ◌==◌, if◌then◌else◌, length, length-append,
}
use native.Mathlib.Nat.{mod-eq_of_lt, mod-lt}
use mathlib.Core.Path.{subst}
use ghz.Prelude.Turn.{next-turn}
use ghz.Prelude.Int.{ℤ, pos, negsuc, ◌+ℤ◌}
use ghz.Load.Ticker.{TickValue}
use ghz.Load.Ticker.Trace.{EndsAtDone}
use ghz.Load.Ticker.Reach.{count_after, pos-add}
use ghz.Runner.Requester.Workers.{
  Worker, Control, no_workers, stop_worker, start_one, start_workers, stop_workers, on_delta,
  control,
}

abbrev pub count_active : List Worker → ℕ
count_active [] = 0
count_active (w ∷ ws) = (if w.active then 1 else 0) + count_active ws

count_active-append :
    (ws vs : List Worker) → count_active (ws ++ vs) ≡ count_active ws + count_active vs
count_active-append [] vs = omega arith
count_active-append (w ∷ ws) vs = omega (arith, count_active-append ws vs)

stop-count_active :
    (nd : ℕ) (ws : List Worker) → count_active (stop_workers nd ws) ≡ count_active ws - nd
unfolding stop_workers stop_worker
stop-count_active nd [] = omega arith
stop-count_active zero (w ∷ ws) = omega arith
stop-count_active (suc nd) (w ∷ ws) = elim (Bool-cases w.active) [
  | inl e ↦ rw e (omega (arith, stop-count_active nd ws))
  | inr e ↦ rw e (omega (arith, stop-count_active (suc nd) ws))
]

-- The number of active workers that a delta asks for: it stops at 0.
abbrev pub shifted : ℕ → ℤ → ℕ
shifted a (pos d) = a + d
shifted a (negsuc d) = a - suc d

-- The workers carry the numbers from `i` on, in order, and use the connections in turn.
abbrev pub Placed : ℕ → ℕ → List Worker → Type 0
Placed k i [] = Unit {0}
Placed k i (w ∷ ws) = (w.number ≡ i) × (w.conn ≡ i % k) × Placed k (suc i) ws

pub record IsPlaced (k : ℕ) (s : Control) : Type 0 where
  pub numbered : s.wc ≡ length s.workers
  pub turn : s.n ≡ s.wc % k
  pub placed : Placed k 0 s.workers
  pub sound : s.crashed ≡ false

Placed-append :
    (k i : ℕ) (ws : List Worker) (w : Worker)
    → Placed k i ws
    → w.number ≡ i + length ws
    → w.conn ≡ (i + length ws) % k
    → Placed k i (ws ++ w ∷ [])
Placed-append k i [] w p n c = (n ∙ omega arith, c ∙ ap (λ j. j % k) (omega arith), tt)
Placed-append k i (v ∷ ws) w p n c = (
  p.0,
  p.1,
  Placed-append k (suc i) ws w p.2 (n ∙ omega arith) (c ∙ ap (λ j. j % k) (omega arith)),
)

Placed-stop : (k i nd : ℕ) (ws : List Worker) → Placed k i ws → Placed k i (stop_workers nd ws)
unfolding stop_workers stop_worker
Placed-stop k i nd [] p = tt
Placed-stop k i zero (w ∷ ws) p = p
Placed-stop k i (suc nd) (w ∷ ws) p = elim (Bool-cases w.active) [
  | inl e ↦ rw e (p.0, p.1, Placed-stop k (suc i) nd ws p.2)
  | inr e ↦ rw e (p.0, p.1, Placed-stop k (suc i) (suc nd) ws p.2)
]

length-stop : (nd : ℕ) (ws : List Worker) → length (stop_workers nd ws) ≡ length ws
unfolding stop_workers
length-stop nd [] = refl
length-stop zero (w ∷ ws) = refl
length-stop (suc nd) (w ∷ ws) = ground (arith, length-stop nd ws, length-stop (suc nd) ws)

-- The connection exists, so a worker is started.
abbrev added : ℕ → Control → Control
added k s = record s {
  workers = s.workers ++ record { number = s.wc; conn = s.n; active = true } ∷ [];
  n = if (s.n + 1) == k then 0 else s.n + 1;
  wc = s.wc + 1;
}

start_one_lem : {k : ℕ} {s : Control} → 0 < k → IsPlaced k s → start_one k s ≡ added k s
unfolding start_one
start_one_lem {k} {s} h p =
    let in_range : ltb s.n k ≡ true = lt→ltb s.n k (rw p.turn (mod-lt s.wc h)) in
    rw (start_one, in_range) refl

start_one-IsPlaced : {k : ℕ} {s : Control} → 0 < k → IsPlaced k s → IsPlaced k (start_one k s)
start_one-IsPlaced {k} {s} h p =
    let new : Worker = record { number = s.wc; conn = s.n; active = true } in
    subst (IsPlaced k) (sym (start_one_lem h p)) (record {
      numbered = omega (arith, length-append s.workers (new ∷ []), p.numbered);
      turn = rw p.turn (next-turn k s.wc h);
      placed =
          Placed-append k 0 s.workers new p.placed (p.numbered ∙ omega arith)
            (p.turn ∙ ap (λ j. j % k) (p.numbered ∙ omega arith));
      sound = p.sound;
    })

start_workers-IsPlaced :
    {k : ℕ} (d : ℕ) {s : Control} → 0 < k → IsPlaced k s → IsPlaced k (start_workers k d s)
unfolding start_workers
start_workers-IsPlaced zero h p = p
start_workers-IsPlaced (suc d) h p = start_workers-IsPlaced d h (start_one-IsPlaced h p)

on_delta-IsPlaced :
    {k : ℕ} (d : ℤ) {s : Control} → 0 < k → IsPlaced k s → IsPlaced k (on_delta k d s)
unfolding on_delta
on_delta-IsPlaced (pos d) h p = start_workers-IsPlaced d h p
on_delta-IsPlaced {k} (negsuc d) {s} h p = record {
  numbered = p.numbered ∙ sym (length-stop (suc d) s.workers);
  turn = p.turn;
  placed = Placed-stop k 0 (suc d) s.workers p.placed;
  sound = p.sound;
}

start-count_active :
    {k : ℕ} (d : ℕ) {s : Control}
    → 0 < k
    → IsPlaced k s
    → count_active (start_workers k d s).workers ≡ count_active s.workers + d
unfolding start_workers
start-count_active zero h p = omega arith
start-count_active {k} (suc d) {s} h p =
    start-count_active d h (start_one-IsPlaced h p)
    ∙ rw (start_one_lem h p) (
        omega (
          arith,
          count_active-append s.workers (record { number = s.wc; conn = s.n; active = true } ∷ []),
        ))

-- A delta of the ticker changes the number of active workers by exactly that much, and a negative one
-- that is too large stops all of them.
on_delta-count_active :
    {k : ℕ} (d : ℤ) {s : Control}
    → 0 < k
    → IsPlaced k s
    → count_active (on_delta k d s).workers ≡ shifted (count_active s.workers) d
unfolding on_delta
on_delta-count_active (pos d) h p = start-count_active d h p
on_delta-count_active (negsuc d) {s} h p = stop-count_active (suc d) s.workers

control-IsPlaced :
    {k : ℕ} (ticks : List TickValue) {s : Control}
    → 0 < k
    → IsPlaced k s
    → IsPlaced k (control k ticks s)
unfolding control
control-IsPlaced [] h p = p
control-IsPlaced (tv ∷ ticks) h p = elim (Bool-cases tv.done) [
  | inl e ↦ rw e (on_delta-IsPlaced tv.delta h p)
  | inr e ↦ rw e (control-IsPlaced ticks h (on_delta-IsPlaced tv.delta h p))
]

pub no_workers-IsPlaced : {k : ℕ} → 0 < k → IsPlaced k no_workers
no_workers-IsPlaced {k} h = record {
  numbered = refl;
  turn = sym (mod-eq_of_lt {n = 0} {m = k} h);
  placed = tt;
  sound = refl;
}

-- With at least one connection, whatever the ticker sends, the workers that were ever started are numbered
-- 0, 1, 2, … and take the connections in turn: worker `i` has connection `i % nConns`, which exists, and no
-- worker's stub is out of range.
pub control-Placed :
    (k : ℕ) (ticks : List TickValue)
    → 0 < k
    → Placed k 0 (control k ticks no_workers).workers
      × ((control k ticks no_workers).crashed ≡ false)
control-Placed k ticks h =
    let p = control-IsPlaced ticks {s = no_workers} h (no_workers-IsPlaced h) in (p.placed, p.sound)

pos-injective : {a b : ℕ} → pos a ≡ pos b → a ≡ b
pos-injective h = cc

-- No delta is negative.
abbrev pub IsUp : ℤ → Type 0
IsUp (pos d) = Unit {0}
IsUp (negsuc d) = ⊥

abbrev pub AllUp : List TickValue → Type 0
AllUp [] = Unit {0}
AllUp (v ∷ vs) = IsUp v.delta × AllUp vs

IsUp-pos : (d : ℤ) → IsUp d → (m : ℕ) × (d ≡ pos m)
IsUp-pos (pos m) u = (m, refl)
IsUp-pos (negsuc m) u = absurd u

-- A ticker that sends no negative delta, and nothing after `Done`, sets the number of active workers to
-- the sum of its deltas.
pub control-count_active :
    (k a final : ℕ) (vs : List TickValue) (s : Control)
    → 0 < k
    → IsPlaced k s
    → EndsAtDone vs
    → AllUp vs
    → count_active s.workers ≡ a
    → count_after (pos a) vs ≡ pos final
    → count_active (control k vs s).workers ≡ final
unfolding control
control-count_active k a final [] s h p e u c f = ground arith
control-count_active k a final (v ∷ vs) s h p e u c f =
    let (m, up) = IsUp-pos v.delta u.0 in
    let now : count_active (on_delta k v.delta s).workers ≡ a + m =
      on_delta-count_active v.delta h p ∙ rw (up, c) in
    let rest : count_after (pos (a + m)) vs ≡ pos final =
      rw (← pos-add a m) (subst (λ d. count_after (pos a +ℤ d) vs ≡ pos final) up f) in
    elim (Bool-cases v.done) [
      | inl d ↦
          rw d (
            now ∙ pos-injective (subst (λ l. count_after (pos (a + m)) l ≡ pos final) (e.0 d) rest))
      | inr d ↦ rw d (
          control-count_active k (a + m) final vs (on_delta k v.delta s) h
            (on_delta-IsPlaced v.delta h p) e.1 u.1 now rest)
    ]
