-- ===== src/Runner/Calls/Timed.antt =====
-- runner/worker.go, `makeClientStreamingRequest` and `makeServerStreamingRequest`: the call and the timer of
-- `StreamCallDuration`, as steps of their two goroutines. What the loop does on its stream is in
-- Runner.Calls; here it may end at any time, and it may take from `cancel` where it waits for the interval
-- (only the client streaming call does).
use mathlib.Core.Bool.{true≢false}
use ghz.Prelude.{ℕ, suc, ◌≡◌, ◌↔◌, refl, sym, ap, ◌∙◌, Bool, true, false, if◌then◌else◌}

-- The timer's goroutine: not started, in its `select`, about to send on `cancel`, and ended.
pub data TimerPhase : Type 0 where
  no_timer selects fires ended_timer : TimerPhase

-- The call: in its loop, behind it, with `doneCh` closed, with `cancel` closed too, and returned.
pub data CallPhase : Type 0 where
  loops drains done_closed returned : CallPhase

-- `pending` is `len(cancel)`, of capacity 1.
pub record TimedCall : Type 0 where
  pub timer : TimerPhase
  pub call : CallPhase
  pub pending : ℕ
  pub crashed : Bool

abbrev pub begin : Bool → TimedCall
begin timed = record {
  timer = if timed then selects else no_timer;
  call = loops;
  pending = 0;
  crashed = false;
}

abbrev pub is_done_closed : CallPhase → Bool
is_done_closed loops = false
is_done_closed drains = false
is_done_closed done_closed = true
is_done_closed returned = true

-- `client` says which of the two calls it is: the client streaming one empties `cancel` behind its loop, the
-- server streaming one may go on when it has taken from it.
pub data Step (client : Bool) (s : TimedCall) : TimedCall → Type 0 where
  -- The time is over, whether or not `doneCh` is closed.
  time_over : s.timer ≡ selects → Step client s (record s { timer = fires })
  cancel_call :
      s.timer ≡ fires
      → s.pending ≡ 0
      → (s.call ≡ returned → ⊥)
      → Step client s (record s { timer = ended_timer; pending = 1 })
  cancel_closed :
      s.timer ≡ fires
      → s.call ≡ returned
      → Step client s (record s { timer = ended_timer; crashed = true })
  stop_timer :
      s.timer ≡ selects
      → is_done_closed s.call ≡ true
      → Step client s (record s { timer = ended_timer })
  take_cancel :
      {k : ℕ}
      → s.call ≡ loops
      → s.pending ≡ suc k
      → Step client s (record s { pending = k; call = drains })
  take_and_go_on :
      {k : ℕ}
      → client ≡ false
      → s.call ≡ loops
      → s.pending ≡ suc k
      → Step client s (record s { pending = k })
  end_loop : s.call ≡ loops → Step client s (record s { call = drains })
  drain :
      {k : ℕ}
      → client ≡ true
      → s.call ≡ drains
      → s.pending ≡ suc k
      → Step client s (record s { pending = k })
  close_done :
      s.call ≡ drains
      → (client ≡ true → s.pending ≡ 0)
      → Step client s (record s { call = done_closed })
  close_cancel : s.call ≡ done_closed → Step client s (record s { call = returned })

pub data Reach (client timed : Bool) : TimedCall → Type 0 where
  start : Reach client timed (begin timed)
  later : {s t : TimedCall} → Reach client timed s → Step client s t → Reach client timed t

-- Without a timer nothing is ever sent on `cancel`.
abbrev IsQuiet : TimedCall → Type 0
IsQuiet s = (s.timer ≡ no_timer) × (s.crashed ≡ false)

is_no_timer : TimerPhase → Bool
is_no_timer no_timer = true
is_no_timer selects = false
is_no_timer fires = false
is_no_timer ended_timer = false

none_started : {A : Type 0} (c d : TimerPhase) → c ≡ no_timer → c ≡ d → is_no_timer d ≡ false → A
unfolding is_no_timer
none_started c d h k f = absurd (true≢false (ap is_no_timer (sym h ∙ k) ∙ f))

module _ (client : Bool) where
  Step-IsQuiet : {s t : TimedCall} → IsQuiet s → Step client s t → IsQuiet t
  unfolding is_no_timer
  Step-IsQuiet {s} v (time_over h) = none_started s.timer selects v.0 h refl
  Step-IsQuiet {s} v (cancel_call h k l) = none_started s.timer fires v.0 h refl
  Step-IsQuiet {s} v (cancel_closed h k) = none_started s.timer fires v.0 h refl
  Step-IsQuiet {s} v (stop_timer h k) = none_started s.timer selects v.0 h refl
  Step-IsQuiet v (take_cancel h k) = v
  Step-IsQuiet v (take_and_go_on c h k) = v
  Step-IsQuiet v (end_loop h) = v
  Step-IsQuiet v (drain c h k) = v
  Step-IsQuiet v (close_done h k) = v
  Step-IsQuiet v (close_cancel h) = v

  Reach-IsQuiet : {s : TimedCall} → Reach client false s → IsQuiet s
  Reach-IsQuiet start = (refl, refl)
  Reach-IsQuiet (later r st) = Step-IsQuiet (Reach-IsQuiet r) st

  Reach-panics : (t : TimedCall) × Reach client true t × (t.crashed ≡ true)
  Reach-panics = (
    _,
    later
        (later
          (later (later (later start (time_over refl)) (end_loop refl))
            (close_done refl (λ c. refl)))
          (close_cancel refl))
        (cancel_closed refl refl),
    refl,
  )

  may_panic :
      (timed : Bool) → ((t : TimedCall) × Reach client timed t × (t.crashed ≡ true)) → timed ≡ true
  may_panic true h = refl
  may_panic false (t, r, c) = absurd (true≢false (sym c ∙ (Reach-IsQuiet r).1))

  timed_panics :
      (timed : Bool) → timed ≡ true → (t : TimedCall) × Reach client timed t × (t.crashed ≡ true)
  timed_panics true h = Reach-panics
  timed_panics false h = absurd (true≢false (sym h))

-- A client or server streaming call can panic, by a send of its timer on the closed `cancel`, exactly if it
-- has a `StreamCallDuration`.
pub Reach-crashed_timed :
    (client timed : Bool)
    → ((t : TimedCall) × Reach client timed t × (t.crashed ≡ true)) ↔ (timed ≡ true)
Reach-crashed_timed client timed = (may_panic client timed, timed_panics client timed)
