-- ===== src/Runner/Calls/Bidi/Safety.antt =====
-- runner/worker.go, `makeBidiRequest`: the stream is closed once, and nothing is sent behind that.
use ghz.Prelude.{◌≤◌, ◌<◌, ◌≡◌, ◌≢◌, refl, inl, inr, Bool, true, false, arith, Bool-cases}
use ghz.Runner.Calls.{StreamLimits}
use ghz.Runner.Calls.Bidi.{
  Sender, head, sending, checking, waiting, sent_all, Bidi, begin, Step, cancel_at_head, no_payload,
  provide, send_last, send, send_fails, cancel_after_send, go_on, interval_over, cancel_waiting,
  receive, intercept, offer, receive_fails, time_up, signal, stop_timer, send_on_closed, finish,
  Reach, start, later,
}

abbrev pub is_done : Sender → Bool
is_done head = false
is_done (sending l) = false
is_done checking = false
is_done waiting = false
is_done sent_all = true

pub record IsSafe (limits : StreamLimits) (s : Bidi) : Type 0 where
  pub open_stream : is_done s.sender ≡ false → s.closes ≡ 0
  pub once : s.closes ≤ 1
  pub counted : is_done s.sender ≡ false → s.sent ≡ s.counter
  pub below : 0 < limits.call_count → is_done s.sender ≡ false → s.counter < limits.call_count
  pub bounded : 0 < limits.call_count → s.sent ≤ limits.call_count

module _ (limits : StreamLimits) where
  begin-IsSafe : (timed : Bool) → IsSafe limits (begin timed)
  begin-IsSafe timed = record {
    open_stream = λ h. refl;
    once = omega arith;
    counted = λ h. refl;
    below = λ h k. h;
    bounded = λ h. omega arith;
  }

  Step-IsSafe : {s t : Bidi} → IsSafe limits s → Step limits s t → IsSafe limits t
  Step-IsSafe v (cancel_at_head h c) = grind arith
  Step-IsSafe v (no_payload h c) = grind arith
  Step-IsSafe v (provide l h c) = grind arith
  Step-IsSafe v (send_last h) = grind arith
  Step-IsSafe v (send h) = grind arith
  Step-IsSafe v (send_fails h) = grind arith
  Step-IsSafe v (cancel_after_send h c) = grind arith
  Step-IsSafe v (go_on h c) = grind arith
  Step-IsSafe v (interval_over h) = grind arith
  Step-IsSafe v (cancel_waiting h c) = grind arith
  Step-IsSafe v (receive h) = v
  Step-IsSafe v (intercept h c) = grind arith
  Step-IsSafe v (offer h c) = grind arith
  Step-IsSafe v (receive_fails h) = grind arith
  Step-IsSafe v (time_up h) = grind arith
  Step-IsSafe v (signal h f c) = grind arith
  Step-IsSafe v (stop_timer h f) = grind arith
  Step-IsSafe v (send_on_closed h f) = grind arith
  Step-IsSafe v (finish h r f) = grind arith

  Reach-IsSafe : {timed : Bool} {s : Bidi} → Reach limits timed s → IsSafe limits s
  Reach-IsSafe {timed} start = begin-IsSafe timed
  Reach-IsSafe (later r st) = Step-IsSafe (Reach-IsSafe r) st

  -- A step of a closed stream sends nothing.
  Step-closed :
      {s t : Bidi}
      → is_done s.sender ≡ true
      → Step limits s t
      → (t.sent ≡ s.sent) × (t.closes ≡ s.closes)
  Step-closed d (cancel_at_head h c) = absurd (ground arith)
  Step-closed d (no_payload h c) = absurd (ground arith)
  Step-closed d (provide l h c) = absurd (ground arith)
  Step-closed d (send_last h) = absurd (ground arith)
  Step-closed d (send h) = absurd (ground arith)
  Step-closed d (send_fails h) = absurd (ground arith)
  Step-closed d (cancel_after_send h c) = absurd (ground arith)
  Step-closed d (go_on h c) = absurd (ground arith)
  Step-closed d (interval_over h) = absurd (ground arith)
  Step-closed d (cancel_waiting h c) = absurd (ground arith)
  Step-closed d (receive h) = (refl, refl)
  Step-closed d (intercept h c) = (refl, refl)
  Step-closed d (offer h c) = (refl, refl)
  Step-closed d (receive_fails h) = (refl, refl)
  Step-closed d (time_up h) = (refl, refl)
  Step-closed d (signal h f c) = (refl, refl)
  Step-closed d (stop_timer h f) = (refl, refl)
  Step-closed d (send_on_closed h f) = (refl, refl)
  Step-closed d (finish h r f) = (refl, refl)

  -- In every interleaving of a bidirectional call, once the sending side has been closed it has been closed
  -- once, and no step sends a message or closes it again.
  pub Reach-closed :
      {timed : Bool} {s t : Bidi}
      → Reach limits timed s
      → Step limits s t
      → s.closes ≢ 0
      → (s.closes ≡ 1) × (t.sent ≡ s.sent) × (t.closes ≡ 1)
  Reach-closed {timed} {s} {t} r st c = elim (Bool-cases (is_done s.sender)) [
    | inl d ↦
        let v : IsSafe limits s = Reach-IsSafe r in
        let (sent, closes) = Step-closed d st in
        (omega (arith, v.once, c), sent, omega (arith, v.once, c, closes))
    | inr o ↦ absurd (c ((Reach-IsSafe r).open_stream o))
  ]

  -- In every interleaving a bidirectional call sends at most `StreamCallCount` messages, if that is set.
  pub Reach-bounded :
      {timed : Bool} {s : Bidi}
      → Reach limits timed s
      → 0 < limits.call_count
      → s.sent ≤ limits.call_count
  Reach-bounded r h = (Reach-IsSafe r).bounded h
