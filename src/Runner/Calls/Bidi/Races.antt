-- ===== src/Runner/Calls/Bidi/Races.antt =====
-- runner/worker.go, `makeBidiRequest`: interleavings in which the timer of `StreamCallDuration` harms.
use ghz.Prelude.{◌≡◌, refl, true, false}
use ghz.Runner.Calls.{StreamLimits}
use ghz.Runner.Calls.Bidi.{
  sent_all, offering, off, crashed, Bidi, begin, Step, cancel_at_head, no_payload, provide,
  send_last, send, send_fails, cancel_after_send, go_on, interval_over, cancel_waiting, receive,
  intercept, offer, receive_fails, time_up, signal, stop_timer, send_on_closed, finish, Reach,
  start, later,
}

-- Nothing can go on.
abbrev pub IsStuck : StreamLimits → Bidi → Type 0
IsStuck limits s = (t : Bidi) → ¬ Step limits s t

abbrev blocked : Bidi
blocked = record (begin true) {
  sender = sent_all;
  receiver = offering;
  timer = off;
  cancel = true;
  intercept_canceled = true;
}

module _ (limits : StreamLimits) where
  -- With a `StreamCallDuration` there is an interleaving in which the timer sends on `cancel` after the call
  -- has closed it, which panics: the timer has fired when the stream ends.
  pub Reach-crashed : (s : Bidi) × Reach limits true s × (s.timer ≡ crashed)
  Reach-crashed = (
    _,
    later
        (later
          (later (later (later start (time_up refl)) (no_payload refl refl)) (receive_fails refl))
          (finish refl refl refl))
        (send_on_closed refl refl),
    refl,
  )

  blocked-IsStuck : IsStuck limits blocked
  blocked-IsStuck t (cancel_at_head h c) = cc
  blocked-IsStuck t (no_payload h c) = cc
  blocked-IsStuck t (provide l h c) = cc
  blocked-IsStuck t (send_last h) = cc
  blocked-IsStuck t (send h) = cc
  blocked-IsStuck t (send_fails h) = cc
  blocked-IsStuck t (cancel_after_send h c) = cc
  blocked-IsStuck t (go_on h c) = cc
  blocked-IsStuck t (interval_over h) = cc
  blocked-IsStuck t (cancel_waiting h c) = cc
  blocked-IsStuck t (receive h) = cc
  blocked-IsStuck t (intercept h c) = cc
  blocked-IsStuck t (offer h c) = cc
  blocked-IsStuck t (receive_fails h) = cc
  blocked-IsStuck t (time_up h) = cc
  blocked-IsStuck t (signal h f c) = cc
  blocked-IsStuck t (stop_timer h f) = cc
  blocked-IsStuck t (send_on_closed h f) = cc
  blocked-IsStuck t (finish h r f) = cc

  -- With a `StreamCallDuration` there is an interleaving that ends in a deadlock: the call has not finished
  -- and nothing can go on. An interception has found `cancel` empty, the timer fills it before the receiver
  -- does, and the sender, whose `SendMsg` has failed, takes nothing any more.
  pub Reach-IsStuck : (s : Bidi) × Reach limits true s × (s.finished ≡ false) × IsStuck limits s
  Reach-IsStuck = (
    blocked,
    later
        (later
          (later (later (later start (provide false refl refl)) (intercept refl refl))
            (time_up refl))
          (signal refl refl refl))
        (send_fails refl),
    refl,
    blocked-IsStuck,
  )
