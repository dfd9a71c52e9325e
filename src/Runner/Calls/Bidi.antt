-- ===== src/Runner/Calls/Bidi.antt =====
-- runner/worker.go, `makeBidiRequest`: the sender, the receiver, the timer of `StreamCallDuration` and the
-- call itself, interleaved in any order. The environment chooses what the provider of messages, the
-- connection and the interceptions answer. `cancel` holds one signal at most; nothing but the sender takes
-- it while the sender runs, so a test of its length and the taking are one step.
pub mod Safety
pub mod Races
use ghz.Prelude.{ℕ, ◌+◌, ◌≡◌, Bool, true, false, ◌&&◌, ltb, leb, if◌then◌else◌}
use ghz.Runner.Calls.{StreamLimits, enough}

-- Where the sending goroutine stands: at the loop's head, before `SendMsg` (with `isLast`), at the test of
-- `cancel` behind it, in the wait for the interval, or behind the loop.
pub data Sender : Type 0 where
  head : Sender
  sending : Bool → Sender
  checking : Sender
  waiting : Sender
  sent_all : Sender

-- The receiving goroutine: before `RecvMsg`, before `cancel <- struct{}{}`, or behind the loop.
pub data Receiver : Type 0 where
  receiving : Receiver
  offering : Receiver
  received_all : Receiver

-- The timer's goroutine: there is none (any more), it waits, it has read the timer and is before its
-- send, or it has sent on the closed channel.
pub data Timer : Type 0 where
  off : Timer
  armed : Timer
  firing : Timer
  crashed : Timer

pub record Bidi : Type 0 where
  pub sender : Sender
  pub receiver : Receiver
  pub timer : Timer
  pub cancel : Bool
  pub finished : Bool
  pub intercept_canceled : Bool
  pub counter : ℕ
  pub sent : ℕ
  pub closes : ℕ

-- `timed` is `StreamCallDuration > 0`.
abbrev pub begin : Bool → Bidi
begin timed = record {
  sender = head;
  receiver = receiving;
  timer = if timed then armed else off;
  cancel = false;
  finished = false;
  intercept_canceled = false;
  counter = 0;
  sent = 0;
  closes = 0;
}

-- `closeStream()` and the end of the sending loop.
abbrev pub close_send : Bidi → Bidi
close_send s = record s { sender = sent_all; closes = s.closes + 1 }

-- `<-cancel` before it.
abbrev pub close_cancelled : Bidi → Bidi
close_cancelled s = record s { sender = sent_all; closes = s.closes + 1; cancel = false }

-- Behind a `SendMsg` that returned nil.
abbrev pub delivered : StreamLimits → Bidi → Bidi
delivered limits s =
    if enough limits (s.counter + 1)
    then record s {
      sender = sent_all;
      closes = s.closes + 1;
      counter = s.counter + 1;
      sent = s.sent + 1;
    }
    else record s { sender = checking; counter = s.counter + 1; sent = s.sent + 1 }

pub data Step (limits : StreamLimits) (s : Bidi) : Bidi → Type 0 where
  -- the sender
  cancel_at_head : s.sender ≡ head → s.cancel ≡ true → Step limits s (close_cancelled s)
  no_payload : s.sender ≡ head → s.cancel ≡ false → Step limits s (close_send s)
  provide :
      (is_last : Bool)
      → s.sender ≡ head
      → s.cancel ≡ false
      → Step limits s (record s { sender = sending is_last })
  send_last :
      s.sender ≡ sending true
      → Step limits s (record s { sender = sent_all; closes = s.closes + 1; sent = s.sent + 1 })
  send : s.sender ≡ sending false → Step limits s (delivered limits s)
  send_fails :
      {is_last : Bool} → s.sender ≡ sending is_last → Step limits s (record s { sender = sent_all })
  cancel_after_send : s.sender ≡ checking → s.cancel ≡ true → Step limits s (close_cancelled s)
  go_on :
      s.sender ≡ checking
      → s.cancel ≡ false
      → Step limits s (record s { sender = if limits.pauses then waiting else head })
  interval_over : s.sender ≡ waiting → Step limits s (record s { sender = head })
  cancel_waiting : s.sender ≡ waiting → s.cancel ≡ true → Step limits s (close_cancelled s)
  -- the receiver
  receive : s.receiver ≡ receiving → Step limits s s
  intercept :
      s.receiver ≡ receiving
      → s.intercept_canceled ≡ false
      → Step limits s (record s {
        intercept_canceled = true;
        receiver = if s.cancel then receiving else offering;
      })
  offer :
      s.receiver ≡ offering
      → s.cancel ≡ false
      → Step limits s (record s { cancel = true; receiver = receiving })
  receive_fails : s.receiver ≡ receiving → Step limits s (record s { receiver = received_all })
  -- the timer
  time_up : s.timer ≡ armed → Step limits s (record s { timer = firing })
  signal :
      s.timer ≡ firing
      → s.finished ≡ false
      → s.cancel ≡ false
      → Step limits s (record s { cancel = true; timer = off })
  stop_timer : s.timer ≡ armed → s.finished ≡ true → Step limits s (record s { timer = off })
  send_on_closed :
      s.timer ≡ firing → s.finished ≡ true → Step limits s (record s { timer = crashed })
  -- the call, which drains `cancel` and closes `doneCh` and `cancel`
  finish :
      s.sender ≡ sent_all
      → s.receiver ≡ received_all
      → s.finished ≡ false
      → Step limits s (record s { finished = true; cancel = false })

pub data Reach (limits : StreamLimits) (timed : Bool) : Bidi → Type 0 where
  start : Reach limits timed (begin timed)
  later : {s t : Bidi} → Reach limits timed s → Step limits s t → Reach limits timed t
