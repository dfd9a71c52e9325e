-- ===== src/Examples/Streaming.antt =====
-- runner/worker.go: streaming calls, and what a request does with the data of its provider.
use ghz.Prelude.{ℕ, ◌≡◌, ◌≤◌, refl, true, false, List, [], ◌∷◌, ◌++◌, none, some, arith, map}
use ghz.Prelude.Int.{pos}
use ghz.Prelude.Float.{Fixed}
use ghz.Runner.Config.{RunConfig, initial, ok, err, call_required}
use ghz.Runner.Messages.{new_static, get_static}
use ghz.Runner.Calls.{
  SendRound, delivered, send, close_and_receive, StreamLimits, send_loop, RecvRound, no_error,
  end_of_file, no_receiving, returned, recv_loop,
}
use ghz.Runner.Calls.Client.{sends, send_loop-bounded, send_loop-get_static}
use ghz.Runner.Calls.Server.{recv_loop-quiet}
use ghz.Runner.Calls.Bidi.{
  Bidi, begin, Reach, start, later, provide, send_last, receive_fails, crashed, sent_all,
  received_all,
}
use ghz.Runner.Calls.Bidi.Safety.{Reach-closed}
use ghz.Runner.Calls.Bidi.Races.{IsStuck, Reach-crashed, Reach-IsStuck}
use ghz.Runner.Calls.Request.{Method, make_request}
use ghz.Runner.Calls.Request.Panics.{request_panics, make_request-panics}

abbrev calm : SendRound
calm = record {
  cancelled = false;
  result = delivered;
  cancelled_after = false;
  cancelled_waiting = false;
}

abbrev three : List SendRound
three = calm ∷ calm ∷ calm ∷ []

abbrev at_most_two : StreamLimits
at_most_two = record { call_count = 2; pauses = false }

abbrev inputs : List ℕ
inputs = 7 ∷ 8 ∷ 9 ∷ []

send_loop-bounded_example :
    sends (send_loop at_most_two get_static 0 (new_static 0 inputs) three) ≤ 2
send_loop-bounded_example =
    send_loop-bounded at_most_two get_static (new_static 0 inputs) three (omega arith)

send_loop-get_static_example :
    (ms : List ℕ) × (send_loop at_most_two get_static 0 (new_static 2 inputs) three
      ≡ map send ms ++ close_and_receive ∷ [])
    × (map some ms ≡ some 7 ∷ some 8 ∷ [])
send_loop-get_static_example =
    send_loop-get_static 2 false inputs (omega arith) three
      ((refl, refl, refl, refl), ((refl, refl, refl, refl), ((refl, refl, refl, refl), tt)))
      (omega arith)

abbrev got : ℕ → RecvRound ℕ ℕ
got m = record {
  cancelled = false;
  received = some m;
  error = no_error;
  stream_recv = none;
  interceptor = none;
  cancelled_after = false;
}

abbrev end_of_stream : RecvRound ℕ ℕ
end_of_stream = record (got 0) { received = none; error = end_of_file }

recv_loop-quiet_example :
    recv_loop 2 true no_receiving (got 1 ∷ got 2 ∷ got 3 ∷ end_of_stream ∷ got 4 ∷ [])
    ≡ returned no_error (record { counter = 3; cancelled = true; intercept_canceled = false })
recv_loop-quiet_example =
    recv_loop-quiet 2 true (got 1 ∷ got 2 ∷ got 3 ∷ []) end_of_stream (got 4 ∷ [])
      (
        (refl, refl, refl, refl, refl),
        ((refl, refl, refl, refl, refl), ((refl, refl, refl, refl, refl), tt)),
      )
      refl refl refl refl

-- The sender has sent its last message.
abbrev closed : Bidi
closed = record (begin false) { sender = sent_all; closes = 1; sent = 1 }

closed-Reach : Reach at_most_two false closed
closed-Reach = later (later start (provide true refl refl)) (send_last refl)

Reach-closed_example :
    (closed.closes ≡ 1)
    × ((record closed { receiver = received_all }).sent ≡ closed.sent)
    × ((record closed { receiver = received_all }).closes ≡ 1)
Reach-closed_example =
    Reach-closed at_most_two closed-Reach (receive_fails refl) (λ e. omega (arith, e))

Reach-crashed_example : (s : Bidi) × Reach at_most_two true s × (s.timer ≡ crashed)
Reach-crashed_example = Reach-crashed at_most_two

Reach-IsStuck_example :
    (s : Bidi) × Reach at_most_two true s × (s.finished ≡ false) × IsStuck at_most_two s
Reach-IsStuck_example = Reach-IsStuck at_most_two

-- A custom provider of messages, and a method that takes one message and answers with one.
abbrev config : RunConfig ℕ Fixed
config = record (initial {H = ℕ} {F = Fixed} (pos 4) 0) { data_stream_func = some 1 }

abbrev unary_method : Method
unary_method = record { client_streaming = false; server_streaming = false }

make_request-panics_example :
    request_panics
      (make_request {M = ℕ} true config unary_method none (ok none) (ok []) (err call_required))
    ≡ true
unfolding initial
make_request-panics_example =
    make_request-panics true config unary_method none none [] (err call_required)
