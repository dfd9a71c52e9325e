-- ===== src/Runner/Calls.antt =====
-- runner/worker.go: the loops of a streaming call. The environment is a list of rounds: what the clock
-- (the `cancel` channel) and the connection answer in each of them. A message provider is a function of
-- its state, as in Runner.Messages. Where the rounds are used up, the call is cut off where it stands.
pub mod Client
pub mod Server
pub mod Bidi
pub mod Request
pub mod Unary
pub mod Timed
use ghz.Prelude.{
  ℕ, ◌+◌, Bool, true, false, ◌&&◌, ◌||◌, List, [], ◌∷◌, Option, none, some, ltb, leb, if◌then◌else◌,
}
use ghz.Runner.Messages.{Sent, message, end_stream, failed, panic}

-- What `SendMsg` returns: nil, `io.EOF` or another error.
pub data SendResult : Type 0 where
  delivered : SendResult
  eof : SendResult
  broken : SendResult

-- One round of the sending loop: whether `cancel` is full at its head, what `SendMsg` returns, whether
-- `cancel` is full after it, and whether the wait for the interval takes from `cancel`.
pub record SendRound : Type 0 where
  pub cancelled : Bool
  pub result : SendResult
  pub cancelled_after : Bool
  pub cancelled_waiting : Bool

-- What the call does on its stream.
pub data StreamEvent (M : Type 0) : Type 0 where
  send : M → StreamEvent M
  close_and_receive : StreamEvent M
  crash : StreamEvent M

-- `StreamCallCount` and `StreamInterval > 0`.
pub record StreamLimits : Type 0 where
  pub call_count : ℕ
  pub pauses : Bool

abbrev pub is_delivered : SendResult → Bool
is_delivered delivered = true
is_delivered eof = false
is_delivered broken = false

-- `w.config.streamCallCount > 0 && counter >= w.config.streamCallCount`.
abbrev pub enough : StreamLimits → ℕ → Bool
enough limits counter = ltb 0 limits.call_count && leb limits.call_count counter

-- Whether the loop ends after a message has been sent.
abbrev pub stops : StreamLimits → SendRound → Bool → ℕ → Bool
stops limits r is_last counter =
    (r.cancelled_after || (is_last || (if is_delivered r.result then false else true)))
    || (enough limits (counter + 1) || (limits.pauses && r.cancelled_waiting))

module _ {M P : Type 0} (limits : StreamLimits) (next : P → Sent M × P) where
  -- The loop of `makeClientStreamingRequest`, and the closing of the stream behind it.
  unfoldable pub send_loop : ℕ → P → List SendRound → List (StreamEvent M)
  send_loop counter p [] = []
  send_loop counter p (r ∷ rounds) =
      let rest = send_loop (counter + 1) (next p).1 rounds in
      if r.cancelled then close_and_receive ∷ [] else elim (next p).0 [
        | end_stream ↦ close_and_receive ∷ []
        | failed ↦ close_and_receive ∷ []
        | panic ↦ crash ∷ []
        | message m is_last ↦
            send m ∷ (if stops limits r is_last counter then close_and_receive ∷ [] else rest)
      ]

-- What an error of a stream is.
pub data StreamError (E : Type 0) : Type 0 where
  no_error : StreamError E
  end_of_file : StreamError E
  end_requested : StreamError E
  other : E → StreamError E

-- One round of the receiving loop: whether `cancel` is full at its head, the dynamic message that
-- `RecvMsg` returns (`none` is a result that is none) with its error, what `streamRecv` and the
-- interceptor answer in this round (`none` where they are not set), and whether `cancel` is full at the
-- end.
pub record RecvRound (M E : Type 0) : Type 0 where
  pub cancelled : Bool
  pub received : Option M
  pub error : StreamError E
  pub stream_recv : Option (M → StreamError E → StreamError E)
  pub interceptor : Option (M → StreamError E → StreamError E)
  pub cancelled_after : Bool

-- `callCancel` has been called; the interception has cancelled.
pub record Receiving : Type 0 where
  pub counter : ℕ
  pub cancelled : Bool
  pub intercept_canceled : Bool

abbrev pub no_receiving : Receiving
no_receiving = record { counter = 0; cancelled = false; intercept_canceled = false }

module _ {E : Type 0} where
  abbrev pub asks_end : StreamError E → Bool
  asks_end no_error = false
  asks_end end_of_file = false
  asks_end end_requested = true
  asks_end (other e) = false

  -- One of the two interceptions: its answer replaces the error, and the first `ErrEndStream` cancels
  -- the call and lets the loop go on.
  abbrev pub answered : StreamError E → Receiving → StreamError E × Receiving
  answered err s =
      if asks_end err
      then (if s.intercept_canceled
          then (err, s)
          else (no_error, record s { intercept_canceled = true; cancelled = true }))
      else (err, s)

-- How the call stands: cut off in the middle, or returned.
pub data Received (E : Type 0) : Type 0 where
  receiving : Receiving → Received E
  returned : StreamError E → Receiving → Received E

module _ {E : Type 0} where
  -- `io.EOF` is the end of the stream, and no error.
  abbrev pub returned_error : StreamError E → StreamError E
  returned_error no_error = no_error
  returned_error end_of_file = no_error
  returned_error end_requested = end_requested
  returned_error (other e) = other e

  abbrev pub is_error : StreamError E → Bool
  is_error no_error = false
  is_error end_of_file = true
  is_error end_requested = true
  is_error (other e) = true

module _ {M E : Type 0} where
  unfoldable pub intercepted :
      Option (M → StreamError E → StreamError E)
      → Option M
      → StreamError E × Receiving
      → StreamError E × Receiving
  intercepted none res (err, s) = (err, s)
  intercepted (some f) none (err, s) = (err, s)
  intercepted (some f) (some m) (err, s) = answered (f m err) s

  -- The error of a round, after both interceptions.
  unfoldable pub received_error : RecvRound M E → Receiving → StreamError E × Receiving
  received_error r s =
      intercepted r.interceptor r.received (intercepted r.stream_recv r.received (r.error, s))

  -- The end of a round that brought a message.
  abbrev pub count_message : ℕ → Bool → RecvRound M E → Receiving → Receiving
  count_message call_count timed r s = record s {
    counter = s.counter + 1;
    cancelled =
        s.cancelled
        || ((ltb 0 call_count && leb call_count (s.counter + 1)) || (timed && r.cancelled_after));
  }

  -- The loop of `makeServerStreamingRequest`; `timed` is `StreamCallDuration > 0`.
  unfoldable pub recv_loop : ℕ → Bool → Receiving → List (RecvRound M E) → Received E
  recv_loop call_count timed s [] = receiving s
  recv_loop call_count timed s (r ∷ rounds) =
      let got = received_error r s in
      let rest = recv_loop call_count timed (count_message call_count timed r got.1) rounds in
      if timed && r.cancelled
      then returned no_error (record s { cancelled = true })
      else if is_error got.0
      then returned (returned_error got.0) got.1
      else rest
