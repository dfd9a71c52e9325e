-- ===== src/Runner/Calls/Client.antt =====
-- runner/worker.go, `makeClientStreamingRequest`: what a call sends, for any provider of messages and with
-- the static one.
use ghz.Prelude.{
  ℕ, zero, suc, ◌+◌, ◌-◌, ◌%◌, ◌≤◌, ◌<◌, ◌≡◌, refl, sym, ap, subst, ◌⊎◌, inl, inr, Bool, true,
  false, List, [], ◌∷◌, ◌++◌, Option, some, arith, ◌==◌, length, get_elem?, map,
}
use ghz.Runner.Messages.{
  Sent, message, end_stream, failed, panic, StaticProvider, new_static, get_static,
}
use ghz.Runner.Messages.Static.{static_total, static_after, get_static-cycles}
use ghz.Runner.Calls.{
  delivered, SendRound, StreamEvent, send, close_and_receive, crash, StreamLimits, stops, send_loop,
}

-- The number of messages that a call sends.
abbrev pub sends : {M : Type 0} → List (StreamEvent M) → ℕ
sends [] = 0
sends (send m ∷ es) = 1 + sends es
sends (close_and_receive ∷ es) = sends es
sends (crash ∷ es) = sends es

Sent-cases :
    {M : Type 0} (r : Sent M)
    → ((m : M) × (last : Bool) × (r ≡ message m last))
      ⊎ ((r ≡ end_stream) ⊎ ((r ≡ failed) ⊎ (r ≡ panic)))
Sent-cases (message m last) = inl (m, last, refl)
Sent-cases end_stream = inr (inl refl)
Sent-cases failed = inr (inr (inl refl))
Sent-cases panic = inr (inr (inr refl))

module _ {M P : Type 0} (limits : StreamLimits) (next : P → Sent M × P) where
  sends-bounded_from :
      (counter : ℕ) (p : P) (rounds : List SendRound)
      → counter < limits.call_count
      → counter + sends (send_loop limits next counter p rounds) ≤ limits.call_count
  unfolding send_loop
  sends-bounded_from counter p [] h = omega arith
  sends-bounded_from counter p (r ∷ rounds) h =
      ground (arith, sends-bounded_from (counter + 1) (next p).1 rounds)

  -- With a `StreamCallCount` a call never sends more messages than that, whatever the provider of messages
  -- gives and the connection and the clock do.
  pub send_loop-bounded :
      (p : P) (rounds : List SendRound)
      → 0 < limits.call_count
      → sends (send_loop limits next 0 p rounds) ≤ limits.call_count
  send_loop-bounded p rounds h = omega (arith, sends-bounded_from 0 p rounds h)

-- Nothing is cancelled, and every message is delivered.
abbrev pub Smooth : List SendRound → Type 0
Smooth [] = Unit {0}
Smooth (r ∷ rounds) =
    ((r.cancelled ≡ false)
      × (r.result ≡ delivered)
      × (r.cancelled_after ≡ false)
      × (r.cancelled_waiting ≡ false))
    × Smooth rounds

-- The messages `j`, `j + 1`, …, `k` of them, of a list that is gone through again and again.
abbrev pub in_turn : {M : Type 0} → List M → ℕ → ℕ → List (Option M)
in_turn inputs j zero = []
in_turn inputs j (suc k) = get_elem? inputs (j % length inputs) ∷ in_turn inputs (suc j) k

module _ {M : Type 0} (count : ℕ) (pauses : Bool) (inputs : List M)
    (some_input : 0 < length inputs) where
  abbrev limits : StreamLimits
  limits = record { call_count = count; pauses = pauses }

  abbrev at : ℕ → StaticProvider M
  at j = static_after j (new_static count inputs)

  not_last-stops :
      (r : SendRound) (j : ℕ)
      → r.result ≡ delivered
      → r.cancelled_after ≡ false
      → r.cancelled_waiting ≡ false
      → suc j < static_total count inputs
      → stops limits r (j == (static_total count inputs - 1)) j ≡ false
  not_last-stops r j d a w h = ground arith

  last-stops :
      (r : SendRound) (j : ℕ)
      → suc j ≡ static_total count inputs
      → stops limits r (j == (static_total count inputs - 1)) j ≡ true
  last-stops r j h = ground arith

  static_loop :
      (k j : ℕ) (rounds : List SendRound)
      → j + suc k ≡ static_total count inputs
      → Smooth rounds
      → suc k ≤ length rounds
      → (ms : List M) × (send_loop limits get_static j (at j) rounds
          ≡ map send ms ++ close_and_receive ∷ [])
        × (map some ms ≡ in_turn inputs j (suc k))
  unfolding send_loop
  static_loop k j [] e smooth l = absurd (omega arith)
  static_loop zero j (r ∷ rounds) e (calm, smooth) l =
      let (x, found, sent) = get_static-cycles count inputs j some_input (omega arith) in
      (
        x ∷ [],
        rw (send_loop, calm.0, sent, last-stops r j (omega arith)),
        ap (λ y. y ∷ []) (sym found),
      )
  static_loop (suc k) j (r ∷ rounds) e (calm, smooth) l =
      let (x, found, sent) = get_static-cycles count inputs j some_input (omega arith) in
      let (ms, loop, turn) = static_loop k (suc j) rounds (omega arith) smooth (omega arith) in
      let next : j + 1 ≡ suc j = omega arith in
      (
        x ∷ ms,
        rw (send_loop, calm.0, sent, not_last-stops r j calm.1 calm.2 calm.3 (omega arith), next)
            (ap (λ es. send x ∷ es) loop),
        rw found (ap (λ ys. some x ∷ ys) turn),
      )

  -- A client streaming call with the static provider, over a list of messages that is not empty, when
  -- nothing is cancelled and every message is delivered: it sends the messages in turn, `StreamCallCount`
  -- of them (each once where that is 0), then closes the stream and does nothing more.
  pub send_loop-get_static :
      (rounds : List SendRound)
      → Smooth rounds
      → static_total count inputs ≤ length rounds
      → (ms : List M) × (send_loop limits get_static 0 (new_static count inputs) rounds
          ≡ map send ms ++ close_and_receive ∷ [])
        × (map some ms ≡ in_turn inputs 0 (static_total count inputs))
  send_loop-get_static rounds smooth l =
      let total : 0 + suc (static_total count inputs - 1) ≡ static_total count inputs =
        ground arith in
      let (ms, loop, turn) =
        static_loop (static_total count inputs - 1) 0 rounds total smooth (omega (arith, total)) in
      let size : suc (static_total count inputs - 1) ≡ static_total count inputs =
        omega (arith, total) in
      (ms, loop, subst (λ n. map some ms ≡ in_turn inputs 0 n) size turn)
