-- ===== src/Runner/Calls/Server.antt =====
-- runner/worker.go, `makeServerStreamingRequest`: when the receiving loop ends.
use ghz.Prelude.{
  ℕ, suc, ◌+◌, ◌≡◌, ap, ◌∙◌, Bool, true, false, List, [], ◌∷◌, ◌++◌, none, arith, ltb, leb, ◌&&◌,
  ◌||◌, if◌then◌else◌, length,
}
use ghz.Runner.Calls.{
  no_error, end_of_file, RecvRound, Receiving, no_receiving, intercepted, received_error, Received,
  returned, count_message, recv_loop,
}

-- The state after `n` messages.
abbrev pub received : ℕ → ℕ → Receiving → Receiving
received limit n s = record s {
  counter = s.counter + n;
  cancelled = s.cancelled || (ltb 0 n && (ltb 0 limit && leb limit (s.counter + n)));
}

module _ {M E : Type 0} where
  -- A round that brings a message, with no interception and no cancellation by the clock.
  abbrev pub IsQuiet : RecvRound M E → Type 0
  IsQuiet r =
      (r.error ≡ no_error)
      × (r.stream_recv ≡ none)
      × (r.interceptor ≡ none)
      × (r.cancelled ≡ false)
      × (r.cancelled_after ≡ false)

  abbrev pub AllQuiet : List (RecvRound M E) → Type 0
  AllQuiet [] = Unit {0}
  AllQuiet (r ∷ rounds) = IsQuiet r × AllQuiet rounds

  quiet_error : (r : RecvRound M E) (s : Receiving) → IsQuiet r → received_error r s ≡ (no_error, s)
  unfolding received_error intercepted
  quiet_error r s (e, f, g, c, d) = rw (e, f, g)

  received_step :
      (limit : ℕ) (timed : Bool) (n : ℕ) (r : RecvRound M E) (s : Receiving)
      → IsQuiet r
      → received limit n (count_message limit timed r s) ≡ received limit (suc n) s
  received_step limit timed n r s q = ground arith

  quiet_loop :
      (limit : ℕ) (timed : Bool) (s : Receiving) (rounds rest : List (RecvRound M E))
      → AllQuiet rounds
      → recv_loop limit timed s (rounds ++ rest)
        ≡ recv_loop limit timed (received limit (length rounds) s) rest
  unfolding recv_loop
  quiet_loop limit timed s [] rest q =
      ap (λ (t : Receiving). recv_loop limit timed t rest) (ground arith)
  quiet_loop limit timed s (r ∷ rounds) rest (q, qs) =
      rw (recv_loop, quiet_error r s q, q.3)
        (quiet_step _ timed (
          quiet_loop limit timed (count_message limit timed r s) rounds rest qs
          ∙ ap (λ (t : Receiving). recv_loop limit timed t rest)
              (received_step limit timed (length rounds) r s q)))
    where
      quiet_step :
          {x y : Received E} (z : Received E) (b : Bool) → x ≡ y → (if b && false then z else x) ≡ y
      quiet_step z true e = e
      quiet_step z false e = e

  end_error :
      (r : RecvRound M E) (s : Receiving)
      → r.error ≡ end_of_file
      → r.stream_recv ≡ none
      → r.interceptor ≡ none
      → received_error r s ≡ (end_of_file, s)
  unfolding received_error intercepted
  end_error r s e f g = rw (e, f, g)

  -- A server streaming call that no interception and no duration ends goes on receiving, also after it has
  -- been cancelled, until the server ends the stream: every message is counted, the end is no error, and
  -- the call was cancelled exactly if `StreamCallCount` is set and as many messages have come.
  pub recv_loop-quiet :
      (limit : ℕ) (timed : Bool) (rounds : List (RecvRound M E)) (last : RecvRound M E)
      (rest : List (RecvRound M E))
      → AllQuiet rounds
      → last.error ≡ end_of_file
      → last.stream_recv ≡ none
      → last.interceptor ≡ none
      → last.cancelled ≡ false
      → recv_loop limit timed no_receiving (rounds ++ last ∷ rest)
        ≡ returned no_error (record {
          counter = length rounds;
          cancelled = ltb 0 (length rounds) && (ltb 0 limit && leb limit (length rounds));
          intercept_canceled = false;
        })
  unfolding recv_loop
  recv_loop-quiet limit timed rounds last rest q e f g c =
      quiet_loop limit timed no_receiving rounds (last ∷ rest) q
      ∙ rw (recv_loop, end_error last (received limit (length rounds) no_receiving) e f g, c)
          (ground arith)
