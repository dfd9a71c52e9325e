-- ===== src/Runner/Session/Handling.antt =====
-- runner/stats_handler.go, `HandleRPC`, as steps beside those of a run and of the calls of `Stop`: a handler
-- reads its flag with the lock, and sends to the reporter later, without it.
use ghz.Prelude.{
  ℕ, ◌+◌, length, ◌≡◌, Bool, true, false, List, [], ◌∷◌, ◌++◌, Option, none, some, get_elem?,
  if◌then◌else◌,
}
use ghz.Prelude.Int.{ℤ}
use ghz.Prelude.Text.{Str}
use ghz.Runner.Reporter.{CallResult}
use ghz.Runner.Session as Session
use ghz.Runner.Session.{
  StatsHandler, Phase, fresh, opening, failing, working, worked, reported, cleared, over,
}

-- What `HandleRPC` is told: the end of a call, with its two times and its error, or something else.
pub data RpcStats (E : Type 0) : Type 0 where
  end_stats : (begin_time end_time : ℤ) → Option E → RpcStats E
  other_stats : RpcStats E

-- What is sent to the reporter. `minus` is `time.Time.Sub`, `status_from` the text of the code that
-- `status.FromError` gives (empty, if it gives none), `text` is `Error()`.
unfoldable pub call_result :
    {E : Type 0} → (ℤ → ℤ → ℤ) → (Option E → Str) → (E → Str) → ℤ → ℤ → Option E → CallResult
call_result minus status_from text began ended error = record {
  error = elim error [ none ↦ none | some e ↦ some (text e) ];
  status = status_from error;
  duration = minus ended began;
  timestamp = ended;
}

-- `Finish` has closed the channel of the results.
abbrev pub results_closed : Phase → Bool
results_closed fresh = false
results_closed (opening k) = false
results_closed failing = false
results_closed working = false
results_closed worked = false
results_closed reported = true
results_closed cleared = true
results_closed over = true

-- A run with its handlers: the results that a handler has made and not sent, and those sent.
pub record Handling : Type 0 where
  pub session : Session.Session
  pub in_flight : List CallResult
  pub results : List CallResult
  pub crashed : Bool

abbrev pub begin : Handling
begin = record { session = Session.begin; in_flight = []; results = []; crashed = false }

-- The number of results made, sent or not.
abbrev pub made : Handling → ℕ
made s = length s.in_flight + length s.results

module _ {E : Type 0} (minus : ℤ → ℤ → ℤ) (status_from : Option E → Str) (text : E → Str) where
  -- The handler's result, if it goes on to send one.
  unfoldable pub handle_rpc : StatsHandler → RpcStats E → Option CallResult
  unfolding call_result
  handle_rpc c other_stats = none
  handle_rpc c (end_stats began ended error) =
      if c.ignore then none else some (call_result minus status_from text began ended error)

  module _ (n_conns : ℕ) (zstop : Str) where
    pub data Step (s : Handling) : Handling → Type 0 where
      session_step :
          {t : Session.Session}
          → Session.Step n_conns zstop s.session t
          → Step s (record s { session = t })
      -- The flag is read; nothing else happens where nothing is to be sent.
      read_flag :
          (i : ℕ) {c : StatsHandler} (rs : RpcStats E) {r : CallResult}
          → get_elem? s.session.handlers i ≡ some c
          → handle_rpc c rs ≡ some r
          → Step s (record s { in_flight = r ∷ s.in_flight })
      send_result :
          (before after : List CallResult) (r : CallResult)
          → s.in_flight ≡ before ++ r ∷ after
          → results_closed s.session.phase ≡ false
          → Step s (record s { in_flight = before ++ after; results = s.results ++ r ∷ [] })
      -- A send on the closed channel panics.
      send_closed :
          {r : CallResult} {rs : List CallResult}
          → s.in_flight ≡ r ∷ rs
          → results_closed s.session.phase ≡ true
          → Step s (record s { crashed = true })

    pub data Reach (s : Handling) : Handling → Type 0 where
      start : Reach s s
      later : {t u : Handling} → Reach s t → Step t u → Reach s u
