-- ===== src/Examples/Handlers.antt =====
-- runner/stats_handler.go: a handler that has read its flag before a `Stop`, and reports behind it.
use ghz.Prelude.{ℕ, ◌≡◌, refl, true, [], ◌∷◌, none, some, Option}
use ghz.Prelude.Int.{pos, ◌-ℤ◌}
use ghz.Prelude.Text.{Str, codes, str_eq}
use ghz.Runner.Reporter.{CallResult}
use ghz.Runner.Session.{
  StatsHandler, working, open_conns, dial, opened, signal, record_reason, handle_ignore, end_stop,
}
use ghz.Runner.Session.Handling.{
  Handling, begin, made, call_result, handle_rpc, end_stats, session_step, read_flag, send_result,
  Reach, start, later,
}
use ghz.Runner.Session.Ignored.{Reach-ignored}

abbrev ignore : Str
ignore = codes "ignore"

abbrev code : Option ℕ → Str
code none = codes "OK"
code (some e) = codes "Canceled"

abbrev text : ℕ → Str
text e = codes "cut"

-- A call from 3 to 8, without an error.
abbrev result : CallResult
result = record { error = none; status = codes "OK"; duration = pos 5; timestamp = pos 8 }

abbrev handler : ℕ → StatsHandler
handler i = record { id = i; ignore = true }

-- One connection; the `Stop` has returned while a result is in flight.
abbrev stopped : Handling
stopped = record begin {
  session = record (begin.session) {
    phase = working;
    stubs = 0 ∷ [];
    handlers = handler 0 ∷ [];
    stop_ch = true;
    stop_reason = codes "cancel";
    settled = true;
    dialled = 0 ∷ [];
    shut = 0 ∷ [];
  };
  in_flight = result ∷ [];
}

abbrev reported_late : Handling
reported_late = record stopped { in_flight = []; results = result ∷ [] }

stopped-Reach : Reach ◌-ℤ◌ code text 1 ignore begin stopped
unfolding str_eq handle_rpc call_result
stopped-Reach =
    let flagged =
      later
        (later
          (later
            (later
              (later (later start (session_step (open_conns refl))) (session_step (dial refl refl)))
              (session_step (opened refl)))
            (read_flag 0 (end_stats (pos 3) (pos 8) none) {r = result} refl refl))
          (session_step (signal (codes "cancel") refl refl)))
        (session_step (record_reason [] [] (codes "cancel") refl refl)) in
    later (later flagged (session_step (handle_ignore refl))) (session_step (end_stop refl refl))

late-Reach : Reach ◌-ℤ◌ code text 1 ignore stopped reported_late
late-Reach = later start (send_result [] [] result refl refl)

Reach-ignored_example : made reported_late ≡ made stopped
unfolding str_eq
Reach-ignored_example = Reach-ignored ◌-ℤ◌ code text 1 ignore refl stopped-Reach refl late-Reach
