-- ===== src/Examples/Sessions.antt =====
-- runner/requester.go, runner/stats_handler.go, runner/reason.go and runner/calldata.go: a run of two
-- connections that is stopped, and draws.
use ghz.Prelude.{ℕ, ◌%◌, ◌≡◌, ◌≤◌, ◌<◌, refl, true, false, Bool, [], ◌∷◌, some, length}
use native.Mathlib.Nat.{mod-lt}
use ghz.Prelude.Text.{Str, codes, str_eq}
use ghz.Runner.Session.{
  StatsHandler, working, over, Session, begin, open_conns, dial, opened, take_stop, finish,
  close_behind_report, return_run, signal, record_reason, handle_ignore, end_stop, Reach, start,
  later,
}
use ghz.Runner.Session.Safety.{Reach-shut}
use ghz.Runner.Session.Races.{Reach-misreported}
use ghz.Runner.Reason.{reason_normal_end}

abbrev ignore : Str
ignore = codes "ignore"

abbrev handler : ℕ → Bool → StatsHandler
handler i b = record { id = i; ignore = b }

-- Two connections, and a `Stop` that has returned before the run has taken its signal.
abbrev stopped : Session
stopped = record begin {
  phase = working;
  conns = [];
  stubs = 0 ∷ 1 ∷ [];
  handlers = handler 0 true ∷ handler 1 true ∷ [];
  stop_ch = true;
  stop_reason = codes "cancel";
  settled = true;
  dialled = 0 ∷ 1 ∷ [];
  shut = 0 ∷ 1 ∷ [];
}

stopped-Reach : Reach 2 ignore stopped
unfolding str_eq
stopped-Reach =
    later
      (later
        (later
          (later
            (later (later (later (later start (open_conns refl)) (dial refl refl)) (dial refl refl))
              (opened refl))
            (signal (codes "cancel") refl refl))
          (record_reason [] [] (codes "cancel") refl refl))
        (handle_ignore refl))
      (end_stop refl refl)

abbrev ended : Session
ended = record stopped {
  phase = over;
  stop_ch = false;
  taken = true;
  end_reason = some (codes "cancel");
  stop_closed = true;
}

ended-Reach : Reach 2 ignore ended
ended-Reach =
    later
      (later (later (later stopped-Reach (take_stop refl refl)) (finish refl))
        (close_behind_report refl))
      (return_run refl)

Reach-shut_example : (ended.shut ≡ ended.dialled) × (length ended.dialled ≤ 2)
Reach-shut_example = Reach-shut 2 ignore ended-Reach refl

Reach-misreported_example :
    (s : Session) × Reach 2 ignore s
    × (s.taken ≡ true)
    × (s.end_reason ≡ some reason_normal_end)
    × (s.signalled ≡ codes "timeout" ∷ [])
Reach-misreported_example = Reach-misreported 2 ignore (codes "timeout")

-- The draws 0, 1, 2, …, each modulo its bound.
abbrev in_order : ℕ → ℕ → ℕ
in_order i n = i % n

in_order-below : (i n : ℕ) → 0 < n → in_order i n < n
in_order-below i n h = mod-lt i h
