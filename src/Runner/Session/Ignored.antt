-- ===== src/Runner/Session/Ignored.antt =====
-- runner/requester.go, `Stop` with `zstop` "ignore", and runner/stats_handler.go: behind it nothing is counted.
use ghz.Prelude.{
  ℕ, suc, zero, ◌+◌, ◌≡◌, ◌≢◌, refl, sym, ◌∙◌, ap, subst, inl, inr, Bool, true, false, List, [],
  ◌∷◌, Option, none, some, arith, Bool-cases, length, length-append, map, get_elem?,
}
use mathlib.Core.Option.{none-ne-some}
use ghz.Prelude.Int.{ℤ}
use ghz.Prelude.Text.{Str}
use ghz.Runner.Session.Handling as Handling
use ghz.Runner.Session.Handling.{RpcStats, end_stats, other_stats, handle_rpc}
use ghz.Runner.Session.{
  StatsHandler, set_ignore, Phase, fresh, opening, failing, working, worked, reported, cleared,
  over, Session, begin, ignores, closes_conns, Step, open_conns, stop_opening, dial, dial_fails,
  opened, pacer_stops, take_stop, finish, close_behind_report, close_behind_error, return_run,
  signal, signal_closed, record_reason, handle_ignore, end_stop, Reach, start, later,
}

-- Nothing of the run, but `openClientConns`, has happened.
abbrev is_early : Phase → Bool
is_early fresh = true
is_early (opening k) = true
is_early failing = false
is_early working = false
is_early worked = false
is_early reported = false
is_early cleared = false
is_early over = false

abbrev AllIgnore : List StatsHandler → Type 0
AllIgnore [] = Unit {0}
AllIgnore (c ∷ cs) = (c.ignore ≡ true) × AllIgnore cs

ignore-AllIgnore : (cs : List StatsHandler) → AllIgnore (map (set_ignore true) cs)
ignore-AllIgnore [] = tt
ignore-AllIgnore (c ∷ cs) = (refl, ignore-AllIgnore cs)

-- The calls of `Stop` that have sent their signal and not returned.
abbrev stopping : Session → ℕ
stopping s = length s.signalled + s.recorded + s.closing

-- Before the workers run, the signal of a `Stop` is still there; one that has got so far has made all
-- handlers ignore what comes.
record IsQuiet (s : Session) : Type 0 where
  held : is_early s.phase ≡ true → s.stop_ch ≡ false → (stopping s ≡ 0) × (s.settled ≡ false)
  quiet : s.closing ≢ 0 → AllIgnore s.handlers
  settled : s.settled ≡ true → AllIgnore s.handlers

module _ (n : ℕ) (zstop : Str) (by_ignore : ignores zstop ≡ true) where
  begin-IsQuiet : IsQuiet begin
  begin-IsQuiet = record { held = λ h k. (refl, refl); quiet = λ h. tt; settled = λ h. tt }

  ended :
      {s : Session} {k : ℕ}
      → IsQuiet s
      → s.closing ≡ suc k
      → IsQuiet (record s { closing = k; settled = true })
  ended v h = record {
    held = λ e c. absurd (omega (arith, h, (v.held e c).0));
    quiet = λ e. v.quiet (omega (arith, h));
    settled = λ e. v.quiet (omega (arith, h));
  }

  Step-IsQuiet : {s t : Session} → IsQuiet s → Step n zstop s t → IsQuiet t
  Step-IsQuiet v (open_conns h) = grind arith
  Step-IsQuiet v (stop_opening h c) = grind arith
  Step-IsQuiet {s} v (dial h c) = grind arith
  Step-IsQuiet {s} v (dial_fails h c) = grind arith
  Step-IsQuiet v (opened h) = grind arith
  Step-IsQuiet v (pacer_stops h) = grind arith
  Step-IsQuiet v (take_stop h c) = grind arith
  Step-IsQuiet v (finish h) = grind arith
  Step-IsQuiet v (close_behind_report h) = grind arith
  Step-IsQuiet v (close_behind_error h) = grind arith
  Step-IsQuiet v (return_run h) = grind arith
  Step-IsQuiet v (signal reason h c) = grind arith
  Step-IsQuiet v (signal_closed h) = grind arith
  Step-IsQuiet v (record_reason b a r h l) =
      grind (arith, ap length h, length-append b (r ∷ a), length-append b a)
  Step-IsQuiet {s} v (handle_ignore {k} h) = rw by_ignore (record {
    held = λ e c. absurd (omega (arith, h, (v.held e c).0));
    quiet = λ e. ignore-AllIgnore s.handlers;
    settled = λ e. ignore-AllIgnore s.handlers;
  })
  Step-IsQuiet {s} v (end_stop {k} h l) = elim (Bool-cases (closes_conns zstop)) [
    | inl e ↦
        let w : IsQuiet (record s { closing = k; settled = true }) = ended v h in
        rw e (record { held = w.held; quiet = w.quiet; settled = w.settled })
    | inr o ↦
        let w : IsQuiet (record s { closing = k; settled = true }) = ended v h in
        rw o (record { held = w.held; quiet = w.quiet; settled = w.settled })
  ]

  Reach-IsQuiet : {s : Session} → Reach n zstop s → IsQuiet s
  Reach-IsQuiet start = begin-IsQuiet
  Reach-IsQuiet (later r st) = Step-IsQuiet (Reach-IsQuiet r) st

  Step-settled : {s t : Session} → s.settled ≡ true → Step n zstop s t → t.settled ≡ true
  Step-settled v (open_conns h) = v
  Step-settled v (stop_opening h c) = v
  Step-settled v (dial h c) = v
  Step-settled v (dial_fails h c) = v
  Step-settled v (opened h) = v
  Step-settled v (pacer_stops h) = v
  Step-settled v (take_stop h c) = v
  Step-settled v (finish h) = v
  Step-settled v (close_behind_report h) = v
  Step-settled v (close_behind_error h) = v
  Step-settled v (return_run h) = v
  Step-settled v (signal reason h c) = v
  Step-settled v (signal_closed h) = v
  Step-settled v (record_reason b a r h l) = v
  Step-settled v (handle_ignore h) = rw by_ignore v
  Step-settled v (end_stop h l) = refl

module _ {E : Type 0} (minus : ℤ → ℤ → ℤ) (status_from : Option E → Str) (text : E → Str) where
  silent :
      (rs : RpcStats E) (c : StatsHandler)
      → c.ignore ≡ true
      → handle_rpc minus status_from text c rs ≡ none
  unfolding handle_rpc
  silent other_stats c h = refl
  silent (end_stats a b er) c h = rw (handle_rpc, h)

  ignored :
      (rs : RpcStats E) (cs : List StatsHandler) (i : ℕ) {c : StatsHandler}
      → AllIgnore cs
      → get_elem? cs i ≡ some c
      → handle_rpc minus status_from text c rs ≡ none
  ignored rs [] i h e = cc
  ignored rs (c ∷ cs) zero {c = d} h e =
      let same : c ≡ d = cc in silent rs d (subst (λ x. x.ignore ≡ true) same h.0)
  ignored rs (c ∷ cs) (suc i) h e = ignored rs cs i h.1 e

  module _ (n : ℕ) (zstop : Str) (by_ignore : ignores zstop ≡ true) where
    -- What a run is part of goes by the run's own steps.
    session-Reach :
        {s t : Handling.Handling}
        → Reach n zstop s.session
        → Handling.Reach minus status_from text n zstop s t
        → Reach n zstop t.session
    session-Reach h Handling.start = h
    session-Reach h (Handling.later r (Handling.session_step st)) = later (session-Reach h r) st
    session-Reach h (Handling.later r (Handling.read_flag i rs e k)) = session-Reach h r
    session-Reach h (Handling.later r (Handling.send_result b a x e c)) = session-Reach h r
    session-Reach h (Handling.later r (Handling.send_closed e c)) = session-Reach h r

    still_settled :
        {s t : Handling.Handling}
        → s.session.settled ≡ true
        → Handling.Reach minus status_from text n zstop s t
        → t.session.settled ≡ true
    still_settled h Handling.start = h
    still_settled h (Handling.later r (Handling.session_step st)) =
        Step-settled n zstop by_ignore (still_settled h r) st
    still_settled h (Handling.later r (Handling.read_flag i rs e k)) = still_settled h r
    still_settled h (Handling.later r (Handling.send_result b a x e c)) = still_settled h r
    still_settled h (Handling.later r (Handling.send_closed e c)) = still_settled h r

    made_later :
        {s t : Handling.Handling}
        → Reach n zstop s.session
        → s.session.settled ≡ true
        → Handling.Reach minus status_from text n zstop s t
        → Handling.made t ≡ Handling.made s
    made_later h k Handling.start = refl
    made_later h k (Handling.later r (Handling.session_step st)) = made_later h k r
    made_later h k (Handling.later {t = w} r (Handling.read_flag i rs {r = x} e m)) =
        let quiet =
          ignored rs w.session.handlers i
            ((Reach-IsQuiet n zstop by_ignore (session-Reach h r)).settled (still_settled k r)) e in
        absurd (none-ne-some x (sym quiet ∙ m))
    made_later h k (Handling.later {t = w} r (Handling.send_result b a x e c)) = omega (
      arith,
      made_later h k r,
      ap length e,
      length-append b (x ∷ a),
      length-append b a,
      length-append w.results (x ∷ []),
    )
    made_later h k (Handling.later r (Handling.send_closed e c)) = made_later h k r

    -- With `zstop` "ignore", once a call of `Stop` has returned, no handler of the run makes a result for the
    -- reporter any more, however the calls of `Stop` and the handlers interleave with the run: the results
    -- that are sent later were made before, by handlers that had read their flag.
    pub Reach-ignored :
        {s t : Handling.Handling}
        → Handling.Reach minus status_from text n zstop Handling.begin s
        → s.session.settled ≡ true
        → Handling.Reach minus status_from text n zstop s t
        → Handling.made t ≡ Handling.made s
    Reach-ignored r h r' = made_later (session-Reach start r) h r'
