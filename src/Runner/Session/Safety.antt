-- ===== src/Runner/Session/Safety.antt =====
-- runner/requester.go: a run closes_conns each connection that it has opened, once, whatever stops it, and what a
-- handler reports behind a `Stop`.
use ghz.Prelude.{
  ℕ, ◌+◌, ◌≤◌, ◌≡◌, refl, sym, ap, ◌∙◌, inl, inr, Bool, true, false, [], ◌∷◌, ◌++◌, arith,
  Bool-cases, length, length-append,
}
use mathlib.Core.List.{append_assoc, append-nil}
use ghz.Prelude.Text.{Str}
use ghz.Runner.Session.{
  Phase, fresh, opening, failing, working, worked, reported, cleared, over, Session, begin,
  close_client_conns, ignores, closes_conns, Step, open_conns, stop_opening, dial, dial_fails,
  opened, pacer_stops, take_stop, finish, close_behind_report, close_behind_error, return_run,
  signal, signal_closed, record_reason, handle_ignore, end_stop, Reach, start, later,
}

-- The connections still to be dialled.
abbrev left : ℕ → Phase → ℕ
left n fresh = n
left n (opening k) = k
left n failing = 0
left n working = 0
left n worked = 0
left n reported = 0
left n cleared = 0
left n over = 0

abbrev pub is_over : Phase → Bool
is_over over = true
is_over fresh = false
is_over (opening k) = false
is_over failing = false
is_over working = false
is_over worked = false
is_over reported = false
is_over cleared = false

abbrev is_clear : Phase → Bool
is_clear cleared = true
is_clear over = true
is_clear fresh = false
is_clear (opening k) = false
is_clear failing = false
is_clear working = false
is_clear worked = false
is_clear reported = false

over-is_clear : (p : Phase) → is_over p ≡ true → is_clear p ≡ true
over-is_clear over h = refl
over-is_clear cleared h = refl
over-is_clear fresh h = cc
over-is_clear (opening k) h = cc
over-is_clear failing h = cc
over-is_clear working h = cc
over-is_clear worked h = cc
over-is_clear reported h = cc

-- Each opened connection is closed or held, and nothing is held in the end.
pub record IsKept (n : ℕ) (s : Session) : Type 0 where
  kept : s.shut ++ s.conns ≡ s.dialled
  ended : is_clear s.phase ≡ true → s.conns ≡ []
  bounded : length s.dialled + left n s.phase ≤ n
  pub closed : s.stop_closed ≡ is_over s.phase

module _ (n : ℕ) (zstop : Str) where
  begin-IsKept : IsKept n begin
  begin-IsKept = record { kept = refl; ended = λ h. refl; bounded = omega arith; closed = refl }

  closes_lem :
      {s : Session}
      → IsKept n s
      → is_over s.phase ≡ false
      → IsKept n (record (close_client_conns s) { phase = cleared })
  closes_lem {s} v o = record {
    kept = append-nil (s.shut ++ s.conns) ∙ v.kept;
    ended = λ h. refl;
    bounded = omega (arith, v.bounded);
    closed = v.closed ∙ o;
  }

  add_lem :
      (s : Session) (k : ℕ)
      → s.shut ++ s.conns ≡ s.dialled
      → s.shut ++ (s.conns ++ k ∷ []) ≡ s.dialled ++ k ∷ []
  add_lem s k h = sym (append_assoc s.shut s.conns (k ∷ [])) ∙ ap (λ xs. xs ++ k ∷ []) h

  Step-IsKept : {s t : Session} → IsKept n s → Step n zstop s t → IsKept n t
  Step-IsKept v (open_conns h) = grind arith
  Step-IsKept v (stop_opening h c) = grind arith
  Step-IsKept {s} v (dial h c) = record {
    kept = add_lem s (length s.dialled) v.kept;
    ended = λ e. absurd (cc);
    bounded = grind (arith, v.bounded, length-append s.dialled (length s.dialled ∷ []));
    closed = grind (arith, v.closed);
  }
  Step-IsKept {s} v (dial_fails h c) = grind arith
  Step-IsKept v (opened h) = grind arith
  Step-IsKept v (pacer_stops h) = grind arith
  Step-IsKept v (take_stop h c) = grind arith
  Step-IsKept v (finish h) = grind arith
  Step-IsKept {s} v (close_behind_report h) = closes_lem v (ap is_over h)
  Step-IsKept {s} v (close_behind_error h) = closes_lem v (ap is_over h)
  Step-IsKept v (return_run h) = grind arith
  Step-IsKept v (signal reason h c) = grind arith
  Step-IsKept v (signal_closed h) = grind arith
  Step-IsKept v (record_reason b a r h l) = grind arith
  Step-IsKept {s} v (handle_ignore h) = elim (Bool-cases (ignores zstop)) [
    | inl e ↦
        rw e (record { kept = v.kept; ended = v.ended; bounded = v.bounded; closed = v.closed })
    | inr o ↦
        rw o (record { kept = v.kept; ended = v.ended; bounded = v.bounded; closed = v.closed })
  ]
  Step-IsKept {s} v (end_stop h l) = elim (Bool-cases (closes_conns zstop)) [
    | inl e ↦ rw e (record {
      kept = append-nil (s.shut ++ s.conns) ∙ v.kept;
      ended = λ h. refl;
      bounded = v.bounded;
      closed = v.closed;
    })
    | inr o ↦
        rw o (record { kept = v.kept; ended = v.ended; bounded = v.bounded; closed = v.closed })
  ]

  pub Reach-IsKept : {s : Session} → Reach n zstop s → IsKept n s
  Reach-IsKept start = begin-IsKept
  Reach-IsKept (later r st) = Step-IsKept (Reach-IsKept r) st

  -- Whatever stops a run, and however the calls of `Stop` interleave with it: once it has returned, the
  -- connections closed are exactly those opened, each closed once and in order, and they are `nConns` at most.
  pub Reach-shut :
      {s : Session}
      → Reach n zstop s
      → is_over s.phase ≡ true
      → (s.shut ≡ s.dialled) × (length s.dialled ≤ n)
  Reach-shut {s} r e =
      let v : IsKept n s = Reach-IsKept r in
      let none_left : s.shut ++ s.conns ≡ s.shut =
        ap (λ xs. s.shut ++ xs) (v.ended (over-is_clear s.phase e)) ∙ append-nil s.shut in
      (sym none_left ∙ v.kept, omega (arith, v.bounded))
