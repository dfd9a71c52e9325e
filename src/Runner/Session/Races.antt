-- ===== src/Runner/Session/Races.antt =====
-- runner/requester.go: interleavings of a run with `Stop` in which the end of the run goes wrong.
use ghz.Prelude.{ℕ, suc, zero, ◌≡◌, refl, ap, ◌∙◌, true, false, [], ◌∷◌, some}
use ghz.Prelude.Text.{Str}
use ghz.Runner.Session.Safety.{is_over, Reach-IsKept}
use ghz.Runner.Reason.{reason_normal_end}
use ghz.Runner.Session.{
  opening, Session, Step, open_conns, dial, opened, take_stop, finish, signal, signal_closed, Reach,
  start, later,
}

abbrev IsOpening : Session → Type 0
IsOpening s =
    (s.phase ≡ opening 0)
    × (s.stop_ch ≡ false)
    × (s.stop_closed ≡ false)
    × (s.signalled ≡ [])
    × (s.stop_reason ≡ reason_normal_end)

module _ (n : ℕ) (zstop : Str) where
  dials :
      (k : ℕ) {s : Session}
      → Reach n zstop s
      → s.phase ≡ opening k
      → s.stop_ch ≡ false
      → s.stop_closed ≡ false
      → s.signalled ≡ []
      → s.stop_reason ≡ reason_normal_end
      → (t : Session) × Reach n zstop t × IsOpening t
  dials zero {s} r p q c l m = (s, r, (p, q, c, l, m))
  dials (suc k) {s} r p q c l m = dials k (later r (dial p q)) refl q c l m

  opens : (t : Session) × Reach n zstop t × IsOpening t
  opens = dials n (later start (open_conns refl)) refl refl refl refl refl

  -- A call of `Stop` behind the end of `Run` sends on the closed `stopCh`, which panics.
  pub Reach-crash :
      {s : Session}
      → Reach n zstop s
      → is_over s.phase ≡ true
      → (t : Session) × Step n zstop s t × (t.crashed ≡ true)
  Reach-crash {s} r e = (_, signal_closed ((Reach-IsKept n zstop r).closed ∙ e), refl)

  -- Whatever the number of connections, there is an interleaving in which a call of `Stop` ends the run
  -- and the report's end reason is still "normal": `Finish` reads the reason before `Stop` has set it.
  pub Reach-misreported :
      (reason : Str)
      → (s : Session) × Reach n zstop s
        × (s.taken ≡ true)
        × (s.end_reason ≡ some reason_normal_end)
        × (s.signalled ≡ reason ∷ [])
  Reach-misreported reason =
      let (t, r, (p, q, c, l, m)) = opens in
      (
        _,
        later (later (later (later r (signal reason c q)) (opened p)) (take_stop refl refl))
            (finish refl),
        refl,
        ap some m,
        ap (λ xs. reason ∷ xs) l,
      )
