-- ===== src/Load/Pacer/Step/Search.antt =====
-- load/pacer.go, `StepPacer`: the search for the time at which the rate passes `Stop`, and the linear
-- pacer as a step pacer.
use ghz.Prelude.{
  ℕ, zero, suc, ◌^◌, ◌+◌, ◌*◌, ◌<◌, ◌≡◌, refl, ap, Bool, true, false, some, arith, Option-cases,
  inl, inr,
}
use mathlib.Core.Option
use mathlib.Core.Path.{fun_ext, subst, sym}
use ghz.Prelude.Int.{ℤ, pos, wrap-pos}
use ghz.Prelude.Float.{Float64}
use ghz.Load.Pacer.Step.{
  StepPacer, LinearPacer, rate, step_hits, hits_at, with_base, pace_ready, timed, searched,
  search_from, passed, initialize, pace_step, pace_linear, wrapped,
}

-- The search with enough fuel gives the first multiple of the step duration at which the test holds.
search_lem :
    (test : ℤ → Bool) (d t k fuel : ℕ)
    → k < fuel
    → t + k * d < 2 ^ 63
    → test (pos (t + k * d)) ≡ true
    → ((j : ℕ) → j < k → test (pos (t + j * d)) ≡ false)
    → search_from fuel test (pos d) (pos t) ≡ some (pos (t + k * d))
unfolding search_from
search_lem test d t k zero h s hit miss = absurd (omega arith)
search_lem test d t zero (suc fuel) h s hit miss =
    let there : t + 0 * d ≡ t = omega arith in rw there (rw (rw there at hit))
search_lem test d t (suc k) (suc fuel) h s hit miss =
    let first : t + 0 * d ≡ t = omega arith in
    let round : (n : ℕ) → t + suc n * d ≡ t + d + n * d = λ n. omega arith in
    rw (rw first at (miss 0 (omega arith))) (
      rw (wrap-pos t d (omega (arith, round k)), round k)
        (search_lem test d (t + d) k fuel (omega arith) (omega (arith, round k))
          (rw (round k) at hit) (λ j lt. rw (round j) at (miss (suc j) (omega arith)))))

-- `Max` is read by `Pace` alone: no other function of the pacer depends on it.
module _ {F : Type 0} (f : Float64 F) (m : ℕ) where
  abbrev capped : StepPacer → StepPacer
  capped p = record p { max = m }

  rate-capped : (p : StepPacer) (t : ℤ) → rate f (capped p) t ≡ rate f p t
  unfolding rate
  rate-capped p t = refl

  step_hits-capped :
      (p : StepPacer) (n : ℕ) (i : ℤ) (s : F) → step_hits f (capped p) n i s ≡ step_hits f p n i s
  unfolding step_hits
  step_hits-capped p zero i s = refl
  step_hits-capped p (suc n) i s = rw rate-capped (step_hits-capped p n _ _)

  hits_at-capped : (p : StepPacer) (t : ℤ) → hits_at f (capped p) t ≡ hits_at f p t
  unfolding hits_at
  hits_at-capped p t = rw (step_hits-capped, rate-capped)

  with_base-capped : (p : StepPacer) → with_base f (capped p) ≡ capped (with_base f p)
  unfolding with_base
  with_base-capped p = ground (arith, hits_at-capped p p.const_at)

  passed-capped : (p : StepPacer) → passed f (capped p) ≡ passed f p
  unfolding passed
  passed-capped p = fun_ext (λ t. rw rate-capped)

  searched-capped :
      (fuel : ℕ) (p : StepPacer)
      → searched f fuel (capped p) ≡ Option.map capped (searched f fuel p)
  unfolding searched
  searched-capped fuel p =
      elim (Option-cases (search_from fuel (passed f p) p.step_duration (pos 0))) [
        | inl e ↦ rw (searched, passed-capped p, e)
        | inr (t, e) ↦
            rw (searched, passed-capped p, e)
              (ap some (with_base-capped (record p { const_at = t })))
      ]

  initialize-capped :
      (fuel : ℕ) (p : StepPacer)
      → initialize f fuel (capped p) ≡ Option.map capped (initialize f fuel p)
  unfolding initialize
  initialize-capped fuel p = ground (
    arith,
    with_base-capped (timed (record p { init = true })),
    with_base-capped (record p { init = true }),
    searched-capped fuel (record p { init = true }),
  )

  pace_ready-capped :
      (p : StepPacer) (elapsed : ℤ) (hits : ℕ)
      → pace_ready f (capped p) elapsed hits ≡ pace_ready f p elapsed hits
  unfolding pace_ready
  pace_ready-capped p elapsed hits = rw (hits_at-capped, rate-capped)

-- The step pacer that a linear one stands for.
abbrev pub one_second_steps : LinearPacer → StepPacer
one_second_steps p = record {
  start = p.start;
  step = p.slope;
  step_duration = pos 1_000_000_000;
  stop = p.stop;
  load_duration = p.load_duration;
  max = p.max;
  init = false;
  const_at = pos 0;
  base_hits = 0;
}

module _ {F : Type 0} (f : Float64 F) where
  -- The linear pacer answers as the step pacer with the same start, stop, `LoadDuration` and `Max`, the slope
  -- as its step, and steps of 1e9 nanoseconds, panics included.
  pub pace_linear-eq-pace_step :
      (fuel : ℕ) (p : LinearPacer) (elapsed : ℤ) (hits : ℕ)
      → pace_linear f fuel p elapsed hits ≡ pace_step f fuel (one_second_steps p) elapsed hits
  unfolding pace_linear pace_step
  pace_linear-eq-pace_step fuel p elapsed hits =
      elim (Option-cases (initialize f fuel (wrapped p))) [
        | inl e ↦ ground (arith, initialize-capped f p.max fuel (wrapped p))
        | inr (q, e) ↦ ground (
          arith,
          initialize-capped f p.max fuel (wrapped p),
          pace_ready-capped f p.max q elapsed hits,
        )
      ]

  passed-init : (p : StepPacer) → passed f (record p { init = true }) ≡ passed f p
  unfolding passed rate
  passed-init p = refl

  searched_lem :
      (p : StepPacer) (fuel : ℕ) (t : ℤ)
      → search_from fuel (passed f p) p.step_duration (pos 0) ≡ some t
      → searched f fuel p ≡ some (with_base f (record p { const_at = t }))
  unfolding searched
  searched_lem p fuel t h = rw (searched, h)

  with_base-const_at : (p : StepPacer) → (with_base f p).const_at ≡ p.const_at
  unfolding with_base
  with_base-const_at p = ground arith

  -- A new pacer with a `Stop` and no `LoadDuration`, whose rate has passed `Stop` after `k` steps and not
  -- before, at a time below 2 ^ 63: `initialize`, given more than `k` rounds, ends, and the constant part
  -- begins at the end of step `k`.
  pub initialize-const_at :
      (p : StepPacer) (d k fuel : ℕ)
      → p.init ≡ false
      → p.load_duration ≡ pos 0
      → 0 < p.stop.freq
      → p.const_at ≡ pos 0
      → p.step_duration ≡ pos d
      → k < fuel
      → k * d < 2 ^ 63
      → passed f p (pos (k * d)) ≡ true
      → ((j : ℕ) → j < k → passed f p (pos (j * d)) ≡ false)
      → (q : StepPacer) × (initialize f fuel p ≡ some q) × (q.const_at ≡ pos (k * d))
  unfolding initialize
  initialize-const_at p d k fuel new untimed aim zeroed steps enough small hit miss =
      let start : (n : ℕ) → 0 + n ≡ n = λ n. omega arith in
      let found : search_from fuel (passed f p) (pos d) (pos 0) ≡ some (pos (k * d)) =
        rw (start (k * d)) at (
          search_lem (passed f p) d 0 k fuel enough (omega arith) (rw (start (k * d)) hit)
            (λ j lt. rw (start (j * d)) (miss j lt))) in
      (
        with_base f (record p { init = true; const_at = pos (k * d) }),
        ground (
          arith,
          searched_lem (record p { init = true }) fuel (pos (k * d))
              (rw (passed-init p) (
                subst (λ s. search_from fuel (passed f p) s (pos 0) ≡ some (pos (k * d)))
                  (sym steps) found)),
        ),
        with_base-const_at (record p { init = true; const_at = pos (k * d) }),
      )
