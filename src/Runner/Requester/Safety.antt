-- ===== src/Runner/Requester/Safety.antt =====
-- runner/requester.go, `createPacer`: when the pacer of a valid configuration panics.
use ghz.Prelude.{
  ℕ, ◌+◌, ◌-◌, ◌%◌, ◌^◌, ◌≤◌, ◌<◌, ◌≡◌, ◌≢◌, ◌↔◌, refl, sym, subst, ap, ◌∙◌, inl, inr, true, false,
  ◌&&◌, Option, none, some, arith, ltb, leb, Bool-cases, Option-cases,
}
use mathlib.Core.Option.{none-ne-some, some-injective}
use ghz.Prelude.Int.{ℤ, pos, wrap_int64, ◌-ℤ◌, to_uint64}
use ghz.Prelude.Float.{Float64, nano}
use ghz.Load.Pacer.{Paced, panic, ConstantPacer, pace_constant}
use ghz.Load.Pacer.Constant.{pace_constant-ne-panic}
use ghz.Load.Pacer.Step.{
  StepPacer, panics, timed, with_base, searched, search_from, passed, initialize, pace_ready,
  pace_step, pace_linear,
}
use ghz.Runner.Config.{RunConfig, schedule_line, schedule_step}
use ghz.Runner.Options.New.{varies}
use ghz.Runner.Options.Valid.{IsValid}
use ghz.Runner.Requester.{Pacer, create_pacer, step_pacer, linear_pacer}
use ghz.Load.Pacer.Step.Search.{one_second_steps, pace_linear-eq-pace_step}
use ghz.Prelude.Text.{str_eq}

module _ {F : Type 0} (f : Float64 F) where
  -- No statement of `initialize` changes a `Stop` that is given.
  with_base-stop : (p : StepPacer) → (with_base f p).stop ≡ p.stop
  unfolding with_base
  with_base-stop p = ground arith

  searched-stop : (fuel : ℕ) (p q : StepPacer) → searched f fuel p ≡ some q → q.stop ≡ p.stop
  unfolding searched
  searched-stop fuel p q h =
      elim (Option-cases (search_from fuel (passed f p) p.step_duration (pos 0))) [
        | inl e ↦
            let nothing : searched f fuel p ≡ none = rw (searched, e) refl in
            absurd (none-ne-some q (sym nothing ∙ h))
        | inr (t, e) ↦
            let made : searched f fuel p ≡ some (with_base f (record p { const_at = t })) =
              rw (searched, e) refl in
            ap (λ (x : StepPacer). x.stop)
              (sym (some-injective (with_base f (record p { const_at = t })) q (sym made ∙ h)))
            ∙ with_base-stop (record p { const_at = t })
      ]

  initialize-stop :
      (fuel : ℕ) (p q : StepPacer)
      → p.stop.freq ≢ 0
      → initialize f fuel p ≡ some q
      → q.stop ≡ p.stop
  unfolding initialize
  initialize-stop fuel p q nz h = ground (
    arith,
    with_base-stop (timed (record p { init = true })),
    with_base-stop (record p { init = true }),
    searched-stop fuel (record p { init = true }) q,
    h,
  )

  pace_ready-ne-panic :
      (q : StepPacer) (elapsed : ℤ) (hits : ℕ)
      → 0 < q.stop.freq
      → q.stop.freq ≤ nano
      → pace_ready f q elapsed hits ≢ panic
  unfolding pace_ready
  pace_ready-ne-panic q elapsed hits h k = ground (
    arith,
    pace_constant-ne-panic q.stop (wrap_int64 (elapsed -ℤ q.const_at))
        ((hits + 2 ^ 64 - q.base_hits) % 2 ^ 64) h k,
  )

  pace_step-panic :
      (fuel : ℕ) (p : StepPacer) (elapsed : ℤ) (hits : ℕ)
      → (ltb 0 p.max && leb p.max hits) ≡ false
      → 0 < p.stop.freq
      → p.stop.freq ≤ nano
      → (pace_step f fuel p elapsed hits ≡ some panic) ↔ (panics p ≡ true)
  unfolding pace_step
  pace_step-panic fuel p elapsed hits below h k = (
    λ e. elim (Option-cases (initialize f fuel p)) [
      | inl n ↦ ground (arith, e, n, below)
      | inr (q, m) ↦
          let safe : pace_ready f q elapsed hits ≢ panic =
            let same : q.stop ≡ p.stop = initialize-stop fuel p q (omega (arith, h)) m in
            pace_ready-ne-panic q elapsed hits
              (subst (λ (x : ConstantPacer). 0 < x.freq) (sym same) h)
              (subst (λ (x : ConstantPacer). x.freq ≤ nano) (sym same) k) in
          ground (arith, e, m, below, safe)
    ],
    λ e. ground (arith, e, below),
  )

-- What `Pace` answers; a pacer of the caller's own is a parameter.
abbrev pub pace_of :
    {H F : Type 0} → Float64 F → (H → ℤ → ℕ → Paced) → Pacer H → ℕ → ℤ → ℕ → Option Paced
pace_of f own (Pacer.step p) fuel elapsed hits = pace_step f fuel p elapsed hits
pace_of f own (Pacer.linear p) fuel elapsed hits = pace_linear f fuel p elapsed hits
pace_of f own (Pacer.constant p) fuel elapsed hits = some (pace_constant p elapsed hits)
pace_of f own (Pacer.custom p) fuel elapsed hits = some (own p elapsed hits)

module _ {H F : Type 0} (f : Float64 F) (own : H → ℤ → ℕ → Paced) (c : RunConfig H F) where
  -- In a valid configuration with a step or line schedule, no pacer of the caller's own and an end rate from 1
  -- to 1e9, a call of `Pace` on the new pacer, before `Total` hits have been sent, panics exactly if the start
  -- rate is 0.
  pub create_pacer-panics :
      (fuel : ℕ) (elapsed : ℤ) (hits : ℕ)
      → IsValid c
      → c.pacer ≡ none
      → varies c.load_schedule ≡ true
      → 0 < c.load_end
      → c.load_end ≤ nano
      → (ltb 0 (to_uint64 c.n) && leb (to_uint64 c.n) hits) ≡ false
      → (pace_of f own (create_pacer c) fuel elapsed hits ≡ some panic) ↔ (c.load_start ≡ 0)
  unfolding create_pacer
  create_pacer-panics fuel elapsed hits v no_own h lo hi below =
      let steps = pace_step-panic f fuel (step_pacer c) elapsed hits below lo hi in
      let line =
        pace_step-panic f fuel (one_second_steps (linear_pacer c)) elapsed hits below lo hi in
      let same = pace_linear-eq-pace_step f fuel (linear_pacer c) elapsed hits in
      elim (Bool-cases (str_eq c.load_schedule schedule_line)) [
        | inl e ↦
            rw (create_pacer, no_own, e)
              (rw same (
                λ p. ground (arith, line.0 p, (v.load_varies h).1),
                λ z. line.1 (ground (arith, z)),
              ))
        | inr e ↦ elim (Bool-cases (str_eq c.load_schedule schedule_step)) [
          | inl k ↦
              rw (create_pacer, no_own, e, k)
                (
                  λ p. ground (arith, steps.0 p, (v.load_varies h).1, v.load_steps h),
                  λ z. steps.1 (ground (arith, z)),
                )
          | inr k ↦ absurd (ground (arith, h, e, k))
        ]
      ]
